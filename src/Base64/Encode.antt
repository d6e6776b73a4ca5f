-- ===== src/Base64/Encode.antt =====
-- RFC 4648's encoder, with no padding, and that the decoder of cdmi-stub/json_web_key.cpp undoes it.
use open_content_decryption.Base.{
  ℕ, ◌+◌, ◌-◌, ◌*◌, ◌/◌, ◌%◌, ◌<◌, ◌≡◌, refl, ap, ◌∙◌, false, [], ◌∷◌, ◌++◌, Bytes, IsByte, All,
  arith, ◌==◌, ltb, if◌then◌else◌,
}
use open_content_decryption.Base64.{base64_decode}
use open_content_decryption.Base64.Alphabet.{is_letter, value, letters, bytes_of, IsLetter}
use open_content_decryption.Base64.Reference.{base64_decode-bytes_of}

-- The letter of a six-bit value, from RFC 4648, table 1.
unfoldable pub letter : ℕ → ℕ
letter v =
    if ltb v 26
    then v + 65
    else if ltb v 52
    then v - 26 + 97
    else if ltb v 62
    then v - 52 + 48
    else if v == 62
    then 43
    else 47

unfoldable pub encode : Bytes → Bytes
encode [] = []
encode (a ∷ []) = letter (a / 4) ∷ letter (a % 4 * 16) ∷ []
encode (a ∷ b ∷ []) = letter (a / 4) ∷ letter (a % 4 * 16 + b / 16) ∷ letter (b % 16 * 4) ∷ []
encode (a ∷ b ∷ c ∷ rest) =
    letter (a / 4)
    ∷ letter (a % 4 * 16 + b / 16)
    ∷ letter (b % 16 * 4 + c / 64)
    ∷ letter (c % 64)
    ∷ encode rest

letter_lem : (v : ℕ) → v < 64 → IsLetter (letter v) × (value (letter v) ≡ v)
unfolding letter
letter_lem v h = ground arith

pub encode-IsLetter : (bs : Bytes) → All IsByte bs → All IsLetter (encode bs)
unfolding encode
encode-IsLetter [] h = tt
encode-IsLetter (a ∷ []) (ha, _) =
    ((letter_lem _ (omega arith)).0, ((letter_lem _ (omega arith)).0, tt))
encode-IsLetter (a ∷ b ∷ []) (ha, (hb, _)) = (
  (letter_lem _ (omega arith)).0,
  ((letter_lem _ (omega arith)).0, ((letter_lem _ (omega arith)).0, tt)),
)
encode-IsLetter (a ∷ b ∷ c ∷ r) (ha, (hb, (hc, hr))) = (
  (letter_lem _ (omega arith)).0,
  (
    (letter_lem _ (omega arith)).0,
    ((letter_lem _ (omega arith)).0, ((letter_lem _ (omega arith)).0, encode-IsLetter r hr)),
  ),
)

-- What stops the decoder at once: the end, an `=`, or a byte outside the alphabet.
abbrev pub Stops : Bytes → Type 0
Stops [] = Unit
Stops (c ∷ _) = is_letter c ≡ false

pub letters-append : (s rest : Bytes) → All IsLetter s → Stops rest → letters (s ++ rest) ≡ s
letters-append [] [] h stop = refl
letters-append [] (c ∷ r) h stop = rw stop
letters-append (c ∷ s) rest (hc, hs) stop = rw hc (ap (◌∷◌ c) (letters-append s rest hs stop))

bytes_of-encode : (bs : Bytes) → All IsByte bs → bytes_of (encode bs) ≡ bs
unfolding encode
bytes_of-encode [] h = refl
bytes_of-encode (a ∷ []) (ha, _) =
    rw ((letter_lem (a / 4) (omega arith)).1, (letter_lem (a % 4 * 16) (omega arith)).1)
      (ap (λ x. x ∷ []) (omega arith))
bytes_of-encode (a ∷ b ∷ []) (ha, (hb, _)) = ground (
  arith,
  (letter_lem (a / 4) (omega arith)).1,
  (letter_lem (a % 4 * 16 + b / 16) (omega arith)).1,
  (letter_lem (b % 16 * 4) (omega arith)).1,
)
bytes_of-encode (a ∷ b ∷ c ∷ r) (ha, (hb, (hc, hr))) = ground (
  arith,
  (letter_lem (a / 4) (omega arith)).1,
  (letter_lem (a % 4 * 16 + b / 16) (omega arith)).1,
  (letter_lem (b % 16 * 4 + c / 64) (omega arith)).1,
  (letter_lem (c % 64) (omega arith)).1,
  bytes_of-encode r hr,
)

-- The decoder undoes the encoder of RFC 4648, without padding, on every string of bytes, whatever
-- follows the letters, if that is nothing or starts with a byte that is no letter.
pub base64_decode-encode :
    (bs rest : Bytes) → All IsByte bs → Stops rest → base64_decode (encode bs ++ rest) ≡ bs
base64_decode-encode bs rest h stop =
    base64_decode-bytes_of (encode bs ++ rest)
    ∙ ap bytes_of (letters-append (encode bs) rest (encode-IsLetter bs h) stop)
    ∙ bytes_of-encode bs h
