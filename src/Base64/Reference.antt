-- ===== src/Base64/Reference.antt =====
-- That the decoder of cdmi-stub/json_web_key.cpp computes the bytes of the letters that it reads, over the
-- alphabet of RFC 4648 and numbers.
use open_content_decryption.Base.{
  ℕ, ◌*◌, ◌/◌, ◌%◌, ◌≤◌, ◌<◌, bit_and, ◌≡◌, refl, sym, ◌∙◌, true, not, ◌&&◌, ◌||◌, [], ◌∷◌, ◌++◌,
  append_assoc, append-nil, inl, inr, Bytes, IsByte, All, arith, ◌==◌, Bool-cases, all_below,
  all_below_sound, map, length,
}
use open_content_decryption.Base64.Alphabet.{
  is_letter, value, letters, bits_4, bytes_of, IsLetter, IsLetter-lt, value_lt,
}
use open_content_decryption.Base64.{
  is_base64, sextet, char_array_3, store, decode_loop, flush, base64_decode,
}

-- What the code takes for a letter, and for its value.
is_base64-is_letter : (c : ℕ) → (not (c == b'=') && is_base64 c) ≡ is_letter c
unfolding is_base64
is_base64-is_letter c = ground arith

sextet_table : all_below 256 (λ c. not (is_letter c) || sextet c == value c) ≡ true
unfolding all_below sextet
sextet_table = refl

sextet-value : (c : ℕ) → IsLetter c → sextet c ≡ value c
sextet-value c h = ground (
  arith,
  IsLetter-lt c h,
  all_below_sound 256 (λ c. not (is_letter c) || sextet c == value c) c sextet_table,
)

mask_table :
    all_below 64 (λ b.
      bit_and b 0x30 / 16 == b / 16
      && bit_and b 0xf == b % 16
      && bit_and b 0x3c / 4 == b / 4
      && bit_and b 0x3 == b % 4)
    ≡ true
unfolding all_below
mask_table = refl

pub masks :
    (b : ℕ)
    → b < 64
    → (bit_and b 0x30 / 16 ≡ b / 16)
      × (bit_and b 0xf ≡ b % 16)
      × (bit_and b 0x3c / 4 ≡ b / 4)
      × (bit_and b 0x3 ≡ b % 4)
masks b h = ground (
  arith,
  all_below_sound 64
      (λ b.
        bit_and b 0x30 / 16 == b / 16
        && bit_and b 0xf == b % 16
        && bit_and b 0x3c / 4 == b / 4
        && bit_and b 0x3 == b % 4)
      b mask_table h,
)

-- The three bytes of the code are the three bytes of the number.
pub char_array_3_lem :
    (a b c d : ℕ)
    → IsLetter a
    → IsLetter b
    → IsLetter c
    → IsLetter d
    → char_array_3 (map sextet (a ∷ b ∷ c ∷ d ∷ []))
      ≡ bits_4 a b c d / 65536 ∷ bits_4 a b c d / 256 % 256 ∷ bits_4 a b c d % 256 ∷ []
unfolding char_array_3
char_array_3_lem a b c d ha hb hc hd = ground (
  arith,
  value_lt a ha,
  sextet-value a ha,
  value_lt b hb,
  sextet-value b hb,
  value_lt c hc,
  sextet-value c hc,
  value_lt d hd,
  sextet-value d hd,
  masks (value b) (value_lt b hb),
  masks (value c) (value_lt c hc),
)

-- A shorter last group: the letters that the padding stands for reach no byte that is kept.
pub flush_3 :
    (a b c : ℕ) (ret : Bytes)
    → IsLetter a
    → IsLetter b
    → IsLetter c
    → flush (a ∷ b ∷ c ∷ [], ret) ≡ ret ++ bytes_of (a ∷ b ∷ c ∷ [])
unfolding flush char_array_3
flush_3 a b c ret ha hb hc = ground (
  arith,
  value_lt a ha,
  sextet-value a ha,
  value_lt b hb,
  sextet-value b hb,
  value_lt c hc,
  sextet-value c hc,
  masks (value b) (value_lt b hb),
  masks (value c) (value_lt c hc),
)

pub flush_2 :
    (a b : ℕ) (ret : Bytes)
    → IsLetter a
    → IsLetter b
    → flush (a ∷ b ∷ [], ret) ≡ ret ++ bytes_of (a ∷ b ∷ [])
unfolding flush char_array_3
flush_2 a b ret ha hb = ground (
  arith,
  value_lt a ha,
  value_lt b hb,
  sextet-value a ha,
  sextet-value b hb,
  masks (value b) (value_lt b hb),
)

-- Letters that wait in `char_array_4`, fewer than four of them.
abbrev Waits : Bytes → Type 0
Waits chars = All IsLetter chars × (length chars < 4)

flush-Waits : (chars ret : Bytes) → Waits chars → flush (chars, ret) ≡ ret ++ bytes_of chars
flush-Waits [] ret h = unfold flush in sym (append-nil ret)
flush-Waits (a ∷ []) ret h = unfold flush in refl
flush-Waits (a ∷ b ∷ []) ret h = flush_2 a b ret h.0.0 h.0.1.0
flush-Waits (a ∷ b ∷ c ∷ []) ret h = flush_3 a b c ret h.0.0 h.0.1.0 h.0.1.1.0
flush-Waits (a ∷ b ∷ c ∷ d ∷ r) ret h = absurd (omega arith)

store_4 :
    (a b c d : ℕ) (ret : Bytes)
    → All IsLetter (a ∷ b ∷ c ∷ d ∷ [])
    → store (a ∷ b ∷ c ∷ []) d ret
      ≡ ([], ret ++ bits_4 a b c d / 65536 ∷ bits_4 a b c d / 256 % 256 ∷ bits_4 a b c d % 256 ∷ [])
unfolding store
store_4 a b c d ret (ha, (hb, (hc, (hd, _)))) = rw (char_array_3_lem a b c d ha hb hc hd)

-- One more letter, given the claim for the letters behind it.
decode_loop-store :
    (c : ℕ) (cs chars ret : Bytes)
    → ((chars' ret' : Bytes)
        → Waits chars'
        → flush (decode_loop cs chars' ret') ≡ ret' ++ bytes_of (chars' ++ letters cs))
    → Waits chars
    → IsLetter c
    → flush (decode_loop cs (store chars c ret).0 (store chars c ret).1)
      ≡ ret ++ bytes_of (chars ++ c ∷ letters cs)
decode_loop-store c cs [] ret ih h e = unfold store in ih (c ∷ []) ret ((e, tt), omega arith)
decode_loop-store c cs (x ∷ []) ret ih h e =
    unfold store in ih (x ∷ c ∷ []) ret ((h.0.0, (e, tt)), omega arith)
decode_loop-store c cs (x ∷ y ∷ []) ret ih h e =
    unfold store in ih (x ∷ y ∷ c ∷ []) ret ((h.0.0, (h.0.1.0, (e, tt))), omega arith)
decode_loop-store c cs (x ∷ y ∷ z ∷ []) ret ih h e =
    rw (store_4 x y z c ret (h.0.0, (h.0.1.0, (h.0.1.1.0, (e, tt)))))
      (ih [] _ (tt, omega arith) ∙ append_assoc ret _ _)
decode_loop-store c cs (x ∷ y ∷ z ∷ w ∷ r) ret ih h e = absurd (omega arith)

-- The loop and the tail together give the bytes of the waiting letters and those that follow.
decode_loop_lem :
    (s chars ret : Bytes)
    → Waits chars
    → flush (decode_loop s chars ret) ≡ ret ++ bytes_of (chars ++ letters s)
unfolding decode_loop
decode_loop_lem [] chars ret h = rw append-nil (flush-Waits chars ret h)
decode_loop_lem (c ∷ cs) chars ret h = rw (is_base64-is_letter c) (elim (Bool-cases (is_letter c)) [
  | inr e ↦ rw (e, decode_loop) (rw append-nil (flush-Waits chars ret h))
  | inl e ↦ rw (e, decode_loop) (decode_loop-store c cs chars ret (decode_loop_lem cs) h e)
])

-- On every input the decoder reads the letters of RFC 4648's alphabet up to the first other byte
-- (an `=` among them), and gives the bytes that their groups stand for: three for four letters,
-- two for a last group of three, one for one of two, and none for a last letter alone. What
-- follows those letters is neither read nor refused.
pub base64_decode-bytes_of : (s : Bytes) → base64_decode s ≡ bytes_of (letters s)
unfolding base64_decode
base64_decode-bytes_of s = decode_loop_lem s [] [] (tt, omega arith)

-- Whatever is read, the result is a string of bytes, of three for four letters at most.
bytes_of-IsByte : (s : Bytes) → All IsLetter s → All IsByte (bytes_of s)
bytes_of-IsByte (a ∷ b ∷ c ∷ d ∷ r) (ha, (hb, (hc, (hd, hr)))) =
    let la = value_lt a ha in
    let lb = value_lt b hb in
    let lc = value_lt c hc in
    let ld = value_lt d hd in (omega arith, (omega arith, (omega arith, bytes_of-IsByte r hr)))
bytes_of-IsByte (a ∷ b ∷ c ∷ []) (ha, (hb, (hc, _))) =
    let la = value_lt a ha in
    let lb = value_lt b hb in let lc = value_lt c hc in (omega arith, (omega arith, tt))
bytes_of-IsByte (a ∷ b ∷ []) (ha, (hb, _)) =
    let la = value_lt a ha in let lb = value_lt b hb in (omega arith, tt)
bytes_of-IsByte (a ∷ []) h = tt
bytes_of-IsByte [] h = tt

letters-IsLetter : (s : Bytes) → All IsLetter (letters s)
letters-IsLetter [] = tt
letters-IsLetter (c ∷ cs) = elim (Bool-cases (is_letter c)) [
  | inl e ↦ rw (e, letters) (e, letters-IsLetter cs)
  | inr e ↦ rw (e, letters) tt
]

length-letters-le : (s : Bytes) → length (letters s) ≤ length s
length-letters-le [] = omega arith
length-letters-le (c ∷ cs) = ground (arith, length-letters-le cs)

length-bytes_of-le : (s : Bytes) → 4 * length (bytes_of s) ≤ 3 * length s
length-bytes_of-le (a ∷ b ∷ c ∷ d ∷ r) = omega (arith, length-bytes_of-le r)
length-bytes_of-le (a ∷ b ∷ c ∷ []) = omega arith
length-bytes_of-le (a ∷ b ∷ []) = omega arith
length-bytes_of-le (a ∷ []) = omega arith
length-bytes_of-le [] = omega arith

-- Whatever is decoded, the output is a string of bytes, with at most three bytes for four
-- characters of the input.
pub base64_decode_bounds :
    (s : Bytes) → All IsByte (base64_decode s) × (4 * length (base64_decode s) ≤ 3 * length s)
base64_decode_bounds s = rw (base64_decode-bytes_of s) (
  bytes_of-IsByte (letters s) (letters-IsLetter s),
  omega (arith, length-bytes_of-le (letters s), length-letters-le s),
)
