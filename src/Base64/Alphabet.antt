-- ===== src/Base64/Alphabet.antt =====
-- RFC 4648's alphabet, and what letters stand for: four of them are a number of 24 bits, cut into three
-- bytes. This is apart from the table of cdmi-stub/json_web_key.cpp, which is compared with it.
use open_content_decryption.Base.{
  ℕ, Bool, ◌+◌, ◌-◌, leb, ◌*◌, ◌/◌, ◌%◌, ◌<◌, ◌≡◌, true, ◌&&◌, ◌||◌, [], ◌∷◌, Bytes, arith, ◌==◌,
  if◌then◌else◌,
}

-- The alphabet of RFC 4648, table 1: A to Z, a to z, 0 to 9, + and /.
abbrev pub is_letter : ℕ → Bool
is_letter c =
    (leb 65 c && leb c 90)
    || (leb 97 c && leb c 122)
    || (leb 48 c && leb c 57)
    || c == 43
    || c == 47

-- The number that a letter stands for.
abbrev pub value : ℕ → ℕ
value c =
    if leb 97 c
    then c - 97 + 26
    else if leb 65 c
    then c - 65
    else if leb 48 c
    then c - 48 + 52
    else if c == 43
    then 62
    else 63

-- The longest prefix of letters of the alphabet: all that the decoder reads.
abbrev pub letters : Bytes → Bytes
letters [] = []
letters (c ∷ cs) = if is_letter c then c ∷ letters cs else []

-- The value of a group of letters, as one number.
abbrev pub bits_2 : ℕ → ℕ → ℕ
bits_2 a b = value a * 64 + value b

abbrev pub bits_3 : ℕ → ℕ → ℕ → ℕ
bits_3 a b c = bits_2 a b * 64 + value c

abbrev pub bits_4 : ℕ → ℕ → ℕ → ℕ → ℕ
bits_4 a b c d = bits_3 a b c * 64 + value d

-- A group of four letters is three bytes; a last group of three is two, and of two is one.
abbrev pub bytes_of : Bytes → Bytes
bytes_of (a ∷ b ∷ c ∷ d ∷ rest) =
    bits_4 a b c d / 65536 ∷ bits_4 a b c d / 256 % 256 ∷ bits_4 a b c d % 256 ∷ bytes_of rest
bytes_of (a ∷ b ∷ c ∷ []) = bits_3 a b c / 1024 ∷ bits_3 a b c / 4 % 256 ∷ []
bytes_of (a ∷ b ∷ []) = bits_2 a b / 16 ∷ []
bytes_of _ = []

abbrev pub IsLetter : ℕ → Type 0
IsLetter c = is_letter c ≡ true

pub IsLetter-lt : (c : ℕ) → IsLetter c → c < 256
IsLetter-lt c h = ground arith

pub value_lt : (c : ℕ) → IsLetter c → value c < 64
value_lt c h = ground arith
