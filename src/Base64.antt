-- ===== src/Base64.antt =====
-- The Base64 decoder of cdmi-stub/json_web_key.cpp: `base64_chars`, `is_base64`, `base64_decode`.
pub mod Alphabet
pub mod Reference
pub mod Encode
use open_content_decryption.Base.{
  ℕ, ◌+◌, ◌-◌, ◌*◌, ◌/◌, ◌%◌, ◌^◌, bit_and, Bool, not, ◌&&◌, ◌||◌, [], ◌∷◌, ◌++◌, Bytes, codes, leb,
  ◌==◌, if◌then◌else◌, length, take, replicate, map,
}

abbrev pub base64_chars : Bytes
base64_chars = codes "ABCDEFGHIJKLMNOPQRSTUVWXYZabcdefghijklmnopqrstuvwxyz0123456789+/"

abbrev within : ℕ → ℕ → ℕ → Bool
within lo hi c = leb lo c && leb c hi

-- `isalnum` of the C locale.
abbrev is_alnum : ℕ → Bool
is_alnum c = within b'0' b'9' c || within b'A' b'Z' c || within b'a' b'z' c

unfoldable pub is_base64 : ℕ → Bool
is_base64 c = is_alnum c || c == b'+' || c == b'/'

abbrev npos : ℕ
npos = 2 ^ 64 - 1

-- `std::string::find` of one character, from position `i` on.
find : ℕ → Bytes → ℕ → ℕ
find i [] c = npos
find i (x ∷ xs) c = if x == c then i else find (i + 1) xs c

-- `base64_chars.find(c)`, stored in an `unsigned char`.
unfoldable pub sextet : ℕ → ℕ
unfolding find
sextet c = find 0 base64_chars c % 256

-- The three assignments to `char_array_3` (an `unsigned char` each) from a full `char_array_4`.
unfoldable pub char_array_3 : Bytes → Bytes
char_array_3 (a ∷ b ∷ c ∷ d ∷ []) =
    ((a * 4 + bit_and b 0x30 / 16) % 256)
    ∷ ((bit_and b 0xf * 16 + bit_and c 0x3c / 4) % 256)
    ∷ ((bit_and c 0x3 * 64 + d) % 256)
    ∷ []
char_array_3 _ = []

-- The body of the loop: `chars` are the first `i` entries of `char_array_4`. The entries behind them
-- are written before they are read.
unfoldable pub store : Bytes → ℕ → Bytes → Bytes × Bytes
store chars c ret =
    let chars' = chars ++ c ∷ [] in
    if length chars' == 4 then ([], ret ++ char_array_3 (map sextet chars')) else (chars', ret)

-- The `while` loop, over what is left of the input.
unfoldable pub decode_loop : Bytes → Bytes → Bytes → Bytes × Bytes
decode_loop [] chars ret = (chars, ret)
decode_loop (c ∷ cs) chars ret =
    if not (c == b'=') && is_base64 c
    then decode_loop cs (store chars c ret).0 (store chars c ret).1
    else (chars, ret)

-- The tail, `if (i)`: pads with zeros, and keeps `i - 1` bytes.
unfoldable pub flush : Bytes × Bytes → Bytes
flush (chars, ret) =
    if length chars == 0
    then ret
    else ret
      ++ take (length chars - 1)
          (char_array_3 (map sextet (chars ++ replicate (4 - length chars) 0)))

unfoldable pub base64_decode : Bytes → Bytes
base64_decode s = flush (decode_loop s [] [])
