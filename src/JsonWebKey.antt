-- ===== src/JsonWebKey.antt =====
-- cdmi-stub/json_web_key.cpp and json_web_key.h: from the text of a JSON Web Key Set to one pair of
-- a key id and a key. The parser jsmn is a copy of another project and stands here as a function;
-- cdmi-stub/jsmn/jsmn.h gives its tokens.
pub mod Text
pub mod Members
pub mod Extract
pub mod Pairs
pub mod KeySet
use open_content_decryption.Base.{
  ℕ, suc, ◌+◌, ◌-◌, ◌%◌, Bool, true, false, ◌&&◌, not, Option, none, some, List, [], ◌∷◌, ◌++◌, map,
  Bytes, codes, ltb, leb, ◌==◌, if◌then◌else◌, length, get_elem?, take, drop, replicate,
}
use open_content_decryption.Base.Int.{ℤ, pos, negsuc, ◌-ℤ◌, eqb_ℤ, ltb_ℤ}
use open_content_decryption.Base.Outcome.{
  Outcome, ok, fault, Fault, ◌>>=◌, or_fault, out_of_bounds, length_error,
}
use open_content_decryption.Base64.{base64_decode}

-- `jsmntype_t`
pub data JsmnType : Type 0 where
  primitive object array string : JsmnType

abbrev pub is_string : JsmnType → Bool
is_string string = true
is_string _ = false

-- `jsmntok_t`
pub record Token : Type 0 where
  pub kind : JsmnType
  pub start : ℤ
  pub stop : ℤ
  pub size : ℤ

-- `jsmn_init` and `jsmn_parse`: from the text and the array of tokens as it was to the result and the
-- array as it is afterwards.
abbrev pub Parser : Type 0
Parser = Bytes → List Token → ℤ × List Token

abbrev pub KeyIdAndKeyPair : Type 0
KeyIdAndKeyPair = Bytes × Bytes

abbrev pub KeyIdAndKeyPairs : Type 0
KeyIdAndKeyPairs = List KeyIdAndKeyPair

abbrev pub max_json_tokens : ℕ
max_json_tokens = 2048

abbrev pub keys_tag : Bytes
keys_tag = codes "keys"

abbrev pub alg_tag : Bytes
alg_tag = codes "alg"

abbrev pub key_tag : Bytes
key_tag = codes "k"

abbrev pub key_id_tag : Bytes
key_id_tag = codes "kid"

-- `c_str()`: the characters and the final NUL.
abbrev pub c_str : Bytes → Bytes
c_str s = s ++ 0 ∷ []

-- The memory that can be read from `json + offset` on.
unfoldable pub memory_at : Bytes → ℤ → Outcome Bytes
memory_at json (pos k) =
    if leb k (length json) then ok (drop k (c_str json)) else fault out_of_bounds
memory_at json (negsuc k) = fault out_of_bounds

-- `strncmp(a, b, n) == 0`
unfoldable pub strncmp : ℕ → Bytes → Bytes → Bool
strncmp (suc n) (x ∷ a) (y ∷ b) = if x == y && not (x == 0) then strncmp n a b else x == y
strncmp (suc n) _ _ = false
strncmp _ _ _ = true

unfoldable pub jsoneq : Bytes → Token → Bytes → Outcome ℤ
jsoneq json tok s =
    if is_string tok.kind && eqb_ℤ (pos (length s)) (tok.stop -ℤ tok.start)
    then (do
      p ← memory_at json tok.start
      ok (if strncmp (length s) p (c_str s) then pos 0 else negsuc 0))
    else ok (negsuc 0)

-- `std::string(json + start, n)`, where a negative `n` is a size that is too large.
abbrev pub string_at : Bytes → ℤ → ℤ → Outcome Bytes
string_at json start (pos n) = if n == 0 then ok [] else do
  p ← memory_at json start
  if leb n (length p) then ok (take n p) else fault out_of_bounds
string_at json start (negsuc n) = fault length_error

abbrev pub token_at : List Token → ℕ → Outcome Token
token_at t i = or_fault out_of_bounds (get_elem? t i)

-- `std::string(jchr + t[i].start, t[i].end - t[i].start)`
unfoldable pub token_string : Bytes → List Token → ℕ → Outcome Bytes
token_string json t i = do tok ← token_at t i; string_at json tok.start (tok.stop -ℤ tok.start)

abbrev pub is_tag : ℤ → ℕ → Bool
is_tag r i = eqb_ℤ r (pos 0) && ltb (i + 1) max_json_tokens

-- The variables of the loop.
pub record Scan : Type 0 where
  pub algorithm : Bytes
  pub key : Bytes
  pub key_id : Bytes

abbrev pub empty_scan : Scan
empty_scan = record { algorithm = []; key = []; key_id = [] }

-- What the body does at a tag; `none` is `return false`.
unfoldable pub read_algorithm : Bytes → List Token → ℕ → Scan → Outcome (Option Scan)
read_algorithm json t i s = do
  v ← token_string json t (i + 1)
  ok (some (record s { algorithm = v }))

unfoldable pub read_key : Bytes → List Token → ℕ → Scan → Outcome (Option Scan)
read_key json t i s =
    if not (length s.key == 0)
    then ok none
    else do v ← token_string json t (i + 1); ok (some (record s { key = v }))

unfoldable pub read_key_id : Bytes → List Token → ℕ → Scan → Outcome (Option Scan)
read_key_id json t i s =
    if not (length s.key_id == 0)
    then ok none
    else do v ← token_string json t (i + 1); ok (some (record s { key_id = v }))

-- The body of the loop.
unfoldable pub scan_token : Bytes → List Token → ℕ → Scan → Outcome (Option Scan)
scan_token json t i s = do
  tok ← token_at t i
  alg ← jsoneq json tok alg_tag
  if is_tag alg i then read_algorithm json t i s else do
    k ← jsoneq json tok key_tag
    if is_tag k i then read_key json t i s else do
      kid ← jsoneq json tok key_id_tag
      if is_tag kid i then read_key_id json t i s else ok (some s)

-- `for (i; i < result; i++)`, over the rounds left.
unfoldable pub scan_tokens : Bytes → List Token → ℕ → ℕ → Scan → Outcome (Option Scan)
scan_tokens json t (suc rounds) i s =
    let rest = λ (s' : Scan). scan_tokens json t rounds (suc i) s' in
    scan_token json t i s >>= elim [ none ↦ ok none | some s' ↦ rest s' ]
scan_tokens json t _ i s = ok (some s)

-- `fixUpURLSafeBase64`: '_' becomes '/', then '-' becomes '+'.
abbrev pub replace : ℕ → ℕ → Bytes → Bytes
replace old new = map (λ c. if c == old then new else c)

unfoldable pub fix_up_url_safe_base64 : Bytes → Bytes
fix_up_url_safe_base64 s = replace b'-' b'+' (replace b'_' b'/' s)

-- The padding that `convertStringsToKeyPair` appends.
unfoldable pub pad : Bytes → Bytes
pad s = let padding = length s % 4 in if ltb 0 padding then s ++ replicate padding b'=' else s

unfoldable pub convert_strings_to_key_pair : Bytes → Bytes → KeyIdAndKeyPair
convert_strings_to_key_pair key key_id = (
  base64_decode (fix_up_url_safe_base64 (pad key_id)),
  base64_decode (fix_up_url_safe_base64 (pad key)),
)

-- The end of the function: the pairs that `keys` holds after it, and what it returns.
abbrev pub finish_scan : KeyIdAndKeyPairs → Option Scan → Bool × KeyIdAndKeyPairs
finish_scan keys none = (false, keys)
finish_scan keys (some s) = (true, convert_strings_to_key_pair s.key s.key_id ∷ [])

abbrev pub rounds_from_2 : ℤ → ℕ
rounds_from_2 (pos n) = n - 2
rounds_from_2 (negsuc n) = 0

-- `ExtractKeysFromJWKSet`. `stack` is what the array `t` holds before the parser writes to it.
unfoldable pub extract_keys_from_jwk_set :
    Parser → List Token → Bytes → KeyIdAndKeyPairs → Outcome (Bool × KeyIdAndKeyPairs)
extract_keys_from_jwk_set jsmn_parse stack jwk_set keys =
    let (result, t) = jsmn_parse jwk_set stack in
    if ltb_ℤ result (pos 0) then ok (false, keys) else do
      first ← token_at t 1
      tag ← jsoneq jwk_set first keys_tag
      if not (eqb_ℤ tag (pos 0)) then ok (false, keys) else do
        s ← scan_tokens jwk_set t (rounds_from_2 result) 2 empty_scan
        ok (finish_scan keys s)
