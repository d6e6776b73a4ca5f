-- ===== src/JsonWebKey/Pairs.antt =====
-- `convertStringsToKeyPair` of cdmi-stub/json_web_key.cpp on what a server writes: Base64 over the
-- URL-safe alphabet, with no padding.
use mathlib.Core.List.{map-append}
use open_content_decryption.Base.{
  ℕ, zero, suc, ◌%◌, ◌≡◌, refl, [], ◌∷◌, ◌++◌, map, append-nil, Bytes, IsByte, All, arith, ◌==◌,
  ltb, inl, inr, Bool-cases, if◌then◌else◌, length, replicate,
}
use open_content_decryption.Base64.{base64_decode}
use open_content_decryption.Base64.Alphabet.{IsLetter}
use open_content_decryption.Base64.Encode.{encode, encode-IsLetter, Stops, base64_decode-encode}
use open_content_decryption.JsonWebKey.{fix_up_url_safe_base64, pad, convert_strings_to_key_pair}

-- The URL-safe alphabet of RFC 4648, section 5.
unfoldable pub url_letter : ℕ → ℕ
url_letter c = if c == b'+' then b'-' else if c == b'/' then b'_' else c

-- Base64url with no padding, as in a JSON Web Key.
unfoldable pub url_encode : Bytes → Bytes
url_encode bs = map url_letter (encode bs)

fix_up-url_letter : (s : Bytes) → All IsLetter s → fix_up_url_safe_base64 (map url_letter s) ≡ s
unfolding fix_up_url_safe_base64 url_letter
fix_up-url_letter [] h = refl
fix_up-url_letter (c ∷ s) (hc, hs) = ground (arith, fix_up-url_letter s hs)

fix_up-append :
    (s t : Bytes)
    → fix_up_url_safe_base64 (s ++ t) ≡ fix_up_url_safe_base64 s ++ fix_up_url_safe_base64 t
unfolding fix_up_url_safe_base64
fix_up-append s t = simp map-append

fix_up-Stops : (n : ℕ) → Stops (fix_up_url_safe_base64 (replicate n b'='))
unfolding fix_up_url_safe_base64
fix_up-Stops zero = tt
fix_up-Stops (suc n) = refl

pad-append : (s : Bytes) → pad s ≡ s ++ replicate (length s % 4) b'='
unfolding pad
pad-append s = elim (Bool-cases (ltb 0 (length s % 4))) [
  | inl some_padding ↦ rw some_padding
  | inr none_needed ↦ let e : length s % 4 ≡ 0 = ground arith in rw (none_needed, e) (rw append-nil)
]

-- However many signs of padding are appended, the bytes that the server encoded come back.
pub decode-url_encode :
    (bs : Bytes) → All IsByte bs → base64_decode (fix_up_url_safe_base64 (pad (url_encode bs))) ≡ bs
unfolding url_encode
decode-url_encode bs h =
    rw
      (
        pad-append (map url_letter (encode bs)),
        fix_up-append (map url_letter (encode bs))
            (replicate (length (map url_letter (encode bs)) % 4) b'='),
        fix_up-url_letter (encode bs) (encode-IsLetter bs h),
      )
      (base64_decode-encode bs _ h (fix_up-Stops (length (map url_letter (encode bs)) % 4)))

-- A key and a key id in base64url, as a JSON Web Key holds them, give the pair of the key id's bytes
-- and the key's bytes, in this order.
pub convert_strings_to_key_pair-url_encode :
    (key key_id : Bytes)
    → All IsByte key
    → All IsByte key_id
    → convert_strings_to_key_pair (url_encode key) (url_encode key_id) ≡ (key_id, key)
unfolding convert_strings_to_key_pair
convert_strings_to_key_pair-url_encode key key_id hk hi =
    rw (decode-url_encode key_id hi, decode-url_encode key hk)
