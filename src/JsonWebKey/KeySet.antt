-- ===== src/JsonWebKey/KeySet.antt =====
-- `ExtractKeysFromJWKSet` of cdmi-stub/json_web_key.cpp as a whole.
use open_content_decryption.Base.{
  ℕ, ◌-◌, ◌≤◌, ◌≡◌, ◌∙◌, ◌⊎◌, Bool, true, false, none, some, List, [], ◌∷◌, Bytes, IsByte, All,
  arith, length, get_elem?, equal_refl,
}
use open_content_decryption.Base.Int.{pos}
use open_content_decryption.Base.Outcome.{ok}
use open_content_decryption.JsonWebKey.{
  Token, Parser, KeyIdAndKeyPairs, string, keys_tag, key_tag, key_id_tag, max_json_tokens,
  empty_scan, finish_scan, extract_keys_from_jwk_set,
}
use open_content_decryption.JsonWebKey.Text.{Spans, jsoneq-Spans}
use open_content_decryption.JsonWebKey.Members.{Member, Reads, values, single_of, found}
use open_content_decryption.JsonWebKey.Extract.{scan_tokens-Reads}
use open_content_decryption.JsonWebKey.Pairs.{url_encode, convert_strings_to_key_pair-url_encode}

-- The parser accepts the text with `n` tokens, which fit the array. The second is the string "keys",
-- and from the third on they spell the members `ms`.
pub record Parses (jsmn_parse : Parser) (stack : List Token) (json : Bytes) (ms : List Member)
    : Type 0 where
  pub count : ℕ
  pub tokens : List Token
  pub parsed : jsmn_parse json stack ≡ (pos count, tokens)
  pub enough : 2 ≤ count
  pub fits : length tokens ≤ max_json_tokens
  pub second : Token
  pub at_1 : get_elem? tokens 1 ≡ some second
  pub second_text : Spans json second keys_tag
  pub second_kind : second.kind ≡ string
  pub members : Reads json tokens count 2 ms

module _ (jsmn_parse : Parser) (stack : List Token) (json : Bytes) (keys : KeyIdAndKeyPairs) where
  extract-Parses :
      {ms : List Member}
      → Parses jsmn_parse stack json ms
      → extract_keys_from_jwk_set jsmn_parse stack json keys
        ≡ ok (finish_scan keys (found empty_scan ms))
  unfolding extract_keys_from_jwk_set
  extract-Parses {ms} p =
      rw
        (
          p.parsed,
          p.at_1,
          jsoneq-Spans p.second_text keys_tag (omega arith),
          p.second_kind,
          equal_refl keys_tag,
        )
        (ground (
          arith,
          scan_tokens-Reads (p.count - 2) empty_scan p.fits (let h = p.enough in omega arith)
              p.members,
        ))

  -- A text that the parser splits into tokens which spell members with one key and one key id, both
  -- in base64url, gives success and this one pair, and the pairs that were there before are gone.
  pub extract-url_encode :
      (ms : List Member) (key key_id : Bytes)
      → Parses jsmn_parse stack json ms
      → values key_tag ms ≡ url_encode key ∷ []
      → values key_id_tag ms ≡ url_encode key_id ∷ []
      → All IsByte key
      → All IsByte key_id
      → extract_keys_from_jwk_set jsmn_parse stack json keys ≡ ok (true, (key_id, key) ∷ [])
  unfolding found
  extract-url_encode ms key key_id p k i hk hi =
      extract-Parses p ∙ rw (k, i) (rw (convert_strings_to_key_pair-url_encode key key_id hk hi))

  -- Where the tokens spell several keys, or several key ids, of which one before the last is not
  -- empty, the call fails and the pairs stay as they were.
  pub extract_several :
      (ms : List Member)
      → Parses jsmn_parse stack json ms
      → (single_of [] (values key_tag ms) ≡ none) ⊎ (single_of [] (values key_id_tag ms) ≡ none)
      → extract_keys_from_jwk_set jsmn_parse stack json keys ≡ ok (false, keys)
  unfolding found
  extract_several ms p several = extract-Parses p ∙ ground arith

  -- Whatever the parser does: if the call returns, either it succeeds and `keys` holds exactly one
  -- pair, or it fails and `keys` is unchanged.
  pub extract_outcome :
      (b : Bool) (keys' : KeyIdAndKeyPairs)
      → extract_keys_from_jwk_set jsmn_parse stack json keys ≡ ok (b, keys')
      → ((b ≡ true) × (length keys' ≡ 1)) ⊎ ((b ≡ false) × (keys' ≡ keys))
  unfolding extract_keys_from_jwk_set
  extract_outcome b keys' h = ground arith
