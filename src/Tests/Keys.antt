-- ===== src/Tests/Keys.antt =====
-- The theorems on Base64 and on JSON Web Keys, applied.
use open_content_decryption.Base.{
  ℕ, ◌*◌, ◌≤◌, ◌≡◌, ◌⊎◌, inl, refl, arith, true, false, List, [], ◌∷◌, ◌++◌, Bytes, IsByte, All,
  codes, length, equal, none,
}
use open_content_decryption.Base.Int.{pos}
use open_content_decryption.Base.Outcome.{ok}
use open_content_decryption.Base64.{base64_decode}
use open_content_decryption.Base64.Encode.{encode, base64_decode-encode}
use open_content_decryption.Base64.Alphabet.{bytes_of, letters}
use open_content_decryption.Base64.Reference.{base64_decode-bytes_of, base64_decode_bounds}
use open_content_decryption.JsonWebKey.{
  Token, Parser, string, object, key_tag, extract_keys_from_jwk_set,
}
use open_content_decryption.JsonWebKey.KeySet.{
  Parses, extract-url_encode, extract_several, extract_outcome,
}
use open_content_decryption.JsonWebKey.Members.{
  Member, Reads, done, member, is_tag_text, values, single_of,
}
use open_content_decryption.Tests.Fixture.{parse_license}
use open_content_decryption.Tests.License.{
  response, key, key_id, key-IsByte, members, license-Parses, one_key, one_key_id,
}

-- Letters, a character that is none, and more letters.
base64_decode-bytes_of_example :
    base64_decode (codes "TWFuIQ*TWFu") ≡ bytes_of (letters (codes "TWFuIQ*TWFu"))
base64_decode-bytes_of_example = base64_decode-bytes_of (codes "TWFuIQ*TWFu")

base64_decode_bounds_example :
    All IsByte (base64_decode (codes "TWFuIQ=="))
    × (4 * length (base64_decode (codes "TWFuIQ==")) ≤ 3 * length (codes "TWFuIQ=="))
base64_decode_bounds_example = base64_decode_bounds (codes "TWFuIQ==")

-- Keys that were there before are gone.
abbrev old_keys : List (Bytes × Bytes)
old_keys = (codes "a", codes "b") ∷ []

abbrev new_keys : List (Bytes × Bytes)
new_keys = (key_id, key) ∷ []

extract-url_encode_example :
    extract_keys_from_jwk_set parse_license [] response old_keys ≡ ok (true, (key_id, key) ∷ [])
extract-url_encode_example =
    extract-url_encode parse_license [] response old_keys members key key_id license-Parses one_key
      one_key_id key-IsByte (omega arith, tt)

extract_outcome_example :
    ((true ≡ true) × (length new_keys ≡ 1)) ⊎ ((true ≡ false) × (new_keys ≡ old_keys))
extract_outcome_example =
    extract_outcome parse_license [] response old_keys true ((key_id, key) ∷ []) (
      extract-url_encode parse_license [] response old_keys members key key_id license-Parses
        one_key one_key_id key-IsByte (omega arith, tt))

-- A text with two keys.
abbrev two_keys : Bytes
two_keys = codes "keys k A k B"

abbrev at : ℕ → ℕ → Token
at a b = record { kind = string; start = pos a; stop = pos b; size = pos 0 }

abbrev two_tokens : List Token
two_tokens =
    record { kind = object; start = pos 0; stop = pos 12; size = pos 5 }
    ∷ at 0 4
    ∷ at 5 6
    ∷ at 7 8
    ∷ at 9 10
    ∷ at 11 12
    ∷ []

abbrev parse_two : Parser
parse_two json stack = (pos 6, two_tokens)

abbrev two_members : List Member
two_members = (codes "k", codes "A") ∷ (codes "k", codes "B") ∷ []

two_members-Reads : Reads two_keys two_tokens 6 2 two_members
unfolding is_tag_text equal
two_members-Reads =
    member _ _ (codes "k") (codes "A") refl
      (record {
        before = codes "keys ";
        behind = codes " A k B";
        splits = refl;
        starts = refl;
        stops = refl;
      })
      refl refl refl
      (record {
        before = codes "keys k ";
        behind = codes " k B";
        splits = refl;
        starts = refl;
        stops = refl;
      })
      refl
      (member _ _ (codes "k") (codes "B") refl
        (record {
          before = codes "keys k A ";
          behind = codes " B";
          splits = refl;
          starts = refl;
          stops = refl;
        })
        refl refl refl
        (record {
          before = codes "keys k A k ";
          behind = [];
          splits = refl;
          starts = refl;
          stops = refl;
        })
        refl (done refl))

two-Parses : Parses parse_two [] two_keys two_members
two-Parses = record {
  count = 6;
  tokens = two_tokens;
  parsed = refl;
  enough = omega arith;
  fits = omega arith;
  second = _;
  at_1 = refl;
  second_text = record {
    before = [];
    behind = codes " k A k B";
    splits = refl;
    starts = refl;
    stops = refl;
  };
  second_kind = refl;
  members = two_members-Reads;
}

several : single_of [] (values key_tag two_members) ≡ none
unfolding equal
several = refl

extract_several_example :
    extract_keys_from_jwk_set parse_two [] two_keys old_keys ≡ ok (false, old_keys)
extract_several_example =
    extract_several parse_two [] two_keys old_keys two_members two-Parses (inl several)

base64_decode-encode_example :
    base64_decode (encode (1 ∷ 250 ∷ 7 ∷ 0 ∷ []) ++ b'=' ∷ b'A' ∷ []) ≡ 1 ∷ 250 ∷ 7 ∷ 0 ∷ []
base64_decode-encode_example =
    base64_decode-encode (1 ∷ 250 ∷ 7 ∷ 0 ∷ []) (b'=' ∷ b'A' ∷ []) (omega arith) refl
