-- ===== src/Tests/License.antt =====
-- A response with one key, and what its tokens spell.
use open_content_decryption.Base.{
  ℕ, ◌+◌, ◌≡◌, refl, arith, List, [], ◌∷◌, ◌++◌, Bytes, IsByte, All, codes, take, drop, length,
  some, equal,
}
use open_content_decryption.Base.Int.{pos}
use open_content_decryption.JsonWebKey.{Token, key_tag, key_id_tag}
use open_content_decryption.JsonWebKey.KeySet.{Parses}
use open_content_decryption.JsonWebKey.Members.{
  Member, Reads, done, other, member, is_tag_text, values,
}
use open_content_decryption.Base64.Encode.{encode, letter}
use open_content_decryption.Callbacks.{before_nul}
use open_content_decryption.MediaKeySession.{aes_key}
use open_content_decryption.JsonWebKey.Pairs.{url_encode, url_letter}
use open_content_decryption.JsonWebKey.Text.{Spans}
use open_content_decryption.Service.Playback.{License}
use open_content_decryption.Tests.Fixture.{platform, parse_license, license_tokens}

abbrev pub response : Bytes
response = codes "{\"keys\":[{\"kid\":\"AQ\",\"k\":\"MDEyMzQ1Njc4OWFiY2RlZg\"}]}"

abbrev pub key : Bytes
key = codes "0123456789abcdef"

abbrev pub key_id : Bytes
key_id = 1 ∷ []

-- The token from `a` on, of `n` characters.
abbrev piece : ℕ → ℕ → Bytes
piece a n = take n (drop a response)

-- A token of that piece, where its positions are the right ones.
spans :
    (tok : Token) (a n : ℕ)
    → response ≡ take a response ++ (piece a n ++ drop (a + n) response)
    → tok.start ≡ pos (length (take a response))
    → tok.stop ≡ pos (length (take a response) + length (piece a n))
    → Spans response tok (piece a n)
spans tok a n whole start stop = record {
  before = take a response;
  behind = drop (a + n) response;
  splits = whole;
  starts = start;
  stops = stop;
}

abbrev pub members : List Member
members = (codes "kid", codes "AQ") ∷ (codes "k", codes "MDEyMzQ1Njc4OWFiY2RlZg") ∷ []

pub license_members : Reads response license_tokens 8 2 members
unfolding is_tag_text equal
license_members = other _ (piece 8 43) refl (spans _ 8 43 refl refl refl) refl (
    other _ (piece 9 41) refl (spans _ 9 41 refl refl refl) refl (
      member _ _ (piece 11 3) (piece 17 2) refl (spans _ 11 3 refl refl refl) refl refl refl
        (spans _ 17 2 refl refl refl) refl
        (member _ _ (piece 22 1) (piece 26 22) refl (spans _ 22 1 refl refl refl) refl refl refl
          (spans _ 26 22 refl refl refl) refl (done refl))))

pub license-Parses : Parses parse_license [] response members
license-Parses = record {
  count = 8;
  tokens = license_tokens;
  parsed = refl;
  enough = omega arith;
  fits = omega arith;
  second = _;
  at_1 = refl;
  second_text = spans _ 2 4 refl refl refl;
  second_kind = refl;
  members = license_members;
}

pub key-IsByte : All IsByte key
key-IsByte = (
  omega arith,
  (
    omega arith,
    (
      omega arith,
      (
        omega arith,
        (
          omega arith,
          (
            omega arith,
            (
              omega arith,
              (
                omega arith,
                (
                  omega arith,
                  (
                    omega arith,
                    (
                      omega arith,
                      (omega arith, (omega arith, (omega arith, (omega arith, (omega arith, tt))))),
                    ),
                  ),
                ),
              ),
            ),
          ),
        ),
      ),
    ),
  ),
)

pub one_key : values key_tag members ≡ url_encode key ∷ []
unfolding url_encode encode letter url_letter equal
one_key = refl

pub one_key_id : values key_id_tag members ≡ url_encode key_id ∷ []
unfolding url_encode encode letter url_letter equal
one_key_id = refl

pub expanded : aes_key platform key ≡ some key
unfolding aes_key before_nul
expanded = refl

pub license : License platform response key key_id key
license = record {
  members = members;
  parses = license-Parses;
  one_key = one_key;
  one_key_id = one_key_id;
  key_bytes = key-IsByte;
  key_id_bytes = (omega arith, tt);
  sixteen = refl;
  expands = expanded;
}
