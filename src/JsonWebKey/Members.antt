-- ===== src/JsonWebKey/Members.antt =====
-- A JSON Web Key Set as the members that its tokens spell, with no positions: what the loop of
-- `ExtractKeysFromJWKSet` is to find.
use open_content_decryption.Base.{
  ℕ, suc, ◌≡◌, Bool, true, false, ◌&&◌, ◌||◌, Option, none, some, List, [], ◌∷◌, Bytes, equal,
  equal_iff, if◌then◌else◌, get_elem?, arith, ◌⊎◌,
}
use open_content_decryption.JsonWebKey.{
  Token, Scan, is_string, string, alg_tag, key_tag, key_id_tag,
}
use open_content_decryption.JsonWebKey.Text.{Spans}

unfoldable pub is_tag_text : Bytes → Bool
is_tag_text s = equal s alg_tag || equal s key_tag || equal s key_id_tag

pub tag_cases :
    (s : Bytes) → is_tag_text s ≡ true → (s ≡ alg_tag) ⊎ ((s ≡ key_tag) ⊎ (s ≡ key_id_tag))
unfolding is_tag_text
tag_cases s h = ground (arith, equal_iff s alg_tag, equal_iff s key_tag, equal_iff s key_id_tag)

-- A member of a JSON object: its name and the text of its value.
abbrev pub Member : Type 0
Member = Bytes × Bytes

-- From position `i` up to `n` the tokens of `t` spell these members named by a tag. Any other token
-- in between, a value too, is no string that is spelled like a tag.
pub data Reads (json : Bytes) (t : List Token) (n : ℕ) : ℕ → List Member → Type 0 where
  done : {i : ℕ} → i ≡ n → Reads json t n i []
  other :
      {i : ℕ} {ms : List Member} (tok : Token) (s : Bytes)
      → get_elem? t i ≡ some tok
      → Spans json tok s
      → (is_string tok.kind && is_tag_text s) ≡ false
      → Reads json t n (suc i) ms
      → Reads json t n i ms
  member :
      {i : ℕ} {ms : List Member} (tok tok' : Token) (name value : Bytes)
      → get_elem? t i ≡ some tok
      → Spans json tok name
      → tok.kind ≡ string
      → is_tag_text name ≡ true
      → get_elem? t (suc i) ≡ some tok'
      → Spans json tok' value
      → (is_string tok'.kind && is_tag_text value) ≡ false
      → Reads json t n (suc (suc i)) ms
      → Reads json t n i ((name, value) ∷ ms)

-- The values of the members of a name, in order.
abbrev pub values : Bytes → List Member → List Bytes
values tag [] = []
values tag ((name, value) ∷ ms) = if equal name tag then value ∷ values tag ms else values tag ms

-- The last value, or `old` if there is none.
abbrev pub last_of : Bytes → List Bytes → Bytes
last_of old [] = old
last_of old (v ∷ vs) = last_of v vs

-- The one value that is not empty: none, if there are two values and the first is not empty.
abbrev pub single_of : Bytes → List Bytes → Option Bytes
single_of old [] = some old
single_of [] (v ∷ vs) = single_of v vs
single_of (_ ∷ _) (v ∷ vs) = none

abbrev pub build : Bytes → Option Bytes → Option Bytes → Option Scan
build alg (some k) (some kid) = some (record { algorithm = alg; key = k; key_id = kid })
build alg _ _ = none

-- What a scan that has `s` so far finds in the members.
unfoldable pub found : Scan → List Member → Option Scan
found s ms =
    build (last_of s.algorithm (values alg_tag ms)) (single_of s.key (values key_tag ms))
      (single_of s.key_id (values key_id_tag ms))
