-- ===== src/Service/Sessions.antt =====
-- service.cpp: `g_mediaKeySessions`, a `std::map` from session ids, compared as C strings, to pointers
-- that may be NULL.
use open_content_decryption.Base.{
  ℕ, ◌≡◌, ◌≢◌, ◌⊎◌, refl, Bool, true, false, Option, none, some, List, [], ◌∷◌, Bytes, equal,
  equal_iff, arith, if◌then◌else◌,
}

-- The entries, in no particular order.
abbrev pub Sessions : Type 0
Sessions = List (Bytes × Option ℕ)

-- The pointer under an id, NULL where there is none.
unfoldable pub lookup : Bytes → Sessions → Option ℕ
lookup k [] = none
lookup k ((j, v) ∷ m) = if equal j k then v else lookup k m

unfoldable pub insert : Bytes → Option ℕ → Sessions → Sessions
insert k v [] = (k, v) ∷ []
insert k v ((j, u) ∷ m) = if equal j k then (j, v) ∷ m else (j, u) ∷ insert k v m

unfoldable pub contains : Bytes → Sessions → Bool
contains k [] = false
contains k ((j, _) ∷ m) = if equal j k then true else contains k m

-- `m[k]`: an id that has no entry gets one, with NULL.
unfoldable pub touch : Bytes → Sessions → Sessions
touch k m = if contains k m then m else insert k none m

-- `m.erase(k)`
unfoldable pub erase : Bytes → Sessions → Sessions
erase k [] = []
erase k ((j, v) ∷ m) = if equal j k then m else (j, v) ∷ erase k m

pub lookup-insert :
    (k j : Bytes) (v : Option ℕ) (m : Sessions)
    → lookup j (insert k v m) ≡ (if equal k j then v else lookup j m)
unfolding lookup insert
lookup-insert k j v [] = refl
lookup-insert k j v ((i, u) ∷ m) =
    ground (arith, equal_iff k j, equal_iff i k, equal_iff i j, lookup-insert k j v m)

contains-lookup : (k : Bytes) (m : Sessions) → contains k m ≡ false → lookup k m ≡ none
unfolding contains lookup
contains-lookup k [] h = refl
contains-lookup k ((j, v) ∷ m) h = ground (arith, contains-lookup k m)

-- The entry that `m[k]` makes is invisible to every lookup.
pub lookup-touch : (k j : Bytes) (m : Sessions) → lookup j (touch k m) ≡ lookup j m
unfolding touch
lookup-touch k j m =
    ground
      (arith, lookup-insert k j none m, equal_iff k j, contains-lookup k m, contains-lookup j m)

-- No id has two entries.
abbrev pub IsMap : Sessions → Type 0
IsMap [] = Unit {0}
IsMap ((j, _) ∷ m) = (contains j m ≡ false) × IsMap m

contains-insert :
    (k j : Bytes) (v : Option ℕ) (m : Sessions)
    → contains j (insert k v m) ≡ (if equal k j then true else contains j m)
unfolding contains insert
contains-insert k j v [] = refl
contains-insert k j v ((i, u) ∷ m) =
    ground (arith, equal_iff k j, equal_iff i k, equal_iff i j, contains-insert k j v m)

pub insert-IsMap : (k : Bytes) (v : Option ℕ) (m : Sessions) → IsMap m → IsMap (insert k v m)
unfolding insert contains
insert-IsMap k v [] h = (refl, tt)
insert-IsMap k v ((j, u) ∷ m) (fresh, h) =
    ground (arith, equal_iff j k, equal_iff k j, contains-insert k j v m, insert-IsMap k v m h)

pub touch-IsMap : (k : Bytes) (m : Sessions) → IsMap m → IsMap (touch k m)
unfolding touch
touch-IsMap k m h = ground (arith, insert-IsMap k none m h)

contains-erase :
    (k j : Bytes) (m : Sessions) → contains j m ≡ false → contains j (erase k m) ≡ false
unfolding contains erase
contains-erase k j [] h = refl
contains-erase k j ((i, u) ∷ m) h = ground (arith, contains-erase k j m)

pub erase-IsMap : (k : Bytes) (m : Sessions) → IsMap m → IsMap (erase k m)
unfolding erase contains
erase-IsMap k [] h = tt
erase-IsMap k ((j, u) ∷ m) (fresh, h) =
    ground (arith, contains-erase k j m fresh, erase-IsMap k m h)

pub lookup-erase :
    (k j : Bytes) (m : Sessions)
    → IsMap m
    → lookup j (erase k m) ≡ (if equal k j then none else lookup j m)
unfolding lookup erase
lookup-erase k j [] h = ground arith
lookup-erase k j ((i, u) ∷ m) (fresh, h) = ground (
  arith,
  equal_iff k j,
  equal_iff i k,
  equal_iff i j,
  contains-lookup i m fresh,
  lookup-erase k j m h,
)

-- Where an entry comes from.
pub lookup-insert_cases :
    (k j : Bytes) (p q : ℕ) (m : Sessions)
    → lookup j (insert k (some p) m) ≡ some q
    → ((k ≡ j) × (p ≡ q)) ⊎ (lookup j m ≡ some q)
lookup-insert_cases k j p q m h = ground (arith, lookup-insert k j (some p) m, equal_iff k j)

pub lookup-erase_cases :
    (k j : Bytes) (q : ℕ) (m : Sessions)
    → IsMap m
    → lookup j (erase k m) ≡ some q
    → (k ≢ j) × (lookup j m ≡ some q)
lookup-erase_cases k j q m h e = ground (arith, lookup-erase k j m h, equal_iff k j)
