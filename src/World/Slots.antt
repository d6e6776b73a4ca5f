-- ===== src/World/Slots.antt =====
-- Objects and buffers as slots of a list: a new one goes to the end, a freed one keeps its place.
use open_content_decryption.Base.{
  ℕ, zero, suc, ◌+◌, ◌≡◌, ◌≢◌, refl, ap, true, false, some, List, [], ◌∷◌, ◌++◌, length, get_elem?,
  set, arith, if◌then◌else◌, Option, none, ◌∙◌, inl, inr, Bool-cases,
}
use open_content_decryption.Base.Outcome.{ok}
use open_content_decryption.World.{Slot, alive}

module _ {ℓ} {A : Type ℓ} where
  pub get_elem?-append_last : (xs : List A) (x : A) → get_elem? (xs ++ x ∷ []) (length xs) ≡ some x
  get_elem?-append_last [] x = refl
  get_elem?-append_last (y ∷ xs) x = get_elem?-append_last xs x

  pub get_elem?-append_old :
      (xs : List A) (x y : A) (i : ℕ)
      → get_elem? xs i ≡ some y
      → get_elem? (xs ++ x ∷ []) i ≡ some y
  get_elem?-append_old [] x y i e = ground arith
  get_elem?-append_old (z ∷ xs) x y zero e = e
  get_elem?-append_old (z ∷ xs) x y (suc i) e = get_elem?-append_old xs x y i e

  pub set-append_last : (xs : List A) (x y : A) → set (xs ++ x ∷ []) (length xs) y ≡ xs ++ y ∷ []
  set-append_last [] x y = refl
  set-append_last (z ∷ xs) x y = ap (◌∷◌ z) (set-append_last xs x y)

  pub length-set : (xs : List A) (i : ℕ) (v : A) → length (set xs i v) ≡ length xs
  length-set [] i v = refl
  length-set (x ∷ xs) zero v = refl
  length-set (x ∷ xs) (suc i) v = ap suc (length-set xs i v)

  pub get_elem?-set_self :
      (xs : List A) (i : ℕ) (u v : A) → get_elem? xs i ≡ some u → get_elem? (set xs i v) i ≡ some v
  get_elem?-set_self [] i u v h = ground arith
  get_elem?-set_self (x ∷ xs) zero u v h = refl
  get_elem?-set_self (x ∷ xs) (suc i) u v h = get_elem?-set_self xs i u v h

  pub get_elem?-set_ne :
      (xs : List A) (i j : ℕ) (v : A) → i ≢ j → get_elem? (set xs i v) j ≡ get_elem? xs j
  get_elem?-set_ne [] i j v h = refl
  get_elem?-set_ne (x ∷ xs) zero zero v h = absurd (h refl)
  get_elem?-set_ne (x ∷ xs) zero (suc j) v h = refl
  get_elem?-set_ne (x ∷ xs) (suc i) zero v h = refl
  get_elem?-set_ne (x ∷ xs) (suc i) (suc j) v h = get_elem?-set_ne xs i j v (λ e. h (ap suc e))

  -- How many slots are not freed.
  abbrev pub live_count : List (Slot A) → ℕ
  live_count [] = 0
  live_count (s ∷ xs) = (if s.live then 1 else 0) + live_count xs

  pub live_count-concat :
      (xs : List (Slot A)) (a : A)
      → live_count (xs ++ record { content = a; live = true } ∷ []) ≡ live_count xs + 1
  live_count-concat [] a = refl
  live_count-concat (s ∷ xs) a = omega (arith, live_count-concat xs a)

  pub live_count-set :
      (xs : List (Slot A)) (i : ℕ) (s : Slot A)
      → get_elem? xs i ≡ some s
      → s.live ≡ true
      → live_count (set xs i (record s { live = false })) + 1 ≡ live_count xs
  live_count-set [] i s e l = ground arith
  live_count-set (x ∷ xs) zero s e l = ground arith
  live_count-set (x ∷ xs) (suc i) s e l = omega (arith, live_count-set xs i s e l)

-- An access that returns has found a slot that is not freed.
pub alive-eq-ok :
    {A : Type 0} (o : Option (Slot A)) (a : A)
    → alive o ≡ ok a
    → o ≡ some (record { content = a; live = true })
alive-eq-ok none a h = cc
alive-eq-ok (some s) a h = elim (Bool-cases s.live) [
  | inl living ↦
      let same : s.content ≡ a = ground (arith, h, living) in
      ap (λ l. some (record { content = s.content; live = l })) living
      ∙ ap (λ c. some (record { content = c; live = true })) same
  | inr dead ↦ cc (rw dead at h)
]
