-- ===== src/Decimal.antt =====
-- An unsigned integer as `operator<<` of an output stream writes it, as in `CreateSessionId` of
-- cdmi-stub/mediakeys.cpp.
use native.Mathlib.Nat.{pow-suc}
use open_content_decryption.Base.{
  ℕ, zero, suc, ◌+◌, ◌-◌, ◌*◌, ◌/◌, ◌%◌, ◌^◌, ◌≤◌, ◌<◌, ◌≡◌, ◌≢◌, refl, ap, sym, ◌∙◌, inl, inr,
  Bool-cases, [], ◌∷◌, ◌++◌, Bytes, All, All-append, arith, ltb, if◌then◌else◌, length,
  length-append,
}

digits_of : ℕ → ℕ → Bytes
digits_of zero n = []
digits_of (suc f) n =
    let more = digits_of f (n / 10) ++ (b'0' + n % 10) ∷ [] in
    if ltb n 10 then (b'0' + n) ∷ [] else more

-- Fuel `n + 1` is enough: see `value-decimal`.
unfoldable pub decimal : ℕ → Bytes
unfolding digits_of
decimal n = digits_of (suc n) n

-- The number that a text of digits stands for.
unfoldable pub value_from : ℕ → Bytes → ℕ
value_from acc [] = acc
value_from acc (c ∷ s) = value_from (acc * 10 + (c - b'0')) s

value_from-concat :
    (acc : ℕ) (s : Bytes) (c : ℕ)
    → value_from acc (s ++ c ∷ []) ≡ value_from acc s * 10 + (c - b'0')
unfolding value_from
value_from-concat acc [] c = refl
value_from-concat acc (x ∷ s) c = value_from-concat (acc * 10 + (x - b'0')) s c

value-digits_of : (f n : ℕ) → n < f → value_from 0 (digits_of f n) ≡ n
unfolding digits_of
value-digits_of zero n h = elim h [ ]
value-digits_of (suc f) n h = elim (Bool-cases (ltb n 10)) [
  | inl small ↦ rw small (unfold value_from in omega arith)
  | inr large ↦ rw large (
      value_from-concat 0 (digits_of f (n / 10)) (b'0' + n % 10)
      ∙ (let e = value-digits_of f (n / 10) (ground arith) in omega arith))
]

-- Reading back gives the number.
pub value-decimal : (n : ℕ) → value_from 0 (decimal n) ≡ n
unfolding decimal
value-decimal n = value-digits_of (suc n) n (omega arith)

pub decimal_injective : (m n : ℕ) → decimal m ≡ decimal n → m ≡ n
decimal_injective m n e = sym (value-decimal m) ∙ ap (value_from 0) e ∙ value-decimal n

-- No text of a number has a NUL, so it is one C string.
digits_of-IsText : (f n : ℕ) → All (λ c. c ≢ 0) (digits_of f n)
unfolding digits_of
digits_of-IsText zero n = tt
digits_of-IsText (suc f) n = elim (Bool-cases (ltb n 10)) [
  | inl small ↦ rw small (omega arith)
  | inr large ↦
      rw large (All-append _ (digits_of f (n / 10)) _ (digits_of-IsText f (n / 10)) (omega arith))
]

pub decimal-IsText : (n : ℕ) → All (λ c. c ≢ 0) (decimal n)
unfolding decimal
decimal-IsText n = digits_of-IsText (suc n) n

tenth : (n m : ℕ) → n < m * 10 → n / 10 < m
tenth n m h = omega arith

length-digits_of : (k f n : ℕ) → n < 10 ^ suc k → length (digits_of f n) ≤ suc k
unfolding digits_of
length-digits_of k zero n h = omega arith
length-digits_of zero (suc f) n h = elim (Bool-cases (ltb n 10)) [
  | inl small ↦ rw small (omega arith)
  | inr large ↦ absurd (ground arith)
]
length-digits_of (suc k) (suc f) n h = elim (Bool-cases (ltb n 10)) [
  | inl small ↦ rw small (omega arith)
  | inr large ↦ rw large (
      omega (
        arith,
        length-append (digits_of f (n / 10)) ((b'0' + n % 10) ∷ []),
        length-digits_of k f (n / 10) (tenth n (10 ^ suc k) (rw pow-suc at h)),
      ))
]

-- A `uint32_t` has ten digits at most.
pub length-decimal : (n : ℕ) → n < 2 ^ 32 → length (decimal n) ≤ 10
unfolding decimal
length-decimal n h = length-digits_of 9 (suc n) n (omega arith)
