-- ===== src/Tests/Kernel.antt =====
-- Semaphores and segments in place of the kernel's.
use open_content_decryption.Base.{
  ℕ, zero, suc, ◌+◌, ◌<◌, ◌≡◌, refl, arith, Bool, true, false, ◌&&◌, ◌==◌, ltb, leb, ◌-◌,
  if◌then◌else◌, Option, none, some, get_elem?,
}
use open_content_decryption.Base.Int.{ℤ, pos, negsuc, eqb_ℤ}
use open_content_decryption.SharedMemory.{Ipc, Segment, Semop, sleeps, returns}
use open_content_decryption.SharedMemory.Calls.{IsIpc, Sets, SameSemaphore}

pub record Kernel : Type 0 where
  pub values : ℤ → ℕ → Option ℕ
  pub adjustments : ℕ → ℤ → ℕ → ℕ
  pub segments : ℤ → Option Segment
  pub addresses : ℤ → Option ℤ
  pub fresh : ℕ

abbrev pub empty_kernel : Kernel
empty_kernel = record {
  values = λ id i. none;
  adjustments = λ q id i. 32768;
  segments = λ id. none;
  addresses = λ a. none;
  fresh = 1;
}

eqb_ℤ-refl : (a : ℤ) → eqb_ℤ a a ≡ true
eqb_ℤ-refl (pos n) = ground arith
eqb_ℤ-refl (negsuc n) = ground arith

eqb_ℤ_sound : (a b : ℤ) → eqb_ℤ a b ≡ true → a ≡ b
eqb_ℤ_sound (pos m) (pos n) h = ground (arith, h)
eqb_ℤ_sound (pos m) (negsuc n) h = ground (arith, h)
eqb_ℤ_sound (negsuc m) (pos n) h = ground (arith, h)
eqb_ℤ_sound (negsuc m) (negsuc n) h = ground (arith, h)

-- The kernel with one semaphore and what is noted of it for one process set, and with one segment set.
abbrev pub set_semaphore : ℕ → ℤ → ℕ → ℕ → ℕ → Kernel → Kernel
set_semaphore process id i n a k = record k {
  values = λ j m. if eqb_ℤ id j && i == m then some n else k.values j m;
  adjustments = λ q j m. if process == q && (eqb_ℤ id j && i == m) then a else k.adjustments q j m;
}

abbrev pub set_segment : ℤ → Option Segment → Kernel → Kernel
set_segment id g k = record k { segments = λ j. if eqb_ℤ id j then g else k.segments j }

abbrev moved : ℕ → ℤ → Option ℕ
moved v (pos n) = some (v + n)
moved v (negsuc n) = if ltb n v then some (v - (n + 1)) else none

-- What is noted, by its distance from the least that can be.
abbrev noted : ℕ → ℤ → Option ℕ
noted a (pos n) = if leb n a then some (a - n) else none
noted a (negsuc n) = if leb (a + (n + 1)) 65535 then some (a + (n + 1)) else none

abbrev change_by : ℕ → ℤ → ℕ → Option ℕ → Option ℕ → Kernel → Semop Kernel
change_by process id i none a k = sleeps
change_by process id i (some n) none k = returns (negsuc 0) k
change_by process id i (some n) (some a) k = returns (pos 0) (set_semaphore process id i n a k)

abbrev change_at : ℕ → ℤ → ℕ → ℤ → Option ℕ → Option ℕ → Kernel → Semop Kernel
change_at process id i op none a k = returns (negsuc 0) k
change_at process id i op (some v) a k = change_by process id i (moved v op) a k

abbrev noted_by : Bool → ℕ → ℤ → Option ℕ
noted_by true a op = noted a op
noted_by false a op = some a

abbrev change : ℕ → ℤ → ℕ → ℤ → Bool → Kernel → Semop Kernel
change process id i op undo k =
    change_at process id i op (k.values id i) (noted_by undo (k.adjustments process id i) op) k

abbrev attach_at : ℤ → ℤ → Kernel → ℤ × Kernel
attach_at id address k =
    let a = pos k.fresh in
    let named = record k {
      addresses = λ b. if eqb_ℤ a b then some id else k.addresses b;
      fresh = k.fresh + 1;
    } in
    elim (k.segments id) [
      | none ↦ (a, named)
      | some g ↦ (a, set_segment id (some (record g { attached = g.attached + 1 })) named)
    ]

abbrev doom : ℤ → Kernel → Kernel
doom id k = elim (k.segments id) [
  | none ↦ k
  | some g ↦ set_segment id (if g.attached == 0 then none else some (record g { doomed = true })) k
]

abbrev left_by_one : Segment → Option Segment
left_by_one g = elim (g.attached) [
  | zero ↦ none
  | suc n ↦ if g.doomed && n == 0 then none else some (record g { attached = n })
]

abbrev detach_from : ℤ → Kernel → ℤ × Kernel
detach_from a k = elim (k.addresses a) [
  | none ↦ (negsuc 0, k)
  | some id ↦ elim (k.segments id) [
    | none ↦ (negsuc 0, k)
    | some g ↦ (pos 0, set_segment id (left_by_one g) k)
  ]
]

abbrev pub kernel : Ipc
kernel = record {
  State = Kernel;
  value = λ id i k. k.values id i;
  semaem = 32767;
  adjustment = λ q id i k. k.adjustments q id i;
  segment = λ id k. k.segments id;
  attached_at = λ a k. k.addresses a;
  shmget = λ n k. (
    pos k.fresh,
    set_segment (pos k.fresh) (some (record { attached = 0; doomed = false }))
        (record k { fresh = k.fresh + 1 }),
  );
  shmat = attach_at;
  shmctl_rmid = doom;
  shmdt = detach_from;
  semget = λ n k. (pos k.fresh, record k { fresh = k.fresh + 1 });
  semctl_setall = λ id vals k. record k {
    values = λ j m. if eqb_ℤ id j then get_elem? vals m else k.values j m;
    adjustments = λ q j m. if eqb_ℤ id j then 32768 else k.adjustments q j m;
  };
  semctl_rmid =
      λ id k. (pos 0, record k { values = λ j m. if eqb_ℤ id j then none else k.values j m });
  semop = change;
}

set_semaphore-Sets :
    (process : ℕ) (id : ℤ) (i n a : ℕ) (k : Kernel)
    → Sets kernel process id i n a k (set_semaphore process id i n a k)
set_semaphore-Sets process id i n a k = record {
  here = let same = eqb_ℤ-refl id in ground arith;
  noted = let same = eqb_ℤ-refl id in ground arith;
  others = λ j m apart. let sound = eqb_ℤ_sound id j in ground (arith, apart);
  others_noted = λ q j m apart. let sound = eqb_ℤ_sound id j in ground (arith, apart);
}

change_down :
    (process : ℕ) (id : ℤ) (i n : ℕ) (k : Kernel)
    → k.values id i ≡ some (suc n)
    → k.adjustments process id i < 65535
    → change process id i (negsuc 0) true k
      ≡ returns (pos 0) (set_semaphore process id i n (k.adjustments process id i + 1) k)
change_down process id i n k now small =
    let down : moved (suc n) (negsuc 0) ≡ some n = ground arith in
    let up : noted (k.adjustments process id i) (negsuc 0) ≡ some (k.adjustments process id i + 1) =
      ground arith in
    rw (now, change) (rw (down, up) refl)

change_sleeps :
    (process : ℕ) (id : ℤ) (i : ℕ) (k : Kernel)
    → k.values id i ≡ some 0
    → change process id i (negsuc 0) true k ≡ sleeps
change_sleeps process id i k now = rw (now, change) refl

change_out_of_range :
    (process : ℕ) (id : ℤ) (i n : ℕ) (k : Kernel)
    → k.values id i ≡ some (suc n)
    → k.adjustments process id i ≡ 65535
    → change process id i (negsuc 0) true k ≡ returns (negsuc 0) k
change_out_of_range process id i n k now most =
    let down : moved (suc n) (negsuc 0) ≡ some n = ground arith in
    let up : noted (k.adjustments process id i) (negsuc 0) ≡ none = ground arith in
    rw (now, change) (rw (down, up) refl)

change_up :
    (process : ℕ) (id : ℤ) (i n a : ℕ) (k : Kernel)
    → k.values id i ≡ some n
    → k.adjustments process id i ≡ suc a
    → change process id i (pos 1) true k ≡ returns (pos 0) (set_semaphore process id i (n + 1) a k)
change_up process id i n a k now some_left =
    let down : noted (k.adjustments process id i) (pos 1) ≡ some a = ground arith in
    rw (now, change) (rw down refl)

attach_same :
    (id a : ℤ) (k : Kernel) (j : ℤ) (i : ℕ) → SameSemaphore kernel j i k (attach_at id a k).1
attach_same id a k j i = (ground arith, λ q. ground arith)

doom_same : (id : ℤ) (k : Kernel) (j : ℤ) (i : ℕ) → SameSemaphore kernel j i k (doom id k)
doom_same id k j i = (ground arith, λ q. ground arith)

detach_same : (a : ℤ) (k : Kernel) (j : ℤ) (i : ℕ) → SameSemaphore kernel j i k (detach_from a k).1
detach_same a k j i = (ground arith, λ q. ground arith)

pub kernel-IsIpc : IsIpc kernel
kernel-IsIpc = record {
  semaem_pos = omega arith;
  down = λ process id i n k now small. (
    _,
    change_down process id i n k now small,
    set_semaphore-Sets process id i n (k.adjustments process id i + 1) k,
  );
  sleeps_at_0 = change_sleeps;
  out_of_range = change_out_of_range;
  up = λ process id i n a k now small some_left.
      (_, change_up process id i n a k now some_left, set_semaphore-Sets process id i (n + 1) a k);
  set_all = λ n vals i k size made. let same = eqb_ℤ-refl (pos k.fresh) in ground arith;
  cleared = λ n vals q i k size made. let same = eqb_ℤ-refl (pos k.fresh) in ground arith;
  segments_apart = λ id a k j i. (attach_same id a k j i, doom_same id k j i, detach_same a k j i);
  attach = λ id g k here given.
      let same = eqb_ℤ-refl id in
      let same_a = eqb_ℤ-refl (pos k.fresh) in (ground (arith, here), ground (arith, here));
  mark = λ id g k here some_one.
      let same = eqb_ℤ-refl id in (ground (arith, here, some_one), λ a. ground (arith, here));
  detach = λ id a n dead k at here. let same = eqb_ℤ-refl id in ground (arith, at, here);
}
