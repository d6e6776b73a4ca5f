-- ===== src/SharedMemory/Calls.antt =====
-- libs/shmemsem: what the wrappers do, over system calls that behave as documented.
use open_content_decryption.Base.{
  ℕ, suc, ◌+◌, ◌*◌, ◌<◌, ◌≡◌, ◌≢◌, ◌⊎◌, refl, ap, ◌∙◌, Bool, true, false, ◌&&◌, ◌==◌, none, some,
  List, length, get_elem?, ◌-◌, zero, inl, inr, lt→ltb, arith, if◌then◌else◌,
}
use open_content_decryption.Base.Int.{ℤ, pos, negsuc, eqb_ℤ}
use open_content_decryption.Base.Outcome.{ok}
use open_content_decryption.SharedMemory.{
  Ipc, Segment, sleeps, returns, map_segment, detach_existing_shared_memory, create_semaphore_set,
  lock_semaphore,
}

-- One semaphore has a new value, one process has a new adjustment for it, and all others have theirs.
pub record Sets (ipc : Ipc) (process : ℕ) (id : ℤ) (i n a : ℕ) (s s' : ipc.State) : Type 0 where
  pub here : ipc.value id i s' ≡ some n
  pub noted : ipc.adjustment process id i s' ≡ a
  pub others : (j : ℤ) (k : ℕ) → (id ≢ j) ⊎ (i ≢ k) → ipc.value j k s' ≡ ipc.value j k s
  pub others_noted :
      (q : ℕ) (j : ℤ) (k : ℕ)
      → (process ≢ q) ⊎ ((id ≢ j) ⊎ (i ≢ k))
      → ipc.adjustment q j k s' ≡ ipc.adjustment q j k s

-- A semaphore has its value, and every process its adjustment for it.
abbrev pub SameSemaphore : (ipc : Ipc) → ℤ → ℕ → ipc.State → ipc.State → Type 0
SameSemaphore ipc j i s s' =
    (ipc.value j i s' ≡ ipc.value j i s)
    × ((q : ℕ) → ipc.adjustment q j i s' ≡ ipc.adjustment q j i s)

-- semop(2), semctl(2), shmat(2), shmctl(2) and shmdt(2).
pub record IsIpc (ipc : Ipc) : Type 0 where
  pub semaem_pos : 0 < ipc.semaem
  pub down :
      (process : ℕ) (id : ℤ) (i n : ℕ) (s : ipc.State)
      → ipc.value id i s ≡ some (suc n)
      → ipc.adjustment process id i s < 2 * ipc.semaem + 1
      → (s' : ipc.State) × (ipc.semop process id i (negsuc 0) true s ≡ returns (pos 0) s')
        × Sets ipc process id i n (ipc.adjustment process id i s + 1) s s'
  pub sleeps_at_0 :
      (process : ℕ) (id : ℤ) (i : ℕ) (s : ipc.State)
      → ipc.value id i s ≡ some 0
      → ipc.semop process id i (negsuc 0) true s ≡ sleeps
  -- ERANGE: the adjustment would pass SEMAEM.
  pub out_of_range :
      (process : ℕ) (id : ℤ) (i n : ℕ) (s : ipc.State)
      → ipc.value id i s ≡ some (suc n)
      → ipc.adjustment process id i s ≡ 2 * ipc.semaem + 1
      → ipc.semop process id i (negsuc 0) true s ≡ returns (negsuc 0) s
  -- SEMVMX is 32767.
  pub up :
      (process : ℕ) (id : ℤ) (i n a : ℕ) (s : ipc.State)
      → ipc.value id i s ≡ some n
      → n < 32767
      → ipc.adjustment process id i s ≡ suc a
      → (s' : ipc.State) × (ipc.semop process id i (pos 1) true s ≡ returns (pos 0) s')
        × Sets ipc process id i (n + 1) a s s'
  pub set_all :
      (n : ℕ) (vals : List ℕ) (i : ℕ) (s : ipc.State)
      → length vals ≡ n
      → (ipc.semget n s).0 ≢ negsuc 0
      → ipc.value
          (ipc.semget n s).0
          i
          (ipc.semctl_setall (ipc.semget n s).0 vals (ipc.semget n s).1)
        ≡ get_elem? vals i
  -- SETALL clears what is noted for the set.
  pub cleared :
      (n : ℕ) (vals : List ℕ) (process i : ℕ) (s : ipc.State)
      → length vals ≡ n
      → (ipc.semget n s).0 ≢ negsuc 0
      → ipc.adjustment process
          (ipc.semget n s).0
          i
          (ipc.semctl_setall (ipc.semget n s).0 vals (ipc.semget n s).1)
        ≡ ipc.semaem + 1
  pub segments_apart :
      (id a : ℤ) (s : ipc.State) (j : ℤ) (i : ℕ)
      → SameSemaphore ipc j i s (ipc.shmat id a s).1
        × SameSemaphore ipc j i s (ipc.shmctl_rmid id s)
        × SameSemaphore ipc j i s (ipc.shmdt a s).1
  pub attach :
      (id : ℤ) (g : Segment) (s : ipc.State)
      → ipc.segment id s ≡ some g
      → (ipc.shmat id (pos 0) s).0 ≢ negsuc 0
      → (ipc.segment id (ipc.shmat id (pos 0) s).1 ≡ some (record g { attached = g.attached + 1 }))
        × (ipc.attached_at (ipc.shmat id (pos 0) s).0 (ipc.shmat id (pos 0) s).1 ≡ some id)
  pub mark :
      (id : ℤ) (g : Segment) (s : ipc.State)
      → ipc.segment id s ≡ some g
      → 0 < g.attached
      → (ipc.segment id (ipc.shmctl_rmid id s) ≡ some (record g { doomed = true }))
        × ((a : ℤ) → ipc.attached_at a (ipc.shmctl_rmid id s) ≡ ipc.attached_at a s)
  pub detach :
      (id a : ℤ) (n : ℕ) (doomed : Bool) (s : ipc.State)
      → ipc.attached_at a s ≡ some id
      → ipc.segment id s ≡ some (record { attached = n + 1; doomed = doomed })
      → ipc.segment id (ipc.shmdt a s).1
        ≡ (if doomed && n == 0 then none else some (record { attached = n; doomed = doomed }))

module _ (ipc : Ipc) (h : IsIpc ipc) where
  -- The first lock of a process: it sleeps at 0, and takes one from any other value.
  lock_cases :
      (process : ℕ) (id : ℤ) (i v : ℕ) (s : ipc.State)
      → ipc.value id i s ≡ some v
      → ipc.adjustment process id i s ≡ ipc.semaem + 1
      → ((v ≡ 0) × (lock_semaphore ipc process id i s ≡ none))
        ⊎ ((s2 : ipc.State) × (lock_semaphore ipc process id i s ≡ some s2)
            × (ipc.value id i s2 ≡ some (v - 1)))
  unfolding lock_semaphore
  lock_cases process id i zero s e noted = inl (refl, rw (h.sleeps_at_0 process id i s e) refl)
  lock_cases process id i (suc u) s e noted =
      let (s2, taken, sets) = h.down process id i u s e (omega (arith, h.semaem_pos)) in
      let less : u ≡ suc u - 1 = omega arith in inr (s2, rw taken refl, sets.here ∙ ap some less)

  -- Over system calls that behave as documented, for a segment with an id other than 0 that some number
  -- of processes have attached, where it can be attached once more: once it was mapped and detached again, it is gone if this number is 0,
  -- and otherwise it is attached as often as before, and marked to be destroyed.
  pub map_segment-detach :
      (id : ℤ) (n : ℕ) (doomed : Bool) (s : ipc.State)
      → eqb_ℤ id (pos 0) ≡ false
      → ipc.segment id s ≡ some (record { attached = n; doomed = doomed })
      → (ipc.shmat id (pos 0) s).0 ≢ negsuc 0
      → (a : ℤ) × (s1 : ipc.State) × (map_segment ipc id s ≡ ok (a, s1))
        × (ipc.segment id (detach_existing_shared_memory ipc a s1).1
            ≡ (if n == 0 then none else some (record { attached = n; doomed = true })))
  unfolding map_segment detach_existing_shared_memory
  map_segment-detach id n doomed s ne here given =
      let (attached, at) = h.attach id (record { attached = n; doomed = doomed }) s here given in
      let (marked, same) = h.mark id _ (ipc.shmat id (pos 0) s).1 attached (omega arith) in
      (
        _,
        _,
        rw ne refl,
        h.detach id _ n true (ipc.shmctl_rmid id (ipc.shmat id (pos 0) s).1) (same _ ∙ at) marked,
      )

  -- Over system calls that behave as documented: where a new set has an id, every semaphore of it has
  -- the value that it was created with, and locking one succeeds just where this value is not 0.
  pub create_semaphore_set-lock :
      (process n : ℕ) (vals : List ℕ) (i v : ℕ) (s : ipc.State)
      → 0 < n
      → length vals ≡ n
      → (ipc.semget n s).0 ≢ negsuc 0
      → get_elem? vals i ≡ some v
      → (id : ℤ) × (s1 : ipc.State) × (create_semaphore_set ipc n (some vals) s ≡ ok (id, s1))
        × (ipc.value id i s1 ≡ some v)
        × (((v ≡ 0) × (lock_semaphore ipc process id i s1 ≡ none))
            ⊎ ((s2 : ipc.State) × (lock_semaphore ipc process id i s1 ≡ some s2)
                × (ipc.value id i s2 ≡ some (v - 1))))
  unfolding create_semaphore_set
  create_semaphore_set-lock process n vals i v s positive size made here =
      let set = h.set_all n vals i s size made ∙ here in
      (
        _,
        _,
        rw (lt→ltb 0 n positive) refl,
        set,
        lock_cases process _ i v _ set (h.cleared n vals process i s size made),
      )
