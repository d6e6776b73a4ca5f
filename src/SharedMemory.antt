-- ===== src/SharedMemory.antt =====
-- libs/shmemsem: System V shared memory and semaphores. The system calls are a parameter.
pub mod Calls
pub mod Segments
pub mod Exclusion
pub mod Semaphores
pub mod Token
pub mod Answered
pub mod Clear
pub mod Progress
pub mod Ended
pub mod Overflow
use open_content_decryption.Base.{
  ℕ, ◌+◌, ◌≡◌, ◌⊎◌, ◌≢◌, Bool, true, false, not, ◌&&◌, ◌==◌, ltb, Option, none, some, List, length,
  get_elem?, if◌then◌else◌,
}
use open_content_decryption.Base.Int.{ℤ, pos, negsuc, eqb_ℤ}
use open_content_decryption.Base.Outcome.{Outcome, ok, fault, assertion, exited}

-- How many processes have a segment attached, and whether it is to be destroyed.
pub record Segment : Type 0 where
  pub attached : ℕ
  pub doomed : Bool

-- What `semop` does: the caller sleeps, or the call returns, -1 where it failed.
pub data Semop (S : Type 0) : Type 0 where
  sleeps : Semop S
  returns : ℤ → S → Semop S

-- The system calls, and what can be observed of the kernel's state: the value of a semaphore of a set,
-- what is noted for a process to be undone when it ends (`semadj`), a segment by its id, and the id of
-- the segment attached at an address. `semadj` lies between -SEMAEM - 1 and SEMAEM; `adjustment` is
-- `semadj` + SEMAEM + 1.
pub record Ipc : Type 1 where
  pub State : Type 0
  pub value : ℤ → ℕ → State → Option ℕ
  pub semaem : ℕ
  pub adjustment : ℕ → ℤ → ℕ → State → ℕ
  pub segment : ℤ → State → Option Segment
  pub attached_at : ℤ → State → Option ℤ
  -- `shmget(IPC_PRIVATE, n, …)`, `shmat(id, address, 0)` with address 0 for NULL, `shmctl(id, IPC_RMID, …)`
  -- and `shmdt(address)`
  pub shmget : ℕ → State → ℤ × State
  pub shmat : ℤ → ℤ → State → ℤ × State
  pub shmctl_rmid : ℤ → State → State
  pub shmdt : ℤ → State → ℤ × State
  -- `semget(IPC_PRIVATE, n, …)`, `semctl(id, 0, SETALL, …)`, `semctl(id, 0, IPC_RMID, …)`, and `semop` of
  -- one operation by a process, without IPC_NOWAIT and with or without SEM_UNDO
  pub semget : ℕ → State → ℤ × State
  pub semctl_setall : ℤ → List ℕ → State → State
  pub semctl_rmid : ℤ → State → ℤ × State
  pub semop : ℕ → ℤ → ℕ → ℤ → Bool → State → Semop State

-- The semaphores of an exchange.
abbrev pub sem_xchng_push : ℕ
sem_xchng_push = 0

abbrev pub sem_xchng_decrypt : ℕ
sem_xchng_decrypt = 1

abbrev pub sem_xchng_pull : ℕ
sem_xchng_pull = 2

module _ (ipc : Ipc) where
  open ipc use {State, shmget, shmat, shmctl_rmid, shmdt, semget, semctl_setall, semctl_rmid, semop}

  unfoldable pub allocate_shared_memory : ℕ → State → Outcome (ℤ × State)
  allocate_shared_memory n s = if ltb 0 n then ok (shmget n s) else fault assertion

  -- `MapSharedMemory` attaches the segment and marks it destroyed.
  unfoldable pub map_segment : ℤ → State → Outcome (ℤ × State)
  map_segment id s =
      if eqb_ℤ id (pos 0)
      then fault assertion
      else (let (address, s1) = shmat id (pos 0) s in ok (address, shmctl_rmid id s1))

  unfoldable pub map_existing_shared_memory : ℤ → ℤ → State → Outcome (ℤ × State)
  map_existing_shared_memory id existing_addr s =
      if eqb_ℤ id (pos 0)
      then fault assertion
      else (let (address, s1) = shmat id existing_addr s in ok (address, shmctl_rmid id s1))

  unfoldable pub detach_existing_shared_memory : ℤ → State → ℤ × State
  detach_existing_shared_memory existing_addr s = shmdt existing_addr s

  -- `CreateSemaphoreSet`, with `none` for `vals == NULL`.
  unfoldable pub create_semaphore_set : ℕ → Option (List ℕ) → State → Outcome (ℤ × State)
  create_semaphore_set n vals s = if not (ltb 0 n) then fault assertion else elim vals [
    | none ↦ fault assertion
    | some values ↦ (let (id, s1) = semget n s in ok (id, semctl_setall id values s1))
  ]

  unfoldable pub delete_semaphore_set : ℤ → State → Outcome (Unit {0} × State)
  delete_semaphore_set id s =
      let (result, s1) = semctl_rmid id s in
      if eqb_ℤ result (negsuc 0) then fault exited else ok (tt, s1)

  -- How `LockSemaphore` and `UnlockSemaphore` go on: the result of `semop` is not looked at, so that they
  -- return also where it failed.
  abbrev after_semop : Semop State → Option State
  after_semop sleeps = none
  after_semop (returns _ s) = some s

  -- `LockSemaphore` and `UnlockSemaphore`, called by a process, both with SEM_UNDO; `none` is a caller
  -- that sleeps.
  unfoldable pub lock_semaphore : ℕ → ℤ → ℕ → State → Option State
  lock_semaphore process id i s = after_semop (semop process id i (negsuc 0) true s)

  unfoldable pub unlock_semaphore : ℕ → ℤ → ℕ → State → Option State
  unlock_semaphore process id i s = after_semop (semop process id i (pos 1) true s)
