-- ===== src/SharedMemory/Answered.antt =====
-- The exchange of `decryptShmem`: who is at the memory, and what the client collects.
use open_content_decryption.Base.{ℕ, ◌≡◌, ◌≢◌, ◌⊎◌, some, arith, inl, inr}
use open_content_decryption.Base.Int.{ℤ}
use open_content_decryption.SharedMemory.{Ipc, lock_semaphore, sem_xchng_pull}
use open_content_decryption.SharedMemory.Calls.{IsIpc}
use open_content_decryption.SharedMemory.Exclusion.{
  waiting, ended, owns, Sys, Runs, Answers, with_client, is_posted, with_thread, answered,
}
use open_content_decryption.SharedMemory.Semaphores.{blocked}
use open_content_decryption.SharedMemory.Token.{Runs-Token}
use open_content_decryption.World.{Platform}

module _ (platform : Platform) (ipc : Ipc) (h : IsIpc ipc) (service client : ℕ)
    (apart : service ≢ client) (sem mes_shmem : ℤ) (idx : ℕ) where
  -- Over system calls that behave as documented, after any history of the thread, a client that
  -- keeps the protocol and posts at most SEMAEM exchanges over the set, and the rest of the
  -- process: while the client owns the exchanged memory, the thread is at its lock or has ended.
  pub owns_alone :
      {s : Sys ipc}
      → Runs platform ipc service client sem mes_shmem idx s
      → s.turn ≡ owns
      → (s.phase ≡ waiting) ⊎ (s.phase ≡ ended)
  owns_alone {s} history mine =
      elim (Runs-Token platform ipc h service client apart sem mes_shmem idx history).1 [
        | with_client t q d u ↦ q
        | is_posted t q m d u ↦ q
        | with_thread t q d u ↦ absurd (ground arith)
        | answered t q d u ↦ absurd (ground arith)
      ]

  -- Over system calls that behave as documented, after any history of the thread, a client that
  -- keeps the protocol and posts at most SEMAEM exchanges over the set, and the rest of the
  -- process: where the thread has not ended and SEM_XCHNG_PULL can be locked, the exchanged
  -- memory is what one round of the thread made of the last exchange that was posted, in a state
  -- that the process was in.
  pub collect-Answers :
      {s : Sys ipc} (k : ipc.State)
      → Runs platform ipc service client sem mes_shmem idx s
      → s.phase ≢ ended
      → lock_semaphore ipc client sem sem_xchng_pull s.kernel ≡ some k
      → Answers platform ipc service client sem mes_shmem idx s.posted s.memory
  collect-Answers {s} k history runs taken =
      elim (Runs-Token platform ipc h service client apart sem mes_shmem idx history).1 [
        | with_client t q d u ↦
            absurd (blocked ipc h service client apart sem client 2 s.kernel k u.value taken)
        | is_posted t q m d u ↦
            absurd (blocked ipc h service client apart sem client 2 s.kernel k u.value taken)
        | with_thread t q d u ↦
            absurd (blocked ipc h service client apart sem client 2 s.kernel k u.value taken)
        | answered t (inl (q, a)) d u ↦ a
        | answered t (inr (q, m)) d u ↦ absurd (runs q)
      ]
