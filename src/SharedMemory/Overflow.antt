-- ===== src/SharedMemory/Overflow.antt =====
-- libs/shmemsem/shmemsem_helper.cpp: SEM_UNDO in `LockSemaphore` and `UnlockSemaphore`, once a set has served
-- SEMAEM samples of a `decryptShmem`.
use open_content_decryption.Base.{ℕ, ◌+◌, ◌*◌, ◌≡◌, ◌≢◌, refl, sym, ◌∙◌, some, arith, inl, inr}
use open_content_decryption.Base.Int.{ℤ}
use open_content_decryption.SharedMemory.{
  Ipc, lock_semaphore, unlock_semaphore, sem_xchng_decrypt, sem_xchng_pull,
}
use open_content_decryption.SharedMemory.Calls.{IsIpc}
use open_content_decryption.SharedMemory.Exclusion.{
  waiting, owns, Sys, Runs, DecryptSem, PullSem, with_client, is_posted, with_thread, answered,
}
use open_content_decryption.SharedMemory.Segments.{SameValues}
use open_content_decryption.SharedMemory.Token.{Runs-Token}
use open_content_decryption.World.{Platform}

module _ (platform : Platform) (ipc : Ipc) (h : IsIpc ipc) (service client : ℕ)
    (apart : service ≢ client) (sem mes_shmem : ℤ) (idx : ℕ) where
  -- The semaphores once a post of the client met the limit.
  record AtLimit (k : ipc.State) : Type 0 where
    raised : ipc.value sem sem_xchng_decrypt k ≡ some 1
    noted : ipc.adjustment service sem sem_xchng_decrypt k ≡ 2 * ipc.semaem + 1
    unanswered : ipc.value sem sem_xchng_pull k ≡ some 0
    answers : ipc.adjustment service sem sem_xchng_pull k ≡ 1
    collects : ipc.adjustment client sem sem_xchng_pull k ≡ 2 * ipc.semaem + 1

  post_overflow :
      (posts : ℕ) (k0 : ipc.State)
      → DecryptSem ipc service client sem 0 0 posts k0
      → PullSem ipc service client sem 0 0 0 posts k0
      → posts ≡ ipc.semaem
      → (k : ipc.State) × (unlock_semaphore ipc client sem sem_xchng_decrypt k0 ≡ some k)
        × AtLimit k
  unfolding unlock_semaphore
  post_overflow posts k0 d u all =
      let (k, given, sets) =
        h.up client sem 1 0 0 k0 d.value (omega arith) (omega (arith, d.posted)) in
      (
        k,
        rw given refl,
        record {
          raised = sets.here;
          noted =
              omega (arith, d.locked, sets.others_noted service sem 1 (inl (λ e. apart (sym e))));
          unanswered = sets.others sem 2 (inr (omega arith)) ∙ u.value;
          answers =
              omega (arith, u.answers, sets.others_noted service sem 2 (inr (inr (omega arith))));
          collects =
              omega (arith, u.collects, sets.others_noted client sem 2 (inr (inr (omega arith))));
        },
      )

  same_AtLimit : (k k1 : ipc.State) → SameValues ipc sem k k1 → AtLimit k → AtLimit k1
  same_AtLimit k k1 same l = record {
    raised = (same 1).0 ∙ l.raised;
    noted = (same 1).1 service ∙ l.noted;
    unanswered = (same 2).0 ∙ l.unanswered;
    answers = (same 2).1 service ∙ l.answers;
    collects = (same 2).1 client ∙ l.collects;
  }

  -- The lock of the thread there, and again once it has answered and the client has collected.
  lock_AtLimit :
      (k : ipc.State) → AtLimit k → lock_semaphore ipc service sem sem_xchng_decrypt k ≡ some k
  unfolding lock_semaphore
  lock_AtLimit k l = rw (h.out_of_range service sem 1 0 k l.raised l.noted) refl

  lock_collected :
      (k : ipc.State)
      → AtLimit k
      → (k2 : ipc.State) × (unlock_semaphore ipc service sem sem_xchng_pull k ≡ some k2)
        × (lock_semaphore ipc client sem sem_xchng_pull k2 ≡ some k2)
        × (lock_semaphore ipc service sem sem_xchng_decrypt k2 ≡ some k2)
  unfolding lock_semaphore unlock_semaphore
  lock_collected k l =
      let (k2, given, sets) = h.up service sem 2 0 0 k l.unanswered (omega arith) l.answers in
      (
        k2,
        rw given refl,
        rw
            (h.out_of_range client sem 2 0 k2 sets.here
              (sets.others_noted client sem 2 (inl apart) ∙ l.collects))
            refl,
        rw
            (h.out_of_range service sem 1 0 k2 (sets.others sem 1 (inr (omega arith)) ∙ l.raised)
              (sets.others_noted service sem 1 (inr (inr (omega arith))) ∙ l.noted))
            refl,
      )

  -- Over system calls that behave as documented, after a history in which as many exchanges as
  -- SEMAEM were posted over a set and collected, while the thread is at its lock: after the
  -- client's next post the thread's `LockSemaphore` returns and takes nothing. In any state then
  -- in which the set and what is noted of it are as after the post, the thread's unlock of
  -- SEM_XCHNG_PULL, the client's lock of it, which takes nothing either, and once more the
  -- thread's lock all return: the thread goes on to its next round while the client owns the
  -- exchanged memory.
  pub lock_overflow :
      {s : Sys ipc}
      → Runs platform ipc service client sem mes_shmem idx s
      → s.turn ≡ owns
      → s.phase ≡ waiting
      → s.posts ≡ ipc.semaem
      → (k : ipc.State) × (unlock_semaphore ipc client sem sem_xchng_decrypt s.kernel ≡ some k)
        × (lock_semaphore ipc service sem sem_xchng_decrypt k ≡ some k)
        × ((k1 : ipc.State)
            → SameValues ipc sem k k1
            → (k2 : ipc.State) × (unlock_semaphore ipc service sem sem_xchng_pull k1 ≡ some k2)
              × (lock_semaphore ipc client sem sem_xchng_pull k2 ≡ some k2)
              × (lock_semaphore ipc service sem sem_xchng_decrypt k2 ≡ some k2))
  lock_overflow {s} history mine waits all =
      elim (Runs-Token platform ipc h service client apart sem mes_shmem idx history).1 [
        | with_client t q d u ↦
            let (k, given, limit) = post_overflow s.posts s.kernel d u all in
            (
              k,
              given,
              lock_AtLimit k limit,
              λ k1 same. lock_collected k1 (same_AtLimit k k1 same limit),
            )
        | is_posted t q m d u ↦ absurd (ground arith)
        | with_thread t q d u ↦ absurd (ground arith)
        | answered t q d u ↦ absurd (ground arith)
      ]
