-- ===== src/SharedMemory/Semaphores.antt =====
-- The semaphores of an exchange: each lock and unlock of the thread and of its client, with what is noted
-- of it to be undone.
use open_content_decryption.Base.{
  ℕ, suc, ◌+◌, ◌-◌, ◌<◌, ◌≡◌, ◌≢◌, refl, sym, subst, ◌∙◌, Option, some, arith, inl, inr,
}
use open_content_decryption.Base.Int.{ℤ}
use open_content_decryption.SharedMemory.{
  Ipc, lock_semaphore, unlock_semaphore, sem_xchng_decrypt, sem_xchng_pull,
}
use open_content_decryption.SharedMemory.Calls.{IsIpc, Sets}
use open_content_decryption.SharedMemory.Exclusion.{DecryptSem, PullSem}

-- Two results of one operation.
pub same_result :
    {A : Type 0} (P : A → Type 0) (o : Option A) (a b : A) → o ≡ some a → o ≡ some b → P a → P b
same_result P o a b e e' p = let same : a ≡ b = cc in subst P same p

module _ (ipc : Ipc) (h : IsIpc ipc) (service client : ℕ) (apart : service ≢ client) (sem : ℤ) where
  abbrev D : ℕ → ℕ → ℕ → ipc.State → Type 0
  D = DecryptSem ipc service client sem

  abbrev U : ℕ → ℕ → ℕ → ℕ → ipc.State → Type 0
  U = PullSem ipc service client sem

  pub blocked :
      (process i : ℕ) (k k' : ipc.State)
      → ipc.value sem i k ≡ some 0
      → lock_semaphore ipc process sem i k ≢ some k'
  unfolding lock_semaphore
  blocked process i k k' zero_now taken =
      let none_taken = h.sleeps_at_0 process sem i k zero_now in cc (rw none_taken at taken)

  -- What happens to one semaphore leaves the other.
  keep_pull :
      (process n a v x y posts : ℕ) (k k' : ipc.State)
      → Sets ipc process sem 1 n a k k'
      → U v x y posts k
      → U v x y posts k'
  keep_pull process n a v x y posts k k' sets u = record {
    value = sets.others sem 2 (inr (omega arith)) ∙ u.value;
    answers = rw (sets.others_noted service sem 2 (inr (inr (omega arith)))) u.answers;
    collects = rw (sets.others_noted client sem 2 (inr (inr (omega arith)))) u.collects;
  }

  keep_decrypt :
      (process n a v x posts : ℕ) (k k' : ipc.State)
      → Sets ipc process sem 2 n a k k'
      → D v x posts k
      → D v x posts k'
  keep_decrypt process n a v x posts k k' sets d = record {
    value = sets.others sem 1 (inr (omega arith)) ∙ d.value;
    locked = rw (sets.others_noted service sem 1 (inr (inr (omega arith)))) d.locked;
    posted = rw (sets.others_noted client sem 1 (inr (inr (omega arith)))) d.posted;
    within = d.within;
  }

  -- The lock of the thread.
  pub lock_decrypt :
      (x y posts : ℕ) (k : ipc.State)
      → D 1 1 posts k
      → U 0 x y posts k
      → (k' : ipc.State) × (lock_semaphore ipc service sem sem_xchng_decrypt k ≡ some k')
        × D 0 0 posts k'
        × U 0 x y posts k'
  unfolding lock_semaphore
  lock_decrypt x y posts k d u =
      let (k', taken, sets) =
        h.down service sem 1 0 k d.value (omega (arith, d.locked, d.within)) in
      (
        k',
        rw taken refl,
        record {
          value = sets.here;
          locked = omega (arith, d.locked, sets.noted);
          posted = rw (sets.others_noted client sem 1 (inl apart)) d.posted;
          within = d.within;
        },
        keep_pull service _ _ 0 x y posts k k' sets u,
      )

  -- The unlock of the thread.
  pub unlock_pull :
      (posts : ℕ) (k : ipc.State)
      → D 0 0 posts k
      → U 0 1 1 posts k
      → (k' : ipc.State) × (unlock_semaphore ipc service sem sem_xchng_pull k ≡ some k')
        × D 0 0 posts k'
        × U 1 0 1 posts k'
  unfolding unlock_semaphore
  unlock_pull posts k d u =
      let a = ipc.adjustment service sem sem_xchng_pull k in
      let some_left : a ≡ suc (a - 1) = omega (arith, u.answers, d.within) in
      let (k', given, sets) = h.up service sem 2 0 (a - 1) k u.value (omega arith) some_left in
      (
        k',
        rw given refl,
        keep_decrypt service _ _ 0 0 posts k k' sets d,
        record {
          value = sets.here;
          answers = omega (arith, u.answers, sets.noted, d.within);
          collects = rw (sets.others_noted client sem 2 (inl apart)) u.collects;
        },
      )

  -- The client's unlock.
  pub unlock_decrypt :
      (posts : ℕ) (k : ipc.State)
      → posts < ipc.semaem
      → D 0 0 posts k
      → U 0 0 0 posts k
      → (k' : ipc.State) × (unlock_semaphore ipc client sem sem_xchng_decrypt k ≡ some k')
        × D 1 1 (posts + 1) k'
        × U 0 1 1 (posts + 1) k'
  unfolding unlock_semaphore
  unlock_decrypt posts k few d u =
      let a = ipc.adjustment client sem sem_xchng_decrypt k in
      let some_left : a ≡ suc (a - 1) = omega (arith, d.posted, d.within) in
      let (k', given, sets) = h.up client sem 1 0 (a - 1) k d.value (omega arith) some_left in
      let kept = keep_pull client _ _ 0 0 0 posts k k' sets u in
      (
        k',
        rw given refl,
        record {
          value = sets.here;
          locked =
              omega (arith, d.locked, sets.others_noted service sem 1 (inl (λ e. apart (sym e))));
          posted = omega (arith, d.posted, sets.noted, d.within);
          within = omega arith;
        },
        record {
          value = kept.value;
          answers = omega (arith, kept.answers);
          collects = omega (arith, kept.collects);
        },
      )

  -- The client's lock.
  pub lock_pull :
      (posts : ℕ) (k : ipc.State)
      → D 0 0 posts k
      → U 1 0 1 posts k
      → (k' : ipc.State) × (lock_semaphore ipc client sem sem_xchng_pull k ≡ some k')
        × D 0 0 posts k'
        × U 0 0 0 posts k'
  unfolding lock_semaphore
  lock_pull posts k d u =
      let (k', taken, sets) =
        h.down client sem 2 0 k u.value (omega (arith, u.collects, d.within)) in
      (
        k',
        rw taken refl,
        keep_decrypt client _ _ 0 0 posts k k' sets d,
        record {
          value = sets.here;
          answers = rw (sets.others_noted service sem 2 (inl (λ e. apart (sym e)))) u.answers;
          collects = omega (arith, u.collects, sets.noted);
        },
      )
