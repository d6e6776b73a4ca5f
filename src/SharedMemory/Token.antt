-- ===== src/SharedMemory/Token.antt =====
-- The exchange of `decryptShmem`: one token goes round, from the client to the thread and back.
use open_content_decryption.Base.{
  ℕ, ◌+◌, ◌<◌, ◌≡◌, ◌≢◌, refl, ap, sym, subst, ◌∙◌, some, Bytes, arith, inl, inr,
}
use open_content_decryption.Base.Int.{ℤ}
use open_content_decryption.Base.Outcome.{ok}
use open_content_decryption.SampleLoop.{Exchange, finished, decrypted, decrypt_round}
use open_content_decryption.Service.Steps
use open_content_decryption.Service.Steps.{Reach, start, next}
use open_content_decryption.SharedMemory.{
  Ipc, lock_semaphore, unlock_semaphore, sem_xchng_decrypt, sem_xchng_pull,
}
use open_content_decryption.SharedMemory.Calls.{IsIpc}
use open_content_decryption.SharedMemory.Exclusion.{
  waiting, locked, answering, leaving, ended, owns, awaits, Sys, with_sample, Happens, lock,
  decrypt, finish, unlock, leave, write, post, collect, elsewhere, other_sets, Runs, begin, more,
  DecryptSem, PullSem, Token, with_client, is_posted, with_thread, answered,
}
use open_content_decryption.SharedMemory.Semaphores.{
  same_result, blocked, lock_decrypt, unlock_pull, unlock_decrypt, lock_pull,
}
use open_content_decryption.SharedMemory.Segments.{
  SameValues, round_segments-SameValues, detach-SameValues,
}
use open_content_decryption.World.{World, Platform}

module _ (platform : Platform) (ipc : Ipc) (h : IsIpc ipc) (service client : ℕ)
    (apart : service ≢ client) (sem mes_shmem : ℤ) (idx : ℕ) where
  abbrev T : Sys ipc → Type 0
  T = Token platform ipc service client sem mes_shmem idx

  lock-Token :
      (s : Sys ipc) (k : ipc.State)
      → s.phase ≡ waiting
      → lock_semaphore ipc service sem sem_xchng_decrypt s.kernel ≡ some k
      → T s
      → T (record s { kernel = k; phase = locked })
  lock-Token s k p e (with_client t q d u) =
      absurd (blocked ipc h service client apart sem service 1 s.kernel k d.value e)
  lock-Token s k p e (is_posted t q m d u) =
      let (k1, taken, d1, u1) =
        lock_decrypt ipc h service client apart sem 1 1 s.posts s.kernel d u in
      same_result (λ z. T (record s { kernel = z; phase = locked })) _ k1 k taken e
        (with_thread t (inl (refl, m)) d1 u1)
  lock-Token s k p e (with_thread t q d u) =
      absurd (blocked ipc h service client apart sem service 1 s.kernel k d.value e)
  lock-Token s k p e (answered t q d u) =
      absurd (blocked ipc h service client apart sem service 1 s.kernel k d.value e)

  same_decrypt :
      (v x posts : ℕ) (k k' : ipc.State)
      → SameValues ipc sem k k'
      → DecryptSem ipc service client sem v x posts k
      → DecryptSem ipc service client sem v x posts k'
  same_decrypt v x posts k k' same d = record {
    value = (same 1).0 ∙ d.value;
    locked = rw ((same 1).1 service) d.locked;
    posted = rw ((same 1).1 client) d.posted;
    within = d.within;
  }

  same_pull :
      (v x y posts : ℕ) (k k' : ipc.State)
      → SameValues ipc sem k k'
      → PullSem ipc service client sem v x y posts k
      → PullSem ipc service client sem v x y posts k'
  same_pull v x y posts k k' same u = record {
    value = (same 2).0 ∙ u.value;
    answers = rw ((same 2).1 service) u.answers;
    collects = rw ((same 2).1 client) u.collects;
  }

  -- Other sets and segments may change under the token.
  same-Token :
      (s : Sys ipc) (k : ipc.State)
      → SameValues ipc sem s.kernel k
      → T s
      → T (record s { kernel = k })
  same-Token s k same (with_client t q d u) =
      with_client t q (same_decrypt _ _ _ s.kernel k same d) (same_pull _ _ _ _ s.kernel k same u)
  same-Token s k same (is_posted t q m d u) =
      is_posted t q m (same_decrypt _ _ _ s.kernel k same d) (same_pull _ _ _ _ s.kernel k same u)
  same-Token s k same (with_thread t q d u) =
      with_thread t q (same_decrypt _ _ _ s.kernel k same d) (same_pull _ _ _ _ s.kernel k same u)
  same-Token s k same (answered t q d u) =
      answered t q (same_decrypt _ _ _ s.kernel k same d) (same_pull _ _ _ _ s.kernel k same u)

  decrypted-Token :
      (s : Sys ipc) (bytes : Bytes) (w : World)
      → Reach platform s.world
      → s.phase ≡ locked
      → decrypt_round platform idx s.memory s.world ≡ ok (decrypted bytes, w)
      → T s
      → T (record s { world = w; memory = with_sample s.memory bytes; phase = answering })
  decrypted-Token s bytes w r p e (with_client t q d u) = absurd (ground arith)
  decrypted-Token s bytes w r p e (is_posted t q m d u) = absurd (ground arith)
  decrypted-Token s bytes w r p e (with_thread t (inl (q, m)) d u) =
      with_thread t
        (inr (
          inl (
            refl,
            record {
              before = s.world;
              after = w;
              reached = r;
              bytes = bytes;
              round =
                  subst (λ x. decrypt_round platform idx x s.world ≡ ok (decrypted bytes, w)) m e;
              written = ap (λ x. with_sample x bytes) m;
            },
          )))
        d u
  decrypted-Token s bytes w r p e (with_thread t (inr q) d u) = absurd (ground arith)
  decrypted-Token s bytes w r p e (answered t q d u) = absurd (ground arith)

  finish-Token :
      (s : Sys ipc) (w : World)
      → s.phase ≡ locked
      → T s
      → T (record s { world = w; phase = leaving })
  finish-Token s w p (with_client t q d u) = absurd (ground arith)
  finish-Token s w p (is_posted t q m d u) = absurd (ground arith)
  finish-Token s w p (with_thread t (inl (q, m)) d u) = with_thread t (inr (inr (refl, m))) d u
  finish-Token s w p (with_thread t (inr q) d u) = absurd (ground arith)
  finish-Token s w p (answered t q d u) = absurd (ground arith)

  unlock-Token :
      (s : Sys ipc) (k : ipc.State)
      → s.phase ≡ answering
      → unlock_semaphore ipc service sem sem_xchng_pull s.kernel ≡ some k
      → T s
      → T (record s { kernel = k; phase = waiting })
  unlock-Token s k p e (with_client t q d u) = absurd (ground arith)
  unlock-Token s k p e (is_posted t q m d u) = absurd (ground arith)
  unlock-Token s k p e (with_thread t (inl q) d u) = absurd (ground arith)
  unlock-Token s k p e (with_thread t (inr (inl (q, a))) d u) =
      let (k1, given, d1, u1) = unlock_pull ipc h service client apart sem s.posts s.kernel d u in
      same_result (λ z. T (record s { kernel = z; phase = waiting })) _ k1 k given e
        (answered t (inl (refl, a)) d1 u1)
  unlock-Token s k p e (with_thread t (inr (inr q)) d u) = absurd (ground arith)
  unlock-Token s k p e (answered t q d u) = absurd (ground arith)

  leave-Token :
      (s : Sys ipc) (k : ipc.State)
      → s.phase ≡ leaving
      → unlock_semaphore ipc service sem sem_xchng_pull s.kernel ≡ some k
      → T s
      → T (record s { kernel = k; phase = ended })
  leave-Token s k p e (with_client t q d u) = absurd (ground arith)
  leave-Token s k p e (is_posted t q m d u) = absurd (ground arith)
  leave-Token s k p e (with_thread t (inl q) d u) = absurd (ground arith)
  leave-Token s k p e (with_thread t (inr (inl q)) d u) = absurd (ground arith)
  leave-Token s k p e (with_thread t (inr (inr (q, m))) d u) =
      let (k1, given, d1, u1) = unlock_pull ipc h service client apart sem s.posts s.kernel d u in
      same_result (λ z. T (record s { kernel = z; phase = ended })) _ k1 k given e
        (answered t (inr (refl, m)) d1 u1)
  leave-Token s k p e (answered t q d u) = absurd (ground arith)

  write-Token : (s : Sys ipc) (x : Exchange) → s.turn ≡ owns → T s → T (record s { memory = x })
  write-Token s x p (with_client t q d u) = with_client t q d u
  write-Token s x p (is_posted t q m d u) = absurd (ground arith)
  write-Token s x p (with_thread t q d u) = absurd (ground arith)
  write-Token s x p (answered t q d u) = absurd (ground arith)

  post-Token :
      (s : Sys ipc) (k : ipc.State)
      → s.turn ≡ owns
      → s.posts < ipc.semaem
      → unlock_semaphore ipc client sem sem_xchng_decrypt s.kernel ≡ some k
      → T s
      → T (record s { kernel = k; turn = awaits; posted = s.memory; posts = s.posts + 1 })
  post-Token s k p few e (with_client t q d u) =
      let (k1, given, d1, u1) =
        unlock_decrypt ipc h service client apart sem s.posts s.kernel few d u in
      same_result
        (λ z. T (record s { kernel = z; turn = awaits; posted = s.memory; posts = s.posts + 1 })) _
        k1 k given e (is_posted refl q refl d1 u1)
  post-Token s k p few e (is_posted t q m d u) = absurd (ground arith)
  post-Token s k p few e (with_thread t q d u) = absurd (ground arith)
  post-Token s k p few e (answered t q d u) = absurd (ground arith)

  collect-Token :
      (s : Sys ipc) (k : ipc.State)
      → lock_semaphore ipc client sem sem_xchng_pull s.kernel ≡ some k
      → T s
      → T (record s { kernel = k; turn = owns })
  collect-Token s k e (with_client t q d u) =
      absurd (blocked ipc h service client apart sem client 2 s.kernel k u.value e)
  collect-Token s k e (is_posted t q m d u) =
      absurd (blocked ipc h service client apart sem client 2 s.kernel k u.value e)
  collect-Token s k e (with_thread t q d u) =
      absurd (blocked ipc h service client apart sem client 2 s.kernel k u.value e)
  collect-Token s k e (answered t q d u) =
      let (k1, taken, d1, u1) = lock_pull ipc h service client apart sem s.posts s.kernel d u in
      same_result (λ z. T (record s { kernel = z; turn = owns })) _ k1 k taken e
        (with_client refl (elim q [ inl (a, _) ↦ inl a | inr (b, _) ↦ inr b ]) d1 u1)

  -- The world may change under the token.
  elsewhere-Token : (s : Sys ipc) (w : World) → T s → T (record s { world = w })
  elsewhere-Token s w (with_client t q d u) = with_client t q d u
  elsewhere-Token s w (is_posted t q m d u) = is_posted t q m d u
  elsewhere-Token s w (with_thread t q d u) = with_thread t q d u
  elsewhere-Token s w (answered t q d u) = answered t q d u

  abbrev Good : Sys ipc → Type 0
  Good s = Reach platform s.world × T s

  Happens-Good :
      (s s' : Sys ipc)
      → Happens platform ipc service client sem mes_shmem idx s s'
      → Good s
      → Good s'
  Happens-Good s s' (lock k p e q) (r, t) = subst Good (sym q) (r, lock-Token s k p e t)
  Happens-Good s s' (decrypt bytes w k p e seg q) (r, t) = subst Good (sym q) (
    next r (Steps.sample idx s.memory (decrypted bytes) e),
    same-Token _ k (round_segments-SameValues ipc h sem s.memory s.kernel k seg)
        (decrypted-Token s bytes w r p e t),
  )
  Happens-Good s s' (finish w p e q) (r, t) = subst Good (sym q) (
    next r (Steps.sample idx s.memory finished e),
    same-Token _ _ (detach-SameValues ipc h sem mes_shmem s.kernel) (finish-Token s w p t),
  )
  Happens-Good s s' (unlock k p e q) (r, t) = subst Good (sym q) (r, unlock-Token s k p e t)
  Happens-Good s s' (leave k p e q) (r, t) = subst Good (sym q) (r, leave-Token s k p e t)
  Happens-Good s s' (write x p q) (r, t) = subst Good (sym q) (r, write-Token s x p t)
  Happens-Good s s' (post k p few e q) (r, t) = subst Good (sym q) (r, post-Token s k p few e t)
  Happens-Good s s' (collect k p e q) (r, t) = subst Good (sym q) (r, collect-Token s k e t)
  Happens-Good s s' (elsewhere w step q) (r, t) =
      subst Good (sym q) (next r step, elsewhere-Token s w t)
  Happens-Good s s' (other_sets k same q) (r, t) = subst Good (sym q) (r, same-Token s k same t)

  -- In every state of a history there is one token, and the process is in a state of its own histories.
  pub Runs-Token :
      {s : Sys ipc}
      → Runs platform ipc service client sem mes_shmem idx s
      → Reach platform s.world × Token platform ipc service client sem mes_shmem idx s
  Runs-Token (begin shmem k0 k w x posts m a d u r) = (r, with_client refl (inl refl) d u)
  Runs-Token (more {s} {s'} runs move) = Happens-Good s s' move (Runs-Token runs)
