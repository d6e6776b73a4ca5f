-- ===== src/SharedMemory/Progress.antt =====
-- The exchange of `decryptShmem`: how a client that waits comes to its answer.
use open_content_decryption.Base.{
  ℕ, ◌*◌, ◌<◌, ◌≤◌, ◌≡◌, ◌≢◌, ◌⊎◌, refl, ap, sym, subst, Option, none, some, Bytes, arith, inl, inr,
}
use open_content_decryption.Base.Int.{ℤ}
use open_content_decryption.Base.Outcome.{ok}
use open_content_decryption.SampleLoop.{finished, decrypted, decrypt_round}
use open_content_decryption.SharedMemory.{
  Ipc, lock_semaphore, unlock_semaphore, sem_xchng_decrypt, sem_xchng_pull,
  detach_existing_shared_memory,
}
use open_content_decryption.SharedMemory.Calls.{IsIpc}
use open_content_decryption.SharedMemory.Exclusion.{
  Phase, waiting, locked, answering, leaving, ended, owns, awaits, Sys, with_sample, Happens, lock,
  decrypt, finish, unlock, leave, write, post, collect, elsewhere, other_sets, Runs, Token,
  with_client, is_posted, with_thread, answered,
}
use open_content_decryption.SharedMemory.Semaphores.{
  blocked, same_result, lock_decrypt, unlock_pull, lock_pull,
}
use open_content_decryption.SharedMemory.Token.{Runs-Token}
use open_content_decryption.SharedMemory.Segments.{SameValues, SameValues-refl, round_segments}
use open_content_decryption.World.{World, Platform}

-- How many operations of the thread are left before the answer, from the value of SEM_XCHNG_DECRYPT.
unfoldable pub steps_left : Phase → Option ℕ → ℕ
steps_left waiting (some n) = 3 * n
steps_left waiting none = 0
steps_left locked _ = 2
steps_left answering _ = 1
steps_left leaving _ = 1
steps_left ended _ = 0

unfoldable pub rank : (ipc : Ipc) → ℤ → Sys ipc → ℕ
rank ipc sem s = steps_left s.phase (ipc.value sem sem_xchng_decrypt s.kernel)

module _ (platform : Platform) (ipc : Ipc) (h : IsIpc ipc) (service client : ℕ)
    (apart : service ≢ client) (sem mes_shmem : ℤ) (idx : ℕ) where
  abbrev T : Sys ipc → Type 0
  T = Token platform ipc service client sem mes_shmem idx

  rank_at_most_3 : (s : Sys ipc) → T s → rank ipc sem s ≤ 3
  unfolding rank steps_left
  rank_at_most_3 s (with_client t (inl q) d u) = rw (q, d.value) (omega arith)
  rank_at_most_3 s (with_client t (inr q) d u) = rw q (omega arith)
  rank_at_most_3 s (is_posted t (inl q) m d u) = rw (q, d.value) (omega arith)
  rank_at_most_3 s (is_posted t (inr q) m d u) = rw q (omega arith)
  rank_at_most_3 s (with_thread t (inl (q, _)) d u) = rw q (omega arith)
  rank_at_most_3 s (with_thread t (inr (inl (q, _))) d u) = rw q (omega arith)
  rank_at_most_3 s (with_thread t (inr (inr (q, _))) d u) = rw q (omega arith)
  rank_at_most_3 s (answered t (inl (q, _)) d u) = rw (q, d.value) (omega arith)
  rank_at_most_3 s (answered t (inr (q, _)) d u) = rw q (omega arith)

  -- Some step of the thread or of the client is possible.
  enabled :
      (s : Sys ipc)
      → T s
      → s.turn ≡ awaits
      → s.phase ≢ ended
      → (s.phase ≡ locked
          → (w : World) × ((decrypt_round platform idx s.memory s.world ≡ ok (finished, w))
              ⊎ ((bytes : Bytes) × (k : ipc.State) × (decrypt_round platform idx s.memory s.world
                    ≡ ok (decrypted bytes, w))
                  × (round_segments ipc s.memory s.kernel ≡ ok (tt, k)))))
      → (s' : Sys ipc) × Happens platform ipc service client sem mes_shmem idx s s'
        × ((s'.turn ≡ owns) ⊎ (rank ipc sem s' < rank ipc sem s))
  unfolding rank steps_left
  enabled s (with_client t q d u) waits runs ends = absurd (ground arith)
  enabled s (is_posted t (inl q) m d u) waits runs ends =
      let (k, taken, _, _) = lock_decrypt ipc h service client apart sem 1 1 s.posts s.kernel d u in
      (
        record s { kernel = k; phase = locked },
        lock k q taken refl,
        inr (rw (q, d.value) (omega arith)),
      )
  enabled s (is_posted t (inr q) m d u) waits runs ends = absurd (runs q)
  enabled s (with_thread t (inl (q, m)) d u) waits runs ends =
      let (w, ending) = ends q in
      elim ending [
        | inl e ↦ (
          record s {
            kernel = (detach_existing_shared_memory ipc mes_shmem s.kernel).1;
            world = w;
            phase = leaving;
          },
          finish w q e refl,
          inr (rw q (omega arith)),
        )
        | inr (bytes, k, e, segments) ↦ (
          record s {
            kernel = k;
            world = w;
            memory = with_sample s.memory bytes;
            phase = answering;
          },
          decrypt bytes w k q e segments refl,
          inr (rw q (omega arith)),
        )
      ]
  enabled s (with_thread t (inr (inl (q, a))) d u) waits runs ends =
      let (k, given, d1, _) = unlock_pull ipc h service client apart sem s.posts s.kernel d u in
      (
        record s { kernel = k; phase = waiting },
        unlock k q given refl,
        inr (rw (q, d1.value) (omega arith)),
      )
  enabled s (with_thread t (inr (inr (q, m))) d u) waits runs ends =
      let (k, given, _, _) = unlock_pull ipc h service client apart sem s.posts s.kernel d u in
      (record s { kernel = k; phase = ended }, leave k q given refl, inr (rw q (omega arith)))
  enabled s (answered t q d u) waits runs ends =
      let (k, taken, _, _) = lock_pull ipc h service client apart sem s.posts s.kernel d u in
      (record s { kernel = k; turn = owns }, collect k waits taken refl, inl refl)

  -- What a step does to the rank.
  abbrev Falls : Sys ipc → Sys ipc → Type 0
  Falls s s' =
      (s'.turn ≡ owns)
      ⊎ ((rank ipc sem s' < rank ipc sem s)
          ⊎ ((w : World) × (k : ipc.State) × SameValues ipc sem s.kernel k
              × (s' ≡ record s { kernel = k; world = w })))

  lock_falls :
      (s : Sys ipc) (k : ipc.State)
      → T s
      → s.phase ≡ waiting
      → lock_semaphore ipc service sem sem_xchng_decrypt s.kernel ≡ some k
      → 2 < rank ipc sem s
  unfolding rank steps_left
  lock_falls s k (with_client t q d u) p e =
      absurd (blocked ipc h service client apart sem service 1 s.kernel k d.value e)
  lock_falls s k (is_posted t q m d u) p e = rw (p, d.value) (omega arith)
  lock_falls s k (with_thread t q d u) p e =
      absurd (blocked ipc h service client apart sem service 1 s.kernel k d.value e)
  lock_falls s k (answered t q d u) p e =
      absurd (blocked ipc h service client apart sem service 1 s.kernel k d.value e)

  -- The unlock leaves SEM_XCHNG_DECRYPT at 0.
  unlock_falls :
      (s : Sys ipc) (k : ipc.State)
      → T s
      → s.phase ≡ answering
      → unlock_semaphore ipc service sem sem_xchng_pull s.kernel ≡ some k
      → ipc.value sem sem_xchng_decrypt k ≡ some 0
  unlock_falls s k (with_client t q d u) p e = absurd (ground arith)
  unlock_falls s k (is_posted t q m d u) p e = absurd (ground arith)
  unlock_falls s k (with_thread t (inl (q, _)) d u) p e = absurd (ground arith)
  unlock_falls s k (with_thread t (inr (inr (q, _))) d u) p e = absurd (ground arith)
  unlock_falls s k (with_thread t (inr (inl (q, _))) d u) p e =
      let (k1, given, d1, _) = unlock_pull ipc h service client apart sem s.posts s.kernel d u in
      same_result (λ z. ipc.value sem sem_xchng_decrypt z ≡ some 0) _ k1 k given e d1.value
  unlock_falls s k (answered t q d u) p e = absurd (ground arith)

  falls :
      (s s' : Sys ipc)
      → T s
      → s.turn ≡ awaits
      → Happens platform ipc service client sem mes_shmem idx s s'
      → Falls s s'
  unfolding rank steps_left
  falls s s' t waits (lock k p e q) = subst (Falls s) (sym q) (inr (inl (lock_falls s k t p e)))
  falls s s' t waits (decrypt bytes w k p e _ q) =
      subst (Falls s) (sym q) (inr (inl (rw p (omega arith))))
  falls s s' t waits (finish w p e q) = subst (Falls s) (sym q) (inr (inl (rw p (omega arith))))
  falls s s' t waits (unlock k p e q) =
      subst (Falls s) (sym q) (inr (inl (rw (p, unlock_falls s k t p e) (omega arith))))
  falls s s' t waits (leave k p e q) = subst (Falls s) (sym q) (inr (inl (rw p (omega arith))))
  falls s s' t waits (write x p q) = absurd (ground arith)
  falls s s' t waits (post k p _ e q) = absurd (ground arith)
  falls s s' t waits (collect k p e q) = inl (ap (λ x. x.turn) q)
  falls s s' t waits (elsewhere w step q) =
      inr (inr (w, s.kernel, SameValues-refl ipc sem s.kernel, q))
  falls s s' t waits (other_sets k same q) = inr (inr (s.world, k, same, q))

  -- Over system calls that behave as documented, after any history in which the client, which
  -- posts at most SEMAEM exchanges over the set, now waits for its answer and the thread has not
  -- ended: if the thread, where it holds the lock, has a round that comes to an end, over
  -- segments that can be mapped, then a step of the thread or of the client is possible that
  -- brings the answer nearer or hands it over. And whatever happens, of them or of the rest of
  -- the process, either does so or leaves all as it was but the process's own state, other
  -- semaphores and segments. The rank is at most 3.
  pub rank_falls :
      {s : Sys ipc}
      → Runs platform ipc service client sem mes_shmem idx s
      → s.turn ≡ awaits
      → s.phase ≢ ended
      → (s.phase ≡ locked
          → (w : World) × ((decrypt_round platform idx s.memory s.world ≡ ok (finished, w))
              ⊎ ((bytes : Bytes) × (k : ipc.State) × (decrypt_round platform idx s.memory s.world
                    ≡ ok (decrypted bytes, w))
                  × (round_segments ipc s.memory s.kernel ≡ ok (tt, k)))))
      → (rank ipc sem s ≤ 3)
        × ((s' : Sys ipc) × Happens platform ipc service client sem mes_shmem idx s s'
            × ((s'.turn ≡ owns) ⊎ (rank ipc sem s' < rank ipc sem s)))
        × ((s' : Sys ipc)
            → Happens platform ipc service client sem mes_shmem idx s s'
            → (s'.turn ≡ owns)
              ⊎ ((rank ipc sem s' < rank ipc sem s)
                  ⊎ ((w : World) × (k : ipc.State) × SameValues ipc sem s.kernel k
                      × (s' ≡ record s { kernel = k; world = w }))))
  unfolding rank steps_left
  rank_falls {s} history waits runs ends =
      let token = (Runs-Token platform ipc h service client apart sem mes_shmem idx history).1 in
      (
        rank_at_most_3 s token,
        enabled s token waits runs ends,
        λ s' move. falls s s' token waits move,
      )
