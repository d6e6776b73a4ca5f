-- ===== src/SharedMemory/Ended.antt =====
-- The exchange of `decryptShmem`: a client that posts once the thread has ended.
use open_content_decryption.Base.{ℕ, ◌+◌, ◌<◌, ◌≡◌, ◌≢◌, refl, subst, ◌∙◌, some, arith}
use open_content_decryption.Base.Int.{ℤ}
use open_content_decryption.SharedMemory.{Ipc, unlock_semaphore, sem_xchng_decrypt}
use open_content_decryption.SharedMemory.Calls.{IsIpc}
use open_content_decryption.SharedMemory.Exclusion.{
  ended, owns, awaits, Sys, Happens, lock, decrypt, finish, unlock, leave, write, post, collect,
  elsewhere, other_sets, Runs, more, Later, still, later, Token, with_client, is_posted,
  with_thread, answered,
}
use open_content_decryption.SharedMemory.Semaphores.{blocked, same_result, unlock_decrypt}
use open_content_decryption.SharedMemory.Token.{Runs-Token}
use open_content_decryption.SharedMemory.Segments.{SameValues, SameValues-refl, SameValues-trans}
use open_content_decryption.World.{World, Platform}

module _ (platform : Platform) (ipc : Ipc) (h : IsIpc ipc) (service client : ℕ)
    (apart : service ≢ client) (sem mes_shmem : ℤ) (idx : ℕ) where
  abbrev T : Sys ipc → Type 0
  T = Token platform ipc service client sem mes_shmem idx

  post_stuck :
      (s s' : Sys ipc)
      → T s
      → s.phase ≡ ended
      → s.turn ≡ awaits
      → ipc.value sem sem_xchng_decrypt s.kernel ≡ some 1
      → Happens platform ipc service client sem mes_shmem idx s s'
      → (w : World) × (k : ipc.State) × SameValues ipc sem s.kernel k
        × (s' ≡ record s { kernel = k; world = w })
  post_stuck s s' t over waits one (lock k p e q) = absurd (ground arith)
  post_stuck s s' t over waits one (decrypt bytes w k p e _ q) = absurd (ground arith)
  post_stuck s s' t over waits one (finish w p e q) = absurd (ground arith)
  post_stuck s s' t over waits one (unlock k p e q) = absurd (ground arith)
  post_stuck s s' t over waits one (leave k p e q) = absurd (ground arith)
  post_stuck s s' t over waits one (write x p q) = absurd (ground arith)
  post_stuck s s' t over waits one (post k p _ e q) = absurd (ground arith)
  post_stuck s s' (with_client t p d u) over waits one (collect k _ e q) = absurd (ground arith)
  post_stuck s s' (is_posted t p m d u) over waits one (collect k _ e q) =
      absurd (blocked ipc h service client apart sem client 2 s.kernel k u.value e)
  post_stuck s s' (with_thread t p d u) over waits one (collect k _ e q) =
      absurd (blocked ipc h service client apart sem client 2 s.kernel k u.value e)
  post_stuck s s' (answered t p d u) over waits one (collect k _ e q) = absurd (ground arith)
  post_stuck s s' t over waits one (elsewhere w step q) =
      (w, s.kernel, SameValues-refl ipc sem s.kernel, q)
  post_stuck s s' t over waits one (other_sets k same q) = (s.world, k, same, q)

  decrypt_1 :
      (s : Sys ipc) (k : ipc.State)
      → T s
      → s.turn ≡ owns
      → s.posts < ipc.semaem
      → unlock_semaphore ipc client sem sem_xchng_decrypt s.kernel ≡ some k
      → ipc.value sem sem_xchng_decrypt k ≡ some 1
  decrypt_1 s k (with_client t q d u) mine few e =
      let (k1, given, d1, _) =
        unlock_decrypt ipc h service client apart sem s.posts s.kernel few d u in
      same_result (λ z. ipc.value sem sem_xchng_decrypt z ≡ some 1) _ k1 k given e d1.value
  decrypt_1 s k (is_posted t q m d u) mine few e = absurd (ground arith)
  decrypt_1 s k (with_thread t q d u) mine few e = absurd (ground arith)
  decrypt_1 s k (answered t q d u) mine few e = absurd (ground arith)

  -- Only the world, other semaphores and segments differ, and the history goes on.
  abbrev Stuck : Sys ipc → Sys ipc → Type 0
  Stuck s s' =
      Runs platform ipc service client sem mes_shmem idx s'
      × ((w : World) × (k : ipc.State) × SameValues ipc sem s.kernel k
          × (s' ≡ record s { kernel = k; world = w }))

  Later-Stuck :
      (s : Sys ipc) {s' : Sys ipc}
      → Runs platform ipc service client sem mes_shmem idx s
      → s.phase ≡ ended
      → s.turn ≡ awaits
      → ipc.value sem sem_xchng_decrypt s.kernel ≡ some 1
      → Later platform ipc service client sem mes_shmem idx s s'
      → Stuck s s'
  Later-Stuck s history over waits one still =
      (history, (s.world, s.kernel, SameValues-refl ipc sem s.kernel, refl))
  Later-Stuck s history over waits one (later {s1} {s2} before move) =
      let (runs, (w, k, values, same)) = Later-Stuck s history over waits one before in
      let (w', k', values', new) =
        post_stuck (record s { kernel = k; world = w }) s2
          (subst T same (Runs-Token platform ipc h service client apart sem mes_shmem idx runs).1)
          over waits ((values 1).0 ∙ one)
          (subst (λ x. Happens platform ipc service client sem mes_shmem idx x s2) same move) in
      (more runs move, (w', k', SameValues-trans ipc sem s.kernel k k' values values', new))

  -- Over system calls that behave as documented, after any history of the thread, a client that
  -- keeps the protocol, and the rest of the process: a client that posts once the thread has
  -- ended, with fewer than SEMAEM posts over the set before, waits forever. Whatever happens
  -- later leaves all but the process's own state, other semaphores and segments as it is after
  -- the post.
  pub post_ended :
      {s : Sys ipc} (k : ipc.State) (s' : Sys ipc)
      → Runs platform ipc service client sem mes_shmem idx s
      → s.phase ≡ ended
      → s.turn ≡ owns
      → s.posts < ipc.semaem
      → unlock_semaphore ipc client sem sem_xchng_decrypt s.kernel ≡ some k
      → Later platform ipc service client sem mes_shmem idx
          (record s { kernel = k; turn = awaits; posted = s.memory; posts = s.posts + 1 })
          s'
      → (w : World) × (k' : ipc.State) × SameValues ipc sem k k'
        × (s' ≡ record s {
          kernel = k';
          turn = awaits;
          posted = s.memory;
          posts = s.posts + 1;
          world = w;
        })
  post_ended {s} k s' history over mine few given afterwards =
      (Later-Stuck (record s { kernel = k; turn = awaits; posted = s.memory; posts = s.posts + 1 })
        (more history (post k mine few given refl)) over refl
        (decrypt_1 s k (Runs-Token platform ipc h service client apart sem mes_shmem idx history).1
          mine few given)
        afterwards).1
