-- ===== src/Tests/Exchange.antt =====
-- The theorems on shared memory and on the exchange, applied: a sample goes to the thread and back, and
-- then the end marker.
use open_content_decryption.Base.{
  ℕ, ◌<◌, ◌≤◌, ◌≡◌, ◌≢◌, ◌⊎◌, refl, arith, false, Option, some, [], ◌∷◌, Bytes, inr,
}
use open_content_decryption.Base.Int.{ℤ, pos}
use open_content_decryption.Base.Outcome.{ok}
use open_content_decryption.SampleLoop.{Exchange, decrypted, finished, decrypt_round, exchange}
use open_content_decryption.SampleLoop.Rounds.{protect, round_lem}
use open_content_decryption.Service.Create.{created}
use open_content_decryption.Service.Requests.{updated, engine_made}
use open_content_decryption.SharedMemory.{
  Segment, map_segment, detach_existing_shared_memory, lock_semaphore, unlock_semaphore,
  sem_xchng_decrypt, sem_xchng_pull,
}
use open_content_decryption.SharedMemory.Answered.{owns_alone, collect-Answers}
use open_content_decryption.SharedMemory.Clear.{Answers-protect}
use open_content_decryption.SharedMemory.Ended.{post_ended}
use open_content_decryption.SharedMemory.Exclusion
use open_content_decryption.SharedMemory.Exclusion.{
  Sys, Happens, Runs, begin, more, still, Answers, with_sample, waiting, locked, answering, leaving,
  ended, owns, awaits,
}
use open_content_decryption.SharedMemory.Overflow.{lock_overflow}
use open_content_decryption.SharedMemory.Progress.{rank, rank_falls}
use open_content_decryption.SharedMemory.Segments.{
  SameValues, round_segments, map_both, detach_both,
}
use open_content_decryption.Tests.Fixture.{platform, platform-IsCounterMode}
use open_content_decryption.Tests.Kernel.{
  Kernel, kernel, kernel-IsIpc, empty_kernel, set_semaphore, set_segment,
}
use open_content_decryption.Tests.License.{key}
use open_content_decryption.Tests.Requests.{playing, playing-Ready, playing-HasKey}
use open_content_decryption.Tests.Playing.{playing-Reach}
use open_content_decryption.World.{World}

-- The exchange starts with semaphores that are 0.
abbrev x0 : Exchange
x0 = protect platform platform-IsCounterMode key (record {
  id_iv_shmem = pos 3;
  id_sample_shmem = pos 4;
  iv = 1 ∷ 2 ∷ [];
  sample = 0 ∷ 5 ∷ 1 ∷ [];
})

abbrev bytes0 : Bytes
bytes0 = 0 ∷ 5 ∷ 1 ∷ []

-- A set of semaphores, and the exchanged memory mapped at an address.
abbrev k_shared : Kernel
k_shared =
    let mapped_once : Option Segment = some (record { attached = 1; doomed = false }) in
    kernel.semctl_setall (pos 9) (0 ∷ 0 ∷ 0 ∷ []) (
      set_segment (pos 8) mapped_once
        (set_segment (pos 4) mapped_once (set_segment (pos 3) mapped_once empty_kernel)))

abbrev k0 : Kernel
k0 = kernel.shmctl_rmid (pos 8) (kernel.shmat (pos 8) (pos 0) k_shared).1

abbrev mes : ℤ
mes = (kernel.shmat (pos 8) (pos 0) k_shared).0

abbrev k1 : Kernel
k1 = set_semaphore 2 (pos 9) 1 1 32767 k0

abbrev k2 : Kernel
k2 = set_semaphore 1 (pos 9) 1 0 32769 k1

abbrev begun : Exchange → Sys kernel
begun x = record {
  kernel = k0;
  world = playing;
  memory = x;
  phase = waiting;
  turn = owns;
  posted = x;
  posts = 0;
}

abbrev posted_once : Exchange → Sys kernel
posted_once x = record (begun x) { kernel = k1; turn = awaits; posts = 1 }

abbrev locked_once : Exchange → Sys kernel
locked_once x = record (posted_once x) { kernel = k2; phase = locked }

processes_apart : ◌≢◌ {A = ℕ} 1 2
processes_apart e = omega arith

begun-Runs : (x : Exchange) → Runs platform kernel 1 2 (pos 9) mes 0 (begun x)
unfolding map_segment
begun-Runs x =
    begin (pos 8) k_shared k0 playing x 0 refl (λ e. absurd (ground arith))
      (record { value = refl; locked = refl; posted = refl; within = omega arith })
      (record { value = refl; answers = refl; collects = refl }) playing-Reach

locked_once-Runs : (x : Exchange) → Runs platform kernel 1 2 (pos 9) mes 0 (locked_once x)
unfolding lock_semaphore unlock_semaphore
locked_once-Runs x =
    more (more (begun-Runs x) (Exclusion.post k1 refl (omega arith) refl refl))
      (Exclusion.lock k2 refl refl refl)

owns_alone_example : (begun x0).phase ≡ waiting ⊎ (begun x0).phase ≡ ended
owns_alone_example =
    owns_alone platform kernel kernel-IsIpc 1 2 processes_apart (pos 9) mes 0 (begun-Runs x0) refl

-- The round of the thread.
decrypts : (w : World) × (decrypt_round platform 0 x0 playing ≡ ok (decrypted bytes0, w))
decrypts =
    let (w, round, _) =
      round_lem platform platform-IsCounterMode 0 key playing playing-Ready x0
        (record { iv_mapped = refl; sample_mapped = refl; short = omega arith }) in
    (w, round)

-- The segments of the initial value and of the sample, mapped and detached.
abbrev k_iv : ℤ × Kernel
k_iv = kernel.shmat (pos 3) (pos 0) k2

abbrev k_sample : ℤ × Kernel
k_sample = kernel.shmat (pos 4) (pos 0) (kernel.shmctl_rmid (pos 3) k_iv.1)

abbrev k_decrypted : Kernel
k_decrypted =
    (kernel.shmdt k_sample.0 (kernel.shmdt k_iv.0 (kernel.shmctl_rmid (pos 4) k_sample.1)).1).1

decrypts_segments : round_segments kernel x0 k2 ≡ ok (tt, k_decrypted)
unfolding round_segments map_both detach_both map_segment detach_existing_shared_memory
decrypts_segments = refl

abbrev k3 : Kernel
k3 = set_semaphore 1 (pos 9) 2 1 32767 k_decrypted

abbrev answered_once : Sys kernel
answered_once = record (locked_once x0) {
  kernel = k3;
  world = decrypts.0;
  memory = with_sample x0 bytes0;
  phase = waiting;
}

answered_once-Runs : Runs platform kernel 1 2 (pos 9) mes 0 answered_once
unfolding unlock_semaphore
answered_once-Runs =
    more
      (more (locked_once-Runs x0)
        (Exclusion.decrypt bytes0 decrypts.0 k_decrypted refl decrypts.1 decrypts_segments refl))
      (Exclusion.unlock k3 refl refl refl)

not_ended : waiting ≢ ended
not_ended e = absurd (ground arith)

collect-Answers_example : Answers platform kernel 1 2 (pos 9) mes 0 x0 (with_sample x0 bytes0)
unfolding lock_semaphore
collect-Answers_example =
    collect-Answers platform kernel kernel-IsIpc 1 2 processes_apart (pos 9) mes 0
      {s = answered_once} (set_semaphore 2 (pos 9) 2 0 32769 k3) answered_once-Runs not_ended refl

abbrev clear_exchange : Exchange
clear_exchange = record {
  id_iv_shmem = pos 3;
  id_sample_shmem = pos 4;
  iv = 1 ∷ 2 ∷ [];
  sample = 0 ∷ 5 ∷ 1 ∷ [];
}

abbrev once : Answers platform kernel 1 2 (pos 9) mes 0 x0 (with_sample x0 bytes0)
once = record {
  before = playing;
  after = decrypts.0;
  reached = playing-Reach;
  bytes = bytes0;
  round = decrypts.1;
  written = refl;
}

Answers-protect_example : with_sample x0 bytes0 ≡ clear_exchange
Answers-protect_example =
    Answers-protect platform platform-IsCounterMode key kernel 1 2 (pos 9) mes 0 clear_exchange
      (with_sample x0 bytes0)
      (record { iv_mapped = refl; sample_mapped = refl; short = omega arith }) once playing-HasKey

rank_falls_example :
    (rank kernel (pos 9) (locked_once x0) ≤ 3)
    × ((s' : Sys kernel) × Happens platform kernel 1 2 (pos 9) mes 0 (locked_once x0) s'
        × ((s'.turn ≡ owns) ⊎ (rank kernel (pos 9) s' < rank kernel (pos 9) (locked_once x0))))
    × ((s' : Sys kernel)
        → Happens platform kernel 1 2 (pos 9) mes 0 (locked_once x0) s'
        → (s'.turn ≡ owns)
          ⊎ ((rank kernel (pos 9) s' < rank kernel (pos 9) (locked_once x0))
              ⊎ ((w : World) × (k : Kernel) × SameValues kernel (pos 9) k2 k
                  × (s' ≡ record (locked_once x0) { kernel = k; world = w }))))
rank_falls_example =
    rank_falls platform kernel kernel-IsIpc 1 2 processes_apart (pos 9) mes 0 (locked_once-Runs x0)
      refl (λ e. absurd (ground arith))
      (λ e. (decrypts.0, inr (bytes0, k_decrypted, decrypts.1, decrypts_segments)))

-- The end marker.
abbrev x_end : Exchange
x_end = record { id_iv_shmem = pos 0; id_sample_shmem = pos 0; iv = []; sample = [] }

finishes : decrypt_round platform 0 x_end playing ≡ ok (finished, playing)
unfolding decrypt_round exchange engine_made updated created
finishes = refl

abbrev k_left : Kernel
k_left = set_semaphore 1 (pos 9) 2 1 32767 (kernel.shmdt mes k2).1

abbrev over : Sys kernel
over = record (begun x_end) {
  posts = 1;
  kernel = set_semaphore 2 (pos 9) 2 0 32769 k_left;
  phase = ended;
}

over-Runs : Runs platform kernel 1 2 (pos 9) mes 0 over
unfolding lock_semaphore unlock_semaphore detach_existing_shared_memory
over-Runs =
    more
      (more (more (locked_once-Runs x_end) (Exclusion.finish playing refl finishes refl))
        (Exclusion.leave k_left refl refl refl))
      (Exclusion.collect (set_semaphore 2 (pos 9) 2 0 32769 k_left) refl refl refl)

abbrev posted_late : Kernel
posted_late = set_semaphore 2 (pos 9) 1 1 32766 over.kernel

post_ended_example :
    (w : World) × (k' : Kernel) × SameValues kernel (pos 9) posted_late k'
    × (record over { kernel = posted_late; turn = awaits; posted = x_end; posts = 2 }
        ≡ record over { kernel = k'; turn = awaits; posted = x_end; posts = 2; world = w })
unfolding unlock_semaphore
post_ended_example =
    post_ended platform kernel kernel-IsIpc 1 2 processes_apart (pos 9) mes 0 {s = over} posted_late
      (record over { kernel = posted_late; turn = awaits; posted = x_end; posts = 2 }) over-Runs
      refl refl (omega arith) refl still

-- A set over which 32767 samples were exchanged before.
abbrev k_worn : Kernel
k_worn = set_semaphore 1 (pos 9) 1 0 65535 (
    set_semaphore 2 (pos 9) 1 0 1
      (set_semaphore 1 (pos 9) 2 0 1 (set_semaphore 2 (pos 9) 2 0 65535 k_shared)))

abbrev k_worn0 : Kernel
k_worn0 = kernel.shmctl_rmid (pos 8) (kernel.shmat (pos 8) (pos 0) k_worn).1

abbrev worn : Sys kernel
worn = record (begun x0) { kernel = k_worn0; posts = 32767 }

worn-Runs : Runs platform kernel 1 2 (pos 9) mes 0 worn
unfolding map_segment
worn-Runs =
    begin (pos 8) k_worn k_worn0 playing x0 32767 refl (λ e. absurd (ground arith))
      (record { value = refl; locked = refl; posted = refl; within = omega arith })
      (record { value = refl; answers = refl; collects = refl }) playing-Reach

lock_overflow_example :
    (k : Kernel) × (unlock_semaphore kernel 2 (pos 9) sem_xchng_decrypt k_worn0 ≡ some k)
    × (lock_semaphore kernel 1 (pos 9) sem_xchng_decrypt k ≡ some k)
    × ((k1 : Kernel)
        → SameValues kernel (pos 9) k k1
        → (k2 : Kernel) × (unlock_semaphore kernel 1 (pos 9) sem_xchng_pull k1 ≡ some k2)
          × (lock_semaphore kernel 2 (pos 9) sem_xchng_pull k2 ≡ some k2)
          × (lock_semaphore kernel 1 (pos 9) sem_xchng_decrypt k2 ≡ some k2))
lock_overflow_example =
    lock_overflow platform kernel kernel-IsIpc 1 2 processes_apart (pos 9) mes 0 worn-Runs refl refl
      refl
