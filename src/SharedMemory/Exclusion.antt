-- ===== src/SharedMemory/Exclusion.antt =====
-- service.cpp, `decryptShmem`, a semaphore operation at a time, beside its client and everything else
-- that happens in the process. The client is not part of the repository: here it writes to the exchanged
-- memory only while nothing that it posted waits for an answer, posts by unlocking SEM_XCHNG_DECRYPT and
-- collects by locking SEM_XCHNG_PULL. SEM_UNDO lets every lock and unlock count against SEMAEM; here fewer
-- exchanges than that are posted over a set before the next one, and Overflow has what comes then.
use open_content_decryption.Base.{ℕ, ◌+◌, ◌<◌, ◌≤◌, ◌≡◌, ◌≢◌, ◌⊎◌, some, Bytes}
use open_content_decryption.Base.Int.{ℤ, negsuc}
use open_content_decryption.Base.Outcome.{ok}
use open_content_decryption.SampleLoop.{Exchange, finished, decrypted, decrypt_round}
use open_content_decryption.Service.Steps
use open_content_decryption.Service.Steps.{Reach, start, next}
use open_content_decryption.SharedMemory.{
  Ipc, map_segment, detach_existing_shared_memory, lock_semaphore, unlock_semaphore,
  sem_xchng_decrypt, sem_xchng_pull,
}
use open_content_decryption.SharedMemory.Segments.{round_segments, SameValues}
use open_content_decryption.World.{World, Platform}

-- Where the thread stands: before its lock, between the lock and the unlock, before and after the sample
-- was decrypted, at the unlock of its last round, or ended.
pub data Phase : Type 0 where
  waiting locked answering leaving ended : Phase

-- Whether the client owns the exchanged memory, or waits for an answer.
pub data Turn : Type 0 where
  owns awaits : Turn

pub record Sys (ipc : Ipc) : Type 0 where
  pub kernel : ipc.State
  pub world : World
  pub memory : Exchange
  pub phase : Phase
  pub turn : Turn
  -- the last exchange that was posted
  pub posted : Exchange
  -- how many exchanges were posted over the set of semaphores
  pub posts : ℕ

abbrev pub with_sample : Exchange → Bytes → Exchange
with_sample x bytes = record x { sample = bytes }

-- SEM_XCHNG_DECRYPT with its value, after some posts of which all but `waits` were locked by the thread:
-- each was noted to be undone for the client, and each lock for the service.
pub record DecryptSem (ipc : Ipc) (service client : ℕ) (sem : ℤ) (v waits posts : ℕ) (k : ipc.State)
    : Type 0 where
  pub value : ipc.value sem sem_xchng_decrypt k ≡ some v
  pub locked : ipc.adjustment service sem sem_xchng_decrypt k + waits ≡ ipc.semaem + 1 + posts
  pub posted : ipc.adjustment client sem sem_xchng_decrypt k + posts ≡ ipc.semaem + 1
  pub within : posts ≤ ipc.semaem

-- SEM_XCHNG_PULL with its value, after some posts of which all but `unanswered` were answered by the
-- thread, and all but `uncollected` were collected by the client.
pub record PullSem (ipc : Ipc) (service client : ℕ) (sem : ℤ) (v unanswered uncollected posts : ℕ)
    (k : ipc.State) : Type 0 where
  pub value : ipc.value sem sem_xchng_pull k ≡ some v
  pub answers : ipc.adjustment service sem sem_xchng_pull k + posts ≡ ipc.semaem + 1 + unanswered
  pub collects : ipc.adjustment client sem sem_xchng_pull k + uncollected ≡ ipc.semaem + 1 + posts

-- The process of the thread and that of its client. `mes_shmem` is the address of the exchanged memory.
module _ (platform : Platform) (ipc : Ipc) (service client : ℕ) (sem mes_shmem : ℤ) (idx : ℕ) where
  -- What can happen next. `elsewhere` is any other request or thread of the process, and `other_sets`
  -- whatever is done to other semaphores and to segments.
  pub data Happens (s s' : Sys ipc) : Type 0 where
    lock :
        (k : ipc.State)
        → s.phase ≡ waiting
        → lock_semaphore ipc service sem sem_xchng_decrypt s.kernel ≡ some k
        → s' ≡ record s { kernel = k; phase = locked }
        → Happens s s'
    decrypt :
        (bytes : Bytes) (w : World) (k : ipc.State)
        → s.phase ≡ locked
        → decrypt_round platform idx s.memory s.world ≡ ok (decrypted bytes, w)
        → round_segments ipc s.memory s.kernel ≡ ok (tt, k)
        → s' ≡ record s {
          kernel = k;
          world = w;
          memory = with_sample s.memory bytes;
          phase = answering;
        }
        → Happens s s'
    finish :
        (w : World)
        → s.phase ≡ locked
        → decrypt_round platform idx s.memory s.world ≡ ok (finished, w)
        → s' ≡ record s {
          kernel = (detach_existing_shared_memory ipc mes_shmem s.kernel).1;
          world = w;
          phase = leaving;
        }
        → Happens s s'
    unlock :
        (k : ipc.State)
        → s.phase ≡ answering
        → unlock_semaphore ipc service sem sem_xchng_pull s.kernel ≡ some k
        → s' ≡ record s { kernel = k; phase = waiting }
        → Happens s s'
    leave :
        (k : ipc.State)
        → s.phase ≡ leaving
        → unlock_semaphore ipc service sem sem_xchng_pull s.kernel ≡ some k
        → s' ≡ record s { kernel = k; phase = ended }
        → Happens s s'
    write : (x : Exchange) → s.turn ≡ owns → s' ≡ record s { memory = x } → Happens s s'
    post :
        (k : ipc.State)
        → s.turn ≡ owns
        → s.posts < ipc.semaem
        → unlock_semaphore ipc client sem sem_xchng_decrypt s.kernel ≡ some k
        → s' ≡ record s { kernel = k; turn = awaits; posted = s.memory; posts = s.posts + 1 }
        → Happens s s'
    collect :
        (k : ipc.State)
        → s.turn ≡ awaits
        → lock_semaphore ipc client sem sem_xchng_pull s.kernel ≡ some k
        → s' ≡ record s { kernel = k; turn = owns }
        → Happens s s'
    elsewhere :
        (w : World) → Steps.Step platform s.world w → s' ≡ record s { world = w } → Happens s s'
    other_sets :
        (k : ipc.State)
        → SameValues ipc sem s.kernel k
        → s' ≡ record s { kernel = k }
        → Happens s s'

  -- The histories, from where the thread has mapped the exchanged memory, with semaphores that are 0: of
  -- a new set, or of one over which both processes have exchanged samples before.
  pub data Runs : Sys ipc → Type 0 where
    begin :
        (shmem : ℤ) (k0 k : ipc.State) (w : World) (x : Exchange) (posts : ℕ)
        → map_segment ipc shmem k0 ≡ ok (mes_shmem, k)
        → mes_shmem ≢ negsuc 0
        → DecryptSem ipc service client sem 0 0 posts k
        → PullSem ipc service client sem 0 0 0 posts k
        → Reach platform w
        → Runs (record {
          kernel = k;
          world = w;
          memory = x;
          phase = waiting;
          turn = owns;
          posted = x;
          posts = posts;
        })
    more : {s s' : Sys ipc} → Runs s → Happens s s' → Runs s'

  -- What can come later.
  pub data Later (s : Sys ipc) : Sys ipc → Type 0 where
    still : Later s s
    later : {s1 s2 : Sys ipc} → Later s s1 → Happens s1 s2 → Later s s2

  -- What one round made of what was posted, in some state that the process was in.
  pub record Answers (x y : Exchange) : Type 0 where
    pub before : World
    pub after : World
    pub reached : Reach platform before
    pub bytes : Bytes
    pub round : decrypt_round platform idx x before ≡ ok (decrypted bytes, after)
    pub written : y ≡ with_sample x bytes

  -- The one token: with the client, posted, with the thread, or as an answer.
  pub data Token (s : Sys ipc) : Type 0 where
    with_client :
        s.turn ≡ owns
        → (s.phase ≡ waiting) ⊎ (s.phase ≡ ended)
        → DecryptSem ipc service client sem 0 0 s.posts s.kernel
        → PullSem ipc service client sem 0 0 0 s.posts s.kernel
        → Token s
    is_posted :
        s.turn ≡ awaits
        → (s.phase ≡ waiting) ⊎ (s.phase ≡ ended)
        → s.memory ≡ s.posted
        → DecryptSem ipc service client sem 1 1 s.posts s.kernel
        → PullSem ipc service client sem 0 1 1 s.posts s.kernel
        → Token s
    with_thread :
        s.turn ≡ awaits
        → ((s.phase ≡ locked) × (s.memory ≡ s.posted))
          ⊎ (((s.phase ≡ answering) × Answers s.posted s.memory)
              ⊎ ((s.phase ≡ leaving) × (s.memory ≡ s.posted)))
        → DecryptSem ipc service client sem 0 0 s.posts s.kernel
        → PullSem ipc service client sem 0 1 1 s.posts s.kernel
        → Token s
    answered :
        s.turn ≡ awaits
        → ((s.phase ≡ waiting) × Answers s.posted s.memory)
          ⊎ ((s.phase ≡ ended) × (s.memory ≡ s.posted))
        → DecryptSem ipc service client sem 0 0 s.posts s.kernel
        → PullSem ipc service client sem 1 0 1 s.posts s.kernel
        → Token s
