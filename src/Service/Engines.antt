-- ===== src/Service/Engines.antt =====
-- service.cpp: a decryption thread that waits, and its media engine session.
use open_content_decryption.Base.{
  ℕ, ◌-◌, ◌<◌, ◌≡◌, refl, false, not, ◌&&◌, ltb, ◌==◌, some, List, ◌∷◌, ◌++◌, length, arith,
  get_elem?, get_elem?-some, All-get_elem?, All-middle,
}
use open_content_decryption.Base.Int.{ℤ}
use open_content_decryption.Base.Outcome.{ok}
use open_content_decryption.MediaKeySession.{run_thread}
use open_content_decryption.SampleLoop.{Exchange, exchange, decrypt_round}
use open_content_decryption.Service.Create.{HasRoom}
use open_content_decryption.Service.Frames.{decrypt_round-Frames, run_thread-Frames}
use open_content_decryption.Service.Histories.{Kept, Reach-Kept}
use open_content_decryption.Service.Steps.{Reach, thread_number}
use open_content_decryption.Service.Threads.{
  Backed, IsOwned, initial-Backed, Keeps-Backed, Frames-Keeps, created-Backed, update-Backed,
  released-Backed, engine_made-Backed,
}
use open_content_decryption.World.{World, Platform, EngineSession, Task, decrypt_shmem}

thread-Backed :
    (platform : Platform) (before behind : List Task) (task : Task) (p : ℕ) (w w' : World)
    → w.threads ≡ before ++ task ∷ behind
    → run_thread platform.connects (thread_number task) p (record w { threads = before ++ behind })
      ≡ ok (tt, w')
    → Backed w
    → Backed w'
thread-Backed platform before behind task p w w' split h b =
    let u = record w { threads = before ++ behind } in
    Keeps-Backed u w'
      (Frames-Keeps u w' (run_thread-Frames platform.connects (thread_number task) p u w' h))
      (record {
        tasks = (All-middle _ before behind task (rw split at b.tasks)).1;
        engines = b.engines;
      })

Backed-Kept : (platform : Platform) → Kept platform Backed
Backed-Kept platform = record {
  at_start = initial-Backed;
  by_request = record {
    by_mediakeys = λ w b. record { tasks = b.tasks; engines = b.engines };
    by_create = λ prog_num starts w v b. created-Backed prog_num starts w b;
    by_refusal = λ prog_num w b. record { tasks = b.tasks; engines = b.engines };
    by_update = update-Backed platform;
    by_release = λ sid p w h v b. released-Backed sid p w b;
    by_miss = λ sid w b. record { tasks = b.tasks; engines = b.engines };
    by_mediaengine = engine_made-Backed;
    by_thread = thread-Backed platform;
  };
  by_sample = λ idx x r w w' h b.
      Keeps-Backed w w' (Frames-Keeps w w' (decrypt_round-Frames platform idx x w w' r h)) b;
}

-- An index in range passes both tests at the head of the loop.
pub decrypt_round_in_range :
    (platform : Platform) (idx : ℕ) (x : Exchange) (w : World) (e : EngineSession)
    → get_elem? w.media_engine_sessions idx ≡ some e
    → idx < length w.media_engine_sessions
    → decrypt_round platform idx x w ≡ exchange platform e x w
unfolding decrypt_round
decrypt_round_in_range platform idx x w e found below =
    let in_range : (not (length w.media_engine_sessions == 0)
          && ltb (length w.media_engine_sessions - 1) idx)
        ≡ false =
      ground arith in
    rw (in_range, found) refl

-- With an allocator that leaves room, after any history: a decryption thread that waits is never turned
-- away. Its media engine session is there, so that its rounds go on to the exchange with it, and the
-- key session of this one, unless NULL, was created.
pub waiting_decrypt_shmem :
    (platform : Platform) (idx : ℕ) (sem shmem : ℤ) (before behind : List Task) (w : World)
    → HasRoom platform.usable
    → Reach platform w
    → w.threads ≡ before ++ decrypt_shmem idx sem shmem ∷ behind
    → (e : EngineSession) × IsOwned (length w.key_sessions) e
      × ((x : Exchange) → decrypt_round platform idx x w ≡ exchange platform e x w)
waiting_decrypt_shmem platform idx sem shmem before behind w room history split =
    let b = Reach-Kept platform room Backed (Backed-Kept platform) history in
    let below =
      (All-middle _ before behind (decrypt_shmem idx sem shmem) (rw split at b.tasks)).0 in
    let (e, found) = get_elem?-some w.media_engine_sessions idx below in
    (
      e,
      All-get_elem? _ w.media_engine_sessions idx e b.engines found,
      λ x. decrypt_round_in_range platform idx x w e found below,
    )
