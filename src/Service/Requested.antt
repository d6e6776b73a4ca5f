-- ===== src/Service/Requested.antt =====
-- service.cpp, `rpc_open_cdm_mediaengine_1_svc` and `decryptShmem`: the thread that a request starts works
-- for the media engine session, and so the session, of this request.
use open_content_decryption.Base.{
  ℕ, ◌≡◌, refl, some, [], ◌∷◌, ◌++◌, Bytes, length, get_elem?, get_elem?-lt,
}
use open_content_decryption.Base.Int.{ℤ}
use open_content_decryption.Base.Outcome.{ok}
use open_content_decryption.SampleLoop.{Exchange, exchange, decrypt_round}
use open_content_decryption.Service.{rpc_mediaengine}
use open_content_decryption.Service.Create.{HasRoom, created}
use open_content_decryption.Service.Engines.{decrypt_round_in_range}
use open_content_decryption.Service.Frames.{decrypt_round-Frames, run_thread-Frames}
use open_content_decryption.Service.Histories.{ByRequests, Step-Kept_by, same_end}
use open_content_decryption.Service.Invariant.{released}
use open_content_decryption.Service.Refinement.{Reach-Inv}
use open_content_decryption.Service.Requests.{engine_made, rpc_mediaengine_lem}
use open_content_decryption.Service.Sessions.{lookup}
use open_content_decryption.Service.Steps.{Reach, next, Step, mediaengine, thread_number}
use open_content_decryption.Service.Threads.{rpc_update-engines}
use open_content_decryption.World.{World, Platform, EngineSession, decrypt_shmem}
use open_content_decryption.World.Slots.{get_elem?-append_last, get_elem?-append_old}

-- What a state comes to by further requests, threads and samples.
pub data After (platform : Platform) (w : World) : World → Type 0 where
  now : After platform w w
  later : {w1 w2 : World} → After platform w w1 → Step platform w1 w2 → After platform w w2

-- The engine session at an index is this one.
abbrev Engine : ℕ → EngineSession → World → Type 0
Engine idx e w = get_elem? w.media_engine_sessions idx ≡ some e

Engine-ByRequests :
    (platform : Platform) (idx : ℕ) (e : EngineSession) → ByRequests platform (Engine idx e)
unfolding created released engine_made
Engine-ByRequests platform idx e = record {
  by_mediakeys = λ w h. h;
  by_create = λ prog_num starts w v h. h;
  by_refusal = λ prog_num w h. h;
  by_update = λ sid key starts w w' r done v h.
      rw (rpc_update-engines platform sid key starts w w' r done) h;
  by_release = λ sid p w open_session v h. h;
  by_miss = λ sid w h. h;
  by_mediaengine = λ sid shmem sem w v h.
      get_elem?-append_old w.media_engine_sessions
        (record { media_key_session = lookup sid w.media_key_sessions }) e idx h;
  by_thread = λ before behind task p w w' split done h.
      rw
        (run_thread-Frames platform.connects (thread_number task) p
          (record w { threads = before ++ behind }) w' done).engines
        h;
}

module _ (platform : Platform) (room : HasRoom platform.usable) (idx : ℕ) (e : EngineSession) where
  After-Engine :
      {w w' : World}
      → After platform w w'
      → Reach platform w
      → Engine idx e w
      → Reach platform w' × Engine idx e w'
  After-Engine now history h = (history, h)
  After-Engine (later {w1} {w2} before step) history h =
      let (reached, h1) = After-Engine before history h in
      (
        next reached step,
        Step-Kept_by platform room (Engine idx e) w1 w2 step (Engine-ByRequests platform idx e)
            (λ i x r done _. rw (decrypt_round-Frames platform i x w1 w2 r done).engines h1)
            (Reach-Inv platform room reached) h1,
      )

-- With an allocator that leaves room, after any history: a request for a media engine session
-- starts one thread, with the ids of its request. Whatever happens then, every round of this
-- thread passes the tests at the head of the loop and is an exchange with the engine session of
-- the key session that was open under the request's id when it was made, or of NULL if none was.
pub requested_engine :
    (platform : Platform) (sid : Bytes) (shmem sem r : ℤ) (w w1 w' : World)
    → HasRoom platform.usable
    → Reach platform w
    → rpc_mediaengine sid shmem sem w ≡ ok (r, w1)
    → After platform w1 w'
    → (idx : ℕ) × (w1.threads ≡ w.threads ++ decrypt_shmem idx sem shmem ∷ [])
      × ((x : Exchange)
          → decrypt_round platform idx x w'
            ≡ exchange platform
                (record { media_key_session = lookup sid w.media_key_sessions })
                x
                w')
unfolding engine_made
requested_engine platform sid shmem sem r w w1 w' room history made afterwards =
    let e : EngineSession = record { media_key_session = lookup sid w.media_key_sessions } in
    let idx = length w.media_engine_sessions in
    let same = rpc_mediaengine_lem sid shmem sem w in
    let at_first =
      same_end (Engine idx e) (engine_made sid shmem sem w) w1 _ _ r same made
        (get_elem?-append_last w.media_engine_sessions e) in
    let started =
      same_end (λ u. u.threads ≡ w.threads ++ decrypt_shmem idx sem shmem ∷ [])
        (engine_made sid shmem sem w) w1 _ _ r same made refl in
    let (_, found) =
      After-Engine platform room idx e afterwards (next history (mediaengine sid shmem sem r made))
        at_first in
    (
      idx,
      started,
      λ x.
          decrypt_round_in_range platform idx x w' e found
            (get_elem?-lt w'.media_engine_sessions idx found),
    )
