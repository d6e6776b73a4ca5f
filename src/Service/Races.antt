-- ===== src/Service/Races.antt =====
-- service.cpp and cdmi-stub: requests that cross the threads of a session, and a request for the media
-- engine of a session that is not there.
use open_content_decryption.Base.{
  ℕ, ◌-◌, ◌≡◌, refl, ◌∙◌, Bool, true, false, none, some, List, ◌++◌, ◌∷◌, [], Bytes, length,
  length-append, arith, get_elem?, equal_refl, not, ◌&&◌, ltb, ◌==◌,
}
use open_content_decryption.Base.Int.{ℤ}
use open_content_decryption.Base.Outcome.{ok, fault, use_after_free, null_pointer, out_of_bounds}
use open_content_decryption.Callbacks.{on_key_ready, do_callback}
use open_content_decryption.Decimal.{decimal}
use open_content_decryption.MediaKeySession.{run_thread}
use open_content_decryption.MediaKeys.{create_media_key_session, engine_release_clear_content}
use open_content_decryption.SampleLoop.{
  Exchange, release_previous, decrypt_mapped, exchange, decrypt_round,
}
use open_content_decryption.SampleLoop.Rounds.{Asks}
use open_content_decryption.Service.{rpc_create_session, make_session, rpc_release}
use open_content_decryption.Service.Create.{created, session_of}
use open_content_decryption.Service.Invariant.{Inv, released}
use open_content_decryption.Service.Requests.{
  rpc_release_open, rpc_release_missing, touched, engine_made,
}
use open_content_decryption.Service.Sessions.{lookup, touch, lookup-erase, touch-IsMap}
use open_content_decryption.World.{
  World, Ptr, EngineSession, Platform, on_ready, cdmi_success, cdmi_s_false, deref, copy_text,
}
use open_content_decryption.World.Slots.{
  get_elem?-set_self, get_elem?-append_old, get_elem?-append_last,
}

deref-released :
    (sid : Bytes) (p : Ptr) (w : World)
    → get_elem? w.key_sessions p ≡ some (session_of sid p)
    → deref p (released sid p w) ≡ fault use_after_free
unfolding deref released
deref-released sid p w h =
    rw (get_elem?-set_self w.key_sessions p _ (record (session_of sid p) { live = false }) h, deref)

run_thread-released :
    (connects : ℕ → Bool) (i : ℕ) (sid : Bytes) (p : Ptr) (w : World)
    → get_elem? w.key_sessions p ≡ some (session_of sid p)
    → run_thread connects i p (released sid p w) ≡ fault use_after_free
unfolding run_thread
run_thread-released connects i sid p w h = ground (arith, deref-released sid p w h)

missing_after :
    (sid : Bytes) (p : Ptr) (w : World)
    → Inv w
    → lookup sid (released sid p w).media_key_sessions ≡ none
unfolding released
missing_after sid p w v =
    lookup-erase sid sid (touch sid w.media_key_sessions)
      (touch-IsMap sid w.media_key_sessions v.is_map)
    ∙ rw (equal_refl sid)

-- In a state that keeps `Inv`, releasing an open session succeeds. A second release of its id then
-- answers `CDMi_S_FALSE`, and each of its two threads, if it has not run yet, uses the freed
-- object.
pub release_race :
    (connects : ℕ → Bool) (sid : Bytes) (p : Ptr) (w : World)
    → Inv w
    → lookup sid w.media_key_sessions ≡ some p
    → (w' : World) × (rpc_release sid w ≡ ok (cdmi_success, w'))
      × (rpc_release sid w' ≡ ok (cdmi_s_false, touched sid w'))
      × (run_thread connects 1 p w' ≡ fault use_after_free)
      × (run_thread connects 2 p w' ≡ fault use_after_free)
release_race connects sid p w v h = (
  released sid p w,
  rpc_release_open sid p w v h,
  rpc_release_missing sid (released sid p w) (missing_after sid p w v),
  run_thread-released connects 1 sid p w (v.sound sid p h),
  run_thread-released connects 2 sid p w (v.sound sid p h),
)

run_thread_sends :
    (connects : ℕ → Bool) (sid : Bytes) (p : Ptr) (w : World)
    → get_elem? w.key_sessions p ≡ some (session_of sid p)
    → connects w.pnum ≡ true
    → run_thread connects 2 p w
      ≡ ok (
        tt,
        record w {
          sent = w.sent ++ record { program = w.pnum; session_id = sid; event = on_ready } ∷ [];
        },
      )
unfolding run_thread on_key_ready do_callback deref
run_thread_sends connects sid p w h c = ground arith

created_alive :
    (prog_num : ℕ) (starts : Bool) (sid : Bytes) (p : Ptr) (w : World)
    → get_elem? w.key_sessions p ≡ some (session_of sid p)
    → get_elem? (created prog_num starts w).key_sessions p ≡ some (session_of sid p)
unfolding created
created_alive prog_num starts sid p w h = get_elem?-append_old w.key_sessions _ _ p h

-- In a state that keeps `Inv`, after the client program `prog_num` has created a session and can be
-- reached, the thread that reports the key of an older open session sends the id of that session to
-- `prog_num`.
pub ready_to_last_client :
    (connects : ℕ → Bool) (prog_num : ℕ) (starts : Bool) (sid : Bytes) (p : Ptr) (w : World)
    → Inv w
    → lookup sid w.media_key_sessions ≡ some p
    → connects prog_num ≡ true
    → (w' : World) × (run_thread connects 2 p (created prog_num starts w) ≡ ok (tt, w'))
      × (w'.sent ≡ w.sent ++ record { program = prog_num; session_id = sid; event = on_ready } ∷ [])
unfolding created
ready_to_last_client connects prog_num starts sid p w v h c = (
  _,
  run_thread_sends connects sid p (created prog_num starts w)
      (created_alive prog_num starts sid p w (v.sound sid p h)) c,
  refl,
)

copy_text_fails :
    (usable : ℕ → ℕ) (s : Bytes) (w : World)
    → usable (length s) ≡ length s
    → copy_text usable s w ≡ fault out_of_bounds
unfolding copy_text
copy_text_fails usable s w exact = ground (arith, exact)

create_fails :
    (usable : ℕ → ℕ) (w : World)
    → usable (length (decimal w.session_cnt)) ≡ length (decimal w.session_cnt)
    → create_media_key_session usable w ≡ fault out_of_bounds
unfolding create_media_key_session
create_fails usable w exact = ground (arith, copy_text_fails usable (decimal w.session_cnt) w exact)

-- With a `CMediaKeys`, and an allocator that gives just the bytes asked for the text of the counter,
-- the final NUL of the new session's id is written behind its block.
pub create_without_room :
    (usable : ℕ → ℕ) (starts : Bool) (prog_num : ℕ) (w : World)
    → w.media_keys ≡ true
    → usable (length (decimal w.session_cnt)) ≡ length (decimal w.session_cnt)
    → rpc_create_session usable starts prog_num w ≡ fault out_of_bounds
unfolding rpc_create_session make_session
create_without_room usable starts prog_num w made exact =
    ground (arith, create_fails usable (record w { pnum = prog_num }) exact)

unknown_release :
    (e : EngineSession) (w : World) (b : Ptr)
    → e.media_key_session ≡ none
    → w.clear_content ≡ some b
    → release_previous e w ≡ fault null_pointer
unfolding release_previous engine_release_clear_content
unknown_release e w b unknown h = ground arith

unknown_exchange :
    (platform : Platform) (e : EngineSession) (x : Exchange) (w : World) (b : Ptr)
    → e.media_key_session ≡ none
    → w.clear_content ≡ some b
    → Asks x
    → exchange platform e x w ≡ fault null_pointer
unfolding exchange decrypt_mapped
unknown_exchange platform e x w b unknown h a =
    ground (arith, a.iv_mapped, a.sample_mapped, unknown_release e w b unknown h)

round_of_last :
    (platform : Platform) (es : List EngineSession) (e : EngineSession) (x : Exchange) (w : World)
    → w.media_engine_sessions ≡ es ++ e ∷ []
    → decrypt_round platform (length es) x w ≡ exchange platform e x w
unfolding decrypt_round
round_of_last platform es e x w h =
    let found : get_elem? w.media_engine_sessions (length es) ≡ some e =
      rw h (get_elem?-append_last es e) in
    let in_range : (not (length w.media_engine_sessions == 0)
          && ltb (length w.media_engine_sessions - 1) (length es))
        ≡ false =
      rw h (ground (arith, length-append es (e ∷ []))) in
    rw (in_range, found) refl

-- Where a sample was decrypted before, a media engine session that was made for an unknown id calls
-- through a NULL pointer in its first round with a sample in mapped memory and a short initial
-- value.
pub unknown_engine :
    (platform : Platform) (sid : Bytes) (shmem sem : ℤ) (x : Exchange) (b : Ptr) (w : World)
    → lookup sid w.media_key_sessions ≡ none
    → w.clear_content ≡ some b
    → Asks x
    → decrypt_round platform (length w.media_engine_sessions) x (engine_made sid shmem sem w)
      ≡ fault null_pointer
unfolding engine_made
unknown_engine platform sid shmem sem x b w h clear a =
    let e : EngineSession = record { media_key_session = lookup sid w.media_key_sessions } in
    round_of_last platform w.media_engine_sessions e x (engine_made sid shmem sem w) refl
    ∙ unknown_exchange platform e x (engine_made sid shmem sem w) b h clear a
