-- ===== src/Service/Requests.antt =====
-- service.cpp: each request on a session, on every branch, as a change of the state.
use open_content_decryption.Base.{
  ◌≡◌, Bool, true, none, some, [], ◌∷◌, ◌++◌, Bytes, length, length-append, arith, get_elem?,
}
use open_content_decryption.Base.Int.{ℤ}
use open_content_decryption.Base.Outcome.{ok}
use open_content_decryption.JsonWebKey.{KeyIdAndKeyPairs, extract_keys_from_jwk_set}
use open_content_decryption.World.{
  World, Ptr, run_thread_2, decrypt_shmem, Event, Platform, deref, free_session, cdmi_success,
  cdmi_s_false,
}
use open_content_decryption.Callbacks.{on_key_status_update, do_callback, before_nul}
use open_content_decryption.MediaKeySession.{
  update, take_keys, report_status, close, key_id_and_key_pairs_to_json,
}
use open_content_decryption.MediaKeys.{create_media_engine_session}
use open_content_decryption.Service.{find_session, rpc_update, rpc_release, rpc_mediaengine}
use open_content_decryption.Service.Create.{session_of}
use open_content_decryption.Service.Sessions.{lookup, touch, lookup-touch}
use open_content_decryption.Service.Invariant.{Inv, released}

-- The state after a look at an id: an unknown id has an entry with NULL then.
abbrev pub touched : Bytes → World → World
touched sid w = record w { media_key_sessions = touch sid w.media_key_sessions }

pub found_session :
    (sid : Bytes) (w : World)
    → find_session sid w ≡ ok (lookup sid w.media_key_sessions, touched sid w)
unfolding find_session
found_session sid w = rw lookup-touch

deref_open :
    (sid : Bytes) (p : Ptr) (w : World)
    → get_elem? w.key_sessions p ≡ some (session_of sid p)
    → deref p w ≡ ok ((session_of sid p).content, w)
unfolding deref
deref_open sid p w h = rw (h, deref)

-- In a state that keeps `Inv`, releasing an open session succeeds, takes its entry away and frees
-- its object.
pub rpc_release_open :
    (sid : Bytes) (p : Ptr) (w : World)
    → Inv w
    → lookup sid w.media_key_sessions ≡ some p
    → rpc_release sid w ≡ ok (cdmi_success, released sid p w)
unfolding rpc_release close free_session released
rpc_release_open sid p w v h = ground (
  arith,
  lookup-touch sid sid w.media_key_sessions,
  h,
  v.sound sid p h,
  deref_open sid p (touched sid w) (v.sound sid p h),
)

pub rpc_release_missing :
    (sid : Bytes) (w : World)
    → lookup sid w.media_key_sessions ≡ none
    → rpc_release sid w ≡ ok (cdmi_s_false, touched sid w)
unfolding rpc_release
rpc_release_missing sid w h = ground (arith, lookup-touch sid sid w.media_key_sessions)

pub rpc_update_missing :
    (platform : Platform) (sid key : Bytes) (starts : Bool) (w : World)
    → lookup sid w.media_key_sessions ≡ none
    → rpc_update platform sid key starts w ≡ ok (cdmi_s_false, touched sid w)
unfolding rpc_update
rpc_update_missing platform sid key starts w h =
    ground (arith, lookup-touch sid sid w.media_key_sessions)

-- The engine session that a request makes, of NULL for an unknown id, and its thread.
unfoldable pub engine_made : Bytes → ℤ → ℤ → World → World
engine_made sid shmem sem w = record w {
  media_key_sessions = touch sid w.media_key_sessions;
  media_engine_sessions =
      w.media_engine_sessions
      ++ record { media_key_session = lookup sid w.media_key_sessions } ∷ [];
  threads = w.threads ++ decrypt_shmem (length w.media_engine_sessions) sem shmem ∷ [];
}

pub rpc_mediaengine_lem :
    (sid : Bytes) (shmem sem : ℤ) (w : World)
    → rpc_mediaengine sid shmem sem w ≡ ok (cdmi_success, engine_made sid shmem sem w)
unfolding rpc_mediaengine engine_made create_media_engine_session
rpc_mediaengine_lem sid shmem sem w = ground (
  arith,
  lookup-touch sid sid w.media_key_sessions,
  length-append w.media_engine_sessions
      (record { media_key_session = lookup sid w.media_key_sessions } ∷ []),
)

-- The state after an update: the keys that the response gave, a thread that reports the key, and the
-- key status sent to the client.
unfoldable pub updated : Bytes → Ptr → KeyIdAndKeyPairs → World → World
updated sid p keys w = record w {
  media_key_sessions = touch sid w.media_key_sessions;
  g_keys = keys;
  threads = w.threads ++ run_thread_2 p ∷ [];
  sent =
      w.sent
      ++ record {
        program = w.pnum;
        session_id = sid;
        event = Event.on_key_status_update (before_nul (key_id_and_key_pairs_to_json keys));
      }
        ∷ [];
}

-- Updating an open session, where extracting the keys returns at all, the client can be reached and
-- the thread starts: the answer is success whether or not the extraction succeeded, the keys are
-- what it left, a thread waits to report the key, and the status of these keys was sent.
pub rpc_update_open :
    (platform : Platform) (sid response : Bytes) (p : Ptr) (w : World) (b : Bool)
    (keys : KeyIdAndKeyPairs)
    → Inv w
    → lookup sid w.media_key_sessions ≡ some p
    → extract_keys_from_jwk_set platform.jsmn_parse platform.stack response w.g_keys ≡ ok (b, keys)
    → platform.connects w.pnum ≡ true
    → rpc_update platform sid response true w ≡ ok (cdmi_success, updated sid p keys w)
unfolding rpc_update update take_keys report_status on_key_status_update do_callback updated
rpc_update_open platform sid response p w b keys v h e c = ground (
  arith,
  lookup-touch sid sid w.media_key_sessions,
  deref_open sid p (touched sid w) (v.sound sid p h),
  deref_open sid p
      (record w {
        media_key_sessions = touch sid w.media_key_sessions;
        g_keys = keys;
        threads = w.threads ++ run_thread_2 p ∷ [];
      })
      (v.sound sid p h),
)
