-- ===== src/Service.antt =====
-- service.cpp: the procedures that the browser calls. Each handles one request.
pub mod Sessions
pub mod Create
pub mod Invariant
pub mod Requests
pub mod Frames
pub mod Steps
pub mod Refinement
pub mod Playback
pub mod Histories
pub mod Threads
pub mod Engines
pub mod Requested
pub mod Endings
pub mod Interleaving
pub mod SharedBuffer
pub mod Keys
pub mod Buffers
pub mod Heap
pub mod Races
pub mod AnyCdm
pub mod KnownIds
use open_content_decryption.Base.{
  ℕ, ◌+◌, ◌-◌, Bool, true, false, not, Option, none, some, List, [], ◌∷◌, ◌++◌, Bytes, length,
  if◌then◌else◌,
}
use open_content_decryption.Base.Int.{ℤ, pos, eqb_ℤ}
use open_content_decryption.Base.Outcome.{ok, fault}
use open_content_decryption.World.{
  World, M, Ptr, EngineSession, Callback, Platform, Task, decrypt_shmem, copy_text, free_session,
  cdmi_success, cdmi_s_false, ◌>>=◌, ◌>>◌, gets, modify, pure,
}
use open_content_decryption.MediaKeySession.{run, update, close, get_session_id, start_thread}
use open_content_decryption.MediaKeys.{
  is_type_supported, create_media_keys, create_media_key_session, create_media_engine_session,
}
use Sessions.{lookup, insert, touch, erase}

-- `rpc_response_create_session`: without a new session the id is not written.
pub record CreateResponse : Type 0 where
  pub platform_val : ℤ
  pub session_id : Option Bytes

-- A `bool` stored in a `CDMi_RESULT`.
abbrev pub to_int : Bool → ℤ
to_int true = pos 1
to_int false = pos 0

-- `rpc_open_cdm_is_type_supported_1_svc` passes the key system as the mime type, and the reverse.
unfoldable pub rpc_is_type_supported : Bool → Bytes → Bytes → M ℤ
rpc_is_type_supported unspecified key_system mime_type = do
  created ← gets (λ w. w.media_keys)
  pure (
      if created then to_int (is_type_supported unspecified key_system mime_type) else cdmi_s_false)

-- `rpc_open_cdm_mediakeys_1_svc`
unfoldable pub rpc_mediakeys : M ℤ
rpc_mediakeys = create_media_keys

-- `g_mediaKeySessions[sid]`, read and written.
unfoldable pub find_session : Bytes → M (Option Ptr)
find_session sid = do
  modify (λ w. record w { media_key_sessions = touch sid w.media_key_sessions })
  gets (λ w. lookup sid w.media_key_sessions)

unfoldable pub store_session : Bytes → Ptr → M (Unit {0})
store_session sid p =
    modify λ w. record w { media_key_sessions = insert sid (some p) w.media_key_sessions }

-- What `rpc_open_cdm_mediakeys_create_session_1_svc` does with a new session.
unfoldable pub register_session : (ℕ → ℕ) → Bool → Ptr → M Bytes
unfolding store_session
register_session usable starts p = do
  sid ← get_session_id p
  store_session sid p
  dst ← copy_text usable sid
  let callback : Callback = record { media_key_session = p }
  run p (some callback) starts
  pure dst

unfoldable pub make_session : (ℕ → ℕ) → Bool → M (Option Bytes)
make_session usable starts = do
  (cr, p) ← create_media_key_session usable
  modify (λ w. record w { create_session_cr = cr })
  if eqb_ℤ cr cdmi_success
      then (do dst ← register_session usable starts p; pure (some dst))
      else pure none

-- `rpc_open_cdm_mediakeys_create_session_1_svc`. Its `cr` is static: where no `CMediaKeys` was made
-- it answers with the result of the call before.
unfoldable pub rpc_create_session : (ℕ → ℕ) → Bool → ℕ → M CreateResponse
rpc_create_session usable starts prog_num = do
  modify (λ w. record w { pnum = prog_num })
  created ← gets (λ w. w.media_keys)
  sid ← (if created then make_session usable starts else pure none)
  cr ← gets (λ w. w.create_session_cr)
  pure (record { platform_val = cr; session_id = sid })

-- `rpc_open_cdm_mediakeys_load_session_1_svc` returns NULL: there is no response.
unfoldable pub rpc_load_session : Bytes → M (Option ℤ)
rpc_load_session session_id = pure none

-- `rpc_open_cdm_mediakeysession_update_1_svc`
unfoldable pub rpc_update : Platform → Bytes → Bytes → Bool → M ℤ
unfolding find_session
rpc_update platform session_id key starts = do
  session ← find_session session_id
  elim session [
    | none ↦ pure cdmi_s_false
    | some p ↦ do update platform p key starts; pure cdmi_success
  ]

-- `rpc_open_cdm_mediakeysession_release_1_svc`
unfoldable pub rpc_release : Bytes → M ℤ
unfolding find_session
rpc_release session_id = do
  session ← find_session session_id
  elim session [
    | none ↦ pure cdmi_s_false
    | some p ↦ do
      close p
      modify (λ w. record w { media_key_sessions = erase session_id w.media_key_sessions })
      free_session p
      pure cdmi_success
  ]

-- `rpc_open_cdm_mediaengine_1_svc`: an id with no session gives an engine session of NULL.
unfoldable pub rpc_mediaengine : Bytes → ℤ → ℤ → M ℤ
unfolding find_session start_thread
rpc_mediaengine session_id id_exchange_shmem id_exchange_sem = do
  session ← find_session session_id
  let made : ℤ × EngineSession = create_media_engine_session session
  if eqb_ℤ made.0 cdmi_success
      then (do
        modify (λ w. record w { media_engine_sessions = w.media_engine_sessions ++ made.1 ∷ [] })
        engines ← gets (λ w. w.media_engine_sessions)
        start_thread (decrypt_shmem (length engines - 1) id_exchange_sem id_exchange_shmem)
        pure made.0)
      else pure made.0
