-- ===== src/Service/AnyCdm.antt =====
-- service.cpp: the procedures over the interfaces of cdmi.h alone, for any content decryption module.
pub mod Table
pub mod Handlers
pub mod Create
pub mod Requests
pub mod Linked
use open_content_decryption.Base.{
  ℕ, ◌-◌, Bool, Option, none, some, [], ◌∷◌, ◌++◌, Bytes, length, if◌then◌else◌,
}
use open_content_decryption.Base.Int.{ℤ, eqb_ℤ}
use open_content_decryption.Cdmi.{Cdm}
use open_content_decryption.MediaKeySession.{start_thread}
use open_content_decryption.Service.{CreateResponse, to_int, find_session, store_session}
use open_content_decryption.Service.Sessions.{erase}
use open_content_decryption.World.{
  World, M, Ptr, Callback, EngineSession, decrypt_shmem, copy_text, cdmi_success, cdmi_s_false,
  ◌>>=◌, ◌>>◌, gets, modify, pure,
}

module _ (cdm : Cdm) (usable : ℕ → ℕ) where
  unfoldable pub rpc_is_type_supported_by : Bytes → Bytes → M ℤ
  rpc_is_type_supported_by key_system mime_type = do
    created ← gets (λ w. w.media_keys)
    if created
        then (do
          supported ← cdm.media_keys.is_type_supported key_system mime_type
          pure (to_int supported))
        else pure cdmi_s_false

  unfoldable pub rpc_mediakeys_by : M ℤ
  rpc_mediakeys_by = cdm.create_media_keys

  -- What a request does with a new session.
  unfoldable pub register_session_by : Ptr → M Bytes
  register_session_by p = do
    sid ← (cdm.media_key_session p).get_session_id
    store_session sid p
    dst ← copy_text usable sid
    let callback : Callback = record { media_key_session = p }
    (cdm.media_key_session p).run (some callback)
    pure dst

  unfoldable pub make_session_by : Bytes → Bytes → M (Option Bytes)
  make_session_by mime_type init_data = do
    (cr, p) ← cdm.media_keys.create_media_key_session mime_type init_data []
    modify (λ w. record w { create_session_cr = cr })
    if eqb_ℤ cr cdmi_success then (do dst ← register_session_by p; pure (some dst)) else pure none

  unfoldable pub rpc_create_session_by : Bytes → Bytes → ℕ → M CreateResponse
  rpc_create_session_by mime_type init_data prog_num = do
    modify (λ w. record w { pnum = prog_num })
    created ← gets (λ w. w.media_keys)
    sid ← (if created then make_session_by mime_type init_data else pure none)
    cr ← gets (λ w. w.create_session_cr)
    pure (record { platform_val = cr; session_id = sid })

  unfoldable pub update_found : Bytes → Option Ptr → M ℤ
  update_found key none = pure cdmi_s_false
  update_found key (some p) = do (cdm.media_key_session p).update key; pure cdmi_success

  unfoldable pub rpc_update_by : Bytes → Bytes → M ℤ
  rpc_update_by session_id key = do session ← find_session session_id; update_found key session

  unfoldable pub release_found : Bytes → Option Ptr → M ℤ
  release_found session_id none = pure cdmi_s_false
  release_found session_id (some p) = do
    (cdm.media_key_session p).close
    modify (λ w. record w { media_key_sessions = erase session_id w.media_key_sessions })
    cdm.free_object p
    pure cdmi_success

  unfoldable pub rpc_release_by : Bytes → M ℤ
  rpc_release_by session_id = do session ← find_session session_id; release_found session_id session

  -- The new engine session and its thread.
  unfoldable pub start_engine : ℤ → ℤ → ℤ → EngineSession → M ℤ
  unfolding start_thread
  start_engine id_exchange_shmem id_exchange_sem cr e =
      if eqb_ℤ cr cdmi_success
      then (do
        modify (λ w. record w { media_engine_sessions = w.media_engine_sessions ++ e ∷ [] })
        engines ← gets (λ w. w.media_engine_sessions)
        start_thread (decrypt_shmem (length engines - 1) id_exchange_sem id_exchange_shmem)
        pure cr)
      else pure cr

  unfoldable pub rpc_mediaengine_by : Bytes → ℤ → ℤ → M ℤ
  rpc_mediaengine_by session_id id_exchange_shmem id_exchange_sem = do
    session ← find_session session_id
    (cr, e) ← cdm.create_media_engine_session session
    start_engine id_exchange_shmem id_exchange_sem cr e
