-- ===== src/Cdmi/Stub.antt =====
-- cdmi-stub/imp.h: `CMediaKeySession`, `CMediaKeys` and `CMediaEngineSession` behind the interfaces of
-- cdmi.h, and `CCallback` of service.cpp.
use open_content_decryption.Base.{ℕ, Bool}
use open_content_decryption.Base.Int.{ℤ}
use open_content_decryption.Callbacks.{
  on_key_message, on_key_ready, on_key_error, on_key_status_update,
}
use open_content_decryption.Cdmi.{
  Cdm, IMediaKeySessionCallback, IMediaKeySession, IMediaKeys, IMediaEngineSession,
}
use open_content_decryption.MediaKeySession.{run, update, close, get_session_id, get_key_system}
use open_content_decryption.MediaKeys.{
  is_type_supported, create_media_keys, destroy_media_keys, create_media_key_session,
  destroy_media_key_session, create_media_engine_session, destroy_media_engine_session,
  engine_decrypt, engine_release_clear_content,
}
use open_content_decryption.World.{Ptr, Platform, Callback, EngineSession, pure, free_session}

-- `CCallback`. No member looks at the key message or at the errors.
unfoldable pub c_callback : (ℕ → Bool) → Callback → IMediaKeySessionCallback
c_callback connects cb = record {
  on_key_message = λ key_message url. on_key_message connects cb url;
  on_key_ready = on_key_ready connects cb;
  on_key_error = λ error sys_error. on_key_error connects cb;
  on_key_status_update = on_key_status_update connects cb;
}

-- `starts` says whether `pthread_create` gives 0.
unfoldable pub c_media_key_session : Platform → Bool → Ptr → IMediaKeySession
c_media_key_session platform starts p = record {
  run = λ callback. run p callback starts;
  update = λ response. update platform p response starts;
  close = close p;
  get_session_id = get_session_id p;
  get_key_system = get_key_system p;
}

-- `CMediaKeys` has no state of its own. `supported` is what `IsTypeSupported` leaves in place of a result.
unfoldable pub c_media_keys : Platform → Bool → IMediaKeys
c_media_keys platform supported = record {
  is_type_supported =
      λ mime_type key_system. pure (is_type_supported supported mime_type key_system);
  create_media_key_session =
      λ mime_type init_data cdm_data. create_media_key_session platform.usable;
  destroy_media_key_session = destroy_media_key_session;
}

-- Nothing looks at the mapping of subsamples or at the size of what is released.
unfoldable pub c_media_engine_session : Platform → EngineSession → IMediaEngineSession
c_media_engine_session platform e = record {
  decrypt = λ sub_sample_mapping iv sample. engine_decrypt platform e iv sample;
  release_clear_content = λ size buffer. engine_release_clear_content e buffer;
}

-- `destroyed` is what `DestroyMediaEngineSession` leaves in place of a result.
unfoldable pub stub : Platform → Bool → Bool → ℤ → Cdm
stub platform starts supported destroyed = record {
  create_media_keys = create_media_keys;
  destroy_media_keys = destroy_media_keys;
  media_keys = c_media_keys platform supported;
  media_key_session = c_media_key_session platform starts;
  create_media_engine_session = λ p. pure (create_media_engine_session p);
  destroy_media_engine_session = destroy_media_engine_session destroyed;
  media_engine_session = c_media_engine_session platform;
  free_object = free_session;
}
