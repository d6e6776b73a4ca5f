-- ===== src/Service/AnyCdm/Linked.antt =====
-- service.cpp with cdmi-stub: the procedures over the interfaces beside those over the stub's functions.
use open_content_decryption.Base.{
  ℕ, ◌≡◌, refl, Bool, Bytes, arith, inl, inr, Option-cases, Bool-cases,
}
use open_content_decryption.Base.Int.{ℤ}
use open_content_decryption.Cdmi.Stub.{stub, c_media_key_session, c_media_keys}
use open_content_decryption.Service.{
  rpc_is_type_supported, rpc_mediakeys, rpc_create_session, rpc_update, rpc_release,
  rpc_mediaengine, make_session, register_session,
}
use open_content_decryption.Service.AnyCdm.{
  rpc_is_type_supported_by, rpc_mediakeys_by, rpc_create_session_by, rpc_update_by, rpc_release_by,
  rpc_mediaengine_by, make_session_by, register_session_by, update_found, release_found,
  start_engine,
}
use open_content_decryption.Service.Requests.{found_session}
use open_content_decryption.Service.Sessions.{lookup}
use open_content_decryption.World.{World, Platform}

module _ (platform : Platform) (starts supported : Bool) (destroyed : ℤ) where
  update_linked :
      (sid key : Bytes) (w : World)
      → rpc_update_by (stub platform starts supported destroyed) platform.usable sid key w
        ≡ rpc_update platform sid key starts w
  unfolding rpc_update_by rpc_update update_found stub c_media_key_session
  update_linked sid key w = elim (Option-cases (lookup sid w.media_key_sessions)) [
    | inl missing ↦ ground (arith, found_session sid w, missing)
    | inr (p, found) ↦ ground (arith, found_session sid w, found)
  ]

  release_linked :
      (sid : Bytes) (w : World)
      → rpc_release_by (stub platform starts supported destroyed) platform.usable sid w
        ≡ rpc_release sid w
  unfolding rpc_release_by rpc_release release_found stub c_media_key_session
  release_linked sid w = elim (Option-cases (lookup sid w.media_key_sessions)) [
    | inl missing ↦ ground (arith, found_session sid w, missing)
    | inr (p, found) ↦ ground (arith, found_session sid w, found)
  ]

  create_linked :
      (mime_type init_data : Bytes) (prog_num : ℕ) (w : World)
      → rpc_create_session_by
          (stub platform starts supported destroyed)
          platform.usable
          mime_type
          init_data
          prog_num
          w
        ≡ rpc_create_session platform.usable starts prog_num w
  unfolding rpc_create_session_by rpc_create_session make_session_by make_session
      register_session_by register_session stub c_media_key_session c_media_keys
  create_linked mime_type init_data prog_num w = refl

  mediaengine_linked :
      (sid : Bytes) (shmem sem : ℤ) (w : World)
      → rpc_mediaengine_by
          (stub platform starts supported destroyed)
          platform.usable
          sid
          shmem
          sem
          w
        ≡ rpc_mediaengine sid shmem sem w
  unfolding rpc_mediaengine_by rpc_mediaengine start_engine stub
  mediaengine_linked sid shmem sem w = refl

  supported_linked :
      (key_system mime_type : Bytes) (w : World)
      → rpc_is_type_supported_by
          (stub platform starts supported destroyed)
          platform.usable
          key_system
          mime_type
          w
        ≡ rpc_is_type_supported supported key_system mime_type w
  unfolding rpc_is_type_supported_by rpc_is_type_supported stub c_media_keys
  supported_linked key_system mime_type w = elim (Bool-cases w.media_keys) [
    | inl made ↦ ground (arith, made)
    | inr unmade ↦ ground (arith, unmade)
  ]

  -- With the stub behind the interfaces of cdmi.h, the procedures over any module are those that are
  -- written with the stub's own functions: for every request, with the same answer, state or fault.
  pub stub_linked :
      (mime_type init_data key_system sid key : Bytes) (prog_num : ℕ) (shmem sem : ℤ) (w : World)
      → (rpc_is_type_supported_by
            (stub platform starts supported destroyed)
            platform.usable
            key_system
            mime_type
            w
          ≡ rpc_is_type_supported supported key_system mime_type w)
        × (rpc_mediakeys_by (stub platform starts supported destroyed) platform.usable w
            ≡ rpc_mediakeys w)
        × (rpc_create_session_by
              (stub platform starts supported destroyed)
              platform.usable
              mime_type
              init_data
              prog_num
              w
            ≡ rpc_create_session platform.usable starts prog_num w)
        × (rpc_update_by (stub platform starts supported destroyed) platform.usable sid key w
            ≡ rpc_update platform sid key starts w)
        × (rpc_release_by (stub platform starts supported destroyed) platform.usable sid w
            ≡ rpc_release sid w)
        × (rpc_mediaengine_by
              (stub platform starts supported destroyed)
              platform.usable
              sid
              shmem
              sem
              w
            ≡ rpc_mediaengine sid shmem sem w)
  unfolding rpc_mediakeys_by rpc_mediakeys stub
  stub_linked mime_type init_data key_system sid key prog_num shmem sem w = (
    supported_linked key_system mime_type w,
    refl,
    create_linked mime_type init_data prog_num w,
    update_linked sid key w,
    release_linked sid w,
    mediaengine_linked sid shmem sem w,
  )
