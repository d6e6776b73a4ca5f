-- ===== src/Cdmi.antt =====
-- cdmi.h: the result codes, and the interfaces behind which a content decryption module stands.
pub mod Stub
pub mod Contract
pub mod Conforming
pub mod StubConforms
use open_content_decryption.Base.{
  ℕ, ◌-◌, ◌^◌, Bool, true, false, not, Option, List, Bytes, ltb, if◌then◌else◌,
}
use open_content_decryption.Base.Int.{ℤ, pos, negsuc}
use open_content_decryption.World.{M, Ptr, Callback, EngineSession}
use open_content_decryption.MediaKeySession.{Decrypted}

-- `(CDMi_RESULT)` of a number of 32 bits, in two's complement.
unfoldable pub cdmi_result : ℕ → ℤ
cdmi_result n = if ltb n (2 ^ 31) then pos n else negsuc (2 ^ 32 - 1 - n)

abbrev pub cdmi_e_out_of_memory : ℤ
cdmi_e_out_of_memory = cdmi_result 2147483650

abbrev pub cdmi_e_fail : ℤ
cdmi_e_fail = cdmi_result 2147500037

abbrev pub cdmi_e_invalid_arg : ℤ
cdmi_e_invalid_arg = cdmi_result 2147942487

abbrev pub cdmi_e_server_internal_error : ℤ
cdmi_e_server_internal_error = cdmi_result 2147796480

abbrev pub cdmi_e_server_invalid_message : ℤ
cdmi_e_server_invalid_message = cdmi_result 2147796481

abbrev pub cdmi_e_server_service_specific : ℤ
cdmi_e_server_service_specific = cdmi_result 2147796484

unfoldable pub cdmi_failed : ℤ → Bool
cdmi_failed (pos n) = false
cdmi_failed (negsuc n) = true

unfoldable pub cdmi_succeeded : ℤ → Bool
cdmi_succeeded (pos n) = true
cdmi_succeeded (negsuc n) = false

-- `IMediaKeySessionCallback`: what a session reports.
pub record IMediaKeySessionCallback : Type 0 where
  pub on_key_message : Bytes → Bytes → M (Unit {0})
  pub on_key_ready : M (Unit {0})
  pub on_key_error : ℤ → ℤ → M (Unit {0})
  pub on_key_status_update : Bytes → M (Unit {0})

-- `IMediaKeySession`: the members of one session object.
pub record IMediaKeySession : Type 0 where
  pub run : Option Callback → M (Unit {0})
  pub update : Bytes → M (Unit {0})
  pub close : M (Unit {0})
  pub get_session_id : M Bytes
  pub get_key_system : M Bytes

-- `IMediaKeys`. A new session comes with the result.
pub record IMediaKeys : Type 0 where
  pub is_type_supported : Bytes → Bytes → M Bool
  pub create_media_key_session : Bytes → Bytes → Bytes → M (ℤ × Ptr)
  pub destroy_media_key_session : Option Ptr → M ℤ

-- `IMediaEngineSession`. A sample comes with the mapping of its subsamples and an initial value.
pub record IMediaEngineSession : Type 0 where
  pub decrypt : List ℕ → Bytes → Bytes → M Decrypted
  pub release_clear_content : Option ℕ → Ptr → M (Unit {0})

-- A content decryption module: its global functions, its classes behind the interfaces, by their objects,
-- and `free` of the block that a session object of it is in.
pub record Cdm : Type 0 where
  pub create_media_keys : M ℤ
  pub destroy_media_keys : Option Ptr → M ℤ
  pub media_keys : IMediaKeys
  pub media_key_session : Ptr → IMediaKeySession
  pub create_media_engine_session : Option Ptr → M (ℤ × EngineSession)
  pub destroy_media_engine_session : Option EngineSession → M ℤ
  pub media_engine_session : EngineSession → IMediaEngineSession
  pub free_object : Ptr → M (Unit {0})
