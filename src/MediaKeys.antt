-- ===== src/MediaKeys.antt =====
-- cdmi-stub/mediakeys.cpp and mediaenginesession.cpp: the factories of key sessions and of media
-- engine sessions.
pub mod Destroy
use open_content_decryption.Base.{
  ℕ, ◌+◌, ◌%◌, ◌^◌, Bool, true, not, [], ◌∷◌, ◌++◌, get_elem?, Option, none, some, Bytes,
  if◌then◌else◌,
}
use open_content_decryption.Base.Int.{ℤ, eqb_ℤ}
use open_content_decryption.Base.Outcome.{ok, fault, null_pointer}
use open_content_decryption.World.{
  World, M, Ptr, freed, EngineSession, Platform, copy_text, free_session, cdmi_success, ◌>>=◌, ◌>>◌,
  gets, modify, fails, pure,
}
use open_content_decryption.Decimal.{decimal}
use open_content_decryption.MediaKeySession.{
  new_session, init_session, Decrypted, decrypt, release_clear_content,
}

-- `CreateSessionId`: the counter in decimal, copied into a block of just the text's length.
unfoldable pub create_session_id : (ℕ → ℕ) → M Bytes
create_session_id usable = do
  n ← gets (λ w. w.session_cnt)
  buffer ← copy_text usable (decimal n)
  modify (λ w. record w { session_cnt = (w.session_cnt + 1) % 2 ^ 32 })
  pure buffer

-- `CreateMediaKeySession`: the result and the new session.
unfoldable pub create_media_key_session : (ℕ → ℕ) → M (ℤ × Ptr)
unfolding create_session_id new_session
create_media_key_session usable = do
  sid ← create_session_id usable
  p ← new_session sid
  dr ← init_session
  if not (eqb_ℤ dr cdmi_success) then (do free_session p; pure (dr, p)) else pure (dr, p)

-- `DestroyMediaKeySession`: `delete`, which does nothing for NULL.
unfoldable pub destroy_media_key_session : Option Ptr → M ℤ
destroy_media_key_session p = elim p [
  | none ↦ pure cdmi_success
  | some q ↦ do free_session q; pure cdmi_success
]

-- `IsTypeSupported` has no return statement: the value that its caller sees is an argument here.
unfoldable pub is_type_supported : Bool → Bytes → Bytes → Bool
is_type_supported unspecified mime_type key_system = unspecified

-- A new `CMediaKeys`, which `g_pMediaKeys` points to from then on.
abbrev pub keys_made : World → World
keys_made w = record w {
  media_keys = true;
  media_keys_objects = w.media_keys_objects ++ record { content = tt; live = true } ∷ [];
}

-- `CreateMediaKeys`, whose caller is given the new object.
unfoldable pub create_media_keys : M ℤ
create_media_keys = do modify keys_made; pure cdmi_success

-- `DestroyMediaKeys`: `delete`, which does nothing for NULL. `g_pMediaKeys` is not reset.
unfoldable pub destroy_media_keys : Option Ptr → M ℤ
destroy_media_keys none w = ok (cdmi_success, w)
destroy_media_keys (some p) w =
    elim (freed w.media_keys_objects p (get_elem? w.media_keys_objects p)) [
      | fault e ↦ fault e
      | ok slots ↦ ok (cdmi_success, record w { media_keys_objects = slots })
    ]

-- `CreateMediaEngineSession` with `Init`: the result and the new engine session.
unfoldable pub create_media_engine_session : Option Ptr → ℤ × EngineSession
create_media_engine_session p = (cdmi_success, record { media_key_session = p })

-- `DestroyMediaEngineSession` is empty and has no return statement: the value that its caller sees is an
-- argument here.
unfoldable pub destroy_media_engine_session : ℤ → Option EngineSession → M ℤ
destroy_media_engine_session unspecified e = pure unspecified

-- `CMediaEngineSession::Decrypt`: a call that is not virtual, on an object of which nothing is read.
unfoldable pub engine_decrypt : Platform → EngineSession → Bytes → Bytes → M Decrypted
engine_decrypt platform e iv sample = decrypt platform iv sample true

-- `CMediaEngineSession::ReleaseClearContent`: a virtual call through the key session.
unfoldable pub engine_release_clear_content : EngineSession → Ptr → M (Unit {0})
engine_release_clear_content e buffer = elim e.media_key_session [
  | none ↦ fails null_pointer
  | some p ↦ release_clear_content p buffer
]
