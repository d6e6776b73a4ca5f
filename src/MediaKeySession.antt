-- ===== src/MediaKeySession.antt =====
-- cdmi-stub/mediakeysession.cpp: the key session, its keys and the decryption of a sample.
pub mod Decrypt
use open_content_decryption.Base.{
  ℕ, suc, ◌+◌, ◌*◌, Bool, true, false, not, ◌&&◌, Option, none, some, List, [], ◌∷◌, ◌++◌, Bytes,
  codes, ◌==◌, ltb, if◌then◌else◌, length, set, replicate, drop,
}
use open_content_decryption.Base.Int.{ℤ, pos, negsuc}
use open_content_decryption.Base.Outcome.{
  Outcome, ok, fault, uninitialised, null_pointer, assertion,
}
use open_content_decryption.JsonWebKey.{
  Parser, Token, KeyIdAndKeyPair, KeyIdAndKeyPairs, extract_keys_from_jwk_set,
}
use open_content_decryption.World.{
  World, M, Ptr, KeySession, Slot, Callback, Platform, Task, run_thread_1, run_thread_2, deref,
  free_session, free_buffer, malloc, cdmi_success, ◌>>=◌, ◌>>◌, gets, modify, fails, pure,
}
use open_content_decryption.Callbacks.{
  before_nul, on_key_message, on_key_ready, on_key_status_update,
}

-- One entry of the JSON text: the key id as it is, and MEDIA_KEY_STATUS_USABLE.
abbrev status_entry : KeyIdAndKeyPair → Bytes
status_entry (key_id, _) = b'"' ∷ (key_id ++ (codes "\" : \"" ++ (codes "0" ++ codes "\"\n")))

abbrev status_entries : KeyIdAndKeyPairs → Bytes
status_entries [] = []
status_entries (pair ∷ pairs) = status_entry pair ++ status_entries pairs

-- `keyIdAndKeyPairsToJSON`
unfoldable pub key_id_and_key_pairs_to_json : KeyIdAndKeyPairs → Bytes
key_id_and_key_pairs_to_json pairs = codes "{ " ++ (status_entries pairs ++ codes "}")

-- The constructor: a new object. `m_piCallback` is not set.
unfoldable pub new_session : Bytes → M Ptr
new_session sid w =
    let s : KeySession = record { session_id = sid; callback = none } in
    ok (
      length w.key_sessions,
      record w { key_sessions = w.key_sessions ++ record { content = s; live = true } ∷ [] },
    )

abbrev write_session : Ptr → KeySession → M (Unit {0})
write_session p s =
    modify
      λ w. record w { key_sessions = set w.key_sessions p (record { content = s; live = true }) }

-- `pthread_create` and `pthread_detach`
unfoldable pub start_thread : Task → M (Unit {0})
start_thread task = modify λ w. record w { threads = w.threads ++ task ∷ [] }

-- `Run`. `starts` says whether `pthread_create` gives 0.
unfoldable pub run : Ptr → Option Callback → Bool → M (Unit {0})
unfolding start_thread
run p callback starts = do
  s ← deref p
  elim callback [
    | none ↦ pure tt
    | some cb ↦ do
      write_session p (record s { callback = some cb })
      if starts then start_thread (run_thread_1 p) else pure tt
  ]

-- `RunThread(1)` and `RunThread(2)`
unfoldable pub run_thread : (ℕ → Bool) → ℕ → Ptr → M (Unit {0})
run_thread connects i p = do
  s ← deref p
  elim s.callback [
    | none ↦ fails uninitialised
    | some cb ↦
        if i == 1
        then on_key_message connects cb (codes "http://no-valid-license-server")
        else on_key_ready connects cb
  ]

-- `Update`: takes the keys, starts the thread that says so, and reports the key status. What
-- `ExtractKeysFromJWKSet` returns is not looked at.
module _ (platform : Platform) where
  open platform use {jsmn_parse, stack, connects}

  unfoldable pub take_keys : Bytes → M (Unit {0})
  take_keys response w = elim (extract_keys_from_jwk_set jsmn_parse stack response w.g_keys) [
    | fault e ↦ fault e
    | ok (_, keys) ↦ ok (tt, record w { g_keys = keys })
  ]

  unfoldable pub report_status : KeySession → M (Unit {0})
  report_status s = elim s.callback [
    | none ↦ fails uninitialised
    | some cb ↦ do
      keys ← gets (λ w. w.g_keys)
      on_key_status_update connects cb (key_id_and_key_pairs_to_json keys)
  ]

  unfoldable pub update : Ptr → Bytes → Bool → M (Unit {0})
  unfolding start_thread
  update p response starts = do
    s ← deref p
    take_keys response
    if starts then (do start_thread (run_thread_2 p); report_status s) else pure tt

-- `Close` has an empty body.
unfoldable pub close : Ptr → M (Unit {0})
close p = do s ← deref p; pure tt

unfoldable pub get_session_id : Ptr → M Bytes
get_session_id p = do s ← deref p; pure s.session_id

-- `GetKeySystem` of the object: a constant.
unfoldable pub get_key_system : Ptr → M Bytes
get_key_system p = do s ← deref p; pure (codes "keysystem-placeholder")

-- `Init`
abbrev pub init_session : M ℤ
init_session = pure cdmi_success

abbrev pub aes_block_size : ℕ
aes_block_size = 16

abbrev pub key_size : ℕ
key_size = 16

-- `ivec[AES_BLOCK_SIZE] = { 0 }`
abbrev ivec : Bytes
ivec = replicate aes_block_size 0

-- `memcpy(&(ivec[0]), f_pbIV, f_cbIV)`: the first bytes of `ivec` become those of the initial value,
-- which the assertion keeps shorter than a block.
unfoldable pub counter_block : Bytes → Bytes
counter_block iv = iv ++ drop (length iv) ivec

-- The key, as the expanded `AES_KEY`: its length is taken by `strlen`.
unfoldable pub aes_key : (platform : Platform) → Bytes → Option platform.Schedule
aes_key platform key = platform.aes_set_encrypt_key key (length (before_nul key) * 8)

abbrev pub fail : ℤ
fail = negsuc 0

-- What `Decrypt` gives: its result and, where they are written, the size and the buffer.
pub record Decrypted : Type 0 where
  pub result : ℤ
  pub size : Option ℕ
  pub buffer : Option Ptr

abbrev failed : Decrypted
failed = record { result = fail; size = none; buffer = none }

write_buffer : Ptr → Bytes → M (Unit {0})
write_buffer p bytes =
    modify λ w. record w { buffers = set w.buffers p (record { content = bytes; live = true }) }

module _ (platform : Platform) where
  unfoldable pub decrypt_with : Bytes → Bytes → Bytes → Ptr → M Decrypted
  unfolding write_buffer
  decrypt_with key iv sample out = elim (aes_key platform key) [
    | none ↦ fails uninitialised
    | some schedule ↦ do
      write_buffer out (platform.aes_ctr128_encrypt schedule (counter_block iv) sample)
      pure (record { result = cdmi_success; size = some (length sample); buffer = some out })
  ]

  unfoldable pub decrypt_first : KeyIdAndKeyPairs → Bytes → Bytes → Ptr → M Decrypted
  unfolding decrypt_with
  decrypt_first [] iv sample out = fails null_pointer
  decrypt_first ((_, key) ∷ _) iv sample out =
      if not (length key == key_size)
      then (do free_buffer out; pure failed)
      else decrypt_with key iv sample out

  -- `CMediaKeySession::Decrypt`. It reads no member of the object. `has_size` says whether
  -- `f_pcbOpaqueClearContent` points somewhere.
  unfoldable pub decrypt : Bytes → Bytes → Bool → M Decrypted
  unfolding decrypt_first malloc
  decrypt iv sample has_size =
      if not (ltb (length iv) aes_block_size)
      then fails assertion
      else if not has_size
      then pure failed
      else do
        out ← malloc (replicate (length sample) 0)
        keys ← gets (λ w. w.g_keys)
        decrypt_first keys iv sample out

-- `CMediaKeySession::ReleaseClearContent`, which is virtual.
unfoldable pub release_clear_content : Ptr → Ptr → M (Unit {0})
release_clear_content p buffer = do s ← deref p; free_buffer buffer
