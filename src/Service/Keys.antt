-- ===== src/Service/Keys.antt =====
-- service.cpp and cdmi-stub: what `g_keys` holds after any history of requests, threads and samples.
use open_content_decryption.Base.{
  ◌≤◌, ◌≡◌, ◌⊎◌, Bool, none, some, List, [], ◌∷◌, Bytes, IsByte, All, length, arith, inl, inr,
}
use open_content_decryption.Base.Int.{ℤ}
use open_content_decryption.Base.Outcome.{ok, Outcome-cases}
use open_content_decryption.Base64.Reference.{base64_decode_bounds}
use open_content_decryption.JsonWebKey.{
  Parser, Token, Scan, KeyIdAndKeyPair, KeyIdAndKeyPairs, empty_scan, rounds_from_2, scan_tokens,
  convert_strings_to_key_pair, extract_keys_from_jwk_set,
}
use open_content_decryption.MediaKeySession
use open_content_decryption.MediaKeySession.{take_keys, report_status}
use open_content_decryption.Callbacks.{on_key_status_update, do_callback}
use open_content_decryption.Service.{rpc_update}
use open_content_decryption.Service.Create.{HasRoom, created}
use open_content_decryption.Service.Frames.{decrypt_round-Frames, run_thread-Frames}
use open_content_decryption.Service.Histories.{Kept, Reach-Kept}
use open_content_decryption.Service.Invariant.{released}
use open_content_decryption.Service.Requests.{engine_made}
use open_content_decryption.Service.Steps.{Reach, thread_number}
use open_content_decryption.World.{World, Platform, deref}

-- A pair of byte strings.
abbrev pub ArePairBytes : KeyIdAndKeyPair → Type 0
ArePairBytes (key_id, key) = All IsByte key_id × All IsByte key

-- No key so far, or one pair of byte strings.
abbrev pub AreKeys : KeyIdAndKeyPairs → Type 0
AreKeys keys = (length keys ≤ 1) × All ArePairBytes keys

converted-AreKeys : (key key_id : Bytes) → AreKeys (convert_strings_to_key_pair key key_id ∷ [])
unfolding convert_strings_to_key_pair
converted-AreKeys key key_id =
    (omega arith, (((base64_decode_bounds _).0, (base64_decode_bounds _).0), tt))

extract_cases :
    (jsmn_parse : Parser) (stack : List Token) (json : Bytes) (keys keys' : KeyIdAndKeyPairs)
    (b : Bool)
    → extract_keys_from_jwk_set jsmn_parse stack json keys ≡ ok (b, keys')
    → (keys' ≡ keys) ⊎ ((s : Scan) × (keys' ≡ convert_strings_to_key_pair s.key s.key_id ∷ []))
unfolding extract_keys_from_jwk_set
extract_cases jsmn_parse stack json keys keys' b h =
    let (result, t) = jsmn_parse json stack in
    elim (Outcome-cases (scan_tokens json t (rounds_from_2 result) 2 empty_scan)) [
      | inr (e, failed) ↦ inl (ground (arith, h, failed))
      | inl (none, refused) ↦ inl (ground (arith, h, refused))
      | inl (some s, found) ↦
          let one : (keys' ≡ keys) ⊎ (keys' ≡ convert_strings_to_key_pair s.key s.key_id ∷ []) =
            ground (arith, h, found) in
          elim one [ inl same ↦ inl same | inr new ↦ inr (s, new) ]
    ]

pub extract-AreKeys :
    (jsmn_parse : Parser) (stack : List Token) (json : Bytes) (keys keys' : KeyIdAndKeyPairs)
    (b : Bool)
    → extract_keys_from_jwk_set jsmn_parse stack json keys ≡ ok (b, keys')
    → AreKeys keys
    → AreKeys keys'
extract-AreKeys jsmn_parse stack json keys keys' b h k =
    elim (extract_cases jsmn_parse stack json keys keys' b h) [
      | inl same ↦ rw same k
      | inr (s, new) ↦ rw new (converted-AreKeys s.key s.key_id)
    ]

rpc_update-keys :
    (platform : Platform) (sid key : Bytes) (starts : Bool) (w w' : World) (r : ℤ)
    → rpc_update platform sid key starts w ≡ ok (r, w')
    → (w'.g_keys ≡ w.g_keys)
      ⊎ ((b : Bool) × (extract_keys_from_jwk_set platform.jsmn_parse platform.stack key w.g_keys
            ≡ ok (b, w'.g_keys)))
unfolding rpc_update MediaKeySession.update take_keys report_status on_key_status_update do_callback
    deref
rpc_update-keys platform sid key starts w w' r h =
    elim (Outcome-cases
      (extract_keys_from_jwk_set platform.jsmn_parse platform.stack key w.g_keys)) [
        | inr (e, failed) ↦ inl (ground (arith, h, failed))
        | inl ((b, keys), taken) ↦
            let one : (w'.g_keys ≡ w.g_keys) ⊎ (w'.g_keys ≡ keys) = ground (arith, h, taken) in
            elim one [ inl same ↦ inl same | inr new ↦ inr (b, rw new taken) ]
      ]

KeysKept : (platform : Platform) → Kept platform (λ w. AreKeys w.g_keys)
unfolding created released engine_made
KeysKept platform = record {
  at_start = (omega arith, tt);
  by_request = record {
    by_mediakeys = λ w k. k;
    by_create = λ prog_num starts w v k. k;
    by_refusal = λ prog_num w k. k;
    by_update = λ sid key starts w w' r h v k.
        elim (rpc_update-keys platform sid key starts w w' r h) [
          | inl same ↦ rw same k
          | inr (b, taken) ↦
              extract-AreKeys platform.jsmn_parse platform.stack key w.g_keys w'.g_keys b taken k
        ];
    by_release = λ sid p w h v k. k;
    by_miss = λ sid w k. k;
    by_mediaengine = λ sid shmem sem w v k. k;
    by_thread = λ before behind task p w w' split h k.
        rw (run_thread-Frames platform.connects (thread_number task) p _ w' h).keys k;
  };
  by_sample = λ idx x r w w' h k. rw (decrypt_round-Frames platform idx x w w' r h).keys k;
}

-- With an allocator that leaves room, after any history of requests, threads and samples, whatever the
-- responses were: `g_keys` is empty or holds one pair, and its key id and its key are byte strings.
pub Reach-AreKeys :
    (platform : Platform) {w : World}
    → HasRoom platform.usable
    → Reach platform w
    → AreKeys w.g_keys
Reach-AreKeys platform room history = Reach-Kept platform room _ (KeysKept platform) history
