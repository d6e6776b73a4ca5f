-- ===== src/Service/Playback.antt =====
-- service.cpp from the license to the clear samples: an update, a media engine session, and the thread
-- that decrypts for it.
use open_content_decryption.Base.{
  ◌≡◌, refl, true, false, some, List, [], ◌∷◌, ◌++◌, Bytes, IsByte, All, length, map,
}
use open_content_decryption.Base.Int.{ℤ, pos, eqb_ℤ}
use open_content_decryption.Base.Outcome.{ok}
use open_content_decryption.JsonWebKey.{key_tag, key_id_tag}
use open_content_decryption.JsonWebKey.KeySet.{Parses, extract-url_encode}
use open_content_decryption.JsonWebKey.Members.{Member, values}
use open_content_decryption.JsonWebKey.Pairs.{url_encode}
use open_content_decryption.MediaKeySession.{aes_key, key_size}
use open_content_decryption.SampleLoop.{Exchange, run_decrypt_shmem}
use open_content_decryption.SampleLoop.Rounds.{
  Holds, nothing, current, Ready, Asks, IsCounterMode, protect, loop-protect,
}
use open_content_decryption.Service.{rpc_update, rpc_mediaengine}
use open_content_decryption.Service.Invariant.{Inv}
use open_content_decryption.Service.Create.{HasRoom}
use open_content_decryption.Service.Steps.{Reach}
use open_content_decryption.Service.Refinement.{Reach-Inv}
use open_content_decryption.Service.Heap.{Reach-Holds}
use open_content_decryption.Service.Requests.{
  updated, rpc_update_open, engine_made, rpc_mediaengine_lem,
}
use open_content_decryption.Service.Sessions.{lookup, touch, lookup-touch}
use open_content_decryption.World.{World, Ptr, Platform, cdmi_success, decrypt_shmem}
use open_content_decryption.World.Slots.{get_elem?-append_last}

-- A license: a response whose members have one key and one key id in base64url, the key one that
-- OpenSSL expands.
pub record License (platform : Platform) (response key key_id : Bytes)
    (schedule : platform.Schedule) : Type 0 where
  pub members : List Member
  pub parses : Parses platform.jsmn_parse platform.stack response members
  pub one_key : values key_tag members ≡ url_encode key ∷ []
  pub one_key_id : values key_id_tag members ≡ url_encode key_id ∷ []
  pub key_bytes : All IsByte key
  pub key_id_bytes : All IsByte key_id
  pub sixteen : length key ≡ key_size
  pub expands : aes_key platform key ≡ some schedule

module _ (platform : Platform) (mode : IsCounterMode platform) where
  pub engine_made-Ready :
      (sid key key_id : Bytes) (schedule : platform.Schedule) (p : Ptr) (shmem sem : ℤ) (w : World)
      → Inv w
      → Holds w
      → lookup sid w.media_key_sessions ≡ some p
      → length key ≡ key_size
      → aes_key platform key ≡ some schedule
      → Ready platform
          (length w.media_engine_sessions)
          schedule
          (engine_made sid shmem sem (updated sid p ((key_id, key) ∷ []) w))
  unfolding engine_made updated
  engine_made-Ready sid key key_id schedule p shmem sem w v heap open_session sixteen expands =
      record {
        engine = record { media_key_session = lookup sid (touch sid w.media_key_sessions) };
        session = p;
        object = _;
        at_index = get_elem?-append_last w.media_engine_sessions _;
        owned = rw (lookup-touch sid sid w.media_key_sessions) open_session;
        alive = v.sound sid p open_session;
        has_key = record {
          key_id = key_id;
          key = key;
          others = [];
          first = refl;
          sixteen = sixteen;
          expands = expands;
        };
        holds = same heap;
      }
    where
      same : Holds w → Holds (engine_made sid shmem sem (updated sid p ((key_id, key) ∷ []) w))
      same (nothing a b) = nothing a b
      same (current b bytes a c d) = current b bytes a c d

  -- With counter mode as `IsCounterMode` says and an allocator that leaves room, after any
  -- history of requests, threads and samples: for a session that is open, a client that can be
  -- reached, a thread that starts, a license for one key, and samples in mapped memory with short
  -- initial values, exchanged through memory with an id other than 0: the update and the request
  -- for a media engine session succeed, the request starts one thread with its ids, and this
  -- thread then gives back every sample that the client protected with that key, from its initial
  -- value and zeros, in order.
  pub playback :
      (sid response key key_id : Bytes) (schedule : platform.Schedule) (p : Ptr) (shmem sem : ℤ)
      (xs : List Exchange) (w : World)
      → HasRoom platform.usable
      → Reach platform w
      → lookup sid w.media_key_sessions ≡ some p
      → platform.connects w.pnum ≡ true
      → License platform response key key_id schedule
      → eqb_ℤ shmem (pos 0) ≡ false
      → All Asks xs
      → (w1 : World) × (w2 : World) × (w3 : World) × (rpc_update platform sid response true w
          ≡ ok (cdmi_success, w1))
        × (rpc_mediaengine sid shmem sem w1 ≡ ok (cdmi_success, w2))
        × (w2.threads ≡ w1.threads ++ decrypt_shmem (length w.media_engine_sessions) sem shmem ∷ [])
        × (run_decrypt_shmem platform
              (length w.media_engine_sessions)
              shmem
              (map (protect platform mode schedule) xs)
              w2
            ≡ ok (map (λ x. x.sample) xs, w3))
  unfolding run_decrypt_shmem engine_made updated
  playback sid response key key_id schedule p shmem sem xs w room history open_session reachable l
        exchanged asks =
      let v = Reach-Inv platform room history in
      let heap = Reach-Holds platform room history in
      let taken =
        extract-url_encode platform.jsmn_parse platform.stack response w.g_keys l.members key key_id
          l.parses l.one_key l.one_key_id l.key_bytes l.key_id_bytes in
      let w1 = updated sid p ((key_id, key) ∷ []) w in
      let ready =
        engine_made-Ready sid key key_id schedule p shmem sem w v heap open_session l.sixteen
          l.expands in
      let (w3, run, _) =
        loop-protect platform mode (length w.media_engine_sessions) schedule xs
          (engine_made sid shmem sem w1) ready asks in
      (
        w1,
        engine_made sid shmem sem w1,
        w3,
        rpc_update_open platform sid response p w true ((key_id, key) ∷ []) v open_session taken
            reachable,
        rpc_mediaengine_lem sid shmem sem w1,
        refl,
        rw exchanged run,
      )
