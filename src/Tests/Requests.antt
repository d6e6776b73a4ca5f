-- ===== src/Tests/Requests.antt =====
-- The theorems on requests, threads and samples, applied.
use open_content_decryption.Base.{
  ◌≡◌, refl, arith, true, [], ◌∷◌, ◌++◌, length, map, some, All, replicate,
}
use open_content_decryption.Base.Int.{pos}
use open_content_decryption.Base.Outcome.{ok, fault, use_after_free, out_of_bounds, uninitialised}
use open_content_decryption.Decimal.{decimal}
use open_content_decryption.JsonWebKey.KeySet.{extract-url_encode}
use open_content_decryption.MediaKeySession.{decrypt, run_thread}
use open_content_decryption.MediaKeySession.Decrypt.{
  HasKey, Accounts, with_buffer, decrypt_lem, decrypt-Accounts, decrypt_zero_byte,
}
use open_content_decryption.SampleLoop.{decrypt_shmem_loop, run_decrypt_shmem}
use open_content_decryption.SampleLoop.Rounds.{Ready, Asks, protect, loop-protect}
use open_content_decryption.Service.{rpc_create_session, rpc_update, rpc_release, rpc_mediaengine}
use open_content_decryption.Service.Create.{created, rpc_create_session_lem}
use open_content_decryption.Service.Playback.{playback, engine_made-Ready}
use open_content_decryption.Service.Races.{release_race, ready_to_last_client, create_without_room}
use open_content_decryption.Service.Refinement.{rpc_mediakeys_lem, Step-Move}
use open_content_decryption.Service.Requests.{touched, updated, rpc_update_open, engine_made}
use open_content_decryption.Service.KnownIds.{NamingOpen, NoNulls, NamingOpen-NoNulls}
use open_content_decryption.Service.Steps.{Move, view, label, mediakeys, create, update}
use open_content_decryption.Tests.Fixture.{
  platform, platform-HasRoom, platform-IsCounterMode, platform-RefusesOtherSizes,
}
use open_content_decryption.Tests.History.{
  ready, opened, sid, opening, ready-Reach, opened-Reach, opened-updated, opened-Inv, opened-Holds,
  opened_session, samples,
}
use open_content_decryption.Tests.License.{
  response, key, key_id, key-IsByte, members, license-Parses, one_key, one_key_id, expanded,
  license,
}
use open_content_decryption.World.{
  World, on_ready, cdmi_success, cdmi_s_false, initial, decrypt_shmem,
}

pub samples-Asks : All Asks samples
samples-Asks = (
  record { iv_mapped = refl; sample_mapped = refl; short = omega arith },
  (record { iv_mapped = refl; sample_mapped = refl; short = omega arith }, tt),
)

playback_example :
    (w1 : World) × (w2 : World) × (w3 : World) × (rpc_update platform sid response true opened
      ≡ ok (cdmi_success, w1))
    × (rpc_mediaengine sid (pos 8) (pos 9) w1 ≡ ok (cdmi_success, w2))
    × (w2.threads
        ≡ w1.threads ++ decrypt_shmem (length opened.media_engine_sessions) (pos 9) (pos 8) ∷ [])
    × (run_decrypt_shmem platform
          (length opened.media_engine_sessions)
          (pos 8)
          (map (protect platform platform-IsCounterMode key) samples)
          w2
        ≡ ok (map (λ x. x.sample) samples, w3))
playback_example =
    playback platform platform-IsCounterMode sid response key key_id key 0 (pos 8) (pos 9) samples
      opened platform-HasRoom opened-Reach opened_session refl license refl samples-Asks

Step-Move_example : Move (label opening) (view ready) (view opened)
Step-Move_example = Step-Move platform platform-HasRoom ready-Reach opening

-- A session, its engine session and a key.
abbrev pub playing : World
playing = engine_made sid (pos 8) (pos 9) (updated sid 0 ((key_id, key) ∷ []) opened)

pub playing-HasKey : HasKey platform playing key
unfolding engine_made updated
playing-HasKey = record {
  key_id = key_id;
  key = key;
  others = [];
  first = refl;
  sixteen = refl;
  expands = expanded;
}

decrypt-Accounts_example :
    Accounts platform
      (1 ∷ [])
      (0 ∷ 5 ∷ [])
      playing
      (record { result = cdmi_success; size = some 2; buffer = some (length playing.buffers) })
      (with_buffer playing (1 ∷ 5 ∷ []))
decrypt-Accounts_example =
    decrypt-Accounts platform (1 ∷ []) (0 ∷ 5 ∷ []) true playing (with_buffer playing (1 ∷ 5 ∷ []))
      (record { result = cdmi_success; size = some 2; buffer = some (length playing.buffers) })
      (decrypt_lem platform playing key (1 ∷ []) (0 ∷ 5 ∷ []) playing-HasKey (omega arith))

abbrev zero_key : World
zero_key = record initial { g_keys = (key_id, 1 ∷ 0 ∷ replicate 14 2) ∷ [] }

decrypt_zero_byte_example : decrypt platform [] (5 ∷ []) true zero_key ≡ fault uninitialised
decrypt_zero_byte_example =
    decrypt_zero_byte platform zero_key key_id (1 ∷ []) (replicate 14 2) [] (5 ∷ []) []
      platform-RefusesOtherSizes refl refl (omega arith)

rpc_create_session_lem_example :
    rpc_create_session platform.usable true 7 ready
    ≡ ok (record { platform_val = cdmi_success; session_id = some (decimal 10) }, opened)
rpc_create_session_lem_example =
    rpc_create_session_lem platform.usable true 7 ready platform-HasRoom (omega arith) refl

rpc_update_open_example :
    rpc_update platform sid response true opened
    ≡ ok (cdmi_success, updated sid 0 ((key_id, key) ∷ []) opened)
rpc_update_open_example =
    rpc_update_open platform sid response 0 opened true ((key_id, key) ∷ []) opened-Inv
      opened_session
      (extract-url_encode platform.jsmn_parse platform.stack response opened.g_keys members key
        key_id license-Parses one_key one_key_id key-IsByte (omega arith, tt))
      refl

release_race_example :
    (w' : World) × (rpc_release sid opened ≡ ok (cdmi_success, w'))
    × (rpc_release sid w' ≡ ok (cdmi_s_false, touched sid w'))
    × (run_thread (λ _. true) 1 0 w' ≡ fault use_after_free)
    × (run_thread (λ _. true) 2 0 w' ≡ fault use_after_free)
release_race_example = release_race (λ _. true) sid 0 opened opened-Inv opened_session

ready_to_last_client_example :
    (w' : World) × (run_thread (λ _. true) 2 0 (created 8 true opened) ≡ ok (tt, w'))
    × (w'.sent ≡ opened.sent ++ record { program = 8; session_id = sid; event = on_ready } ∷ [])
ready_to_last_client_example =
    ready_to_last_client (λ _. true) 8 true sid 0 opened opened-Inv opened_session refl

create_without_room_example : rpc_create_session (λ n. n) true 7 ready ≡ fault out_of_bounds
create_without_room_example = create_without_room (λ n. n) true 7 ready refl refl

-- A process that has decrypted a sample.
abbrev decrypted_one : World
decrypted_one = record opened { clear_content = some 0 }

pub playing-Ready : Ready platform 0 key playing
unfolding created
playing-Ready =
    engine_made-Ready platform platform-IsCounterMode sid key key_id key 0 (pos 8) (pos 9) opened
      opened-Inv opened-Holds opened_session refl expanded

loop-protect_example :
    (w' : World) × (decrypt_shmem_loop platform 0
        (map (protect platform platform-IsCounterMode key) samples)
        playing
      ≡ ok (map (λ x. x.sample) samples, w'))
    × Ready platform 0 key w'
loop-protect_example =
    loop-protect platform platform-IsCounterMode 0 key samples playing playing-Ready samples-Asks

asked_after : NamingOpen platform (updated sid 0 ((key_id, key) ∷ []) opened)
asked_after =
    NamingOpen.next
      (NamingOpen.next {w' = opened}
        (NamingOpen.next {w' = ready} NamingOpen.start
          (mediakeys cdmi_success (rpc_mediakeys_lem initial)) tt)
        (create true 7 _ (omega arith)
          (rpc_create_session_lem platform.usable true 7 ready platform-HasRoom (omega arith) refl))
        tt)
      (update sid response true cdmi_success opened-updated) (0, opened_session)

NamingOpen-NoNulls_example : NoNulls (updated sid 0 ((key_id, key) ∷ []) opened).media_key_sessions
NamingOpen-NoNulls_example = NamingOpen-NoNulls platform platform-HasRoom asked_after
