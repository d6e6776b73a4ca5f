-- ===== src/Tests/Playing.antt =====
-- The theorems on the thread of a media engine session, and on the keys, applied to a process that plays.
use open_content_decryption.Base.{ℕ, ◌≡◌, true, [], ◌∷◌, ◌++◌}
use open_content_decryption.Base.Int.{pos}
use open_content_decryption.SampleLoop.{Exchange, decrypt_round, exchange}
use open_content_decryption.Service.Requested.{now, later, requested_engine}
use open_content_decryption.Service.Sessions.{lookup}
use open_content_decryption.Service.Keys.{Reach-AreKeys, AreKeys}
use open_content_decryption.Service.Requests.{updated, engine_made, rpc_mediaengine_lem}
use open_content_decryption.Service.Steps
use open_content_decryption.Service.Steps.{Reach, next}
use open_content_decryption.Tests.Fixture.{platform, platform-HasRoom}
use open_content_decryption.Tests.History.{opened, opened-Reach, opened-updated, sid}
use open_content_decryption.Tests.License.{response, key, key_id}
use open_content_decryption.Tests.Requests.{playing}
use open_content_decryption.World.{decrypt_shmem, cdmi_success}

updated-Reach : Reach platform (updated sid 0 ((key_id, key) ∷ []) opened)
updated-Reach = next opened-Reach (Steps.update sid response true cdmi_success opened-updated)

pub playing-Reach : Reach platform playing
playing-Reach = next updated-Reach (
    Steps.mediaengine sid (pos 8) (pos 9) cdmi_success
      (rpc_mediaengine_lem sid (pos 8) (pos 9) (updated sid 0 ((key_id, key) ∷ []) opened)))

-- Another request for an engine session comes after it.
requested_engine_example :
    (idx : ℕ) × (playing.threads
      ≡ (updated sid 0 ((key_id, key) ∷ []) opened).threads
        ++ decrypt_shmem idx (pos 9) (pos 8) ∷ [])
    × ((x : Exchange)
        → decrypt_round platform idx x (engine_made (99 ∷ []) (pos 5) (pos 6) playing)
          ≡ exchange platform
              (record {
                media_key_session =
                    lookup sid (updated sid 0 ((key_id, key) ∷ []) opened).media_key_sessions;
              })
              x
              (engine_made (99 ∷ []) (pos 5) (pos 6) playing))
requested_engine_example =
    requested_engine platform sid (pos 8) (pos 9) cdmi_success
      (updated sid 0 ((key_id, key) ∷ []) opened) playing
      (engine_made (99 ∷ []) (pos 5) (pos 6) playing) platform-HasRoom updated-Reach
      (rpc_mediaengine_lem sid (pos 8) (pos 9) (updated sid 0 ((key_id, key) ∷ []) opened))
      (later now (
        Steps.mediaengine (99 ∷ []) (pos 5) (pos 6) cdmi_success
          (rpc_mediaengine_lem (99 ∷ []) (pos 5) (pos 6) playing)))

Reach-AreKeys_example : AreKeys playing.g_keys
Reach-AreKeys_example = Reach-AreKeys platform platform-HasRoom playing-Reach
