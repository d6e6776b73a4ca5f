-- ===== src/Tests/History.antt =====
-- A history: a `CMediaKeys`, and a session of the client program 7.
use open_content_decryption.Base.{
  ◌≡◌, refl, arith, true, some, none, List, [], ◌∷◌, Bytes, codes, equal,
}
use open_content_decryption.Base.Int.{pos}
use open_content_decryption.Base.Outcome.{ok}
use open_content_decryption.Decimal.{decimal}
use open_content_decryption.MediaKeys.{create_media_keys, keys_made}
use open_content_decryption.SampleLoop.{Exchange}
use open_content_decryption.SampleLoop.Rounds.{Holds, nothing}
use open_content_decryption.Service.{rpc_mediakeys}
use open_content_decryption.Service.Create.{created, rpc_create_session_lem}
use open_content_decryption.Service.Invariant.{Inv}
use open_content_decryption.Service.Refinement.{Reach-Inv}
use open_content_decryption.Service.Sessions.{lookup, insert}
use open_content_decryption.Service.Steps.{Step, Reach, start, next, mediakeys, create}
use open_content_decryption.JsonWebKey.KeySet.{extract-url_encode}
use open_content_decryption.Service.{rpc_update}
use open_content_decryption.Service.Requests.{updated, rpc_update_open}
use open_content_decryption.Tests.License.{
  response, key, key_id, key-IsByte, members, license-Parses, one_key, one_key_id,
}
use open_content_decryption.Tests.Fixture.{platform, platform-HasRoom}
use open_content_decryption.World.{World, initial, cdmi_success}

abbrev pub ready : World
ready = keys_made initial

abbrev pub opened : World
opened = created 7 true ready

abbrev pub sid : Bytes
sid = codes "10"

made : Step platform initial ready
unfolding rpc_mediakeys create_media_keys
made = mediakeys cdmi_success refl

pub opening : Step platform ready opened
opening =
    create true 7 _ (omega arith)
      (rpc_create_session_lem platform.usable true 7 ready platform-HasRoom (omega arith) refl)

pub ready-Reach : Reach platform ready
ready-Reach = next start made

pub opened-Reach : Reach platform opened
opened-Reach = next ready-Reach opening

pub opened-Inv : Inv opened
opened-Inv = Reach-Inv platform platform-HasRoom opened-Reach

pub opened-Holds : Holds opened
unfolding created
opened-Holds = nothing refl refl

pub opened_session : lookup sid opened.media_key_sessions ≡ some 0
unfolding created lookup insert decimal equal
opened_session = refl

pub unknown_session : lookup (codes "9") opened.media_key_sessions ≡ none
unfolding created lookup insert decimal equal
unknown_session = refl

-- Two samples with their initial values.
abbrev pub samples : List Exchange
samples =
    record {
      id_iv_shmem = pos 3;
      id_sample_shmem = pos 4;
      iv = 1 ∷ 2 ∷ [];
      sample = 0 ∷ 5 ∷ 1 ∷ [];
    }
    ∷ record { id_iv_shmem = pos 3; id_sample_shmem = pos 5; iv = []; sample = 7 ∷ [] }
    ∷ []

pub opened-updated :
    rpc_update platform sid response true opened
    ≡ ok (cdmi_success, updated sid 0 ((key_id, key) ∷ []) opened)
opened-updated =
    rpc_update_open platform sid response 0 opened true ((key_id, key) ∷ []) opened-Inv
      opened_session
      (extract-url_encode platform.jsmn_parse platform.stack response opened.g_keys members key
        key_id license-Parses one_key one_key_id key-IsByte (omega arith, tt))
      refl
