-- ===== src/Tests/Objects.antt =====
-- The theorems on the objects' lives and on the ends of threads, applied.
use open_content_decryption.Base.{◌≡◌, refl, arith, some, [], ◌∷◌, ◌++◌}
use open_content_decryption.Base.Int.{pos}
use open_content_decryption.Base.Outcome.{ok, fault, double_free, use_after_free}
use open_content_decryption.MediaKeys.{create_media_key_session, destroy_media_key_session}
use open_content_decryption.MediaKeys.Destroy.{create-destroy}
use open_content_decryption.MediaKeySession.{Decrypted, get_session_id, get_key_system}
use open_content_decryption.SampleLoop.{
  Exchange, decrypted, decrypt_shmem_loop, release_previous, copy_out,
}
use open_content_decryption.Service.Create.{created}
use open_content_decryption.Service.Endings.{loop_end}
use open_content_decryption.Service.Requests.{engine_made, updated}
use open_content_decryption.Service.Interleaving.{decrypt_into}
use open_content_decryption.Service.SharedBuffer.{copy_out_other}
use open_content_decryption.Tests.Fixture.{platform, platform-HasRoom, platform-IsCounterMode}
use open_content_decryption.Tests.History.{samples}
use open_content_decryption.Tests.License.{key}
use open_content_decryption.Tests.Requests.{playing, playing-HasKey}
use open_content_decryption.World.{World, Ptr, EngineSession, initial, cdmi_success}
use open_content_decryption.World.Slots.{live_count}

create-destroy_example :
    (p : Ptr) × (w1 : World) × (w2 : World) × (create_media_key_session platform.usable initial
      ≡ ok ((cdmi_success, p), w1))
    × (destroy_media_key_session (some p) w1 ≡ ok (cdmi_success, w2))
    × (live_count w2.key_sessions ≡ live_count initial.key_sessions)
    × (destroy_media_key_session (some p) w2 ≡ fault double_free)
    × (get_session_id p w2 ≡ fault use_after_free)
    × (get_key_system p w2 ≡ fault use_after_free)
create-destroy_example = create-destroy platform.usable initial platform-HasRoom (omega arith)

abbrev end_marker : Exchange
end_marker = record { id_iv_shmem = pos 0; id_sample_shmem = pos 0; iv = []; sample = [] }

loop_end_example :
    decrypt_shmem_loop platform 0 (samples ++ end_marker ∷ samples) playing
    ≡ decrypt_shmem_loop platform 0 samples playing
unfolding engine_made updated created
loop_end_example = loop_end platform 0 samples end_marker samples playing (omega arith) refl

-- Two samples for two threads, that start at the same time.
abbrev x1 : Exchange
x1 = record { id_iv_shmem = pos 3; id_sample_shmem = pos 4; iv = 1 ∷ []; sample = 0 ∷ 5 ∷ [] }

abbrev x2 : Exchange
x2 = record { id_iv_shmem = pos 5; id_sample_shmem = pos 6; iv = 2 ∷ []; sample = 7 ∷ 1 ∷ [] }

abbrev engine : EngineSession
engine = record { media_key_session = some 0 }

copy_out_other_example :
    (d1 : Decrypted) × (d2 : Decrypted) × (w1 : World) × (w2 : World) × (release_previous engine
        playing
      ≡ ok (tt, playing))
    × (release_previous engine playing ≡ ok (tt, playing))
    × (decrypt_into platform engine x1 playing ≡ ok (d1, w1))
    × (decrypt_into platform engine x2 w1 ≡ ok (d2, w2))
    × (copy_out x1.sample d1.size w2 ≡ ok (decrypted (7 ∷ 0 ∷ []), w2))
unfolding engine_made updated created
copy_out_other_example =
    copy_out_other platform platform-IsCounterMode playing key engine engine x1 x2 playing-HasKey
      refl (omega arith) (omega arith) refl
