-- ===== src/Tests/Interleaving.antt =====
-- The theorems on rounds in parts, applied: two threads, a session and a key.
use open_content_decryption.Base.{
  ◌≡◌, refl, true, false, equal, arith, inr, some, [], ◌∷◌, length, Bytes,
}
use open_content_decryption.Base.Int.{pos}
use open_content_decryption.Base.Outcome.{ok, fault, double_free}
use open_content_decryption.Decimal.{decimal}
use open_content_decryption.Service.Sessions.{lookup, touch, contains, insert}
use open_content_decryption.MediaKeySession.{Decrypted, release_clear_content, aes_key, key_size}
use open_content_decryption.MediaKeySession.Decrypt.{start_block, with_buffer}
use open_content_decryption.MediaKeys.{engine_release_clear_content}
use open_content_decryption.SampleLoop.{
  Exchange, decrypted, copy_out, release_previous, read_buffer,
}
use open_content_decryption.Service.Interleaving.{
  begin_exchange, begin_round, decrypt_into, before_decrypt, before_copy, Process, Interleaved,
  start, next, begins, decrypts, request, IsAlone,
}
use open_content_decryption.Service.Interleaving.Alone.{UnderWay}
use open_content_decryption.Service.Interleaving.Overlap.{begin_round_twice}
use open_content_decryption.Service.Interleaving.Own.{Interleaved-UnderWay, copies_own}
use open_content_decryption.Service.Interleaving.Sessions.{Interleaved-Inv}
use open_content_decryption.Service.Invariant.{Inv}
use open_content_decryption.Service.Create.{created, rpc_create_session_lem}
use open_content_decryption.Service.Requests.{engine_made, updated, rpc_mediaengine_lem}
use open_content_decryption.Service.Steps.{update, mediaengine, mediakeys, create}
use open_content_decryption.Service.Refinement.{rpc_mediakeys_lem}
use open_content_decryption.Service.SharedBuffer.{decrypt_into_lem}
use open_content_decryption.Tests.Fixture.{platform, platform-HasRoom, platform-IsCounterMode}
use open_content_decryption.Tests.History.{ready, opened, opened-updated, sid}
use open_content_decryption.Tests.License.{response, key, key_id}
use open_content_decryption.Tests.Requests.{playing, playing-HasKey}
use open_content_decryption.World.{World, EngineSession, initial, cdmi_success, deref, free_buffer}

abbrev idle : World → Process
idle w = record { world = w; rounds = [] }

abbrev x1 : Exchange
x1 = record { id_iv_shmem = pos 3; id_sample_shmem = pos 4; iv = 1 ∷ []; sample = 0 ∷ 5 ∷ [] }

abbrev engine : EngineSession
engine = record { media_key_session = some 0 }

abbrev begun : Process
begun = record { world = playing; rounds = before_decrypt engine x1 ∷ [] }

abbrev d1 : Decrypted
d1 = record { result = cdmi_success; size = some 2; buffer = some 0 }

abbrev half : World
half = record (with_buffer playing (1 ∷ 5 ∷ [])) { clear_content = some 0 }

abbrev halfway : Process
halfway = record { world = half; rounds = before_copy x1 d1 ∷ [] }

opened_history : Interleaved platform IsAlone (idle opened)
opened_history =
    next {s = idle ready}
      (next start (request ready (mediakeys cdmi_success (rpc_mediakeys_lem initial)) tt refl))
      (request opened
        (create true 7 _ (omega arith)
          (rpc_create_session_lem platform.usable true 7 ready platform-HasRoom (omega arith) refl))
        tt refl)

playing_history : Interleaved platform IsAlone (idle playing)
playing_history =
    next {s = idle (updated sid 0 ((key_id, key) ∷ []) opened)}
      (next {s = idle opened} opened_history
        (request _ (update sid response true cdmi_success opened-updated) tt refl))
      (request playing
        (mediaengine sid (pos 8) (pos 9) cdmi_success (rpc_mediaengine_lem sid (pos 8) (pos 9) _))
        tt refl)

begun_round : begin_round 0 x1 playing ≡ ok (inr engine, playing)
unfolding begin_round begin_exchange engine_made updated created release_previous lookup touch
    contains insert equal decimal
begun_round = refl

half_done : decrypt_into platform engine x1 playing ≡ ok (d1, half)
unfolding engine_made updated created
half_done = decrypt_into_lem platform playing key engine x1 playing-HasKey (omega arith)

halfway_history : Interleaved platform IsAlone halfway
halfway_history =
    next {s = begun}
      (next {s = idle playing} playing_history (begins 0 x1 engine playing refl begun_round refl))
      (decrypts [] [] engine x1 d1 half refl half_done refl)

Interleaved-Inv_example : Inv half
Interleaved-Inv_example = Interleaved-Inv platform IsAlone platform-HasRoom halfway_history

Interleaved-UnderWay_example : UnderWay platform half (before_copy x1 d1 ∷ [])
Interleaved-UnderWay_example = Interleaved-UnderWay platform platform-HasRoom halfway_history

copied : copy_out x1.sample d1.size half ≡ ok (decrypted (1 ∷ 5 ∷ []), half)
unfolding copy_out read_buffer engine_made updated created
copied = refl

copies_own_example :
    (key : Bytes) × (schedule : Bytes) × (length key ≡ key_size)
    × (aes_key platform key ≡ some schedule)
    × (decrypted (1 ∷ 5 ∷ [])
        ≡ decrypted (platform.aes_ctr128_encrypt schedule (start_block (1 ∷ [])) (0 ∷ 5 ∷ [])))
copies_own_example =
    copies_own platform platform-HasRoom platform-IsCounterMode halfway [] [] x1 d1
      (decrypted (1 ∷ 5 ∷ [])) half halfway_history refl copied

abbrev freed : World
freed = record half { buffers = record { content = 1 ∷ 5 ∷ []; live = false } ∷ [] }

begun_again : begin_round 0 x1 half ≡ ok (inr engine, freed)
unfolding begin_round begin_exchange engine_made updated created release_previous lookup touch
    contains insert equal decimal engine_release_clear_content release_clear_content deref
    free_buffer
begun_again = refl

begin_round_twice_example : begin_round 0 x1 freed ≡ fault double_free
unfolding engine_made updated created lookup touch contains insert equal decimal
begin_round_twice_example =
    begin_round_twice 0 0 x1 x1 engine engine 0 0 (1 ∷ 5 ∷ []) _ half freed refl refl begun_again
      refl refl refl (record { iv_mapped = refl; sample_mapped = refl; short = omega arith })
