-- ===== src/Service/SharedBuffer.antt =====
-- service.cpp: `clear_content` is static in `decryptShmem`, so that all its threads share it.
use open_content_decryption.Base.{refl, sym, length, ◌<◌, ◌∙◌, none, ◌≡◌, some, arith}
use open_content_decryption.Base.Outcome.{ok}
use open_content_decryption.SampleLoop.{Exchange, decrypted, release_previous, write_back, copy_out}
use open_content_decryption.SampleLoop.Parts.{
  release_nothing, take_all, min_of_self, read_buffer_last,
}
use open_content_decryption.SampleLoop.Rounds.{IsCounterMode}
use open_content_decryption.MediaKeys.{engine_decrypt}
use open_content_decryption.MediaKeySession.{Decrypted, aes_block_size}
use open_content_decryption.MediaKeySession.Decrypt.{start_block, HasKey, with_buffer, decrypt_lem}
use open_content_decryption.Service.Interleaving.{decrypt_into}
use open_content_decryption.World.{World, Platform, cdmi_success, EngineSession}

pub decrypt_into_lem :
    (platform : Platform) (w : World) (schedule : platform.Schedule) (e : EngineSession)
    (x : Exchange)
    → HasKey platform w schedule
    → length x.iv < aes_block_size
    → decrypt_into platform e x w
      ≡ ok (
        record {
          result = cdmi_success;
          size = some (length x.sample);
          buffer = some (length w.buffers);
        },
        record (with_buffer w (platform.aes_ctr128_encrypt schedule (start_block x.iv) x.sample)) {
          clear_content = some (length w.buffers);
        },
      )
unfolding decrypt_into engine_decrypt write_back
decrypt_into_lem platform w schedule e x key short =
    ground (arith, decrypt_lem platform w schedule x.iv x.sample key short)

-- Of two threads of which neither has a buffer so far, with samples of one length and short initial
-- values, counter mode as `IsCounterMode` says and a key: if both pass the release and decrypt their
-- samples before the first copies its clear content out, then the first copies the clear content
-- of the second thread's sample into the memory of its own client.
pub copy_out_other :
    (platform : Platform) (mode : IsCounterMode platform) (w : World) (schedule : platform.Schedule)
    (e1 e2 : EngineSession) (x1 x2 : Exchange)
    → HasKey platform w schedule
    → w.clear_content ≡ none
    → length x1.iv < aes_block_size
    → length x2.iv < aes_block_size
    → length x1.sample ≡ length x2.sample
    → (d1 : Decrypted) × (d2 : Decrypted) × (w1 : World) × (w2 : World) × (release_previous e1 w
        ≡ ok (tt, w))
      × (release_previous e2 w ≡ ok (tt, w))
      × (decrypt_into platform e1 x1 w ≡ ok (d1, w1))
      × (decrypt_into platform e2 x2 w1 ≡ ok (d2, w2))
      × (copy_out x1.sample d1.size w2
          ≡ ok (decrypted (platform.aes_ctr128_encrypt schedule (start_block x2.iv) x2.sample), w2))
unfolding copy_out
copy_out_other platform mode w schedule e1 e2 x1 x2 key nothing short1 short2 alike =
    let clear1 = platform.aes_ctr128_encrypt schedule (start_block x1.iv) x1.sample in
    let clear2 = platform.aes_ctr128_encrypt schedule (start_block x2.iv) x2.sample in
    let w1 = record (with_buffer w clear1) { clear_content = some (length w.buffers) } in
    let w2 = record (with_buffer w1 clear2) { clear_content = some (length w1.buffers) } in
    let key1 : HasKey platform w1 schedule = record {
      key_id = key.key_id;
      key = key.key;
      others = key.others;
      first = key.first;
      sixteen = key.sixteen;
      expands = key.expands;
    } in
    let whole : length clear2 ≡ length x1.sample =
      mode.length_kept schedule (start_block x2.iv) x2.sample ∙ sym alike in
    let read = read_buffer_last w2 w1.buffers clear2 refl in
    (
      _,
      _,
      w1,
      w2,
      release_nothing w e1 nothing,
      release_nothing w e2 nothing,
      decrypt_into_lem platform w schedule e1 x1 key short1,
      decrypt_into_lem platform w1 schedule e2 x2 key1 short2,
      ground (arith, read, take_all clear2 x1.sample whole, min_of_self (length x1.sample)),
    )
