-- ===== src/SampleLoop/Parts.antt =====
-- `decryptShmem` of service.cpp: the release of the previous buffer and the copy into the sample's memory.
use open_content_decryption.Base.{
  ℕ, ◌≡◌, refl, ap, true, false, none, some, List, [], ◌∷◌, ◌++◌, Bytes, length, arith, take, drop,
  get_elem?, set,
}
use open_content_decryption.Base.Outcome.{ok}
use open_content_decryption.World.{
  World, Ptr, KeySession, EngineSession, Slot, deref, free_buffer, cdmi_success,
}
use open_content_decryption.World.Slots.{get_elem?-append_last}
use open_content_decryption.MediaKeySession.{release_clear_content}
use open_content_decryption.MediaKeySession.Decrypt.{with_buffer}
use open_content_decryption.MediaKeys.{engine_release_clear_content}
use open_content_decryption.SampleLoop.{
  decrypted, min_of, release_previous, copy_back, write_back, copy_out, read_buffer,
}

pub release_nothing :
    (w : World) (e : EngineSession) → w.clear_content ≡ none → release_previous e w ≡ ok (tt, w)
unfolding release_previous
release_nothing w e h = rw h

pub release_current :
    (w : World) (e : EngineSession) (b p : Ptr) (bytes : Bytes) (s : KeySession)
    → w.clear_content ≡ some b
    → get_elem? w.buffers b ≡ some (record { content = bytes; live = true })
    → e.media_key_session ≡ some p
    → get_elem? w.key_sessions p ≡ some (record { content = s; live = true })
    → release_previous e w
      ≡ ok (tt, record w { buffers = set w.buffers b (record { content = bytes; live = false }) })
unfolding release_previous engine_release_clear_content release_clear_content deref free_buffer
release_current w e b p bytes s h hb hp hs = ground arith

pub min_of_self : (n : ℕ) → min_of n n ≡ n
min_of_self n = ground arith

pub take_all :
    (xs ys : Bytes) → length xs ≡ length ys → take (length ys) xs ++ drop (length ys) ys ≡ xs
take_all [] [] h = refl
take_all [] (y ∷ ys) h = absurd (omega arith)
take_all (x ∷ xs) [] h = absurd (omega arith)
take_all (x ∷ xs) (y ∷ ys) h = ap (◌∷◌ x) (take_all xs ys (omega arith))

pub read_buffer_last :
    (w : World) (xs : List (Slot Bytes)) (bytes : Bytes)
    → w.buffers ≡ xs ++ record { content = bytes; live = true } ∷ []
    → read_buffer (length xs) w ≡ ok (bytes, w)
unfolding read_buffer
read_buffer_last w xs bytes h =
    let found : get_elem? w.buffers (length xs) ≡ some (record { content = bytes; live = true }) =
      rw h (get_elem?-append_last xs _) in
    rw (found, read_buffer)

pub copy_back_lem :
    (w : World) (sample bytes : Bytes)
    → length bytes ≡ length sample
    → copy_back sample
        (record {
          result = cdmi_success;
          size = some (length sample);
          buffer = some (length w.buffers);
        })
        (with_buffer w bytes)
      ≡ ok (
        decrypted bytes,
        record (with_buffer w bytes) { clear_content = some (length w.buffers) },
      )
unfolding copy_back write_back copy_out
copy_back_lem w sample bytes h =
    let read =
      read_buffer_last
        (record w {
          buffers = w.buffers ++ record { content = bytes; live = true } ∷ [];
          clear_content = some (length w.buffers);
        })
        w.buffers bytes refl in
    ground (arith, read, take_all bytes sample h, min_of_self (length sample))
