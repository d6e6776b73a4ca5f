-- ===== src/Service/Interleaving/Overlap.antt =====
-- service.cpp, `decryptShmem`: two rounds that begin before either decrypts.
use open_content_decryption.Base.{
  ℕ, ◌-◌, ◌≡◌, inr, true, false, some, Bytes, length, arith, get_elem?, set, not, ◌&&◌, ◌==◌, ltb,
  get_elem?-lt, refl, ◌∙◌,
}
use open_content_decryption.Base.Outcome.{ok, fault, double_free}
use open_content_decryption.MediaKeySession.{release_clear_content}
use open_content_decryption.MediaKeys.{engine_release_clear_content}
use open_content_decryption.SampleLoop.{Exchange, release_previous}
use open_content_decryption.SampleLoop.Rounds.{Asks}
use open_content_decryption.Service.Interleaving.{begin_exchange, begin_round}
use open_content_decryption.Service.Interleaving.Sessions.{begin_round-Begun}
use open_content_decryption.World.{World, Ptr, KeySession, EngineSession, deref, free_buffer}
use open_content_decryption.World.Slots.{get_elem?-set_self}

release_previous_freed :
    (e : EngineSession) (b : Ptr) (bytes : Bytes) (w w' : World)
    → w.clear_content ≡ some b
    → get_elem? w.buffers b ≡ some (record { content = bytes; live = true })
    → release_previous e w ≡ ok (tt, w')
    → w' ≡ record w { buffers = set w.buffers b (record { content = bytes; live = false }) }
unfolding release_previous engine_release_clear_content release_clear_content deref free_buffer
release_previous_freed e b bytes w w' hb here h = ground arith

release_previous_twice :
    (e : EngineSession) (b p : Ptr) (bytes : Bytes) (s : KeySession) (w : World)
    → w.clear_content ≡ some b
    → get_elem? w.buffers b ≡ some (record { content = bytes; live = false })
    → e.media_key_session ≡ some p
    → get_elem? w.key_sessions p ≡ some (record { content = s; live = true })
    → release_previous e w ≡ fault double_free
unfolding release_previous engine_release_clear_content release_clear_content deref free_buffer
release_previous_twice e b p bytes s w hb here owned alive = ground arith

begin_exchange_fails :
    (e : EngineSession) (x : Exchange) (w : World)
    → Asks x
    → release_previous e w ≡ fault double_free
    → begin_exchange e x w ≡ fault double_free
unfolding begin_exchange
begin_exchange_fails e x w a h = ground (arith, a.iv_mapped, a.sample_mapped, h)

begin_round_found :
    (i : ℕ) (e : EngineSession) (x : Exchange) (w : World)
    → get_elem? w.media_engine_sessions i ≡ some e
    → begin_round i x w ≡ begin_exchange e x w
unfolding begin_round
begin_round_found i e x w found =
    let early : (not (length w.media_engine_sessions == 0)
          && ltb (length w.media_engine_sessions - 1) i)
        ≡ false =
      ground (arith, get_elem?-lt w.media_engine_sessions i found) in
    rw (early, found, begin_round) refl

-- A buffer is left from a round before, and two rounds begin before either calls `Decrypt`: where the first
-- passes its release, the second, of an engine session whose session is alive and with shared memory
-- that it can map, frees the same buffer again.
pub begin_round_twice :
    (i1 i2 : ℕ) (x1 x2 : Exchange) (e1 e2 : EngineSession) (b p : Ptr) (bytes : Bytes)
    (s : KeySession) (w w1 : World)
    → w.clear_content ≡ some b
    → get_elem? w.buffers b ≡ some (record { content = bytes; live = true })
    → begin_round i1 x1 w ≡ ok (inr e1, w1)
    → get_elem? w.media_engine_sessions i2 ≡ some e2
    → e2.media_key_session ≡ some p
    → get_elem? w.key_sessions p ≡ some (record { content = s; live = true })
    → Asks x2
    → begin_round i2 x2 w1 ≡ fault double_free
begin_round_twice i1 i2 x1 x2 e1 e2 b p bytes s w w1 hb here h found owned alive a =
    let freed : w1
        ≡ record w { buffers = set w.buffers b (record { content = bytes; live = false }) } =
      release_previous_freed e1 b bytes w w1 hb here (begin_round-Begun i1 x1 w (inr e1, w1) h) in
    rw freed (
      begin_round_found i2 e2 x2 _ found
      ∙ begin_exchange_fails e2 x2 _ a (
          release_previous_twice e2 b p bytes s _ hb (get_elem?-set_self w.buffers b _ _ here) owned
            alive))
