-- ===== src/SampleLoop/Rounds.antt =====
-- `decryptShmem` of service.cpp with a key: every sample comes back decrypted, and the heap holds just
-- the last buffer.
use open_content_decryption.Base.{
  ℕ, ◌-◌, ◌<◌, ◌≡◌, refl, ap, ◌∙◌, true, false, not, ◌&&◌, none, some, List, [], ◌∷◌, ◌++◌, Bytes,
  length, ltb, ◌==◌, arith, get_elem?, get_elem?-lt, map, All,
}
use open_content_decryption.Base.Int.{pos, eqb_ℤ}
use open_content_decryption.Base.Outcome.{ok}
use open_content_decryption.World.{World, Ptr, KeySession, EngineSession, Platform, Slot}
use open_content_decryption.World.Slots.{
  live_count, live_count-concat, live_count-set, get_elem?-append_last,
}
use open_content_decryption.MediaKeySession.{aes_block_size}
use open_content_decryption.MediaKeySession.Decrypt.{start_block, HasKey, decrypt_lem}
use open_content_decryption.MediaKeys.{engine_decrypt}
use open_content_decryption.SampleLoop.{
  Exchange, decrypted, release_previous, decrypt_mapped, exchange, decrypt_round,
  decrypt_shmem_loop,
}
use open_content_decryption.SampleLoop.Parts.{release_nothing, release_current, copy_back_lem}

-- The heap of the loop: nothing before the first sample, and then just the buffer of the last one.
pub data Holds (w : World) : Type 0 where
  nothing : w.clear_content ≡ none → live_count w.buffers ≡ 0 → Holds w
  current :
      (b : Ptr) (bytes : Bytes)
      → w.clear_content ≡ some b
      → get_elem? w.buffers b ≡ some (record { content = bytes; live = true })
      → live_count w.buffers ≡ 1
      → Holds w

-- A thread whose engine session belongs to a session that is alive, with a key that OpenSSL expands.
pub record Ready (platform : Platform) (idx : ℕ) (schedule : platform.Schedule) (w : World)
    : Type 0 where
  pub engine : EngineSession
  pub session : Ptr
  pub object : KeySession
  pub at_index : get_elem? w.media_engine_sessions idx ≡ some engine
  pub owned : engine.media_key_session ≡ some session
  pub alive : get_elem? w.key_sessions session ≡ some (record { content = object; live = true })
  pub has_key : HasKey platform w schedule
  pub holds : Holds w

-- The previous buffer is freed: after that none is left.
release_previous_lem :
    (platform : Platform) (idx : ℕ) (schedule : platform.Schedule) (w : World)
    (r : Ready platform idx schedule w)
    → (bs : List (Slot Bytes)) × (release_previous r.engine w ≡ ok (tt, record w { buffers = bs }))
      × (live_count bs ≡ 0)
release_previous_lem platform idx schedule w r = released r.holds
  where
    released :
        Holds w
        → (bs : List (Slot Bytes)) × (release_previous r.engine w
            ≡ ok (tt, record w { buffers = bs }))
          × (live_count bs ≡ 0)
    released (nothing h c) = (w.buffers, release_nothing w r.engine h, c)
    released (current b bytes h hb c) = (
      _,
      release_current w r.engine b r.session bytes r.object h hb r.owned r.alive,
      omega (arith, live_count-set w.buffers b _ hb refl),
    )

-- What the client asks for: shared memory under ids that are not 0, and a short initial value.
pub record Asks (x : Exchange) : Type 0 where
  pub iv_mapped : eqb_ℤ x.id_iv_shmem (pos 0) ≡ false
  pub sample_mapped : eqb_ℤ x.id_sample_shmem (pos 0) ≡ false
  pub short : length x.iv < aes_block_size

-- Counter mode keeps the length, and undoes itself.
pub record IsCounterMode (platform : Platform) : Type 0 where
  pub length_kept :
      (k : platform.Schedule) (c m : Bytes) → length (platform.aes_ctr128_encrypt k c m) ≡ length m
  pub undoes :
      (k : platform.Schedule) (c m : Bytes)
      → platform.aes_ctr128_encrypt k c (platform.aes_ctr128_encrypt k c m) ≡ m

module _ (platform : Platform) (mode : IsCounterMode platform) where
  -- The sample under counter mode.
  abbrev pub ciphered : platform.Schedule → Exchange → Bytes
  ciphered schedule x = platform.aes_ctr128_encrypt schedule (start_block x.iv) x.sample

  module _ (idx : ℕ) (schedule : platform.Schedule) (w : World) (r : Ready platform idx schedule w)
      (x : Exchange) (a : Asks x) where
    -- The state after a round, from the buffers that are left when the previous one is freed.
    after : List (Slot Bytes) → World
    after bs = record w {
      buffers = bs ++ record { content = ciphered schedule x; live = true } ∷ [];
      clear_content = some (length bs);
    }

    after-Ready :
        (bs : List (Slot Bytes)) → live_count bs ≡ 0 → Ready platform idx schedule (after bs)
    unfolding after
    after-Ready bs none_left = record {
      engine = r.engine;
      session = r.session;
      object = r.object;
      at_index = r.at_index;
      owned = r.owned;
      alive = r.alive;
      has_key = record {
        key_id = r.has_key.key_id;
        key = r.has_key.key;
        others = r.has_key.others;
        first = r.has_key.first;
        sixteen = r.has_key.sixteen;
        expands = r.has_key.expands;
      };
      holds =
          current (length bs) (ciphered schedule x) refl (get_elem?-append_last bs _)
            (omega (arith, live_count-concat bs (ciphered schedule x)));
    }

    keep : (bs : List (Slot Bytes)) → HasKey platform (record w { buffers = bs }) schedule
    keep bs = record {
      key_id = r.has_key.key_id;
      key = r.has_key.key;
      others = r.has_key.others;
      first = r.has_key.first;
      sixteen = r.has_key.sixteen;
      expands = r.has_key.expands;
    }

    exchange-after :
        (bs : List (Slot Bytes))
        → release_previous r.engine w ≡ ok (tt, record w { buffers = bs })
        → exchange platform r.engine x w ≡ ok (decrypted (ciphered schedule x), after bs)
    unfolding exchange decrypt_mapped engine_decrypt after
    exchange-after bs released = ground (
      arith,
      a.iv_mapped,
      a.sample_mapped,
      released,
      decrypt_lem platform (record w { buffers = bs }) schedule x.iv x.sample (keep bs) a.short,
      copy_back_lem (record w { buffers = bs }) x.sample (ciphered schedule x)
          (mode.length_kept schedule (start_block x.iv) x.sample),
    )

    exchange_lem :
        (w' : World) × (exchange platform r.engine x w ≡ ok (decrypted (ciphered schedule x), w'))
        × Ready platform idx schedule w'
    exchange_lem =
        let (bs, released, none_left) = release_previous_lem platform idx schedule w r in
        (after bs, exchange-after bs released, after-Ready bs none_left)

    in_range :
        (engines : List EngineSession)
        → get_elem? engines idx ≡ some r.engine
        → (not (length engines == 0) && ltb (length engines - 1) idx) ≡ false
    in_range engines h = ground (arith, get_elem?-lt engines idx h)

    -- A round decrypts its sample in place, and the next round can do so too.
    pub round_lem :
        (w' : World) × (decrypt_round platform idx x w ≡ ok (decrypted (ciphered schedule x), w'))
        × Ready platform idx schedule w'
    unfolding decrypt_round
    round_lem =
        let (w', run, ready) = exchange_lem in
        (w', rw (in_range w.media_engine_sessions r.at_index, r.at_index) run, ready)

  -- Every sample of a stream comes back under counter mode, in order, and the heap then holds at most
  -- the one buffer that `clear_content` names.
  loop_lem :
      (idx : ℕ) (schedule : platform.Schedule) (xs : List Exchange) (w : World)
      → Ready platform idx schedule w
      → All Asks xs
      → (w' : World) × (decrypt_shmem_loop platform idx xs w ≡ ok (map (ciphered schedule) xs, w'))
        × Ready platform idx schedule w'
  unfolding decrypt_shmem_loop
  loop_lem idx schedule [] w r a = (w, refl, r)
  loop_lem idx schedule (x ∷ xs) w r (a, as') =
      let (w1, round, r1) = round_lem idx schedule w r x a in
      let (w2, rest, r2) = loop_lem idx schedule xs w1 r1 as' in
      (w2, ground (arith, round, rest), r2)

  -- What a client puts in place of a clear sample: the sample under counter mode.
  abbrev pub protect : platform.Schedule → Exchange → Exchange
  protect schedule x = record x { sample = ciphered schedule x }

  ciphered-protect :
      (schedule : platform.Schedule) (xs : List Exchange)
      → map (ciphered schedule) (map (protect schedule) xs) ≡ map (λ x. x.sample) xs
  ciphered-protect schedule [] = refl
  ciphered-protect schedule (x ∷ xs) =
      rw (mode.undoes schedule (start_block x.iv) x.sample)
        (ap (◌∷◌ x.sample) (ciphered-protect schedule xs))

  protect-Asks :
      (schedule : platform.Schedule) (xs : List Exchange)
      → All Asks xs
      → All Asks (map (protect schedule) xs)
  protect-Asks schedule [] a = tt
  protect-Asks schedule (x ∷ xs) (a, as') = (
    record { iv_mapped = a.iv_mapped; sample_mapped = a.sample_mapped; short = a.short },
    protect-Asks schedule xs as',
  )

  -- Counter mode as `IsCounterMode` says, and a thread whose engine session has a living session
  -- and a key: samples in mapped memory, with short initial values, that were protected under
  -- that key, from their initial values and zeros, come back clear, in order, however many there
  -- are, and the thread is as ready as before.
  pub loop-protect :
      (idx : ℕ) (schedule : platform.Schedule) (xs : List Exchange) (w : World)
      → Ready platform idx schedule w
      → All Asks xs
      → (w' : World) × (decrypt_shmem_loop platform idx (map (protect schedule) xs) w
          ≡ ok (map (λ x. x.sample) xs, w'))
        × Ready platform idx schedule w'
  loop-protect idx schedule xs w r a =
      let (w', run, ready) =
        loop_lem idx schedule (map (protect schedule) xs) w r (protect-Asks schedule xs a) in
      (w', run ∙ ap (λ s. ok (s, w')) (ciphered-protect schedule xs), ready)
