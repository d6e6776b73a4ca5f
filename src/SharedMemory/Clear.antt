-- ===== src/SharedMemory/Clear.antt =====
-- The exchange of `decryptShmem`: the answer to a sample that the client protected.
use open_content_decryption.Base.{
  ℕ, ◌≡◌, ◌<◌, ap, ◌∙◌, Bytes, length, get_elem?, Option-cases, Bool-cases, inl, inr, arith,
}
use open_content_decryption.Base.Int.{ℤ}
use open_content_decryption.Base.Outcome.{ok}
use open_content_decryption.MediaKeySession.{aes_block_size}
use open_content_decryption.MediaKeySession.Decrypt.{start_block, HasKey, decrypt_lem}
use open_content_decryption.MediaKeys.{engine_decrypt}
use open_content_decryption.SampleLoop.{
  Exchange, decrypted, is_end, release_previous, copy_back, decrypt_mapped, exchange, decrypt_round,
}
use open_content_decryption.SampleLoop.Parts.{copy_back_lem}
use open_content_decryption.SampleLoop.Rounds.{IsCounterMode, Asks, protect}
use open_content_decryption.Service.Frames.{release_previous-Frames}
use open_content_decryption.SharedMemory.{Ipc}
use open_content_decryption.SharedMemory.Exclusion.{Answers}
use open_content_decryption.World.{World, Platform, EngineSession, ◌>>=◌}
use open_content_decryption.World.Bind.{>>=-eq-ok}

module _ (platform : Platform) (mode : IsCounterMode platform) (schedule : platform.Schedule) where
  abbrev clear : Exchange → Bytes
  clear x = platform.aes_ctr128_encrypt schedule (start_block x.iv) x.sample

  -- Whatever a round with a key has decrypted is the sample under counter mode.
  decrypt_mapped_bytes :
      (e : EngineSession) (x : Exchange) (bytes : Bytes) (w w' : World)
      → HasKey platform w schedule
      → length x.iv < aes_block_size
      → decrypt_mapped platform e x w ≡ ok (decrypted bytes, w')
      → bytes ≡ clear x
  unfolding decrypt_mapped engine_decrypt
  decrypt_mapped_bytes e x bytes w w' key short h =
      let (_, w1, released, h1) =
        >>=-eq-ok (release_previous e)
          (λ _. engine_decrypt platform e x.iv x.sample >>= copy_back x.sample) w h in
      let key1 : HasKey platform w1 schedule = record {
        key_id = key.key_id;
        key = key.key;
        others = key.others;
        first = (release_previous-Frames e w w1 released).keys ∙ key.first;
        sixteen = key.sixteen;
        expands = key.expands;
      } in
      ground (
        arith,
        h1,
        decrypt_lem platform w1 schedule x.iv x.sample key1 short,
        copy_back_lem w1 x.sample (clear x) (mode.length_kept schedule (start_block x.iv) x.sample),
      )

  exchange_bytes :
      (e : EngineSession) (x : Exchange) (bytes : Bytes) (w w' : World)
      → HasKey platform w schedule
      → Asks x
      → exchange platform e x w ≡ ok (decrypted bytes, w')
      → bytes ≡ clear x
  unfolding exchange
  exchange_bytes e x bytes w w' key a h = elim (Bool-cases (is_end x)) [
    | inl end ↦ absurd (ground (arith, end, h))
    | inr more ↦
        decrypt_mapped_bytes e x bytes w w' key a.short
          (rw (more, a.iv_mapped, a.sample_mapped) at h)
  ]

  decrypt_round_bytes :
      (idx : ℕ) (x : Exchange) (bytes : Bytes) (w w' : World)
      → HasKey platform w schedule
      → Asks x
      → decrypt_round platform idx x w ≡ ok (decrypted bytes, w')
      → bytes ≡ clear x
  unfolding decrypt_round
  decrypt_round_bytes idx x bytes w w' key a h =
      elim (Option-cases (get_elem? w.media_engine_sessions idx)) [
        | inl missing ↦ absurd (ground (arith, missing, h))
        | inr (e, here) ↦
            let run : exchange platform e x w ≡ ok (decrypted bytes, w') =
              ground (arith, here, h) in
            exchange_bytes e x bytes w w' key a run
      ]

  module _ (ipc : Ipc) (service client : ℕ) (sem mes_shmem : ℤ) (idx : ℕ) where
    -- With counter mode as `IsCounterMode` says: where what a client posted is a sample in mapped
    -- memory, with a short initial value, that it protected with a key, from this value and
    -- zeros, and the answer was made in a state with that key, the exchanged memory then holds
    -- the clear sample, and the rest of the exchange as before.
    pub Answers-protect :
        (x y : Exchange)
        → Asks x
        → (a : Answers platform ipc service client sem mes_shmem idx
            (protect platform mode schedule x)
            y)
        → HasKey platform a.before schedule
        → y ≡ x
    Answers-protect x y asks a key =
        let posted = protect platform mode schedule x in
        let same =
          decrypt_round_bytes idx posted a.bytes a.before a.after key
            (record {
              iv_mapped = asks.iv_mapped;
              sample_mapped = asks.sample_mapped;
              short = asks.short;
            })
            a.round in
        a.written
        ∙ ap (λ b. record x { sample = b })
            (same ∙ mode.undoes schedule (start_block x.iv) x.sample)
