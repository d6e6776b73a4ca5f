-- ===== src/Service/Interleaving/Parts.antt =====
-- service.cpp, `decryptShmem`: the parts of a round, one after the other.
use open_content_decryption.Base.{
  ℕ, ◌-◌, ◌≡◌, ◌⊎◌, inl, inr, refl, not, ◌&&◌, ◌==◌, ltb, length, get_elem?, arith, Option-cases,
  Bool-cases, Bool, true, false, if◌then◌else◌,
}
use open_content_decryption.Base.Int.{pos, eqb_ℤ}
use open_content_decryption.Base.Outcome.{Outcome-cases, assertion}
use open_content_decryption.MediaKeys.{engine_decrypt}
use open_content_decryption.SampleLoop.{
  Exchange, Round, is_end, release_previous, write_back, copy_out, copy_back, decrypt_mapped,
  exchange, decrypt_round,
}
use open_content_decryption.Service.Interleaving.{begin_exchange, begin_round, decrypt_into}
use open_content_decryption.World.{World, M, Platform, EngineSession, ◌>>=◌, ◌>>◌, pure, fails}

-- The rest of a round.
unfoldable pub finish_round : Platform → Exchange → Round ⊎ EngineSession → M Round
finish_round platform x (inl r) = pure r
finish_round platform x (inr e) = decrypt_into platform e x >>= λ d. copy_out x.sample d.size

finish_mapped :
    (platform : Platform) (e : EngineSession) (x : Exchange) (w : World)
    → decrypt_mapped platform e x w
      ≡ ((release_previous e >> pure (inr e)) >>= finish_round platform x) w
unfolding decrypt_mapped finish_round decrypt_into copy_back
finish_mapped platform e x w = elim (Outcome-cases (release_previous e w)) [
  | inr (f, failed) ↦ ground (arith, failed)
  | inl ((u, w1), released) ↦ elim (Outcome-cases (engine_decrypt platform e x.iv x.sample w1)) [
    | inr (f, failed) ↦ ground (arith, released, failed)
    | inl ((d, w2), done) ↦ elim (Outcome-cases (write_back d w2)) [
      | inr (f, failed) ↦ ground (arith, released, done, failed)
      | inl ((v, w3), written) ↦ ground (arith, released, done, written)
    ]
  ]
]

mapped_alike :
    (b1 b2 : Bool) (all : M Round) (first : M (Round ⊎ EngineSession))
    (then_do : Round ⊎ EngineSession → M Round) (w : World)
    → all w ≡ (first >>= then_do) w
    → ((if b1 then fails assertion else pure tt)
          >> ((if b2 then fails assertion else pure tt) >> all))
        w
      ≡ (((if b1 then fails assertion else pure tt)
              >> ((if b2 then fails assertion else pure tt) >> first))
            >>= then_do)
          w
mapped_alike true b2 all first then_do w h = refl
mapped_alike false true all first then_do w h = refl
mapped_alike false false all first then_do w h = h

exchange-begin_exchange :
    (platform : Platform) (e : EngineSession) (x : Exchange) (w : World)
    → exchange platform e x w ≡ (begin_exchange e x >>= finish_round platform x) w
unfolding exchange begin_exchange finish_round
exchange-begin_exchange platform e x w = elim (Bool-cases (is_end x)) [
  | inl end ↦ ground (arith, end)
  | inr more ↦
      rw (more, begin_exchange)
        (mapped_alike (eqb_ℤ x.id_iv_shmem (pos 0)) (eqb_ℤ x.id_sample_shmem (pos 0))
          (decrypt_mapped platform e x) (release_previous e >> pure (inr e))
          (finish_round platform x) w (finish_mapped platform e x w))
]

-- The round of a thread, and its parts one after the other, do the same: on every branch, with the same
-- result, state or fault.
pub decrypt_round-begin_round :
    (platform : Platform) (idx : ℕ) (x : Exchange) (w : World)
    → decrypt_round platform idx x w ≡ (begin_round idx x >>= finish_round platform x) w
unfolding decrypt_round begin_round finish_round
decrypt_round-begin_round platform idx x w =
    elim (Bool-cases
      (not (length w.media_engine_sessions == 0) && ltb (length w.media_engine_sessions - 1) idx)) [
        | inl yes_late ↦ ground (arith, yes_late)
        | inr early ↦ elim (Option-cases (get_elem? w.media_engine_sessions idx)) [
          | inl missing ↦ ground (arith, early, missing)
          | inr (e, found) ↦ ground (arith, early, found, exchange-begin_exchange platform e x w)
        ]
      ]
