-- ===== src/Service/Interleaving/Whole.antt =====
-- service.cpp, `decryptShmem`: histories whose rounds are one step, as histories of parts.
use open_content_decryption.Base.{ℕ, ◌≡◌, ◌⊎◌, inl, inr, refl, sym, ap, ◌∙◌, [], ◌∷◌}
use open_content_decryption.Base.Outcome.{ok}
use open_content_decryption.SampleLoop.{Exchange, Round, copy_out}
use open_content_decryption.Service.Interleaving.{
  begin_round, decrypt_into, before_decrypt, before_copy, Process, begins, ends, decrypts, copies,
  request, Interleaved, IsAlone,
}
use open_content_decryption.Service.Interleaving.Parts.{finish_round, decrypt_round-begin_round}
use open_content_decryption.Service.Steps.{
  Step, mediakeys, create, update, release, mediaengine, thread, sample, Reach,
}
use open_content_decryption.World.{World, Platform, EngineSession}
use open_content_decryption.World.Bind.{>>=-eq-ok}

abbrev pub between_rounds : World → Process
between_rounds w = record { world = w; rounds = [] }

module _ (platform : Platform) where
  -- A round that returns, as its parts.
  finished_parts :
      (idx : ℕ) (x : Exchange) (o : Round ⊎ EngineSession) (r : Round) (w w1 w' : World)
      → begin_round idx x w ≡ ok (o, w1)
      → finish_round platform x o w1 ≡ ok (r, w')
      → Interleaved platform IsAlone (between_rounds w)
      → Interleaved platform IsAlone (between_rounds w')
  unfolding finish_round
  finished_parts idx x (inl r1) r w w1 w' h h1 history =
      let same : w1 ≡ w' = cc in
      Interleaved.next history (ends idx x r1 w1 h (ap between_rounds (sym same)))
  finished_parts idx x (inr e) r w w1 w' h h1 history =
      let (d, w2, done, h2) =
        >>=-eq-ok (decrypt_into platform e x) (λ d. copy_out x.sample d.size) w1 h1 in
      let begun : Process = record { world = w1; rounds = before_decrypt e x ∷ [] } in
      let halfway : Process = record { world = w2; rounds = before_copy x d ∷ [] } in
      Interleaved.next {s = halfway}
        (Interleaved.next {s = begun} (Interleaved.next history (begins idx x e w1 refl h refl))
          (decrypts [] [] e x d w2 refl done refl))
        (copies [] [] x d r w' refl h2 refl)

  Step-Interleaved :
      {w w' : World}
      → Step platform w w'
      → Interleaved platform IsAlone (between_rounds w)
      → Interleaved platform IsAlone (between_rounds w')
  Step-Interleaved {w} {w'} (sample idx x r h) history =
      let (o, w1, begun, h1) =
        >>=-eq-ok (begin_round idx x) (finish_round platform x) w
          (sym (decrypt_round-begin_round platform idx x w) ∙ h) in
      finished_parts idx x o r w w1 w' begun h1 history
  Step-Interleaved {w} {w'} (mediakeys r h) history =
      Interleaved.next history (request w' (mediakeys r h) tt refl)
  Step-Interleaved {w} {w'} (create starts prog_num r small h) history =
      Interleaved.next history (request w' (create starts prog_num r small h) tt refl)
  Step-Interleaved {w} {w'} (update sid key starts r h) history =
      Interleaved.next history (request w' (update sid key starts r h) tt refl)
  Step-Interleaved {w} {w'} (release sid r h) history =
      Interleaved.next history (request w' (release sid r h) tt refl)
  Step-Interleaved {w} {w'} (mediaengine sid shmem sem r h) history =
      Interleaved.next history (request w' (mediaengine sid shmem sem r h) tt refl)
  Step-Interleaved {w} {w'} (thread before behind task p split kind h) history =
      Interleaved.next history (request w' (thread before behind task p split kind h) tt refl)

  -- Every state that requests, threads and whole rounds lead to is one that requests and parts of rounds
  -- lead to, with rounds that do not overlap and with no round under way at its end.
  pub Reach-Interleaved :
      {w : World} → Reach platform w → Interleaved platform IsAlone (between_rounds w)
  Reach-Interleaved Reach.start = Interleaved.start
  Reach-Interleaved (Reach.next history step) = Step-Interleaved step (Reach-Interleaved history)
