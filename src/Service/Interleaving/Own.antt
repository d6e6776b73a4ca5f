-- ===== src/Service/Interleaving/Own.antt =====
-- service.cpp, `decryptShmem`: the buffers, and what is copied out, where rounds do not overlap.
use open_content_decryption.Base.{
  ◌≡◌, ◌≢◌, inl, inr, refl, sym, ap, subst, ◌∙◌, true, none, some, Option, List, [], ◌∷◌, ◌++◌,
  Bytes, length, arith, ℕ,
}
use open_content_decryption.Base.Outcome.{ok}
use open_content_decryption.MediaKeySession.{Decrypted, aes_key, key_size}
use open_content_decryption.MediaKeySession.Decrypt.{start_block, decrypt-Accounts}
use open_content_decryption.MediaKeys.{engine_decrypt}
use open_content_decryption.SampleLoop.{Exchange, Round, decrypted, copy_out, read_buffer}
use open_content_decryption.SampleLoop.Rounds.{Holds, nothing, current, IsCounterMode}
use open_content_decryption.Service.Buffers.{Request-SameBuffers}
use open_content_decryption.Service.Create.{HasRoom}
use open_content_decryption.Service.Heap.{release_previous_none}
use open_content_decryption.Service.Interleaving.{
  decrypt_into, InRound, before_decrypt, before_copy, Process, Part, begins, ends, decrypts, copies,
  request, Interleaved, start, next, IsAlone,
}
use open_content_decryption.Service.Interleaving.Alone.{
  clear, Halfway, UnderWay, one_part, same_UnderWay, decrypt_into-Halfway, copy_out-Gave,
}
use open_content_decryption.Service.Interleaving.Sessions.{
  begin_round-Begun, decrypt_into-eq-ok, Interleaved-Inv,
}
use open_content_decryption.Service.Invariant.{Inv}
use open_content_decryption.World.{World, Platform, EngineSession}
use open_content_decryption.World.Slots.{live_count}

copy_out_same :
    (sample : Bytes) (size : Option ℕ) (w w' : World) (r : Round)
    → copy_out sample size w ≡ ok (r, w')
    → (w ≡ w') × (size ≢ none)
unfolding copy_out read_buffer
copy_out_same sample size w w' r h = ground arith

after_decrypt :
    (platform : Platform) (e : EngineSession) (x : Exchange) (d : Decrypted) (w w' : World)
    → decrypt_into platform e x w ≡ ok (d, w')
    → live_count w.buffers ≡ 0
    → Halfway platform w' (before_copy x d)
unfolding engine_decrypt
after_decrypt platform e x d w w' h zero_left =
    let (w1, done, written) = decrypt_into-eq-ok platform e x d w w' h in
    decrypt_into-Halfway platform d x w w1 w' done
      (decrypt-Accounts platform x.iv x.sample true w w1 d done) written zero_left

after_copy :
    (platform : Platform) (x : Exchange) (d : Decrypted) (w w' : World) (r : Round)
    → copy_out x.sample d.size w ≡ ok (r, w')
    → Halfway platform w (before_copy x d)
    → Holds w'
after_copy platform x d w w' r h (inl failed) =
    absurd ((copy_out_same x.sample d.size w w' r h).1 failed)
after_copy platform x d w w' r h (inr g) =
    subst Holds (copy_out_same x.sample d.size w w' r h).0
      (current g.buffer (clear platform g.schedule x) g.named g.holds g.alone)

module _ (platform : Platform) (room : HasRoom platform.usable) where
  Part-UnderWay :
      (s s' : Process)
      → Part platform IsAlone s s'
      → Inv s.world
      → UnderWay platform s.world s.rounds
      → UnderWay platform s'.world s'.rounds
  Part-UnderWay s s' (begins idx x e w may h end) v u =
      let heap : Holds s.world = subst (UnderWay platform s.world) may u in
      subst (λ t. UnderWay platform t.world t.rounds)
        (ap (λ rs. record { world = w; rounds = before_decrypt e x ∷ rs }) (sym may) ∙ sym end)
        (release_previous_none e s.world w (begin_round-Begun idx x s.world (inr e, w) h) heap)
  Part-UnderWay s s' (ends idx x r w h end) v u =
      subst (λ t. UnderWay platform t.world t.rounds) (sym end)
        (subst (λ w. UnderWay platform w s.rounds)
          (sym (begin_round-Begun idx x s.world (inl r, w) h)) u)
  Part-UnderWay s s' (decrypts front behind e x d w split h end) v u =
      let (no_front, no_behind, zero_left) =
        one_part platform s.world front behind (before_decrypt e x)
          (subst (UnderWay platform s.world) split u) in
      let own : s' ≡ record { world = w; rounds = before_copy x d ∷ [] } = cc in
      subst (λ t. UnderWay platform t.world t.rounds) (sym own)
        (after_decrypt platform e x d s.world w h zero_left)
  Part-UnderWay s s' (copies front behind x d r w split h end) v u =
      let (no_front, no_behind, halfway) =
        one_part platform s.world front behind (before_copy x d)
          (subst (UnderWay platform s.world) split u) in
      let own : s' ≡ record { world = w; rounds = [] } = cc in
      subst (λ t. UnderWay platform t.world t.rounds) (sym own)
        (after_copy platform x d s.world w r h halfway)
  Part-UnderWay s s' (request w step other end) v u =
      subst (λ t. UnderWay platform t.world t.rounds) (sym end)
        (same_UnderWay platform s.world w s.rounds
          (Request-SameBuffers platform s.world w step room other v) u)

  -- With an allocator that leaves room: after any history of requests and of rounds that do not overlap,
  -- but may have requests between their parts, at most one round is under way. Between two rounds no
  -- buffer is left and `clear_content` is NULL, or just one buffer is left, which `clear_content` points to.
  -- Before `Decrypt` no buffer is left. After a successful `Decrypt` just one is left, which
  -- `clear_content` points to, and it holds the clear content of this round's sample.
  pub Interleaved-UnderWay :
      {s : Process} → Interleaved platform IsAlone s → UnderWay platform s.world s.rounds
  Interleaved-UnderWay start = nothing refl refl
  Interleaved-UnderWay (next {s} {s'} history part) =
      Part-UnderWay s s' part (Interleaved-Inv platform IsAlone room history)
        (Interleaved-UnderWay history)

  -- With an allocator that leaves room and counter mode as `IsCounterMode` says: where rounds do not
  -- overlap, but requests may come between the parts of a round, the bytes that a round copies to its
  -- client are those of its own sample, under counter mode from its own initial value and the schedule
  -- of a key of sixteen bytes.
  pub copies_own :
      (mode : IsCounterMode platform) (s : Process) (front behind : List InRound) (x : Exchange)
      (d : Decrypted) (r : Round) (w : World)
      → Interleaved platform IsAlone s
      → s.rounds ≡ front ++ before_copy x d ∷ behind
      → copy_out x.sample d.size s.world ≡ ok (r, w)
      → (key : Bytes) × (schedule : platform.Schedule) × (length key ≡ key_size)
        × (aes_key platform key ≡ some schedule)
        × (r ≡ decrypted (platform.aes_ctr128_encrypt schedule (start_block x.iv) x.sample))
  copies_own mode s front behind x d r w history split h =
      let (_, _, halfway) =
        one_part platform s.world front behind (before_copy x d)
          (subst (UnderWay platform s.world) split (Interleaved-UnderWay history)) in
      elim halfway [
        | inl failed ↦ absurd ((copy_out_same x.sample d.size s.world w r h).1 failed)
        | inr g ↦ (
          g.key,
          g.schedule,
          g.sixteen,
          g.expands,
          cc (h, copy_out-Gave platform mode x d s.world g),
        )
      ]
