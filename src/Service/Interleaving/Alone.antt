-- ===== src/Service/Interleaving/Alone.antt =====
-- service.cpp, `decryptShmem`: the static pointer to clear content between the parts of one round.
use open_content_decryption.Base.{
  ◌<◌, ◌≡◌, ◌⊎◌, inl, inr, refl, ap, subst, ◌∙◌, true, none, some, List, [], ◌∷◌, ◌++◌, Bytes,
  length, get_elem?, arith,
}
use open_content_decryption.Base.Outcome.{ok}
use open_content_decryption.MediaKeySession.{Decrypted, decrypt, aes_block_size, aes_key, key_size}
use open_content_decryption.MediaKeySession.Decrypt.{
  start_block, HasKey, Accounts, gave, kept, with_buffer, decrypt_lem,
}
use open_content_decryption.SampleLoop.{Exchange, decrypted, write_back, copy_out, read_buffer}
use open_content_decryption.SampleLoop.Parts.{take_all, min_of_self}
use open_content_decryption.SampleLoop.Rounds.{Holds, IsCounterMode}
use open_content_decryption.Service.Buffers.{SameBuffers, same_Holds}
use open_content_decryption.Service.Interleaving.{InRound, before_decrypt, before_copy}
use open_content_decryption.World.{World, Ptr, Platform}
use open_content_decryption.World.Slots.{live_count, live_count-concat, get_elem?-append_last}

abbrev pub clear : (platform : Platform) → platform.Schedule → Exchange → Bytes
clear platform schedule x = platform.aes_ctr128_encrypt schedule (start_block x.iv) x.sample

-- The one buffer that is left holds this sample's clear content, and `clear_content` names it.
pub record Gave (platform : Platform) (x : Exchange) (d : Decrypted) (w : World) : Type 0 where
  pub key : Bytes
  pub schedule : platform.Schedule
  pub buffer : Ptr
  pub sixteen : length key ≡ key_size
  pub expands : aes_key platform key ≡ some schedule
  pub short : length x.iv < aes_block_size
  pub size : d.size ≡ some (length x.sample)
  pub named : w.clear_content ≡ some buffer
  pub holds :
      get_elem? w.buffers buffer
      ≡ some (record { content = clear platform schedule x; live = true })
  pub alone : live_count w.buffers ≡ 1

abbrev pub Halfway : Platform → World → InRound → Type 0
Halfway platform w (before_decrypt e x) = live_count w.buffers ≡ 0
Halfway platform w (before_copy x d) = (d.size ≡ none) ⊎ Gave platform x d w

-- What is left in the heap between two parts of rounds that do not overlap.
abbrev pub UnderWay : Platform → World → List InRound → Type 0
UnderWay platform w [] = Holds w
UnderWay platform w (r ∷ []) = Halfway platform w r
UnderWay platform w (r ∷ r' ∷ rs) = ⊥

pub one_part :
    (platform : Platform) (w : World) (front behind : List InRound) (r : InRound)
    → UnderWay platform w (front ++ r ∷ behind)
    → (front ≡ []) × (behind ≡ []) × Halfway platform w r
one_part platform w [] [] r h = (refl, refl, h)
one_part platform w [] (b ∷ bs) r h = absurd h
one_part platform w (f ∷ []) behind r h = absurd h
one_part platform w (f ∷ g ∷ fs) behind r h = absurd h

same_Gave :
    (platform : Platform) (x : Exchange) (d : Decrypted) (w w' : World)
    → SameBuffers w w'
    → Gave platform x d w
    → Gave platform x d w'
same_Gave platform x d w w' s g = record {
  key = g.key;
  schedule = g.schedule;
  buffer = g.buffer;
  sixteen = g.sixteen;
  expands = g.expands;
  short = g.short;
  size = g.size;
  named = s.clear ∙ g.named;
  holds = ap (λ xs. get_elem? xs g.buffer) s.buffers ∙ g.holds;
  alone = ap live_count s.buffers ∙ g.alone;
}

pub same_UnderWay :
    (platform : Platform) (w w' : World) (rs : List InRound)
    → SameBuffers w w'
    → UnderWay platform w rs
    → UnderWay platform w' rs
same_UnderWay platform w w' [] s h = same_Holds w w' s h
same_UnderWay platform w w' (before_decrypt e x ∷ []) s h = ap live_count s.buffers ∙ h
same_UnderWay platform w w' (before_copy x d ∷ []) s (inl failed) = inl failed
same_UnderWay platform w w' (before_copy x d ∷ []) s (inr g) = inr (same_Gave platform x d w w' s g)
same_UnderWay platform w w' (r ∷ r' ∷ rs) s h = absurd h

written_Gave :
    (platform : Platform) (x : Exchange) (d : Decrypted) (w w1 w' : World)
    (schedule : platform.Schedule)
    → HasKey platform w schedule
    → length x.iv < aes_block_size
    → d.size ≡ some (length x.sample)
    → d.buffer ≡ some (length w.buffers)
    → w1 ≡ with_buffer w (clear platform schedule x)
    → write_back d w1 ≡ ok (tt, w')
    → live_count w.buffers ≡ 0
    → Gave platform x d w'
unfolding write_back
written_Gave platform x d w w1 w' schedule k short hs hb made written zero_left =
    let u = record (with_buffer w (clear platform schedule x)) {
      clear_content = some (length w.buffers);
    } in
    let end : u ≡ w' = cc (rw (hb, made) at written) in
    subst (Gave platform x d) end (record {
      key = k.key;
      schedule = schedule;
      buffer = length w.buffers;
      sixteen = k.sixteen;
      expands = k.expands;
      short = short;
      size = hs;
      named = refl;
      holds = get_elem?-append_last w.buffers _;
      alone = omega (arith, live_count-concat w.buffers (clear platform schedule x));
    })

pub decrypt_into-Halfway :
    (platform : Platform) (d : Decrypted) (x : Exchange) (w w1 w' : World)
    → decrypt platform x.iv x.sample true w ≡ ok (d, w1)
    → Accounts platform x.iv x.sample w d w1
    → write_back d w1 ≡ ok (tt, w')
    → live_count w.buffers ≡ 0
    → Halfway platform w' (before_copy x d)
decrypt_into-Halfway platform d x w w1 w' done (kept bad hs hb same) written zero_left = inl hs
decrypt_into-Halfway platform d x w w1 w' done (gave schedule k short good hs hb more) written
      zero_left =
    let made : w1 ≡ with_buffer w (clear platform schedule x) =
      cc (decrypt_lem platform w schedule x.iv x.sample k short, done) in
    inr (written_Gave platform x d w w1 w' schedule k short hs hb made written zero_left)

-- The copy reads the one buffer.
pub copy_out-Gave :
    (platform : Platform) (mode : IsCounterMode platform) (x : Exchange) (d : Decrypted) (w : World)
    (g : Gave platform x d w)
    → copy_out x.sample d.size w ≡ ok (decrypted (clear platform g.schedule x), w)
unfolding copy_out read_buffer
copy_out-Gave platform mode x d w g = ground (
  arith,
  g.size,
  g.named,
  g.holds,
  take_all (clear platform g.schedule x) x.sample
      (mode.length_kept g.schedule (start_block x.iv) x.sample),
  min_of_self (length x.sample),
)
