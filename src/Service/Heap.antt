-- ===== src/Service/Heap.antt =====
-- service.cpp and cdmi-stub: the buffers of clear samples, over any history of requests and threads.
use open_content_decryption.Base.{
  ℕ, ◌-◌, ◌≡◌, not, ◌&&◌, ◌==◌, ltb, subst, refl, ap, ◌∙◌, true, none, some, ◌++◌, Bytes, length,
  arith, get_elem?, take, drop, Bool-cases, Option-cases, inl, inr,
}
use open_content_decryption.Base.Int.{pos, eqb_ℤ}
use open_content_decryption.Base.Outcome.{ok, Outcome-cases}
use open_content_decryption.World.{
  World, Ptr, Platform, EngineSession, deref, free_buffer, alive, pure, ◌>>=◌,
}
use open_content_decryption.World.Bind.{>>=-eq-ok}
use open_content_decryption.World.Slots.{alive-eq-ok, live_count, live_count-set}
use open_content_decryption.MediaKeySession.{release_clear_content, Decrypted}
use open_content_decryption.MediaKeySession.Decrypt.{Accounts, gave, kept, decrypt-Accounts}
use open_content_decryption.MediaKeys.{engine_decrypt, engine_release_clear_content}
use open_content_decryption.SampleLoop.{
  Exchange, Round, decrypted, min_of, is_end, release_previous, copy_back, write_back, copy_out,
  read_buffer, decrypt_mapped, exchange, decrypt_round,
}
use open_content_decryption.SampleLoop.Rounds.{Holds, nothing, current}
use open_content_decryption.Service.Create.{HasRoom}
use open_content_decryption.Service.Steps.{Reach}
use open_content_decryption.Service.Invariant.{released}
use open_content_decryption.Service.Histories.{Kept, Reach-Kept}
use open_content_decryption.Service.Buffers.{same_Holds, SameBuffers-ByRequests}

-- The buffer of the sample before is freed, or none was left.
pub release_previous_none :
    (e : EngineSession) (w w' : World)
    → release_previous e w ≡ ok (tt, w')
    → Holds w
    → live_count w'.buffers ≡ 0
unfolding release_previous engine_release_clear_content release_clear_content deref free_buffer
release_previous_none e w w' h (nothing a b) = ground arith
release_previous_none e w w' h (current b bytes a c d) =
    ground (arith, live_count-set w.buffers b (record { content = bytes; live = true }) c refl)

pub read_buffer-eq-ok :
    (b : Ptr) (w w' : World) (bytes : Bytes)
    → read_buffer b w ≡ ok (bytes, w')
    → (get_elem? w.buffers b ≡ some (record { content = bytes; live = true })) × (w ≡ w')
unfolding read_buffer
read_buffer-eq-ok b w w' bytes h = elim (Outcome-cases (alive (get_elem? w.buffers b))) [
  | inr (e, failed) ↦ cc (rw (failed, read_buffer) at h)
  | inl (s, given) ↦
      let same : s ≡ bytes = ground (arith, h, given) in
      (alive-eq-ok _ bytes (given ∙ ap ok same), ground (arith, h, given))
]

-- What is copied back was read from a living buffer, and `clear_content` names it.
copy_back-Holds :
    (xs : Bytes) (size : ℕ) (b : Ptr) (d : Decrypted) (w w' : World) (r : Round)
    → d.size ≡ some size
    → d.buffer ≡ some b
    → copy_back xs d w ≡ ok (r, w')
    → live_count w.buffers ≡ 1
    → Holds w'
unfolding copy_back write_back copy_out
copy_back-Holds xs size b d w w' r hs hb h one =
    let w1 = record w { clear_content = some b } in
    let (bytes, w2, read, done) =
      >>=-eq-ok (read_buffer b)
        (λ bytes.
          pure
            (decrypted (take (min_of (length xs) size) bytes ++ drop (min_of (length xs) size) xs)))
        w1 (rw (hs, hb) at h) in
    let (here, same) = read_buffer-eq-ok b w1 w2 bytes read in
    let end : w1 ≡ w' = cc in subst Holds end (current b bytes refl here one)

copy_back_failed :
    (xs : Bytes) (d : Decrypted) (w w' : World) (r : Round)
    → d.size ≡ none
    → copy_back xs d w ≡ ok (r, w')
    → Holds w'
unfolding copy_back write_back copy_out
copy_back_failed xs d w w' r hs h = elim (Option-cases d.buffer) [
  | inl missing ↦ cc (rw (hs, missing) at h)
  | inr (b, given) ↦ cc (rw (hs, given) at h)
]

decrypted_Holds :
    (platform : Platform) (x : Exchange) (d : Decrypted) (w1 w2 w' : World) (r : Round)
    → live_count w1.buffers ≡ 0
    → Accounts platform x.iv x.sample w1 d w2
    → copy_back x.sample d w2 ≡ ok (r, w')
    → Holds w'
decrypted_Holds platform x d w1 w2 w' r zero_left (gave schedule k short good hs hb more) h =
    copy_back-Holds x.sample _ _ d w2 w' r hs hb h (omega arith)
decrypted_Holds platform x d w1 w2 w' r zero_left (kept bad hs hb same) h =
    copy_back_failed x.sample d w2 w' r hs h

decrypt_mapped-Holds :
    (platform : Platform) (e : EngineSession) (x : Exchange) (w w' : World) (r : Round)
    → decrypt_mapped platform e x w ≡ ok (r, w')
    → Holds w
    → Holds w'
unfolding decrypt_mapped engine_decrypt
decrypt_mapped-Holds platform e x w w' r h heap =
    let (_, w1, released, h1) =
      >>=-eq-ok (release_previous e)
        (λ _. engine_decrypt platform e x.iv x.sample >>= copy_back x.sample) w h in
    let (d, w2, done, h2) =
      >>=-eq-ok (engine_decrypt platform e x.iv x.sample) (copy_back x.sample) w1 h1 in
    decrypted_Holds platform x d w1 w2 w' r (release_previous_none e w w1 released heap)
      (decrypt-Accounts platform x.iv x.sample true w1 w2 d done) h2

exchange-Holds :
    (platform : Platform) (e : EngineSession) (x : Exchange) (w w' : World) (r : Round)
    → exchange platform e x w ≡ ok (r, w')
    → Holds w
    → Holds w'
unfolding exchange
exchange-Holds platform e x w w' r h heap = elim (Bool-cases (is_end x)) [
  | inl end ↦ same_Holds w w' (ground arith) heap
  | inr more ↦ elim (Bool-cases (eqb_ℤ x.id_iv_shmem (pos 0))) [
    | inl unmapped ↦ cc (rw (more, unmapped) at h)
    | inr iv ↦ elim (Bool-cases (eqb_ℤ x.id_sample_shmem (pos 0))) [
      | inl unmapped ↦ cc (rw (more, iv, unmapped) at h)
      | inr mapped ↦ decrypt_mapped-Holds platform e x w w' r (rw (more, iv, mapped) at h) heap
    ]
  ]
]

decrypt_round-Holds :
    (platform : Platform) (idx : ℕ) (x : Exchange) (w w' : World) (r : Round)
    → decrypt_round platform idx x w ≡ ok (r, w')
    → Holds w
    → Holds w'
unfolding decrypt_round
decrypt_round-Holds platform idx x w w' r h heap =
    elim (Option-cases (get_elem? w.media_engine_sessions idx)) [
      | inl missing ↦ same_Holds w w' (ground arith) heap
      | inr (e, here) ↦
          elim (Bool-cases (
            not (length w.media_engine_sessions == 0)
            && ltb (length w.media_engine_sessions - 1) idx)) [
              | inl late ↦ same_Holds w w' (ground arith) heap
              | inr early ↦ exchange-Holds platform e x w w' r (rw (early, here) at h) heap
            ]
    ]

Holds-Kept : (platform : Platform) → Kept platform Holds
Holds-Kept platform = record {
  at_start = nothing refl refl;
  by_request = SameBuffers-ByRequests platform Holds same_Holds;
  by_sample = λ idx x r w w' h. decrypt_round-Holds platform idx x w w' r h;
}

-- With an allocator that leaves room, after any history of requests, threads and samples that has
-- no fault, either no buffer is left and `clear_content` is NULL, or just one buffer is left, and
-- it is the one that `clear_content` points to.
pub Reach-Holds :
    (platform : Platform) {w : World} → HasRoom platform.usable → Reach platform w → Holds w
Reach-Holds platform room history = Reach-Kept platform room Holds (Holds-Kept platform) history
