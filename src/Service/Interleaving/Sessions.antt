-- ===== src/Service/Interleaving/Sessions.antt =====
-- service.cpp: the open sessions, however the rounds of the threads interleave.
use open_content_decryption.Base.{
  ◌-◌, ◌≡◌, ◌⊎◌, inl, inr, refl, sym, subst, not, ◌&&◌, ◌==◌, ltb, length, get_elem?, arith,
  Option-cases, Bool-cases, ℕ, true, Option, Bytes, List,
}
use open_content_decryption.Base.Int.{pos, eqb_ℤ}
use open_content_decryption.Base.Outcome.{Outcome, ok, Outcome-cases}
use open_content_decryption.MediaKeySession.{Decrypted}
use open_content_decryption.MediaKeys.{engine_decrypt}
use open_content_decryption.SampleLoop.{
  Exchange, Round, returned, finished, is_end, release_previous, write_back, copy_out, read_buffer,
}
use open_content_decryption.Service.Create.{HasRoom}
use open_content_decryption.Service.Frames.{
  Frames, Frames-refl, Frames-trans, release_previous-Frames, decrypt-Frames,
}
use open_content_decryption.Service.Interleaving.{
  begin_exchange, begin_round, decrypt_into, InRound, Process, Part, begins, ends, decrypts, copies,
  request, Interleaved, start, next,
}
use open_content_decryption.Service.Invariant.{Inv, initial-Inv}
use open_content_decryption.Service.Refinement.{Step-Good, Frames-Inv}
use open_content_decryption.World.{World, Platform, EngineSession, ◌>>◌, pure}
use open_content_decryption.World.Bind.{>>=-eq-ok}

-- What the begin of a round does where it returns: nothing but the release of the buffer before.
abbrev pub Begun : World → (Round ⊎ EngineSession) × World → Type 0
Begun w (inl r, w') = w' ≡ w
Begun w (inr e, w') = release_previous e w ≡ ok (tt, w')

determined :
    (w : World) (a b : (Round ⊎ EngineSession) × World)
    → ◌≡◌ {A = Outcome ((Round ⊎ EngineSession) × World)} (ok a) (ok b)
    → Begun w a
    → Begun w b
determined w a b h begun = let e : a ≡ b = cc in subst (Begun w) e begun

begin_exchange-Begun :
    (e : EngineSession) (x : Exchange) (w : World) (o : (Round ⊎ EngineSession) × World)
    → begin_exchange e x w ≡ ok o
    → Begun w o
unfolding begin_exchange release_previous
begin_exchange-Begun e x w o h = elim (Bool-cases (is_end x)) [
  | inl end ↦ determined w (inl finished, w) o (rw end at h) refl
  | inr more ↦ elim (Bool-cases (eqb_ℤ x.id_iv_shmem (pos 0))) [
    | inl unmapped ↦ cc (rw (more, unmapped, begin_exchange) at h)
    | inr iv ↦ elim (Bool-cases (eqb_ℤ x.id_sample_shmem (pos 0))) [
      | inl unmapped ↦ cc (rw (more, iv, unmapped, begin_exchange) at h)
      | inr sample ↦ elim (Outcome-cases (release_previous e w)) [
        | inr (f, failed) ↦ cc (rw (more, iv, sample, failed, begin_exchange) at h)
        | inl ((u, w1), released) ↦
            determined w (inr e, w1) o (rw (more, iv, sample, released, begin_exchange) at h)
              released
      ]
    ]
  ]
]

pub begin_round-Begun :
    (idx : ℕ) (x : Exchange) (w : World) (o : (Round ⊎ EngineSession) × World)
    → begin_round idx x w ≡ ok o
    → Begun w o
unfolding begin_round
begin_round-Begun idx x w o h =
    elim (Bool-cases
      (not (length w.media_engine_sessions == 0) && ltb (length w.media_engine_sessions - 1) idx)) [
        | inl late ↦ determined w (inl returned, w) o (rw late at h) refl
        | inr early ↦ elim (Option-cases (get_elem? w.media_engine_sessions idx)) [
          | inl missing ↦ cc (rw (early, missing, begin_round) at h)
          | inr (e, found) ↦ begin_exchange-Begun e x w o (rw (early, found, begin_round) at h)
        ]
      ]

begin_round-Frames :
    (idx : ℕ) (x : Exchange) (w w' : World) (o : Round ⊎ EngineSession)
    → begin_round idx x w ≡ ok (o, w')
    → Frames w w'
begin_round-Frames idx x w w' (inl r) h =
    subst (Frames w) (sym (begin_round-Begun idx x w (inl r, w') h)) (Frames-refl w)
begin_round-Frames idx x w w' (inr e) h =
    release_previous-Frames e w w' (begin_round-Begun idx x w (inr e, w') h)

write_back-Frames : (d : Decrypted) (w w' : World) → write_back d w ≡ ok (tt, w') → Frames w w'
unfolding write_back
write_back-Frames d w w' h = ground arith

-- `Decrypt`, and then what it writes back.
pub decrypt_into-eq-ok :
    (platform : Platform) (e : EngineSession) (x : Exchange) (d : Decrypted) (w w' : World)
    → decrypt_into platform e x w ≡ ok (d, w')
    → (w1 : World) × (engine_decrypt platform e x.iv x.sample w ≡ ok (d, w1))
      × (write_back d w1 ≡ ok (tt, w'))
unfolding decrypt_into
decrypt_into-eq-ok platform e x d w w' h =
    let (d1, w1, done, h1) =
      >>=-eq-ok (engine_decrypt platform e x.iv x.sample) (λ d. write_back d >> pure d) w h in
    let (u, w2, written, h2) = >>=-eq-ok (write_back d1) (λ _. pure d1) w1 h1 in
    let same : d1 ≡ d = cc in
    let end : w2 ≡ w' = cc in (w1, cc, subst (λ v. write_back d w1 ≡ ok (tt, v)) end (cc))

decrypt_into-Frames :
    (platform : Platform) (e : EngineSession) (x : Exchange) (d : Decrypted) (w w' : World)
    → decrypt_into platform e x w ≡ ok (d, w')
    → Frames w w'
unfolding engine_decrypt
decrypt_into-Frames platform e x d w w' h =
    let (w1, done, written) = decrypt_into-eq-ok platform e x d w w' h in
    Frames-trans w w1 w' (decrypt-Frames platform x.iv x.sample true w w1 d done)
      (write_back-Frames d w1 w' written)

copy_out-Frames :
    (sample : Bytes) (size : Option ℕ) (w w' : World) (r : Round)
    → copy_out sample size w ≡ ok (r, w')
    → Frames w w'
unfolding copy_out read_buffer
copy_out-Frames sample size w w' r h = ground arith

module _ (platform : Platform) (Guard : List InRound → Type 0)
    (room : HasRoom platform.usable) where
  Part-Inv : (s s' : Process) → Part platform Guard s s' → Inv s.world → Inv s'.world
  Part-Inv s s' (begins idx x e w may h end) v =
      subst (λ t. Inv t.world) (sym end)
        (Frames-Inv s.world w (begin_round-Frames idx x s.world w (inr e) h) v)
  Part-Inv s s' (ends idx x r w h end) v =
      subst (λ t. Inv t.world) (sym end)
        (Frames-Inv s.world w (begin_round-Frames idx x s.world w (inl r) h) v)
  Part-Inv s s' (decrypts front behind e x d w split h end) v =
      subst (λ t. Inv t.world) (sym end)
        (Frames-Inv s.world w (decrypt_into-Frames platform e x d s.world w h) v)
  Part-Inv s s' (copies front behind x d r w split h end) v =
      subst (λ t. Inv t.world) (sym end)
        (Frames-Inv s.world w (copy_out-Frames x.sample d.size s.world w r h) v)
  Part-Inv s s' (request w step other end) v =
      subst (λ t. Inv t.world) (sym end) ((Step-Good platform room s.world w step v).0)

  -- With an allocator that leaves room, and whatever rounds may overlap: after any history in which the
  -- threads' rounds interleave with each other and with requests, and which has no fault so far, what
  -- `Inv` says of the open sessions holds: each id has one entry, and what is open under an id is a
  -- living session object of that id with a callback to itself.
  pub Interleaved-Inv : {s : Process} → Interleaved platform Guard s → Inv s.world
  Interleaved-Inv start = initial-Inv
  Interleaved-Inv (next {s} {s'} history part) = Part-Inv s s' part (Interleaved-Inv history)
