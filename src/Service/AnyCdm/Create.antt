-- ===== src/Service/AnyCdm/Create.antt =====
-- service.cpp: `rpc_open_cdm_mediakeys_create_session_1_svc` over any content decryption module of which
-- `Conforms` holds.
use open_content_decryption.Base.{
  ℕ, ◌≡◌, refl, sym, subst, ◌∙◌, Bool, true, false, none, some, Option, [], Bytes, arith, inl, inr,
  Bool-cases, if◌then◌else◌,
}
use open_content_decryption.Base.Int.{ℤ, pos, negsuc, eqb_ℤ}
use open_content_decryption.Base.Outcome.{Outcome, ok}
use open_content_decryption.Cdmi.{Cdm}
use open_content_decryption.Cdmi.Contract.{Keeps, Conforms}
use open_content_decryption.Service.{CreateResponse, store_session}
use open_content_decryption.Service.AnyCdm.{
  register_session_by, make_session_by, rpc_create_session_by,
}
use open_content_decryption.Service.AnyCdm.Table.{
  Table, Serves, Keeps-Table, Keeps-view, globals-Table, stored-Serves,
}
use open_content_decryption.Service.Sessions.{insert}
use open_content_decryption.Service.Steps.{creates, Move, declines, view}
use open_content_decryption.World.{
  World, M, Ptr, cdmi_success, copy_text, ◌>>=◌, ◌>>◌, pure, modify, gets,
}
use open_content_decryption.World.Bind.{>>=-eq-ok}

is_success : (a : ℤ) → eqb_ℤ a cdmi_success ≡ true → a ≡ cdmi_success
is_success (pos n) h = ground arith
is_success (negsuc n) h = cc

pure-eq-ok :
    {A : Type 0} (a b : A) (w w' : World)
    → ◌≡◌ {A = Outcome (A × World)} (ok (a, w)) (ok (b, w'))
    → (a ≡ b) × (w ≡ w')
pure-eq-ok a b w w' h = (cc, cc)

copy_text-eq-ok :
    (usable : ℕ → ℕ) (s dst : Bytes) (w w' : World)
    → copy_text usable s w ≡ ok (dst, w')
    → (dst ≡ s) × (w ≡ w')
unfolding copy_text
copy_text-eq-ok usable s dst w w' h = ground arith

module _ (Lives : Bytes → Ptr → World → Type 0) (cdm : Cdm) (Room : World → Type 0)
    (c : Conforms Lives cdm Room) (usable : ℕ → ℕ) where
  abbrev announce : Ptr → Bytes → M Bytes
  announce p dst =
      (cdm.media_key_session p).run (some (record { media_key_session = p })) >> pure dst

  announced :
      (p : Ptr) (text dst : Bytes) (w w' : World)
      → announce p text w ≡ ok (dst, w')
      → (text ≡ dst) × Keeps Lives w w'
  announced p text dst w w' h =
      let (_, w1, ran, h1) =
        >>=-eq-ok ((cdm.media_key_session p).run (some (record { media_key_session = p })))
          (λ _. pure text) w h in
      let (same, end) = pure-eq-ok text dst w1 w' h1 in
      (same, subst (Keeps Lives w) end (c.run_keeps p _ w w1 ran))

  copied :
      (sid dst : Bytes) (p : Ptr) (w w' : World)
      → (copy_text usable sid >>= announce p) w ≡ ok (dst, w')
      → (dst ≡ sid) × Keeps Lives w w'
  copied sid dst p w w' h =
      let (text, w1, copy, h1) = >>=-eq-ok (copy_text usable sid) (announce p) w h in
      let (same_text, same) = copy_text-eq-ok usable sid text w w1 copy in
      let (same_dst, k) = announced p text dst w1 w' h1 in
      (sym same_dst ∙ same_text, subst (λ v. Keeps Lives v w') (sym same) k)

  register_lem :
      (sid dst : Bytes) (p : Ptr) (w w' : World)
      → Lives sid p w
      → register_session_by cdm usable p w ≡ ok (dst, w')
      → (dst ≡ sid)
        × Keeps Lives
            (record w { media_key_sessions = insert sid (some p) w.media_key_sessions })
            w'
  unfolding register_session_by store_session
  register_lem sid dst p w w' l h =
      let (id, u, asked, h1) =
        >>=-eq-ok (cdm.media_key_session p).get_session_id
          (λ id. store_session id p >> (copy_text usable id >>= announce p)) w h in
      let (same_id, same) =
        pure-eq-ok sid id w u (sym (c.get_session_id_lives sid p w l) ∙ asked) in
      let h2 =
        subst (λ id. (store_session id p >> (copy_text usable id >>= announce p)) u ≡ ok (dst, w'))
          (sym same_id) h1 in
      copied sid dst p (record w { media_key_sessions = insert sid (some p) w.media_key_sessions })
        w'
        (subst
          (λ v. (store_session sid p >> (copy_text usable sid >>= announce p)) v ≡ ok (dst, w'))
          (sym same) h2)

  registered-Serves :
      (sid dst : Bytes) (p : Ptr) (w w1 w' : World) (cr : ℤ)
      → Keeps Lives w w1
      → Lives sid p w1
      → ((q : Ptr) → Lives sid q w → ⊥)
      → register_session_by cdm usable p (record w1 { create_session_cr = cr }) ≡ ok (dst, w')
      → Table Lives w
      → Serves Lives (creates (some dst)) w w'
  registered-Serves sid dst p w w1 w' cr k l fresh h t =
      let w2 : World = record w1 { create_session_cr = cr } in
      let written : (j : Bytes) (q : Ptr) → Lives j q w1 → Lives j q w2 = (λ j q l.
        c.own j q w1.media_key_sessions w1.pnum cr w1.media_engine_sessions w1.threads w1 l) in
      let k2 : Keeps Lives w w2 = record {
        sessions = k.sessions;
        lives = λ j q l. written j q (k.lives j q l);
      } in
      let (same, k3) = register_lem sid dst p w2 w' (written sid p l) h in
      let (t3, move) = stored-Serves Lives cdm Room c sid p w w2 k2 (written sid p l) fresh t in
      let w3 : World = record w2 {
        media_key_sessions = insert sid (some p) w2.media_key_sessions;
      } in
      (
        Keeps-Table Lives w3 w' k3 t3,
        subst (λ d. Move (creates (some d)) (view w) (view w')) (sym same)
            (subst (λ v. Move (creates (some sid)) (view w) v) (sym (Keeps-view Lives w3 w' k3))
              move),
      )

  finished-Serves :
      (cr : ℤ) (p : Ptr) (mime_type init_data : Bytes) (w w1 w' : World) (o : Option Bytes)
      → Room w
      → cdm.media_keys.create_media_key_session mime_type init_data [] w ≡ ok ((cr, p), w1)
      → (if eqb_ℤ cr cdmi_success
            then (register_session_by cdm usable p >>= λ dst. pure (some dst))
            else pure none)
          (record w1 { create_session_cr = cr })
        ≡ ok (o, w')
      → Table Lives w
      → Serves Lives (creates o) w w'
  finished-Serves cr p mime_type init_data w w1 w' o room made h t =
      let k = c.create_keeps mime_type init_data [] cr p w w1 room made in
      elim (Bool-cases (eqb_ℤ cr cdmi_success)) [
        | inl good ↦
            let (sid, l, fresh) = c.create_new mime_type init_data [] p w w1 room (
              subst
                (λ a.
                  cdm.media_keys.create_media_key_session mime_type init_data [] w
                  ≡ ok ((a, p), w1))
                (is_success cr good) made) in
            let (dst, w2, registered, h2) =
              >>=-eq-ok (register_session_by cdm usable p) (λ dst. pure (some dst))
                (record w1 { create_session_cr = cr }) (rw good at h) in
            let end : w2 ≡ w' = cc in
            let answer : some dst ≡ o = cc in
            subst (λ a. Serves Lives (creates a) w w') answer
              (subst (Serves Lives (creates (some dst)) w) end
                (registered-Serves sid dst p w w1 w2 cr k l fresh registered t))
        | inr bad ↦
            let w2 : World = record w1 { create_session_cr = cr } in
            let end : w2 ≡ w' = cc (rw bad at h) in
            let answer : none ≡ o = cc (rw bad at h) in
            let t2 =
              globals-Table Lives cdm Room c w1.pnum cr w1.media_engine_sessions w1.threads w1
                (Keeps-Table Lives w w1 k t) in
            subst (λ a. Serves Lives (creates a) w w') answer
              (subst (Serves Lives (creates none) w) end
                (t2, declines refl (Keeps-view Lives w w1 k)))
      ]

  make-Serves :
      (mime_type init_data : Bytes) (w w' : World) (o : Option Bytes)
      → Room w
      → make_session_by cdm usable mime_type init_data w ≡ ok (o, w')
      → Table Lives w
      → Serves Lives (creates o) w w'
  unfolding make_session_by
  make-Serves mime_type init_data w w' o room h t =
      let ((cr, p), w1, made, h1) =
        >>=-eq-ok (cdm.media_keys.create_media_key_session mime_type init_data [])
          (λ (cr, p).
            modify (λ w. record w { create_session_cr = cr })
            >> (if eqb_ℤ cr cdmi_success
                then (register_session_by cdm usable p >>= λ dst. pure (some dst))
                else pure none))
          w h in
      finished-Serves cr p mime_type init_data w w1 w' o room made h1 t

  answered :
      (w : World) (b : Bool) (m : M (Option Bytes)) (w' : World) (r : CreateResponse)
      → ((if b then m else pure none) >>= λ sid. gets (λ w. w.create_session_cr) >>= λ cr.
            pure (record { platform_val = cr; session_id = sid }))
          w
        ≡ ok (r, w')
      → ((o : Option Bytes) → (b ≡ true) → m w ≡ ok (o, w') → Serves Lives (creates o) w w')
      → Table Lives w
      → Serves Lives (creates r.session_id) w w'
  answered w true m w' r h serve t =
      let (o, w1, run, h1) =
        >>=-eq-ok m
          (λ sid. gets (λ w. w.create_session_cr) >>= λ cr.
            pure (record { platform_val = cr; session_id = sid }))
          w h in
      let end : w1 ≡ w' = cc in
      let answer : o ≡ r.session_id = cc in
      subst (λ a. Serves Lives (creates a) w w') answer
        (serve o refl (subst (λ v. m w ≡ ok (o, v)) end run))
  answered w false m w' r h serve t =
      let end : w ≡ w' = cc in
      let answer : none ≡ r.session_id = cc in
      subst (λ a. Serves Lives (creates a) w w') answer
        (subst (Serves Lives (creates none) w) end (t, declines refl refl))

  pub create-Serves :
      (mime_type init_data : Bytes) (prog_num : ℕ) (w w' : World) (r : CreateResponse)
      → Room w
      → rpc_create_session_by cdm usable mime_type init_data prog_num w ≡ ok (r, w')
      → Table Lives w
      → Serves Lives (creates r.session_id) w w'
  unfolding rpc_create_session_by
  create-Serves mime_type init_data prog_num w w' r room h t =
      let w0 : World = record w { pnum = prog_num } in
      let t0 =
        globals-Table Lives cdm Room c prog_num w.create_session_cr w.media_engine_sessions
          w.threads w t in
      let room0 =
        c.room_own w.media_key_sessions prog_num w.create_session_cr w.media_engine_sessions
          w.threads w room in
      answered w0 w.media_keys (make_session_by cdm usable mime_type init_data) w' r h
        (λ o _ made. make-Serves mime_type init_data w0 w' o room0 made t0) t0
