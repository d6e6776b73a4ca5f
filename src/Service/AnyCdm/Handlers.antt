-- ===== src/Service/AnyCdm/Handlers.antt =====
-- service.cpp: each procedure over any content decryption module of which `Conforms` holds.
use open_content_decryption.Base.{
  ℕ, ◌≡◌, refl, ap, sym, subst, ◌∙◌, none, some, Option, List, [], ◌∷◌, ◌++◌, ◌-◌, length, Bytes,
  inl, inr, Bool-cases,
}
use open_content_decryption.Base.Int.{ℤ, eqb_ℤ}
use open_content_decryption.Base.Outcome.{ok}
use open_content_decryption.Cdmi.{Cdm}
use open_content_decryption.Cdmi.Contract.{Keeps, Conforms, with_globals}
use open_content_decryption.MediaKeySession.{start_thread}
use open_content_decryption.Service.{find_session}
use open_content_decryption.Service.AnyCdm.{
  rpc_mediakeys_by, update_found, rpc_update_by, release_found, rpc_release_by, start_engine,
  rpc_mediaengine_by,
}
use open_content_decryption.Service.AnyCdm.Table.{
  Table, Serves, Keeps-Table, Keeps-view, globals-Table, stored-Lives, touched-Table, touched-view,
  erased-Serves,
}
use open_content_decryption.Service.Requests.{found_session, touched}
use open_content_decryption.Service.Sessions.{lookup, erase, lookup-touch}
use open_content_decryption.Service.Steps.{Label, quiet, releases, Move, keeps, misses, view}
use open_content_decryption.World.{
  World, M, Ptr, EngineSession, Task, decrypt_shmem, cdmi_success, cdmi_s_false, ◌>>=◌, ◌>>◌, pure,
  modify,
}
use open_content_decryption.World.Bind.{>>=-eq-ok}

module _ (Lives : Bytes → Ptr → World → Type 0) (cdm : Cdm) (Room : World → Type 0)
    (c : Conforms Lives cdm Room) (usable : ℕ → ℕ) where
  quiet-Serves : (w w' : World) → Keeps Lives w w' → Table Lives w → Serves Lives quiet w w'
  quiet-Serves w w' k t = (Keeps-Table Lives w w' k t, keeps refl (Keeps-view Lives w w' k))

  -- The entry that a look at an id makes is invisible.
  after_look :
      (l : Label) (sid : Bytes) (w w1 w' : World) (o : Option Ptr)
      → find_session sid w ≡ ok (o, w1)
      → (o ≡ lookup sid w1.media_key_sessions → Table Lives w1 → Serves Lives l w1 w')
      → Table Lives w
      → Serves Lives l w w'
  after_look l sid w w1 w' o looked serve t =
      let known = found_session sid w in
      let same : touched sid w ≡ w1 = cc in
      let here : o ≡ lookup sid w1.media_key_sessions =
        cc (lookup-touch sid sid w.media_key_sessions, same) in
      let (t', move) =
        serve here (subst (Table Lives) same (touched-Table Lives cdm Room c sid w t)) in
      (
        t',
        subst (λ v. Move l v (view w')) (sym (ap view same) ∙ touched-view Lives cdm Room c sid w)
            move,
      )

  update_found-Serves :
      (key : Bytes) (o : Option Ptr) (w w' : World) (r : ℤ)
      → update_found cdm usable key o w ≡ ok (r, w')
      → Table Lives w
      → Serves Lives quiet w w'
  unfolding update_found
  update_found-Serves key none w w' r h t =
      let same : w ≡ w' = cc in (subst (Table Lives) same t, keeps refl (ap view (sym same)))
  update_found-Serves key (some p) w w' r h t =
      let (_, w1, done, h1) = >>=-eq-ok ((cdm.media_key_session p).update key) (λ _. pure _) w h in
      let same : w1 ≡ w' = cc in
      quiet-Serves w w' (subst (Keeps Lives w) same (c.update_keeps p key w w1 done)) t

  pub update-Serves :
      (sid key : Bytes) (w w' : World) (r : ℤ)
      → rpc_update_by cdm usable sid key w ≡ ok (r, w')
      → Table Lives w
      → Serves Lives quiet w w'
  unfolding rpc_update_by
  update-Serves sid key w w' r h t =
      let (o, w1, looked, h1) = >>=-eq-ok (find_session sid) (update_found cdm usable key) w h in
      after_look quiet sid w w1 w' o looked (λ _ t1. update_found-Serves key o w1 w' r h1 t1) t

  release_found_lem :
      (sid : Bytes) (p : Ptr) (w w' : World) (r : ℤ)
      → lookup sid w.media_key_sessions ≡ some p
      → release_found cdm usable sid (some p) w ≡ ok (r, w')
      → Table Lives w
      → (cdmi_success ≡ r) × Serves Lives (releases sid cdmi_success) w w'
  unfolding release_found
  release_found_lem sid p w w' r found h t =
      let erasing : M (Unit {0}) =
        modify (λ v. record v { media_key_sessions = erase sid v.media_key_sessions }) in
      let ending : M ℤ = cdm.free_object p >> pure cdmi_success in
      let (_, w1, closed, h1) =
        >>=-eq-ok (cdm.media_key_session p).close (λ _. erasing >> ending) w h in
      let k = c.close_keeps p w w1 closed in
      let l1 = k.lives sid p (t.sound sid p found) in
      let w2 : World = record w1 { media_key_sessions = erase sid w1.media_key_sessions } in
      let (_, w3, freed, h3) = >>=-eq-ok (cdm.free_object p) (λ _. pure cdmi_success) w2 h1 in
      let (same, others) =
        c.free_keeps sid p w2 w3
          (stored-Lives Lives cdm Room c (erase sid w1.media_key_sessions) sid p w1 l1) freed in
      let end : w3 ≡ w' = cc in
      let answer : cdmi_success ≡ r = cc in
      (
        answer,
        subst (λ v. Serves Lives (releases sid cdmi_success) w v) end
            (erased-Serves Lives cdm Room c sid p w w1 w3 found l1
              (λ j q other l.
                others j q other
                  (stored-Lives Lives cdm Room c (erase sid w1.media_key_sessions) j q w1 l))
              (same ∙ ap (erase sid) k.sessions) k.lives t),
      )

  release_found-Serves :
      (sid : Bytes) (o : Option Ptr) (w w' : World) (r : ℤ)
      → o ≡ lookup sid w.media_key_sessions
      → release_found cdm usable sid o w ≡ ok (r, w')
      → Table Lives w
      → Serves Lives (releases sid r) w w'
  unfolding release_found
  release_found-Serves sid none w w' r e h t =
      let same : w ≡ w' = cc in
      let answer : cdmi_s_false ≡ r = cc in
      (
        subst (Table Lives) same t,
        misses sid (ap (releases sid) (sym answer)) (sym e) (ap view (sym same)),
      )
  release_found-Serves sid (some p) w w' r e h t =
      let (answer, served) = release_found_lem sid p w w' r (sym e) h t in
      subst (λ a. Serves Lives (releases sid a) w w') answer served

  pub release-Serves :
      (sid : Bytes) (w w' : World) (r : ℤ)
      → rpc_release_by cdm usable sid w ≡ ok (r, w')
      → Table Lives w
      → Serves Lives (releases sid r) w w'
  unfolding rpc_release_by
  release-Serves sid w w' r h t =
      let (o, w1, looked, h1) = >>=-eq-ok (find_session sid) (release_found cdm usable sid) w h in
      after_look (releases sid r) sid w w1 w' o looked
        (λ here t1. release_found-Serves sid o w1 w' r here h1 t1) t

  start_engine-Serves :
      (shmem sem cr : ℤ) (e : EngineSession) (w w' : World) (r : ℤ)
      → start_engine cdm usable shmem sem cr e w ≡ ok (r, w')
      → Table Lives w
      → Serves Lives quiet w w'
  unfolding start_engine start_thread
  start_engine-Serves shmem sem cr e w w' r h t =
      let (engines, threads, same) = writes in
      subst (Serves Lives quiet w) same (
        globals-Table Lives cdm Room c w.pnum w.create_session_cr engines threads w t,
        keeps refl refl,
      )
    where
      writes :
          (engines : List EngineSession) × (threads : List Task) × (with_globals
              w.media_key_sessions w.pnum w.create_session_cr engines threads w
            ≡ w')
      writes = elim (Bool-cases (eqb_ℤ cr cdmi_success)) [
        | inl made ↦ (
          w.media_engine_sessions ++ e ∷ [],
          w.threads
              ++ decrypt_shmem (length (w.media_engine_sessions ++ e ∷ []) - 1) sem shmem ∷ [],
          cc (rw made at h),
        )
        | inr unmade ↦ (w.media_engine_sessions, w.threads, cc (rw unmade at h))
      ]

  pub mediaengine-Serves :
      (sid : Bytes) (shmem sem : ℤ) (w w' : World) (r : ℤ)
      → rpc_mediaengine_by cdm usable sid shmem sem w ≡ ok (r, w')
      → Table Lives w
      → Serves Lives quiet w w'
  unfolding rpc_mediaengine_by
  mediaengine-Serves sid shmem sem w w' r h t =
      let (o, w1, looked, h1) =
        >>=-eq-ok (find_session sid)
          (λ session. cdm.create_media_engine_session session >>= λ (cr, e).
            start_engine cdm usable shmem sem cr e)
          w h in
      let ((cr, e), w2, made, h2) =
        >>=-eq-ok (cdm.create_media_engine_session o)
          (λ (cr, e). start_engine cdm usable shmem sem cr e) w1 h1 in
      let k = c.create_media_engine_session_keeps o w1 w2 cr e made in
      after_look quiet sid w w1 w' o looked
        (λ _ t1.
          let (t', move) =
            start_engine-Serves shmem sem cr e w2 w' r h2 (Keeps-Table Lives w1 w2 k t1) in
          (t', subst (λ v. Move quiet v (view w')) (Keeps-view Lives w1 w2 k) move))
        t

  pub mediakeys-Serves :
      (w w' : World) (r : ℤ)
      → rpc_mediakeys_by cdm usable w ≡ ok (r, w')
      → Table Lives w
      → Serves Lives quiet w w'
  unfolding rpc_mediakeys_by
  mediakeys-Serves w w' r h t = quiet-Serves w w' (c.create_media_keys_keeps w w' r h) t
