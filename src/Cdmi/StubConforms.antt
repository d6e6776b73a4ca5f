-- ===== src/Cdmi/StubConforms.antt =====
-- cdmi-stub: that what the service takes for granted in a module holds of the stub.
use open_content_decryption.Base.{
  ◌≡◌, ◌≢◌, refl, sym, subst, ◌∙◌, Bool, true, false, none, some, Option, [], ◌∷◌, ◌++◌, Bytes,
  length, arith, get_elem?, set, if◌then◌else◌,
}
use open_content_decryption.Base.Int.{ℤ}
use open_content_decryption.Base.Outcome.{Outcome, ok}
use open_content_decryption.Callbacks.{on_key_status_update, do_callback}
use open_content_decryption.Cdmi.Conforming.{
  StubLives, CounterRoom, slot_of, same_objects, one_id_lem, added-Lives, new-Lives, fresh_id,
  deref-eq-ok, written-Keeps, added, written,
}
use open_content_decryption.Cdmi.Contract.{Keeps, Conforms}
use open_content_decryption.Cdmi.Stub.{stub, c_media_key_session, c_media_keys}
use open_content_decryption.Decimal.{decimal}
use open_content_decryption.MediaKeySession.{
  run, update, close, get_session_id, take_keys, report_status, start_thread,
}
use open_content_decryption.MediaKeys.{create_media_keys, create_media_key_session}
use open_content_decryption.Service.Create.{HasRoom, create_lem}
use open_content_decryption.World.{
  World, Ptr, KeySession, Callback, Platform, run_thread_1, deref, free_session, cdmi_success, pure,
  modify, ◌>>◌,
}
use open_content_decryption.World.Bind.{>>=-eq-ok}
use open_content_decryption.World.Slots.{get_elem?-set_ne}

run_written-Keeps :
    (p : Ptr) (cb : Callback) (starts : Bool) (s : KeySession) (w w' : World)
    → get_elem? w.key_sessions p ≡ some (record { content = s; live = true })
    → (modify (λ w. record w {
      key_sessions =
          set w.key_sessions p (record { content = record s { callback = some cb }; live = true });
    })
          >> (if starts then start_thread (run_thread_1 p) else pure tt))
        w
      ≡ ok (tt, w')
    → Keeps StubLives w w'
unfolding start_thread
run_written-Keeps p cb true s w w' here h =
    let end : written p s cb (w.threads ++ run_thread_1 p ∷ []) w ≡ w' = cc in
    subst (Keeps StubLives w) end (written-Keeps p s cb (w.threads ++ run_thread_1 p ∷ []) w here)
run_written-Keeps p cb false s w w' here h =
    let end : written p s cb w.threads w ≡ w' = cc in
    subst (Keeps StubLives w) end (written-Keeps p s cb w.threads w here)

run-Keeps :
    (p : Ptr) (callback : Option Callback) (starts : Bool) (w w' : World)
    → run p callback starts w ≡ ok (tt, w')
    → Keeps StubLives w w'
unfolding run
run-Keeps p none starts w w' h =
    let (s, w1, found, h1) = >>=-eq-ok (deref p) (λ _. pure tt) w h in
    let (_, same) = deref-eq-ok p w w1 s found in
    let end : w ≡ w' = cc in subst (Keeps StubLives w) end (same_objects w w refl refl refl)
run-Keeps p (some cb) starts w w' h =
    let (s, w1, found, h1) =
      >>=-eq-ok (deref p)
        (λ s.
          modify (λ w. record w {
            key_sessions =
                set w.key_sessions p
                  (record { content = record s { callback = some cb }; live = true });
          })
          >> (if starts then start_thread (run_thread_1 p) else pure tt))
        w h in
    let (here, same) = deref-eq-ok p w w1 s found in
    subst (λ v. Keeps StubLives v w') (sym same)
      (run_written-Keeps p cb starts s w1 w'
        (subst (λ v. get_elem? v.key_sessions p ≡ some (record { content = s; live = true })) same
          here)
        h1)

update-Keeps :
    (platform : Platform) (p : Ptr) (response : Bytes) (starts : Bool) (w w' : World)
    → update platform p response starts w ≡ ok (tt, w')
    → Keeps StubLives w w'
unfolding update take_keys report_status on_key_status_update do_callback deref start_thread
update-Keeps platform p response starts w w' h =
    same_objects w w' (ground arith) (ground arith) (ground arith)

create_media_keys-Keeps :
    (w w' : World) (r : ℤ) → create_media_keys w ≡ ok (r, w') → Keeps StubLives w w'
unfolding create_media_keys
create_media_keys-Keeps w w' r h = same_objects w w' (ground arith) (ground arith) (ground arith)

deref_lives :
    (sid : Bytes) (p : Ptr) (w : World) (l : StubLives sid p w)
    → deref p w ≡ ok ((slot_of sid l.callback).content, w)
unfolding deref
deref_lives sid p w l = rw (l.here, deref) refl

close-Keeps : (p : Ptr) (w w' : World) → close p w ≡ ok (tt, w') → Keeps StubLives w w'
unfolding close deref
close-Keeps p w w' h = same_objects w w' (ground arith) (ground arith) (ground arith)

get_session_id_lem :
    (sid : Bytes) (p : Ptr) (w : World) → StubLives sid p w → get_session_id p w ≡ ok (sid, w)
unfolding get_session_id
get_session_id_lem sid p w l = ground (arith, deref_lives sid p w l)

freed_world : (sid : Bytes) (p : Ptr) (w : World) → StubLives sid p w → World
freed_world sid p w l = record w {
  key_sessions = set w.key_sessions p (record (slot_of sid l.callback) { live = false });
}

freed_table :
    (sid : Bytes) (p : Ptr) (w : World) (l : StubLives sid p w)
    → (freed_world sid p w l).media_key_sessions ≡ w.media_key_sessions
unfolding freed_world
freed_table sid p w l = refl

free_lem :
    (sid : Bytes) (p : Ptr) (w : World) (l : StubLives sid p w)
    → free_session p w ≡ ok (tt, freed_world sid p w l)
unfolding free_session freed_world
free_lem sid p w l = ground (arith, l.here)

same_ok : {o : Outcome (Unit {0} × World)} {v w : World} → o ≡ ok (tt, v) → o ≡ ok (tt, w) → v ≡ w
same_ok e e' = cc

other-Lives :
    (sid j : Bytes) (p q : Ptr) (w : World) (l : StubLives sid p w)
    → p ≢ q
    → StubLives j q w
    → StubLives j q (freed_world sid p w l)
unfolding freed_world
other-Lives sid j p q w l other m = record {
  callback = m.callback;
  here = get_elem?-set_ne w.key_sessions p q _ other ∙ m.here;
  number = m.number;
  below = m.below;
  text = m.text;
}

module _ (platform : Platform) (room : HasRoom platform.usable) where
  create_media_key_session-Keeps :
      (cr : ℤ) (p : Ptr) (w w' : World)
      → CounterRoom w
      → create_media_key_session platform.usable w ≡ ok ((cr, p), w')
      → Keeps StubLives w w'
  create_media_key_session-Keeps cr p w w' small h =
      let made = create_lem platform.usable w room (omega arith) in
      let end : added w ≡ w' = cc in
      subst (Keeps StubLives w) end
        (record { sessions = refl; lives = λ sid q l. added-Lives w sid q small l })

  create_lives :
      (p : Ptr) (w w' : World)
      → CounterRoom w
      → create_media_key_session platform.usable w ≡ ok ((cdmi_success, p), w')
      → (sid : Bytes) × StubLives sid p w' × ((q : Ptr) → StubLives sid q w → ⊥)
  create_lives p w w' small h =
      let made = create_lem platform.usable w room (omega arith) in
      let object : length w.key_sessions ≡ p = cc in
      let end : added w ≡ w' = cc in
      (
        decimal w.session_cnt,
        subst (StubLives (decimal w.session_cnt) p) end
            (subst (λ q. StubLives (decimal w.session_cnt) q (added w)) object (new-Lives w small)),
        fresh_id w,
      )

  pub stub-Conforms :
      (starts supported : Bool) (destroyed : ℤ)
      → Conforms StubLives (stub platform starts supported destroyed) CounterRoom
  unfolding stub c_media_key_session c_media_keys create_media_keys
  stub-Conforms starts supported destroyed = record {
    one_id = one_id_lem;
    own = λ sid p sessions pnum cr engines threads w l. record {
      callback = l.callback;
      here = l.here;
      number = l.number;
      below = l.below;
      text = l.text;
    };
    room_own = λ sessions pnum cr engines threads w small. small;
    create_keeps = λ mime_type init_data cdm_data cr p w w' small h.
        create_media_key_session-Keeps cr p w w' small h;
    create_new = λ mime_type init_data cdm_data p w w' small h. create_lives p w w' small h;
    get_session_id_lives = get_session_id_lem;
    run_keeps = λ p callback w w' h. run-Keeps p callback starts w w' h;
    update_keeps = λ p response w w' h. update-Keeps platform p response starts w w' h;
    create_media_keys_keeps = create_media_keys-Keeps;
    create_media_engine_session_keeps =
        λ session w w' cr e h. same_objects w w' (ground arith) (ground arith) (ground arith);
    close_keeps = λ p w w' h. close-Keeps p w w' h;
    free_keeps = λ sid p w w' l h.
        let end : freed_world sid p w l ≡ w' = same_ok (free_lem sid p w l) h in
        subst
          (λ v.
            (v.media_key_sessions ≡ w.media_key_sessions)
            × ((j : Bytes) (q : Ptr) → p ≢ q → StubLives j q w → StubLives j q v))
          end (freed_table sid p w l, λ j q other m. other-Lives sid j p q w l other m);
  }
