-- ===== src/Service/Refinement.antt =====
-- service.cpp: every request and every thread keeps the invariant, and moves the view of the open
-- sessions as the procedures promise.
use mathlib.Core.Path.{fun_ext}
use open_content_decryption.Base.{
  ℕ, ◌+◌, ◌^◌, ◌<◌, ◌≡◌, refl, ap, sym, subst, ◌∙◌, Bool, none, some, ◌++◌, Bytes, length, arith,
  equal, if◌then◌else◌, inl, inr, Option-cases, Bool-cases,
}
use open_content_decryption.Base.Int.{ℤ}
use open_content_decryption.Base.Outcome.{Outcome, ok}
use open_content_decryption.Decimal.{decimal}
use open_content_decryption.World.{World, Ptr, Platform, cdmi_success}
use open_content_decryption.MediaKeys.{create_media_keys, keys_made}
use open_content_decryption.Service.{CreateResponse, rpc_mediakeys, rpc_create_session, rpc_release}
use open_content_decryption.Service.Create.{
  HasRoom, created, rpc_create_session_lem, rpc_create_session-none,
}
use open_content_decryption.Service.Frames.{
  Frames, rpc_update-Leaves, run_thread-Frames, decrypt_round-Frames,
}
use open_content_decryption.Service.Invariant.{
  Inv, Leaves, Leaves-Inv, initial-Inv, created-Inv, released, released-Inv, fresh,
}
use open_content_decryption.Service.Requests.{
  touched, engine_made, rpc_release_open, rpc_release_missing, rpc_mediaengine_lem,
}
use open_content_decryption.Service.Sessions.{
  lookup, touch, lookup-touch, lookup-insert, lookup-erase, touch-IsMap,
}
use open_content_decryption.Service.Steps.{
  Step, mediakeys, create, update, release, mediaengine, thread, sample, Reach, start, next, view,
  Label, quiet, creates, releases, label, Move, keeps, declines, opens, misses, closes,
  thread_number,
}

-- One run of an action has one outcome.
one_outcome :
    {A : Type 0} (o : Outcome (A × World)) (a b : A) (w w' : World)
    → o ≡ ok (a, w)
    → o ≡ ok (b, w')
    → (a ≡ b) × (w ≡ w')
one_outcome o a b w w' h h' = (cc, cc)

pub Frames-Inv : (w w' : World) → Frames w w' → Inv w → Inv w'
Frames-Inv w w' f v = record {
  is_map = rw f.sessions v.is_map;
  sound = λ j p h. rw f.objects (v.sound j p (rw f.sessions at h));
  issued = λ j p h. rw f.counter (v.issued j p (rw f.sessions at h));
  no_keys = λ h. f.answer ∙ v.no_keys (sym f.factory ∙ h);
}

pub Frames-view : (w w' : World) → Frames w w' → view w' ≡ view w
Frames-view w w' f = ap (λ m j. lookup j m) f.sessions

Leaves-view : (sid : Bytes) (w w' : World) → Leaves sid w w' → view w' ≡ view w
Leaves-view sid w w' l =
    fun_ext λ j. ap (lookup j) l.sessions ∙ lookup-touch sid j w.media_key_sessions

touched-Leaves : (sid : Bytes) (w : World) → Leaves sid w (touched sid w)
touched-Leaves sid w = record {
  objects = refl;
  sessions = refl;
  counter = refl;
  factory = refl;
  answer = refl;
}

engine_made-Leaves :
    (sid : Bytes) (shmem sem : ℤ) (w : World) → Leaves sid w (engine_made sid shmem sem w)
unfolding engine_made
engine_made-Leaves sid shmem sem w = record {
  objects = refl;
  sessions = refl;
  counter = refl;
  factory = refl;
  answer = refl;
}

created-Move :
    (prog_num : ℕ) (starts : Bool) (w : World)
    → Inv w
    → Move (creates (some (decimal w.session_cnt))) (view w) (view (created prog_num starts w))
unfolding created
created-Move prog_num starts w v =
    opens (decimal w.session_cnt) (length w.key_sessions) refl (fresh w v)
      (fun_ext λ j. lookup-insert (decimal w.session_cnt) j _ w.media_key_sessions)

released-Move :
    (sid : Bytes) (p : Ptr) (w : World)
    → lookup sid w.media_key_sessions ≡ some p
    → Inv w
    → Move (releases sid cdmi_success) (view w) (view (released sid p w))
unfolding released
released-Move sid p w h v = closes sid p refl h (
    fun_ext λ j.
      lookup-erase sid j (touch sid w.media_key_sessions)
        (touch-IsMap sid w.media_key_sessions v.is_map)
      ∙ ap (λ o. if equal sid j then none else o) (lookup-touch sid j w.media_key_sessions))

pub rpc_mediakeys_lem : (w : World) → rpc_mediakeys w ≡ ok (cdmi_success, keys_made w)
unfolding rpc_mediakeys create_media_keys
rpc_mediakeys_lem w = refl

-- What a step keeps and how it moves the view.
abbrev pub Good : Label → World → World → Type 0
Good l w w' = Inv w' × Move l (view w) (view w')

-- A handler whose outcome is known is good if that outcome is.
outcome-Good :
    {A : Type 0} (name : A → Label) (w w1 w' : World) (o : Outcome (A × World)) (a r : A)
    → o ≡ ok (a, w1)
    → o ≡ ok (r, w')
    → Good (name a) w w1
    → Good (name r) w w'
outcome-Good name w w1 w' o a r h h' g =
    let (same, e) = one_outcome o a r w1 w' h h' in
    subst (Good (name r) w) e (subst (λ x. Good (name x) w w1) same g)

module _ (platform : Platform) (room : HasRoom platform.usable) where
  Leaves-Good : (sid : Bytes) (w w' : World) → Leaves sid w w' → Inv w → Good quiet w w'
  Leaves-Good sid w w' l v = (Leaves-Inv sid w w' l v, keeps refl (Leaves-view sid w w' l))

  Frames-Good : (w w' : World) → Frames w w' → Inv w → Good quiet w w'
  Frames-Good w w' f v = (Frames-Inv w w' f v, keeps refl (Frames-view w w' f))

  mediakeys-Good : (w w' : World) (r : ℤ) → rpc_mediakeys w ≡ ok (r, w') → Inv w → Good quiet w w'
  mediakeys-Good w w' r h v =
      outcome-Good (λ _. quiet) w _ w' _ _ r (rpc_mediakeys_lem w) h
        (
          record { is_map = v.is_map; sound = v.sound; issued = v.issued; no_keys = λ e. cc },
          keeps refl refl,
        )

  create-Good :
      (starts : Bool) (prog_num : ℕ) (w w' : World) (r : CreateResponse)
      → w.session_cnt + 1 < 2 ^ 32
      → rpc_create_session platform.usable starts prog_num w ≡ ok (r, w')
      → Inv w
      → Good (creates r.session_id) w w'
  create-Good starts prog_num w w' r small h v = elim (Bool-cases w.media_keys) [
    | inl made ↦
        outcome-Good (λ x. creates x.session_id) w _ w' _ _ r
          (rpc_create_session_lem platform.usable starts prog_num w room (omega arith) made) h
          (created-Inv prog_num starts w small made v, created-Move prog_num starts w v)
    | inr unmade ↦
        outcome-Good (λ x. creates x.session_id) w _ w' _ _ r
          (rpc_create_session-none platform.usable starts prog_num w unmade) h
          (
            record { is_map = v.is_map; sound = v.sound; issued = v.issued; no_keys = v.no_keys },
            declines refl refl,
          )
  ]

  release-Good :
      (sid : Bytes) (w w' : World) (r : ℤ)
      → rpc_release sid w ≡ ok (r, w')
      → Inv w
      → Good (releases sid r) w w'
  release-Good sid w w' r h v = elim (Option-cases (lookup sid w.media_key_sessions)) [
    | inl missing ↦ outcome-Good (releases sid) w _ w' _ _ r (rpc_release_missing sid w missing) h (
      Leaves-Inv sid w (touched sid w) (touched-Leaves sid w) v,
      misses sid refl missing (Leaves-view sid w (touched sid w) (touched-Leaves sid w)),
    )
    | inr (p, found) ↦
        outcome-Good (releases sid) w _ w' _ _ r (rpc_release_open sid p w v found) h
          (released-Inv sid p w found v, released-Move sid p w found v)
  ]

  pub Step-Good : (w w' : World) (s : Step platform w w') → Inv w → Good (label s) w w'
  Step-Good w w' (mediakeys r h) v = mediakeys-Good w w' r h v
  Step-Good w w' (create starts prog_num r small h) v = create-Good starts prog_num w w' r small h v
  Step-Good w w' (update sid key starts r h) v =
      Leaves-Good sid w w' (rpc_update-Leaves platform sid key starts w w' r h) v
  Step-Good w w' (release sid r h) v = release-Good sid w w' r h v
  Step-Good w w' (mediaengine sid shmem sem r h) v =
      outcome-Good (λ _. quiet) w _ w' _ _ r (rpc_mediaengine_lem sid shmem sem w) h
        (Leaves-Good sid w (engine_made sid shmem sem w) (engine_made-Leaves sid shmem sem w) v)
  Step-Good w w' (thread before behind task p split kind h) v =
      let u = record w { threads = before ++ behind } in
      Frames-Good u w' (run_thread-Frames platform.connects (thread_number task) p u w' h)
        (record { is_map = v.is_map; sound = v.sound; issued = v.issued; no_keys = v.no_keys })
  Step-Good w w' (sample idx x r h) v =
      Frames-Good w w' (decrypt_round-Frames platform idx x w w' r h) v

  -- With an allocator that leaves room, after any history of requests, threads and samples, each id
  -- has one entry, what is open under an id is a living session object of that id with a callback
  -- to itself, its id is the text of a number below the counter, and the answer kept for creating a
  -- session is `CDMi_S_FALSE` while there is no `CMediaKeys`.
  pub Reach-Inv : {w : World} → Reach platform w → Inv w
  Reach-Inv start = initial-Inv
  Reach-Inv (next {w} {w'} r s) = (Step-Good w w' s (Reach-Inv r)).0

  -- With an allocator that leaves room, after any history of requests, threads and samples, each
  -- further step moves the view of the open sessions as its label promises: an id handed out was
  -- not open and is open then, a release with success closes an id that was open, one with
  -- `CDMi_S_FALSE` finds no session, and nothing else changes the view.
  pub Step-Move :
      {w w' : World}
      → Reach platform w
      → (s : Step platform w w') → Move (label s) (view w) (view w')
  Step-Move {w} {w'} r s = (Step-Good w w' s (Reach-Inv r)).1
