-- ===== src/Service/KnownIds.antt =====
-- service.cpp: `g_mediaKeySessions` where requests name open sessions only. An entry with NULL has a key
-- that points into the memory of a request.
use open_content_decryption.Base.{
  ℕ, ◌≡◌, Bool, true, none, some, [], ◌∷◌, ◌++◌, Bytes, equal, arith, subst, sym, refl, ◌∙◌, inl,
  inr, Bool-cases,
}
use open_content_decryption.Base.Int.{ℤ}
use open_content_decryption.Decimal.{decimal}
use open_content_decryption.Service.Create.{
  HasRoom, created, rpc_create_session_lem, rpc_create_session-none,
}
use open_content_decryption.Service.Frames.{
  rpc_update-Leaves, run_thread-Frames, decrypt_round-Frames,
}
use open_content_decryption.Service.Histories.{same_end}
use open_content_decryption.Service.Invariant.{Inv, released}
use open_content_decryption.Service.Refinement.{Reach-Inv, rpc_mediakeys_lem}
use open_content_decryption.Service.Requests.{engine_made, rpc_release_open, rpc_mediaengine_lem}
use open_content_decryption.Service.Sessions.{Sessions, lookup, insert, contains, touch, erase}
use open_content_decryption.Service.Steps.{
  Step, mediakeys, create, update, release, mediaengine, thread, sample, Reach, thread_number,
}
use open_content_decryption.World.{World, Ptr, Platform, initial}

-- No id has an entry with NULL.
abbrev pub NoNulls : Sessions → Type 0
NoNulls [] = Unit {0}
NoNulls ((_, none) ∷ m) = ⊥
NoNulls ((_, some p) ∷ m) = NoNulls m

insert-NoNulls : (k : Bytes) (p : Ptr) (m : Sessions) → NoNulls m → NoNulls (insert k (some p) m)
unfolding insert
insert-NoNulls k p [] h = tt
insert-NoNulls k p ((j, none) ∷ m) h = absurd h
insert-NoNulls k p ((j, some q) ∷ m) h = elim (Bool-cases (equal j k)) [
  | inl same ↦ rw (same, insert) h
  | inr other ↦ rw (other, insert) (insert-NoNulls k p m h)
]

erase-NoNulls : (k : Bytes) (m : Sessions) → NoNulls m → NoNulls (erase k m)
unfolding erase
erase-NoNulls k [] h = tt
erase-NoNulls k ((j, none) ∷ m) h = absurd h
erase-NoNulls k ((j, some q) ∷ m) h = elim (Bool-cases (equal j k)) [
  | inl same ↦ rw (same, erase) h
  | inr other ↦ rw (other, erase) (erase-NoNulls k m h)
]

lookup-contains : (k : Bytes) (p : Ptr) (m : Sessions) → lookup k m ≡ some p → contains k m ≡ true
unfolding lookup contains
lookup-contains k p [] h = cc
lookup-contains k p ((j, v) ∷ m) h = ground (arith, lookup-contains k p m)

touch_known : (k : Bytes) (p : Ptr) (m : Sessions) → lookup k m ≡ some p → touch k m ≡ m
unfolding touch
touch_known k p m h = ground (arith, lookup-contains k p m h)

-- The step names no id, or one that is open.
abbrev pub NamesOpen : {platform : Platform} {w w' : World} → Step platform w w' → Type 0
NamesOpen {platform} {w} {w'} (update sid _ _ _ _) =
    (p : Ptr) × (lookup sid w.media_key_sessions ≡ some p)
NamesOpen {platform} {w} {w'} (release sid _ _) =
    (p : Ptr) × (lookup sid w.media_key_sessions ≡ some p)
NamesOpen {platform} {w} {w'} (mediaengine sid _ _ _ _) =
    (p : Ptr) × (lookup sid w.media_key_sessions ≡ some p)
NamesOpen _ = Unit {0}

-- Histories of such steps.
pub data NamingOpen (platform : Platform) : World → Type 0 where
  start : NamingOpen platform initial
  next :
      {w w' : World}
      → NamingOpen platform w
      → (s : Step platform w w') → NamesOpen s
      → NamingOpen platform w'

abbrev Entries : World → Type 0
Entries w = NoNulls w.media_key_sessions

-- A look at an open id adds no entry.
looked :
    (sid : Bytes) (p : Ptr) (w w' : World)
    → lookup sid w.media_key_sessions ≡ some p
    → w'.media_key_sessions ≡ touch sid w.media_key_sessions
    → Entries w
    → Entries w'
looked sid p w w' found same h =
    subst NoNulls (sym (same ∙ touch_known sid p w.media_key_sessions found)) h

created-NoNulls :
    (prog_num : ℕ) (starts : Bool) (w : World) → Entries w → Entries (created prog_num starts w)
unfolding created
created-NoNulls prog_num starts w h =
    insert-NoNulls (decimal w.session_cnt) _ w.media_key_sessions h

released-NoNulls :
    (sid : Bytes) (p : Ptr) (w : World)
    → lookup sid w.media_key_sessions ≡ some p
    → Entries w
    → Entries (released sid p w)
unfolding released
released-NoNulls sid p w found h =
    erase-NoNulls sid (touch sid w.media_key_sessions)
      (subst NoNulls (sym (touch_known sid p w.media_key_sessions found)) h)

engine_made-NoNulls :
    (sid : Bytes) (shmem sem : ℤ) (p : Ptr) (w : World)
    → lookup sid w.media_key_sessions ≡ some p
    → Entries w
    → Entries (engine_made sid shmem sem w)
unfolding engine_made
engine_made-NoNulls sid shmem sem p w found h =
    looked sid p w (engine_made sid shmem sem w) found refl h

module _ (platform : Platform) (room : HasRoom platform.usable) where
  Step-NoNulls :
      (w w' : World) (s : Step platform w w') → NamesOpen s → Inv w → Entries w → Entries w'
  Step-NoNulls w w' (mediakeys r h) names v e =
      same_end Entries _ w' _ _ r (rpc_mediakeys_lem w) h e
  Step-NoNulls w w' (create starts prog_num r small h) names v e = elim (Bool-cases w.media_keys) [
    | inl made ↦
        same_end Entries _ w' _ _ r
          (rpc_create_session_lem platform.usable starts prog_num w room (omega arith) made) h
          (created-NoNulls prog_num starts w e)
    | inr unmade ↦
        same_end Entries _ w' _ _ r
          (rpc_create_session-none platform.usable starts prog_num w unmade) h e
  ]
  Step-NoNulls w w' (update sid key starts r h) (p, found) v e =
      looked sid p w w' found (rpc_update-Leaves platform sid key starts w w' r h).sessions e
  Step-NoNulls w w' (release sid r h) (p, found) v e =
      same_end Entries _ w' _ _ r (rpc_release_open sid p w v found) h
        (released-NoNulls sid p w found e)
  Step-NoNulls w w' (mediaengine sid shmem sem r h) (p, found) v e =
      same_end Entries _ w' _ _ r (rpc_mediaengine_lem sid shmem sem w) h
        (engine_made-NoNulls sid shmem sem p w found e)
  Step-NoNulls w w' (thread before behind task p split kind h) names v e =
      let u = record w { threads = before ++ behind } in
      subst NoNulls
        (sym (run_thread-Frames platform.connects (thread_number task) p u w' h).sessions) e
  Step-NoNulls w w' (sample idx x r h) names v e =
      subst NoNulls (sym (decrypt_round-Frames platform idx x w w' r h).sessions) e

  NamingOpen-Reach : {w : World} → NamingOpen platform w → Reach platform w
  NamingOpen-Reach start = Reach.start
  NamingOpen-Reach (next history s names) = Reach.next (NamingOpen-Reach history) s

  -- With an allocator that leaves room, after any history of requests, threads and samples in which updates,
  -- releases and requests for engine sessions name only ids that are open, `g_mediaKeySessions` has no entry
  -- with NULL.
  pub NamingOpen-NoNulls : {w : World} → NamingOpen platform w → NoNulls w.media_key_sessions
  NamingOpen-NoNulls start = tt
  NamingOpen-NoNulls (next {w} {w'} history s names) =
      Step-NoNulls w w' s names (Reach-Inv platform room (NamingOpen-Reach history))
        (NamingOpen-NoNulls history)
