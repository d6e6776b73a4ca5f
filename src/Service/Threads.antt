-- ===== src/Service/Threads.antt =====
-- service.cpp: the detached threads that wait, and the sessions and engine sessions they were started for.
use open_content_decryption.Base.{
  ℕ, ◌<◌, ◌≤◌, ◌≡◌, ◌⊎◌, refl, ap, Bool, false, some, List, [], ◌∷◌, ◌++◌, Bytes, length,
  length-append, All, All-append, arith, get_elem?-lt, inl, inr, Option-cases, Bool-cases,
}
use open_content_decryption.Base.Int.{ℤ}
use open_content_decryption.Base.Outcome.{ok}
use open_content_decryption.World.{
  World, Ptr, Platform, EngineSession, Task, run_thread_1, run_thread_2, decrypt_shmem, deref,
  initial,
}
use open_content_decryption.World.Slots.{length-set}
use open_content_decryption.Callbacks.{on_key_status_update, do_callback}
use open_content_decryption.MediaKeySession.{
  take_keys, report_status, run_thread, decrypt, decrypt_first, decrypt_with, release_clear_content,
  Decrypted,
}
use open_content_decryption.MediaKeySession
use open_content_decryption.Decimal.{decimal}
use open_content_decryption.Service.{rpc_update}
use open_content_decryption.Service.Create.{created, session_of}
use open_content_decryption.Service.Frames.{Frames, rpc_update-Leaves}
use open_content_decryption.Service.Invariant.{Inv, released}
use open_content_decryption.Service.Requests.{engine_made}
use open_content_decryption.Service.Sessions.{lookup, lookup-touch}

-- What a waiting thread was started for is there.
abbrev pub IsBacked : ℕ → ℕ → Task → Type 0
IsBacked objects engines (run_thread_1 p) = p < objects
IsBacked objects engines (run_thread_2 p) = p < objects
IsBacked objects engines (decrypt_shmem idx _ _) = idx < engines

abbrev pub IsOwned : ℕ → EngineSession → Type 0
IsOwned objects e = (p : Ptr) → e.media_key_session ≡ some p → p < objects

pub record Backed (w : World) : Type 0 where
  pub tasks : All (IsBacked (length w.key_sessions) (length w.media_engine_sessions)) w.threads
  pub engines : All (IsOwned (length w.key_sessions)) w.media_engine_sessions

pub initial-Backed : Backed initial
initial-Backed = record { tasks = tt; engines = tt }

-- A change of anything else, the contents of objects among it.
pub record Keeps (w w' : World) : Type 0 where
  pub objects : length w'.key_sessions ≡ length w.key_sessions
  pub engines : w'.media_engine_sessions ≡ w.media_engine_sessions
  pub threads : w'.threads ≡ w.threads

pub Keeps-Backed : (w w' : World) → Keeps w w' → Backed w → Backed w'
Keeps-Backed w w' k b = record {
  tasks = rw (k.objects, k.engines, k.threads) b.tasks;
  engines = rw (k.objects, k.engines) b.engines;
}

-- More objects and engine sessions back what was backed.
IsBacked-mono : (o o' e e' : ℕ) (t : Task) → o ≤ o' → e ≤ e' → IsBacked o e t → IsBacked o' e' t
IsBacked-mono o o' e e' (run_thread_1 p) ho he h = omega arith
IsBacked-mono o o' e e' (run_thread_2 p) ho he h = omega arith
IsBacked-mono o o' e e' (decrypt_shmem i s m) ho he h = omega arith

pub tasks_mono :
    (o o' e e' : ℕ) (ts : List Task)
    → o ≤ o'
    → e ≤ e'
    → All (IsBacked o e) ts
    → All (IsBacked o' e') ts
tasks_mono o o' e e' [] ho he h = tt
tasks_mono o o' e e' (t ∷ ts) ho he (h, hs) =
    (IsBacked-mono o o' e e' t ho he h, tasks_mono o o' e e' ts ho he hs)

pub engines_mono :
    (o o' : ℕ) (es : List EngineSession) → o ≤ o' → All (IsOwned o) es → All (IsOwned o') es
engines_mono o o' [] ho h = tt
engines_mono o o' (e ∷ es) ho (h, hs) =
    ((λ p q. let below = h p q in omega arith), engines_mono o o' es ho hs)

pub rpc_update-threads :
    (platform : Platform) (sid key : Bytes) (starts : Bool) (w w' : World) (r : ℤ)
    → rpc_update platform sid key starts w ≡ ok (r, w')
    → (w'.threads ≡ w.threads)
      ⊎ ((p : Ptr) × (lookup sid w.media_key_sessions ≡ some p)
          × (w'.threads ≡ w.threads ++ run_thread_2 p ∷ []))
unfolding rpc_update MediaKeySession.update take_keys report_status on_key_status_update do_callback
    deref
rpc_update-threads platform sid key starts w w' r h =
    elim (Option-cases (lookup sid w.media_key_sessions)) [
      | inl missing ↦ inl (ground (arith, lookup-touch sid sid w.media_key_sessions))
      | inr (p, found) ↦ elim (Bool-cases starts) [
        | inl yes_starts ↦ inr (p, found, ground (arith, lookup-touch sid sid w.media_key_sessions))
        | inr no_start ↦ inl (ground (arith, lookup-touch sid sid w.media_key_sessions))
      ]
    ]

pub rpc_update-engines :
    (platform : Platform) (sid key : Bytes) (starts : Bool) (w w' : World) (r : ℤ)
    → rpc_update platform sid key starts w ≡ ok (r, w')
    → w'.media_engine_sessions ≡ w.media_engine_sessions
unfolding rpc_update MediaKeySession.update take_keys report_status on_key_status_update do_callback
    deref
rpc_update-engines platform sid key starts w w' r h = ground arith

pub Frames-Keeps : (w w' : World) → Frames w w' → Keeps w w'
Frames-Keeps w w' f = record {
  objects = ap length f.objects;
  engines = f.engines;
  threads = f.threads;
}

pub created-Backed :
    (prog_num : ℕ) (starts : Bool) (w : World) → Backed w → Backed (created prog_num starts w)
unfolding created
created-Backed prog_num starts w b =
    let more =
      length-append w.key_sessions
        (session_of (decimal w.session_cnt) (length w.key_sessions) ∷ []) in
    let old =
      tasks_mono (length w.key_sessions) (length (created prog_num starts w).key_sessions)
        (length w.media_engine_sessions) (length w.media_engine_sessions) w.threads
        (omega (arith, more)) (omega arith) b.tasks in
    record {
      tasks = elim (Bool-cases starts) [
        | inl yes_starts ↦ rw yes_starts (
            All-append _ w.threads (run_thread_1 (length w.key_sessions) ∷ []) old
              (omega (arith, more), tt))
        | inr no_start ↦ rw no_start old
      ];
      engines = engines_mono _ _ w.media_engine_sessions (omega (arith, more)) b.engines;
    }

pub released-Backed : (sid : Bytes) (p : Ptr) (w : World) → Backed w → Backed (released sid p w)
unfolding released
released-Backed sid p w b =
    Keeps-Backed w (released sid p w)
      (record {
        objects = length-set w.key_sessions p (record (session_of sid p) { live = false });
        engines = refl;
        threads = refl;
      })
      b

pub engine_made-Backed :
    (sid : Bytes) (shmem sem : ℤ) (w : World)
    → Inv w
    → Backed w
    → Backed (engine_made sid shmem sem w)
unfolding engine_made
engine_made-Backed sid shmem sem w v b =
    let e : EngineSession = record { media_key_session = lookup sid w.media_key_sessions } in
    let more = length-append w.media_engine_sessions (e ∷ []) in
    record {
      tasks =
          All-append _ w.threads (decrypt_shmem (length w.media_engine_sessions) sem shmem ∷ [])
            (tasks_mono _ _ _ _ w.threads (omega arith) (omega (arith, more)) b.tasks)
            (omega (arith, more), tt);
      engines =
          All-append _ w.media_engine_sessions (e ∷ []) b.engines
            ((λ p h. get_elem?-lt w.key_sessions p (v.sound sid p h)), tt);
    }

pub update-Backed :
    (platform : Platform) (sid key : Bytes) (starts : Bool) (w w' : World) (r : ℤ)
    → rpc_update platform sid key starts w ≡ ok (r, w')
    → Inv w
    → Backed w
    → Backed w'
update-Backed platform sid key starts w w' r h v b =
    let l = rpc_update-Leaves platform sid key starts w w' r h in
    let engines = rpc_update-engines platform sid key starts w w' r h in
    elim (rpc_update-threads platform sid key starts w w' r h) [
      | inl same ↦
          Keeps-Backed w w'
            (record { objects = ap length l.objects; engines = engines; threads = same }) b
      | inr (p, found, more) ↦ record {
        tasks =
            rw (l.objects, engines, more)
              (All-append _ w.threads (run_thread_2 p ∷ []) b.tasks
                (get_elem?-lt w.key_sessions p (v.sound sid p found), tt));
        engines = rw (l.objects, engines) b.engines;
      }
    ]
