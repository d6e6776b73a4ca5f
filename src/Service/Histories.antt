-- ===== src/Service/Histories.antt =====
-- service.cpp: induction over the histories of requests, threads and samples. A property that every
-- known outcome keeps holds after each of them.
use open_content_decryption.Base.{
  ℕ, ◌≡◌, Bool, some, List, ◌∷◌, ◌++◌, Bytes, refl, subst, arith, inl, inr, Option-cases,
  Bool-cases,
}
use open_content_decryption.Base.Int.{ℤ}
use open_content_decryption.Base.Outcome.{Outcome, ok}
use open_content_decryption.World.{World, Ptr, Platform, Task, initial}
use open_content_decryption.MediaKeySession.{run_thread}
use open_content_decryption.SampleLoop.{Exchange, Round, decrypt_round}
use open_content_decryption.MediaKeys.{keys_made}
use open_content_decryption.Service.{rpc_update}
use open_content_decryption.Service.Create.{
  HasRoom, created, rpc_create_session_lem, rpc_create_session-none,
}
use open_content_decryption.Service.Invariant.{Inv, released}
use open_content_decryption.Service.Refinement.{Reach-Inv, rpc_mediakeys_lem}
use open_content_decryption.Service.Requests.{
  touched, engine_made, rpc_release_open, rpc_release_missing, rpc_mediaengine_lem,
}
use open_content_decryption.Service.Sessions.{lookup}
use open_content_decryption.Service.Steps.{
  Step, mediakeys, create, update, release, mediaengine, thread, sample, Reach, start, next,
  thread_number,
}

-- What a request or a thread keeps, outcome by outcome.
pub record ByRequests (platform : Platform) (P : World → Type 0) : Type 0 where
  pub by_mediakeys : (w : World) → P w → P (keys_made w)
  pub by_create :
      (prog_num : ℕ) (starts : Bool) (w : World) → Inv w → P w → P (created prog_num starts w)
  pub by_refusal : (prog_num : ℕ) (w : World) → P w → P (record w { pnum = prog_num })
  pub by_update :
      (sid key : Bytes) (starts : Bool) (w w' : World) (r : ℤ)
      → rpc_update platform sid key starts w ≡ ok (r, w')
      → Inv w
      → P w
      → P w'
  pub by_release :
      (sid : Bytes) (p : Ptr) (w : World)
      → lookup sid w.media_key_sessions ≡ some p
      → Inv w
      → P w
      → P (released sid p w)
  pub by_miss : (sid : Bytes) (w : World) → P w → P (touched sid w)
  pub by_mediaengine :
      (sid : Bytes) (shmem sem : ℤ) (w : World) → Inv w → P w → P (engine_made sid shmem sem w)
  pub by_thread :
      (before behind : List Task) (task : Task) (p : Ptr) (w w' : World)
      → w.threads ≡ before ++ task ∷ behind
      → run_thread platform.connects
          (thread_number task)
          p
          (record w { threads = before ++ behind })
        ≡ ok (tt, w')
      → P w
      → P w'

-- And what everything that can happen keeps, from the start of the process on.
pub record Kept (platform : Platform) (P : World → Type 0) : Type 0 where
  pub at_start : P initial
  pub by_request : ByRequests platform P
  pub by_sample :
      (idx : ℕ) (x : Exchange) (r : Round) (w w' : World)
      → decrypt_round platform idx x w ≡ ok (r, w')
      → P w
      → P w'

pub same_end :
    {A : Type 0} (P : World → Type 0) (w1 w' : World) (o : Outcome (A × World)) (a r : A)
    → o ≡ ok (a, w1)
    → o ≡ ok (r, w')
    → P w1
    → P w'
same_end P w1 w' o a r h h' p = let e : w1 ≡ w' = cc in subst P e p

-- Anything but a sample.
abbrev pub IsRequest : {platform : Platform} {w w' : World} → Step platform w w' → Type 0
IsRequest (sample _ _ _ _) = ⊥
IsRequest _ = Unit {0}

module _ (platform : Platform) (room : HasRoom platform.usable) (P : World → Type 0) where
  pub Step-Kept_by :
      (w w' : World) (s : Step platform w w')
      → ByRequests platform P
      → ((idx : ℕ) (x : Exchange) (r : Round) (h : decrypt_round platform idx x w ≡ ok (r, w'))
          → s ≡ sample idx x r h
          → P w')
      → Inv w
      → P w
      → P w'
  Step-Kept_by w w' (mediakeys r h) k on_sample v p =
      same_end P _ w' _ _ r (rpc_mediakeys_lem w) h (k.by_mediakeys w p)
  Step-Kept_by w w' (create starts prog_num r small h) k on_sample v p =
      elim (Bool-cases w.media_keys) [
        | inl made ↦
            same_end P _ w' _ _ r
              (rpc_create_session_lem platform.usable starts prog_num w room (omega arith) made) h
              (k.by_create prog_num starts w v p)
        | inr unmade ↦
            same_end P _ w' _ _ r (rpc_create_session-none platform.usable starts prog_num w unmade)
              h (k.by_refusal prog_num w p)
      ]
  Step-Kept_by w w' (update sid key starts r h) k on_sample v p =
      k.by_update sid key starts w w' r h v p
  Step-Kept_by w w' (release sid r h) k on_sample v p =
      elim (Option-cases (lookup sid w.media_key_sessions)) [
        | inl missing ↦
            same_end P _ w' _ _ r (rpc_release_missing sid w missing) h (k.by_miss sid w p)
        | inr (q, found) ↦
            same_end P _ w' _ _ r (rpc_release_open sid q w v found) h
              (k.by_release sid q w found v p)
      ]
  Step-Kept_by w w' (mediaengine sid shmem sem r h) k on_sample v p =
      same_end P _ w' _ _ r (rpc_mediaengine_lem sid shmem sem w) h
        (k.by_mediaengine sid shmem sem w v p)
  Step-Kept_by w w' (thread before behind task q split kind h) k on_sample v p =
      k.by_thread before behind task q w w' split h p
  Step-Kept_by w w' (sample idx x r h) k on_sample v p = on_sample idx x r h refl

  pub Request-Kept :
      (w w' : World) (s : Step platform w w')
      → IsRequest s
      → ByRequests platform P
      → Inv w
      → P w
      → P w'
  Request-Kept w w' s request k v p =
      Step-Kept_by w w' s k (λ idx x r h e. absurd (subst IsRequest e request)) v p

  Step-Kept : (w w' : World) → Step platform w w' → Kept platform P → Inv w → P w → P w'
  Step-Kept w w' s k v p =
      Step-Kept_by w w' s k.by_request (λ idx x r h _. k.by_sample idx x r w w' h p) v p

module _ (platform : Platform) (room : HasRoom platform.usable) (P : World → Type 0)
    (k : Kept platform P) where
  -- A property that every outcome keeps holds after any history.
  pub Reach-Kept : {w : World} → Reach platform w → P w
  Reach-Kept start = k.at_start
  Reach-Kept (next {w} {w'} r s) =
      Step-Kept platform room P w w' s k (Reach-Inv platform room r) (Reach-Kept r)
