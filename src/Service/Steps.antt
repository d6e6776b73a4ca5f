-- ===== src/Service/Steps.antt =====
-- service.cpp and cdmi-stub: requests and threads in any order. Requests come one at a time
-- (`svc_run`), and a thread runs between two of them.
use open_content_decryption.Base.{
  ℕ, ◌+◌, ◌^◌, ◌<◌, ◌≡◌, ◌⊎◌, Bool, Option, none, some, List, ◌∷◌, ◌++◌, Bytes, equal,
  if◌then◌else◌,
}
use open_content_decryption.Base.Int.{ℤ}
use open_content_decryption.Base.Outcome.{ok}
use open_content_decryption.World.{
  World, Ptr, Task, run_thread_1, run_thread_2, Platform, cdmi_success, cdmi_s_false, initial,
}
use open_content_decryption.MediaKeySession.{run_thread}
use open_content_decryption.SampleLoop.{Exchange, Round, decrypt_round}
use open_content_decryption.Service.{
  CreateResponse, rpc_update, rpc_release, rpc_mediaengine, rpc_mediakeys, rpc_create_session,
}
use open_content_decryption.Service.Sessions.{lookup}

abbrev pub thread_number : Task → ℕ
thread_number (run_thread_1 _) = 1
thread_number _ = 2

-- What can happen next. Fewer than 2 ^ 32 - 10 sessions are created in all, so that the counter does
-- not come round.
pub data Step (platform : Platform) (w w' : World) : Type 0 where
  mediakeys : (r : ℤ) → rpc_mediakeys w ≡ ok (r, w') → Step platform w w'
  create :
      (starts : Bool) (prog_num : ℕ) (r : CreateResponse)
      → w.session_cnt + 1 < 2 ^ 32
      → rpc_create_session platform.usable starts prog_num w ≡ ok (r, w')
      → Step platform w w'
  update :
      (sid key : Bytes) (starts : Bool) (r : ℤ)
      → rpc_update platform sid key starts w ≡ ok (r, w')
      → Step platform w w'
  release : (sid : Bytes) (r : ℤ) → rpc_release sid w ≡ ok (r, w') → Step platform w w'
  mediaengine :
      (sid : Bytes) (shmem sem r : ℤ)
      → rpc_mediaengine sid shmem sem w ≡ ok (r, w')
      → Step platform w w'
  thread :
      (before behind : List Task) (task : Task) (p : Ptr)
      → w.threads ≡ before ++ task ∷ behind
      → (task ≡ run_thread_1 p) ⊎ (task ≡ run_thread_2 p)
      → run_thread platform.connects
          (thread_number task)
          p
          (record w { threads = before ++ behind })
        ≡ ok (tt, w')
      → Step platform w w'
  sample :
      (idx : ℕ) (x : Exchange) (r : Round)
      → decrypt_round platform idx x w ≡ ok (r, w')
      → Step platform w w'

pub data Reach (platform : Platform) : World → Type 0 where
  start : Reach platform initial
  next : {w w' : World} → Reach platform w → Step platform w w' → Reach platform w'

-- The open sessions: the object under each id. NULL entries are as good as none.
abbrev pub View : Type 0
View = Bytes → Option Ptr

abbrev pub view : World → View
view w sid = lookup sid w.media_key_sessions

-- What a client sees of a step: the id it is given, or the id it gives up and the answer.
pub data Label : Type 0 where
  quiet : Label
  creates : Option Bytes → Label
  releases : Bytes → ℤ → Label

abbrev pub label : {platform : Platform} {w w' : World} → Step platform w w' → Label
label (create _ _ r _ _) = creates r.session_id
label (release sid r _) = releases sid r
label _ = quiet

-- What the procedures promise: an id that is handed out was not open and is open then, an id that is
-- released was open and is closed, and nothing else opens or closes a session.
pub data Move (l : Label) (v v' : View) : Type 0 where
  keeps : l ≡ quiet → v' ≡ v → Move l v v'
  declines : l ≡ creates none → v' ≡ v → Move l v v'
  opens :
      (sid : Bytes) (p : Ptr)
      → l ≡ creates (some sid)
      → v sid ≡ none
      → v' ≡ (λ j. if equal sid j then some p else v j)
      → Move l v v'
  misses : (sid : Bytes) → l ≡ releases sid cdmi_s_false → v sid ≡ none → v' ≡ v → Move l v v'
  closes :
      (sid : Bytes) (p : Ptr)
      → l ≡ releases sid cdmi_success
      → v sid ≡ some p
      → v' ≡ (λ j. if equal sid j then none else v j)
      → Move l v v'
