-- ===== src/Callbacks.antt =====
-- service.cpp: the class `CCallback` and `doCallback`, which call the browser over RPC.
use open_content_decryption.Base.{ℕ, Bool, [], ◌∷◌, ◌++◌, Bytes, codes, ◌==◌, if◌then◌else◌}
use open_content_decryption.Base.Outcome.{ok, fault, exited, uninitialised}
use open_content_decryption.World.{M, Event, on_message, on_ready, Callback, deref, ◌>>=◌}

-- What a `const char *` shows of a block: the characters before the first NUL.
unfoldable pub before_nul : Bytes → Bytes
before_nul [] = []
before_nul (c ∷ s) = if c == 0 then [] else c ∷ before_nul s

-- `doCallback`: without a connection the process exits. The branch `ON_ERROR` is `do_error`.
unfoldable pub do_callback : (ℕ → Bool) → Event → Bytes → M (Unit {0})
do_callback connects event sid w =
    if connects w.pnum
    then ok (
      tt,
      record w {
        sent = w.sent ++ record { program = w.pnum; session_id = sid; event = event } ∷ [];
      },
    )
    else fault exited

-- The branch `ON_ERROR` of `doCallback` sends `error` and `error_message` without setting them.
unfoldable pub do_error : (ℕ → Bool) → Bytes → M (Unit {0})
do_error connects sid w = if connects w.pnum then fault uninitialised else fault exited

module _ (connects : ℕ → Bool) where
  -- `OnKeyMessage`: the challenge is always empty.
  unfoldable pub on_key_message : Callback → Bytes → M (Unit {0})
  on_key_message cb url = do
    let challenge : Bytes = []
    let message : Bytes = url ++ (codes "#SPLIT#" ++ challenge)
    s ← deref cb.media_key_session
    do_callback connects (on_message (before_nul message) (before_nul message)) s.session_id

  unfoldable pub on_key_ready : Callback → M (Unit {0})
  on_key_ready cb = do s ← deref cb.media_key_session; do_callback connects on_ready s.session_id

  unfoldable pub on_key_error : Callback → M (Unit {0})
  on_key_error cb = do s ← deref cb.media_key_session; do_error connects s.session_id

  unfoldable pub on_key_status_update : Callback → Bytes → M (Unit {0})
  on_key_status_update cb key_message = do
    s ← deref cb.media_key_session
    do_callback connects (Event.on_key_status_update (before_nul key_message)) s.session_id
