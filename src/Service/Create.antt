-- ===== src/Service/Create.antt =====
-- service.cpp: `rpc_open_cdm_mediakeys_create_session_1_svc` as one change of the state.
use open_content_decryption.Base.{
  ℕ, ◌+◌, ◌%◌, ◌^◌, ◌≤◌, ◌<◌, ◌≡◌, refl, Bool, true, false, none, some, List, [], ◌∷◌, ◌++◌, Bytes,
  length, arith, get_elem?, set, if◌then◌else◌,
}
use open_content_decryption.Base.Outcome.{ok}
use open_content_decryption.Decimal.{decimal, length-decimal}
use open_content_decryption.World.{
  World, Ptr, KeySession, Callback, Slot, run_thread_1, deref, cdmi_success, copy_text,
}
use open_content_decryption.World.Slots.{get_elem?-append_last, set-append_last}
use open_content_decryption.MediaKeySession.{run, get_session_id}
use open_content_decryption.MediaKeys.{create_media_key_session}
use open_content_decryption.Service.{rpc_create_session, make_session, register_session}
use open_content_decryption.Service.Sessions.{insert}

-- The allocator gives a byte more than asked for, for the texts of numbers at least.
abbrev pub HasRoom : (ℕ → ℕ) → Type 0
HasRoom usable = (n : ℕ) → n ≤ 10 → n + 1 ≤ usable n

abbrev pub callback_of : Ptr → Callback
callback_of p = record { media_key_session = p }

-- A key session behind its pointer, once it runs.
abbrev pub session_of : Bytes → Ptr → Slot KeySession
session_of sid p = record {
  content = record { session_id = sid; callback = some (callback_of p) };
  live = true;
}

-- The state after a session was created for a client program.
unfoldable pub created : ℕ → Bool → World → World
created prog_num starts w =
    let sid = decimal w.session_cnt in
    let p = length w.key_sessions in
    record w {
      pnum = prog_num;
      session_cnt = (w.session_cnt + 1) % 2 ^ 32;
      key_sessions = w.key_sessions ++ session_of sid p ∷ [];
      create_session_cr = cdmi_success;
      media_key_sessions = insert sid (some p) w.media_key_sessions;
      threads = if starts then w.threads ++ run_thread_1 p ∷ [] else w.threads;
    }

copy_text_lem :
    (usable : ℕ → ℕ) (s : Bytes) (w : World)
    → HasRoom usable
    → length s ≤ 10
    → copy_text usable s w ≡ ok (s, w)
unfolding copy_text
copy_text_lem usable s w room short = ground (arith, room (length s) short)

abbrev pub new_slot : Bytes → Slot KeySession
new_slot sid = record { content = record { session_id = sid; callback = none }; live = true }

deref_last :
    (w : World) (xs : List (Slot KeySession)) (s : KeySession)
    → w.key_sessions ≡ xs ++ record { content = s; live = true } ∷ []
    → deref (length xs) w ≡ ok (s, w)
unfolding deref
deref_last w xs s h =
    let found : get_elem? w.key_sessions (length xs) ≡ some (record { content = s; live = true }) =
      rw h (get_elem?-append_last xs _) in
    rw (found, deref) refl

pub create_lem :
    (usable : ℕ → ℕ) (w : World)
    → HasRoom usable
    → w.session_cnt < 2 ^ 32
    → create_media_key_session usable w
      ≡ ok (
        (cdmi_success, length w.key_sessions),
        record w {
          session_cnt = (w.session_cnt + 1) % 2 ^ 32;
          key_sessions = w.key_sessions ++ new_slot (decimal w.session_cnt) ∷ [];
        },
      )
unfolding create_media_key_session
create_lem usable w room small = ground (
  arith,
  copy_text_lem usable (decimal w.session_cnt) w room (length-decimal w.session_cnt small),
)

register_lem :
    (usable : ℕ → ℕ) (starts : Bool) (w : World) (xs : List (Slot KeySession)) (sid : Bytes)
    → HasRoom usable
    → length sid ≤ 10
    → w.key_sessions ≡ xs ++ new_slot sid ∷ []
    → register_session usable starts (length xs) w
      ≡ ok (
        sid,
        record w {
          key_sessions = xs ++ session_of sid (length xs) ∷ [];
          media_key_sessions = insert sid (some (length xs)) w.media_key_sessions;
          threads = if starts then w.threads ++ run_thread_1 (length xs) ∷ [] else w.threads;
        },
      )
unfolding register_session get_session_id run
register_lem usable starts w xs sid room short h =
    let w1 = record w { media_key_sessions = insert sid (some (length xs)) w.media_key_sessions } in
    let written : set w.key_sessions (length xs) (session_of sid (length xs))
        ≡ xs ++ session_of sid (length xs) ∷ [] =
      rw h (set-append_last xs _ _) in
    ground (
      arith,
      deref_last w xs _ h,
      deref_last w1 xs _ h,
      copy_text_lem usable sid w1 room short,
      written,
    )

-- With a `CMediaKeys`, an allocator that leaves room and a counter of 32 bits, creating a session
-- succeeds: the answer is the counter as a text, and the state has the client's program number, the
-- next counter, a new session under that id with a callback to itself, and its first thread, if
-- that starts.
pub rpc_create_session_lem :
    (usable : ℕ → ℕ) (starts : Bool) (prog_num : ℕ) (w : World)
    → HasRoom usable
    → w.session_cnt < 2 ^ 32
    → w.media_keys ≡ true
    → rpc_create_session usable starts prog_num w
      ≡ ok (
        record { platform_val = cdmi_success; session_id = some (decimal w.session_cnt) },
        created prog_num starts w,
      )
unfolding rpc_create_session make_session created
rpc_create_session_lem usable starts prog_num w room small made =
    let w0 = record w { pnum = prog_num } in
    let sid = decimal w.session_cnt in
    let w1 = record w {
      pnum = prog_num;
      session_cnt = (w.session_cnt + 1) % 2 ^ 32;
      key_sessions = w.key_sessions ++ new_slot sid ∷ [];
      create_session_cr = cdmi_success;
    } in
    ground (
      arith,
      create_lem usable w0 room small,
      register_lem usable starts w1 w.key_sessions sid room (length-decimal w.session_cnt small)
          refl,
    )

-- Where no `CMediaKeys` was made, the request only takes the client's program number.
pub rpc_create_session-none :
    (usable : ℕ → ℕ) (starts : Bool) (prog_num : ℕ) (w : World)
    → w.media_keys ≡ false
    → rpc_create_session usable starts prog_num w
      ≡ ok (
        record { platform_val = w.create_session_cr; session_id = none },
        record w { pnum = prog_num },
      )
unfolding rpc_create_session
rpc_create_session-none usable starts prog_num w none_made = rw none_made
