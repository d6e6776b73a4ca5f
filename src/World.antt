-- ===== src/World.antt =====
-- The state of the service process: the globals of service.cpp and cdmi-stub, the objects that
-- pointers name, the threads that wait to run, and the callbacks that were sent.
pub mod Slots
pub mod Bind
use mathlib.Core.Bool.{cond}
use open_content_decryption.Base.{
  ℕ, suc, ◌+◌, ◌≡◌, Bool, true, false, Option, none, some, List, [], ◌∷◌, ◌++◌, Bytes, get_elem?,
  set, length, leb, if◌then◌else◌,
}
use open_content_decryption.Base.Int.{ℤ, pos}
use open_content_decryption.Base.Outcome.{
  Outcome, ok, fault, Fault, use_after_free, double_free, null_pointer, out_of_bounds,
}
use open_content_decryption.JsonWebKey.{KeyIdAndKeyPairs, Parser, Token}

-- cdmi.h
abbrev pub cdmi_success : ℤ
cdmi_success = pos 0

abbrev pub cdmi_s_false : ℤ
cdmi_s_false = pos 1

-- A pointer to an object is its number in the list of the objects of its type.
abbrev pub Ptr : Type 0
Ptr = ℕ

-- `CCallback`
pub record Callback : Type 0 where
  pub media_key_session : Ptr

-- `CMediaKeySession`. The callback is not initialised before `Run`.
pub record KeySession : Type 0 where
  pub session_id : Bytes
  pub callback : Option Callback

-- `CMediaEngineSession`: its key session, which may be NULL. Its session key is always NULL.
pub record EngineSession : Type 0 where
  pub media_key_session : Option Ptr

-- An object or a buffer of the heap, and whether it has been freed.
pub record Slot {ℓ} (A : Type ℓ) : Type ℓ where
  pub content : A
  pub live : Bool

-- The detached threads.
pub data Task : Type 0 where
  run_thread_1 run_thread_2 : Ptr → Task
  decrypt_shmem : ℕ → ℤ → ℤ → Task

-- The remote calls that `doCallback` makes.
pub data Event : Type 0 where
  on_message : Bytes → Bytes → Event
  on_ready : Event
  on_key_status_update : Bytes → Event

pub record Sent : Type 0 where
  pub program : ℕ
  pub session_id : Bytes
  pub event : Event

-- `media_keys` says whether `g_pMediaKeys` is set; the objects of `CMediaKeys` have no content, and it
-- points to the last one.
pub record World : Type 0 where
  pub g_keys : KeyIdAndKeyPairs
  pub session_cnt : ℕ
  pub key_sessions : List (Slot KeySession)
  pub buffers : List (Slot Bytes)
  pub clear_content : Option Ptr
  pub media_keys : Bool
  pub media_keys_objects : List (Slot (Unit {0}))
  pub media_key_sessions : List (Bytes × Option Ptr)
  pub media_engine_sessions : List EngineSession
  pub pnum : ℕ
  pub create_session_cr : ℤ
  pub threads : List Task
  pub sent : List Sent

-- The process as it starts.
abbrev pub initial : World
initial = record {
  g_keys = [];
  session_cnt = 10;
  key_sessions = [];
  buffers = [];
  clear_content = none;
  media_keys = false;
  media_keys_objects = [];
  media_key_sessions = [];
  media_engine_sessions = [];
  pnum = 0;
  create_session_cr = cdmi_s_false;
  threads = [];
  sent = [];
}

-- What the service relies on and does not implement.
pub record Platform : Type 1 where
  -- jsmn, and what the token array holds before it is called
  pub jsmn_parse : Parser
  pub stack : List Token
  -- the size of the block that the allocator gives for a size asked for
  pub usable : ℕ → ℕ
  -- whether a client can be reached under a program number
  pub connects : ℕ → Bool
  -- OpenSSL: `AES_set_encrypt_key` for a number of bits (`none` is a negative result, which leaves the
  -- schedule unwritten), and `AES_ctr128_encrypt` from offset 0 with a counter block
  pub Schedule : Type 0
  pub aes_set_encrypt_key : Bytes → ℕ → Option Schedule
  pub aes_ctr128_encrypt : Schedule → Bytes → Bytes → Bytes

-- An action on the process.
abbrev pub M : Type 0 → Type 0
M A = World → Outcome (A × World)

abbrev pub pure : {A : Type 0} → A → M A
pure a w = ok (a, w)

abbrev pub fails : {A : Type 0} → Fault → M A
fails e w = fault e

infixl 5 ◌>>=◌ ◌>>◌
abbrev pub ◌>>=◌ : {A B : Type 0} → M A → (A → M B) → M B
◌>>=◌ m f w = elim (m w) [ fault e ↦ fault e | ok (a, w') ↦ f a w' ]

abbrev pub ◌>>◌ : {B : Type 0} → M (Unit {0}) → M B → M B
m >> k = m >>= λ _. k

-- Reads a field, or replaces the state.
abbrev pub gets : {A : Type 0} → (World → A) → M A
gets f w = ok (f w, w)

abbrev pub modify : (World → World) → M (Unit {0})
modify f w = ok (tt, f w)

-- The contents of a slot that is alive.
abbrev pub alive {ℓ} : {A : Type ℓ} → Option (Slot A) → Outcome A
alive none = fault null_pointer
alive (some s) = cond s.live (ok s.content) (fault use_after_free)

-- An access through a pointer to a key session.
unfoldable pub deref : Ptr → M KeySession
deref p w = elim (alive (get_elem? w.key_sessions p)) [ fault e ↦ fault e | ok s ↦ ok (s, w) ]

abbrev pub freed {ℓ} :
    {A : Type ℓ} → List (Slot A) → Ptr → Option (Slot A) → Outcome (List (Slot A))
freed slots p none = fault null_pointer
freed slots p (some s) =
    cond s.live (ok (set slots p (record s { live = false }))) (fault double_free)

-- `free` of a key session, and of a buffer.
unfoldable pub free_session : Ptr → M (Unit {0})
free_session p w = elim (freed w.key_sessions p (get_elem? w.key_sessions p)) [
  | fault e ↦ fault e
  | ok slots ↦ ok (tt, record w { key_sessions = slots })
]

unfoldable pub free_buffer : Ptr → M (Unit {0})
free_buffer p w = elim (freed w.buffers p (get_elem? w.buffers p)) [
  | fault e ↦ fault e
  | ok slots ↦ ok (tt, record w { buffers = slots })
]

-- `malloc`: a new buffer. It never gives NULL here.
unfoldable pub malloc : Bytes → M Ptr
malloc bytes w = ok (
  length w.buffers,
  record w { buffers = w.buffers ++ record { content = bytes; live = true } ∷ [] },
)

-- `strcpy` of a text into a new block of just its length: the final NUL goes behind the block.
unfoldable pub copy_text : (ℕ → ℕ) → Bytes → M Bytes
copy_text usable s w =
    if leb (length s + 1) (usable (length s)) then ok (s, w) else fault out_of_bounds
