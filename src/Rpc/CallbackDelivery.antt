-- ===== src/Rpc/CallbackDelivery.antt =====
-- rpc/gen/opencdm_callback_*.c and `doCallback` of service.cpp: a callback that the service sends reaches
-- its own procedure of the browser.
use open_content_decryption.Base.{
  ℕ, ◌≡◌, refl, Bool, Option, none, some, List, [], ◌∷◌, ◌++◌, Bytes, if◌then◌else◌, ◌==◌,
}
use open_content_decryption.Callbacks.{before_nul}
use open_content_decryption.Rpc.{Codec, Xdr, Reply, replied, no_reply}
use open_content_decryption.Rpc.CallbackProgram.{
  RpcCbMessage, RpcCbReady, RpcCbError, RpcCbKeyStatusUpdate, xdr_rpc_cb_message, xdr_rpc_cb_ready,
  xdr_rpc_cb_error, xdr_rpc_cb_key_status_update, Browser, serve_callback, open_cdm_callback_1,
  CallbackCall, on_message_1, on_ready_1, on_error_1, on_key_status_update_1,
}
use open_content_decryption.Rpc.Codecs.{IsCodec, IsXdr, ReadsAs, both-ReadsAs, fields-ReadsAs}
use open_content_decryption.World.{Sent, Event}

-- A callback to the browser.
pub data RemoteCallback : Type 0 where
  message : RpcCbMessage → RemoteCallback
  ready : RpcCbReady → RemoteCallback
  error : RpcCbError → RemoteCallback
  key_status_update : RpcCbKeyStatusUpdate → RemoteCallback

-- A string arrives up to its first NUL.
abbrev pub message_shown : RpcCbMessage → RpcCbMessage
message_shown q = record q {
  message = before_nul q.message;
  destination_url = before_nul q.destination_url;
}

abbrev pub error_shown : RpcCbError → RpcCbError
error_shown q = record q { error_message = before_nul q.error_message }

abbrev pub key_status_update_shown : RpcCbKeyStatusUpdate → RpcCbKeyStatusUpdate
key_status_update_shown q = record q { message = before_nul q.message }

-- Its number in the program OPEN_CDM_CALLBACK, and the bytes of its argument.
abbrev pub callback_number : RemoteCallback → ℕ
callback_number (message _) = 1
callback_number (ready _) = 2
callback_number (error _) = 3
callback_number (key_status_update _) = 4

module _ (xdr : Xdr) (xdr_string : Codec Bytes) where
  abbrev pub callback_put : RemoteCallback → Option Bytes
  callback_put (message q) = (xdr_rpc_cb_message xdr xdr_string).put q
  callback_put (ready q) = (xdr_rpc_cb_ready xdr xdr_string).put q
  callback_put (error q) = (xdr_rpc_cb_error xdr xdr_string).put q
  callback_put (key_status_update q) = (xdr_rpc_cb_key_status_update xdr xdr_string).put q

  -- Over an XDR library that reads what it writes, a string up to its first NUL: the argument of every
  -- callback comes back from the wire as it was written, its strings up to their first NUL and its
  -- session id whole, whatever follows it.
  pub callbacks-ReadsAs :
      IsXdr xdr
      → ReadsAs before_nul xdr_string
      → ReadsAs message_shown (xdr_rpc_cb_message xdr xdr_string)
        × IsCodec (xdr_rpc_cb_ready xdr xdr_string)
        × ReadsAs error_shown (xdr_rpc_cb_error xdr xdr_string)
        × ReadsAs key_status_update_shown (xdr_rpc_cb_key_status_update xdr xdr_string)
  unfolding xdr_rpc_cb_message xdr_rpc_cb_ready xdr_rpc_cb_error xdr_rpc_cb_key_status_update
  callbacks-ReadsAs h hs = (
    fields-ReadsAs _ _ _ _ (
        both-ReadsAs (λ a. a) _ xdr.chars _ h.chars
          (both-ReadsAs before_nul before_nul xdr_string xdr_string hs hs)),
    fields-ReadsAs _ _ (λ a. a) _ h.chars,
    fields-ReadsAs _ _ _ _ (
        both-ReadsAs (λ a. a) _ xdr.chars _ h.chars
          (both-ReadsAs (λ a. a) before_nul xdr.int xdr_string h.int hs)),
    fields-ReadsAs _ _ _ _ (both-ReadsAs (λ a. a) before_nul xdr.chars xdr_string h.chars hs),
  )

module _ (browser : Browser) where
  -- What is to happen in the browser: its own procedure, once.
  abbrev pub handle : RemoteCallback → browser.State → Bool × browser.State
  handle (message q) s = browser.on_message_1_svc (message_shown q) s
  handle (ready q) s = browser.on_ready_1_svc q s
  handle (error q) s = browser.on_error_1_svc (error_shown q) s
  handle (key_status_update q) s = browser.on_key_status_update_1_svc (key_status_update_shown q) s

  abbrev pub answered : Bool × browser.State → Reply × browser.State
  answered (result, s) = (if result then replied [] else no_reply, s)

module _ (xdr : Xdr) (xdr_string : Codec Bytes) (h : IsXdr xdr) (hs : ReadsAs before_nul xdr_string)
    (browser : Browser) where
  serve_callback_lem :
      {A : Type 0} (c : Codec A) (local : A → browser.State → Bool × browser.State) (q : A)
      (args rest : Bytes) (s : browser.State)
      → c.get args ≡ some (q, rest)
      → serve_callback c local args s ≡ answered browser (local q s)
  unfolding serve_callback
  serve_callback_lem c local q args rest s e = rw (e, serve_callback) refl

  -- Over an XDR library that reads what it writes, a string up to its first NUL: a callback that arrives
  -- runs its own procedure of the browser once, on its argument with the strings up to their first NUL,
  -- and is answered where the result of this one is not NULL.
  pub open_cdm_callback_1-callback_put :
      (q : RemoteCallback) (args rest : Bytes) (s : browser.State)
      → callback_put xdr xdr_string q ≡ some args
      → open_cdm_callback_1 xdr xdr_string browser (callback_number q) (args ++ rest) s
        ≡ answered browser (handle browser q s)
  unfolding open_cdm_callback_1
  open_cdm_callback_1-callback_put (message q) args rest s e =
      serve_callback_lem (xdr_rpc_cb_message xdr xdr_string) browser.on_message_1_svc
        (message_shown q) _ rest s ((callbacks-ReadsAs xdr xdr_string h hs).0 q args rest e)
  open_cdm_callback_1-callback_put (ready q) args rest s e =
      serve_callback_lem (xdr_rpc_cb_ready xdr xdr_string) browser.on_ready_1_svc q _ rest s
        ((callbacks-ReadsAs xdr xdr_string h hs).1 q args rest e)
  open_cdm_callback_1-callback_put (error q) args rest s e =
      serve_callback_lem (xdr_rpc_cb_error xdr xdr_string) browser.on_error_1_svc (error_shown q) _
        rest s ((callbacks-ReadsAs xdr xdr_string h hs).2 q args rest e)
  open_cdm_callback_1-callback_put (key_status_update q) args rest s e =
      serve_callback_lem (xdr_rpc_cb_key_status_update xdr xdr_string)
        browser.on_key_status_update_1_svc (key_status_update_shown q) _ rest s
        ((callbacks-ReadsAs xdr xdr_string h hs).3 q args rest e)

-- The RPC library carries an argument that was written to the server, and a reply that can be read back.
-- Over TCP the call is made once. Without a reply it times out.
pub record CallbackDelivers (browser : Browser) (clnt_call : CallbackCall browser)
    (server : ℕ → Bytes → browser.State → Reply × browser.State) : Type 1 where
  pub returns :
      (A R : Type 0) (n : ℕ) (c : Codec A) (d : Codec R) (q : A) (args reply : Bytes) (r : R)
      (s s' : browser.State)
      → c.put q ≡ some args
      → server n args s ≡ (replied reply, s')
      → d.get reply ≡ some (r, [])
      → clnt_call A R n c d q s ≡ (some r, s')
  pub times_out :
      (A R : Type 0) (n : ℕ) (c : Codec A) (d : Codec R) (q : A) (args : Bytes)
      (s s' : browser.State)
      → c.put q ≡ some args
      → server n args s ≡ (no_reply, s')
      → clnt_call A R n c d q s ≡ (none, s')

-- The callback that `doCallback` builds from what it is to send.
unfoldable pub callback_of : Sent → RemoteCallback
callback_of e = elim e.event [
  | Event.on_message m url ↦
      message (record { session_id = e.session_id; message = m; destination_url = url })
  | Event.on_ready ↦ ready (record { session_id = e.session_id })
  | Event.on_key_status_update m ↦
      key_status_update (record { session_id = e.session_id; message = m })
]

module _ (xdr : Xdr) (xdr_string : Codec Bytes) (browser : Browser)
    (clnt_call : CallbackCall browser) where
  -- The switch of `doCallback`.
  unfoldable pub call : RemoteCallback → browser.State → Option (Unit {0}) × browser.State
  call (message q) = on_message_1 xdr xdr_string browser clnt_call q
  call (ready q) = on_ready_1 xdr xdr_string browser clnt_call q
  call (error q) = on_error_1 xdr xdr_string browser clnt_call q
  call (key_status_update q) = on_key_status_update_1 xdr xdr_string browser clnt_call q

  -- `doCallback`, over the states of all browsers by their program numbers: the client that
  -- `clnt_create(g_hostname, g_pnum, 1, "tcp")` makes is for the one under the number of then.
  unfoldable pub call_program : Sent → (ℕ → browser.State) → ℕ → browser.State
  call_program e states program =
      if program == e.program then (call (callback_of e) (states program)).1 else states program

  unfoldable pub call_all : List Sent → (ℕ → browser.State) → ℕ → browser.State
  call_all [] states = states
  call_all (e ∷ es) states = call_all es (call_program e states)

-- What was sent while one program number was the service's.
abbrev pub sent_to : ℕ → List Sent → List Sent
sent_to program [] = []
sent_to program (e ∷ es) =
    let rest = sent_to program es in if program == e.program then e ∷ rest else rest

-- A browser's procedures, one after the other.
unfoldable pub handle_all : (browser : Browser) → List Sent → browser.State → browser.State
handle_all browser [] s = s
handle_all browser (e ∷ es) s = handle_all browser es (handle browser (callback_of e) s).1
