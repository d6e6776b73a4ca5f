-- ===== src/Rpc/CallbackProgram.antt =====
-- rpc/gen/opencdm_callback.h, opencdm_callback_xdr.c, opencdm_callback_svc.c and
-- opencdm_callback_clnt.c: the program OPEN_CDM_CALLBACK, which the browser serves and the service calls.
-- The XDR and the RPC library and the browser's own procedures are parameters.
use open_content_decryption.Base.{ℕ, Bool, Option, none, some, [], Bytes, ◌==◌, if◌then◌else◌}
use open_content_decryption.Base.Int.{ℤ}
use open_content_decryption.Rpc.{
  Codec, Xdr, both, fields, Reply, replied, no_reply, no_procedure, undecodable,
}

pub record RpcCbMessage : Type 0 where
  pub session_id : Bytes
  pub message : Bytes
  pub destination_url : Bytes

pub record RpcCbKeyStatusUpdate : Type 0 where
  pub session_id : Bytes
  pub message : Bytes

pub record RpcCbReady : Type 0 where
  pub session_id : Bytes

pub record RpcCbError : Type 0 where
  pub session_id : Bytes
  pub error : ℤ
  pub error_message : Bytes

-- `xdr_void`
abbrev pub xdr_void : Codec (Unit {0})
xdr_void = record { put = λ _. some []; get = λ s. some (tt, s) }

-- `xdr_string`, of a block that a `char *` points to, is one more routine of the library.
module _ (xdr : Xdr) (xdr_string : Codec Bytes) where
  unfoldable pub xdr_rpc_cb_message : Codec RpcCbMessage
  xdr_rpc_cb_message =
      fields (λ x. record { session_id = x.0; message = x.1.0; destination_url = x.1.1 })
        (λ r. (r.session_id, (r.message, r.destination_url)))
        (both xdr.chars (both xdr_string xdr_string))

  unfoldable pub xdr_rpc_cb_key_status_update : Codec RpcCbKeyStatusUpdate
  xdr_rpc_cb_key_status_update =
      fields (λ x. record { session_id = x.0; message = x.1 }) (λ r. (r.session_id, r.message))
        (both xdr.chars xdr_string)

  unfoldable pub xdr_rpc_cb_ready : Codec RpcCbReady
  xdr_rpc_cb_ready = fields (λ x. record { session_id = x }) (λ r. r.session_id) xdr.chars

  unfoldable pub xdr_rpc_cb_error : Codec RpcCbError
  xdr_rpc_cb_error =
      fields (λ x. record { session_id = x.0; error = x.1.0; error_message = x.1.1 })
        (λ r. (r.session_id, (r.error, r.error_message))) (both xdr.chars (both xdr.int xdr_string))

-- The browser's procedures on its own state: whether the result is a pointer other than NULL.
pub record Browser : Type 1 where
  pub State : Type 0
  pub on_message_1_svc : RpcCbMessage → State → Bool × State
  pub on_ready_1_svc : RpcCbReady → State → Bool × State
  pub on_error_1_svc : RpcCbError → State → Bool × State
  pub on_key_status_update_1_svc : RpcCbKeyStatusUpdate → State → Bool × State

-- The second half of `open_cdm_callback_1`: the arguments, the procedure, and an empty answer where its
-- result is not NULL.
unfoldable pub serve_callback :
    {A S : Type 0} → Codec A → (A → S → Bool × S) → Bytes → S → Reply × S
serve_callback xdr_argument local args s = elim (xdr_argument.get args) [
  | none ↦ (undecodable, s)
  | some (argument, _) ↦
      (let (result, s1) = local argument s in (if result then replied [] else no_reply, s1))
]

module _ (xdr : Xdr) (xdr_string : Codec Bytes) (browser : Browser) where
  open browser use {
    State, on_message_1_svc, on_ready_1_svc, on_error_1_svc, on_key_status_update_1_svc,
  }

  unfoldable pub open_cdm_callback_1 : ℕ → Bytes → State → Reply × State
  unfolding serve_callback
  open_cdm_callback_1 rq_proc args s =
      if rq_proc == 0
      then (replied [], s)
      else if rq_proc == 1
      then serve_callback (xdr_rpc_cb_message xdr xdr_string) on_message_1_svc args s
      else if rq_proc == 2
      then serve_callback (xdr_rpc_cb_ready xdr xdr_string) on_ready_1_svc args s
      else if rq_proc == 3
      then serve_callback (xdr_rpc_cb_error xdr xdr_string) on_error_1_svc args s
      else if rq_proc == 4
      then serve_callback (xdr_rpc_cb_key_status_update xdr xdr_string) on_key_status_update_1_svc
          args s
      else (no_procedure, s)

-- `clnt_call`, on the state of the browser that the handle is connected to.
abbrev pub CallbackCall : Browser → Type 1
CallbackCall browser =
    (A R : Type 0) → ℕ → Codec A → Codec R → A → browser.State → Option R × browser.State

-- The stubs: `none` is NULL, and any other result points to a static byte that is 0.
module _ (xdr : Xdr) (xdr_string : Codec Bytes) (browser : Browser)
    (clnt_call : CallbackCall browser) where
  unfoldable pub on_message_1 : RpcCbMessage → browser.State → Option (Unit {0}) × browser.State
  on_message_1 = clnt_call _ _ 1 (xdr_rpc_cb_message xdr xdr_string) xdr_void

  unfoldable pub on_ready_1 : RpcCbReady → browser.State → Option (Unit {0}) × browser.State
  on_ready_1 = clnt_call _ _ 2 (xdr_rpc_cb_ready xdr xdr_string) xdr_void

  unfoldable pub on_error_1 : RpcCbError → browser.State → Option (Unit {0}) × browser.State
  on_error_1 = clnt_call _ _ 3 (xdr_rpc_cb_error xdr xdr_string) xdr_void

  unfoldable pub on_key_status_update_1 :
      RpcCbKeyStatusUpdate → browser.State → Option (Unit {0}) × browser.State
  on_key_status_update_1 = clnt_call _ _ 4 (xdr_rpc_cb_key_status_update xdr xdr_string) xdr_void
