-- ===== src/Rpc.antt =====
-- rpc/gen/opencdm_xdr.h, opencdm_xdr_xdr.c and opencdm_xdr_svc.c: the requests, their form on the wire,
-- and the procedure `open_cdm_1` that serves them. The XDR library is a parameter.
pub mod Codecs
pub mod Dispatch
pub mod Client
pub mod CallbackProgram
pub mod CallbackDelivery
pub mod Registration
use open_content_decryption.Base.{
  ℕ, Bool, true, false, Option, none, some, List, [], ◌++◌, Bytes, ◌==◌, if◌then◌else◌,
}
use open_content_decryption.Base.Int.{ℤ}
use open_content_decryption.Base.Outcome.{ok, uninitialised}
use open_content_decryption.World.{M, Platform, ◌>>=◌, fails, pure}
use open_content_decryption.Service.{
  CreateResponse, rpc_is_type_supported, rpc_mediakeys, rpc_create_session, rpc_load_session,
  rpc_update, rpc_release, rpc_mediaengine,
}

pub record RequestIsTypeSupported : Type 0 where
  pub key_system : Bytes
  pub mime_type : Bytes

pub record RequestMediakeys : Type 0 where
  pub key_system : Bytes

pub record RequestCallbackInfo : Type 0 where
  pub hostname : Bytes
  pub prog_num : ℕ
  pub prog_version : ℕ

pub record RequestCreateSession : Type 0 where
  pub init_data_type : Bytes
  pub init_data : Bytes
  pub callback_info : RequestCallbackInfo

pub record RequestLoadSession : Type 0 where
  pub session_id : Bytes

pub record RequestSessionUpdate : Type 0 where
  pub session_id : Bytes
  pub key : Bytes

pub record RequestSessionRelease : Type 0 where
  pub session_id : Bytes

pub record RequestMediaengineData : Type 0 where
  pub session_id : Bytes
  pub auth_data : Bytes
  pub id_exchange_shmem : ℤ
  pub id_exchange_sem : ℤ

-- An XDR routine in its two directions: it writes a value, or it reads one and leaves the rest.
pub record Codec (A : Type 0) : Type 0 where
  pub put : A → Option Bytes
  pub get : Bytes → Option (A × Bytes)

-- The routines of the XDR library: `xdr_array` of `xdr_char` and of `xdr_uint8_t`, and the numbers.
pub record Xdr : Type 0 where
  pub chars : Codec Bytes
  pub uint8s : Codec Bytes
  pub uint64 : Codec ℕ
  pub uint32 : Codec ℕ
  pub int32 : Codec ℤ
  pub int : Codec ℤ

abbrev pub put_both : {A B : Type 0} → Codec A → Codec B → A → B → Option Bytes
put_both c d a b = elim (c.put a) [
  | none ↦ none
  | some s ↦ elim (d.put b) [ none ↦ none | some t ↦ some (s ++ t) ]
]

abbrev pub get_both : {A B : Type 0} → Codec A → Codec B → Bytes → Option ((A × B) × Bytes)
get_both c d s = elim (c.get s) [
  | none ↦ none
  | some (a, s1) ↦ elim (d.get s1) [ none ↦ none | some (b, s2) ↦ some ((a, b), s2) ]
]

-- One routine after the other: the first that fails ends the whole.
unfoldable pub both : {A B : Type 0} → Codec A → Codec B → Codec (A × B)
both c d = record { put = λ x. put_both c d x.0 x.1; get = λ s. get_both c d s }

-- The fields of a struct.
unfoldable pub fields : {A B : Type 0} → (A → B) → (B → A) → Codec A → Codec B
fields make take_apart c = record {
  put = λ b. c.put (take_apart b);
  get = λ s. elim (c.get s) [ none ↦ none | some (a, rest) ↦ some (make a, rest) ];
}

module _ (xdr : Xdr) where
  open xdr use {chars, uint8s, uint64, uint32, int32, int}

  unfoldable pub xdr_rpc_request_is_type_supported : Codec RequestIsTypeSupported
  xdr_rpc_request_is_type_supported =
      fields (λ x. record { key_system = x.0; mime_type = x.1 }) (λ r. (r.key_system, r.mime_type))
        (both chars chars)

  unfoldable pub xdr_rpc_request_mediakeys : Codec RequestMediakeys
  xdr_rpc_request_mediakeys = fields (λ x. record { key_system = x }) (λ r. r.key_system) chars

  unfoldable pub xdr_rpc_request_callback_info : Codec RequestCallbackInfo
  xdr_rpc_request_callback_info =
      fields (λ x. record { hostname = x.0; prog_num = x.1.0; prog_version = x.1.1 })
        (λ r. (r.hostname, (r.prog_num, r.prog_version))) (both chars (both uint64 uint32))

  unfoldable pub xdr_rpc_request_create_session : Codec RequestCreateSession
  xdr_rpc_request_create_session =
      fields (λ x. record { init_data_type = x.0; init_data = x.1.0; callback_info = x.1.1 })
        (λ r. (r.init_data_type, (r.init_data, r.callback_info)))
        (both chars (both uint8s xdr_rpc_request_callback_info))

  unfoldable pub xdr_rpc_request_load_session : Codec RequestLoadSession
  xdr_rpc_request_load_session = fields (λ x. record { session_id = x }) (λ r. r.session_id) chars

  unfoldable pub xdr_rpc_request_session_update : Codec RequestSessionUpdate
  xdr_rpc_request_session_update =
      fields (λ x. record { session_id = x.0; key = x.1 }) (λ r. (r.session_id, r.key))
        (both chars uint8s)

  unfoldable pub xdr_rpc_request_session_release : Codec RequestSessionRelease
  xdr_rpc_request_session_release =
      fields (λ x. record { session_id = x }) (λ r. r.session_id) chars

  unfoldable pub xdr_rpc_request_mediaengine_data : Codec RequestMediaengineData
  xdr_rpc_request_mediaengine_data =
      fields
        (λ x. record {
          session_id = x.0;
          auth_data = x.1.0;
          id_exchange_shmem = x.1.1.0;
          id_exchange_sem = x.1.1.1;
        })
        (λ r. (r.session_id, (r.auth_data, (r.id_exchange_shmem, r.id_exchange_sem))))
        (both chars (both uint8s (both int32 int32)))

-- What the client gets: the bytes of a reply, no reply at all, or one of the server's errors.
pub data Reply : Type 0 where
  replied : Bytes → Reply
  no_reply no_procedure undecodable system_error : Reply

-- `svc_sendreply` with the routine of the answer.
unfoldable pub send : Option Bytes → M Reply
send none = pure system_error
send (some s) = pure (replied s)

-- The second half of `open_cdm_1`: the arguments, the procedure, and its answer, if it is not NULL.
unfoldable pub serve :
    {A R : Type 0} → Codec A → (R → M Reply) → (A → M (Option R)) → Bytes → M Reply
serve xdr_argument answer local args = elim (xdr_argument.get args) [
  | none ↦ pure undecodable
  | some (argument, _) ↦ local argument >>= elim [ none ↦ pure no_reply | some r ↦ answer r ]
]

-- A procedure whose response is never NULL.
abbrev pub always : {R : Type 0} → M R → M (Option R)
always m = m >>= λ r. pure (some r)

module _ (xdr : Xdr) (platform : Platform) (unspecified starts : Bool) where
  -- `xdr_rpc_response_generic`
  unfoldable pub send_generic : ℤ → M Reply
  unfolding send
  send_generic platform_val = send (xdr.int.put platform_val)

  -- `xdr_rpc_response_create_session`: where no session was made, the id has no value.
  unfoldable pub send_create_session : CreateResponse → M Reply
  unfolding send
  send_create_session r = elim r.session_id [
    | none ↦ fails uninitialised
    | some session_id ↦ send ((both xdr.int xdr.chars).put (r.platform_val, session_id))
  ]

  -- `open_cdm_1`, from the number of the procedure and the bytes of its argument.
  unfoldable pub open_cdm_1 : ℕ → Bytes → M Reply
  unfolding serve send_generic send_create_session
  open_cdm_1 rq_proc args =
      if rq_proc == 0
      then pure (replied [])
      else if rq_proc == 1
      then serve (xdr_rpc_request_is_type_supported xdr) send_generic
          (λ q. always (rpc_is_type_supported unspecified q.key_system q.mime_type)) args
      else if rq_proc == 2
      then serve (xdr_rpc_request_mediakeys xdr) send_generic (λ q. always rpc_mediakeys) args
      else if rq_proc == 3
      then serve (xdr_rpc_request_create_session xdr) send_create_session
          (λ q. always (rpc_create_session platform.usable starts q.callback_info.prog_num)) args
      else if rq_proc == 4
      then serve (xdr_rpc_request_load_session xdr) send_generic
          (λ q. rpc_load_session q.session_id) args
      else if rq_proc == 5
      then serve (xdr_rpc_request_session_update xdr) send_generic
          (λ q. always (rpc_update platform q.session_id q.key starts)) args
      else if rq_proc == 6
      then serve (xdr_rpc_request_session_release xdr) send_generic
          (λ q. always (rpc_release q.session_id)) args
      else if rq_proc == 7
      then serve (xdr_rpc_request_mediaengine_data xdr) send_generic
          (λ q. always (rpc_mediaengine q.session_id q.id_exchange_shmem q.id_exchange_sem)) args
      else pure no_procedure
