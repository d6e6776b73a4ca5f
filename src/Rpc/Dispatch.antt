-- ===== src/Rpc/Dispatch.antt =====
-- rpc/gen/opencdm_xdr_svc.c: a request that arrives runs its procedure, and nothing else changes the
-- state.
use open_content_decryption.Base.{
  ℕ, ◌≡◌, refl, ◌∙◌, Bool, false, Option, some, ◌++◌, Bytes, arith, inl, inr,
}
use open_content_decryption.Base.Int.{ℤ}
use open_content_decryption.Base.Outcome.{fault, Outcome-cases, uninitialised}
use open_content_decryption.Rpc.{
  RequestIsTypeSupported, RequestMediakeys, RequestCreateSession, RequestLoadSession,
  RequestSessionUpdate, RequestSessionRelease, RequestMediaengineData, Codec, Xdr, Reply, no_reply,
  always, serve, send_generic, send_create_session, open_cdm_1, xdr_rpc_request_is_type_supported,
  xdr_rpc_request_mediakeys, xdr_rpc_request_create_session, xdr_rpc_request_load_session,
  xdr_rpc_request_session_update, xdr_rpc_request_session_release, xdr_rpc_request_mediaengine_data,
}
use open_content_decryption.Rpc.Codecs.{IsXdr, requests-IsCodec}
use open_content_decryption.Service.{
  rpc_is_type_supported, rpc_mediakeys, rpc_create_session, rpc_load_session, rpc_update,
  rpc_release, rpc_mediaengine,
}
use open_content_decryption.Service.Create.{rpc_create_session-none}
use open_content_decryption.World.{World, M, Platform, ◌>>=◌, pure}

-- A request to the service.
pub data Request : Type 0 where
  is_type_supported : RequestIsTypeSupported → Request
  mediakeys : RequestMediakeys → Request
  create_session : RequestCreateSession → Request
  load_session : RequestLoadSession → Request
  session_update : RequestSessionUpdate → Request
  session_release : RequestSessionRelease → Request
  mediaengine : RequestMediaengineData → Request

-- Its number in the program OPEN_CDM, and the bytes of its argument.
abbrev pub number : Request → ℕ
number (is_type_supported _) = 1
number (mediakeys _) = 2
number (create_session _) = 3
number (load_session _) = 4
number (session_update _) = 5
number (session_release _) = 6
number (mediaengine _) = 7

abbrev pub put : Xdr → Request → Option Bytes
put xdr (is_type_supported q) = (xdr_rpc_request_is_type_supported xdr).put q
put xdr (mediakeys q) = (xdr_rpc_request_mediakeys xdr).put q
put xdr (create_session q) = (xdr_rpc_request_create_session xdr).put q
put xdr (load_session q) = (xdr_rpc_request_load_session xdr).put q
put xdr (session_update q) = (xdr_rpc_request_session_update xdr).put q
put xdr (session_release q) = (xdr_rpc_request_session_release xdr).put q
put xdr (mediaengine q) = (xdr_rpc_request_mediaengine_data xdr).put q

module _ (xdr : Xdr) (platform : Platform) (unspecified starts : Bool) where
  abbrev reply_generic : ℤ → M Reply
  reply_generic = send_generic xdr platform unspecified starts

  abbrev generic : M ℤ → M Reply
  generic m = m >>= reply_generic

  -- What is to happen for a request: its procedure, and the reply with what that returns.
  unfoldable pub answer : Request → M Reply
  answer (is_type_supported q) =
      generic (rpc_is_type_supported unspecified q.key_system q.mime_type)
  answer (mediakeys q) = generic rpc_mediakeys
  answer (create_session q) =
      rpc_create_session platform.usable starts q.callback_info.prog_num
      >>= send_create_session xdr platform unspecified starts
  answer (load_session q) = pure no_reply
  answer (session_update q) = generic (rpc_update platform q.session_id q.key starts)
  answer (session_release q) = generic (rpc_release q.session_id)
  answer (mediaengine q) =
      generic (rpc_mediaengine q.session_id q.id_exchange_shmem q.id_exchange_sem)

  serve-always :
      {A R : Type 0} (c : Codec A) (f : R → M Reply) (m : A → M R) (q : A) (args rest : Bytes)
      (w : World)
      → c.get args ≡ some (q, rest)
      → serve c f (λ x. always (m x)) args w ≡ (m q >>= f) w
  unfolding serve
  serve-always c f m q args rest w h = elim (Outcome-cases (m q w)) [
    | inl (_, done) ↦ ground (arith, h, done)
    | inr (_, failed) ↦ ground (arith, h, failed)
  ]

  -- A request that arrives is answered by its own procedure: from its number and the bytes of its
  -- argument, whatever follows them, over an XDR library that reads what it writes.
  pub open_cdm_1-put :
      (q : Request) (args rest : Bytes) (w : World)
      → IsXdr xdr
      → put xdr q ≡ some args
      → open_cdm_1 xdr platform unspecified starts (number q) (args ++ rest) w ≡ answer q w
  unfolding open_cdm_1 answer rpc_load_session
  open_cdm_1-put (is_type_supported q) args rest w h e =
      serve-always (xdr_rpc_request_is_type_supported xdr) reply_generic
        (λ x. rpc_is_type_supported unspecified x.key_system x.mime_type) q (args ++ rest) rest w
        ((requests-IsCodec xdr h).0 q args rest e)
  open_cdm_1-put (mediakeys q) args rest w h e =
      serve-always (xdr_rpc_request_mediakeys xdr) reply_generic (λ _. rpc_mediakeys) q
        (args ++ rest) rest w ((requests-IsCodec xdr h).1 q args rest e)
  open_cdm_1-put (create_session q) args rest w h e =
      serve-always (xdr_rpc_request_create_session xdr)
        (send_create_session xdr platform unspecified starts)
        (λ x. rpc_create_session platform.usable starts x.callback_info.prog_num) q (args ++ rest)
        rest w ((requests-IsCodec xdr h).2 q args rest e)
  open_cdm_1-put (load_session q) args rest w h e =
      rw ((requests-IsCodec xdr h).3 q args rest e, serve) refl
  open_cdm_1-put (session_update q) args rest w h e =
      serve-always (xdr_rpc_request_session_update xdr) reply_generic
        (λ x. rpc_update platform x.session_id x.key starts) q (args ++ rest) rest w
        ((requests-IsCodec xdr h).4 q args rest e)
  open_cdm_1-put (session_release q) args rest w h e =
      serve-always (xdr_rpc_request_session_release xdr) reply_generic
        (λ x. rpc_release x.session_id) q (args ++ rest) rest w
        ((requests-IsCodec xdr h).5 q args rest e)
  open_cdm_1-put (mediaengine q) args rest w h e =
      serve-always (xdr_rpc_request_mediaengine_data xdr) reply_generic
        (λ x. rpc_mediaengine x.session_id x.id_exchange_shmem x.id_exchange_sem) q (args ++ rest)
        rest w ((requests-IsCodec xdr h).6 q args rest e)

  -- Where there is no `CMediaKeys`, the reply to a request for a session would be written from an id
  -- that has no value: over an XDR library that reads what it writes.
  pub open_cdm_1-create_none :
      (q : RequestCreateSession) (args rest : Bytes) (w : World)
      → IsXdr xdr
      → put xdr (create_session q) ≡ some args
      → w.media_keys ≡ false
      → open_cdm_1 xdr platform unspecified starts 3 (args ++ rest) w ≡ fault uninitialised
  unfolding answer send_create_session
  open_cdm_1-create_none q args rest w h e unmade =
      open_cdm_1-put (create_session q) args rest w h e
      ∙ ground
          (arith, rpc_create_session-none platform.usable starts q.callback_info.prog_num w unmade)
