-- ===== src/Rpc/Client.antt =====
-- rpc/gen/opencdm_xdr_clnt.c: the browser's side of the requests. `clnt_call` is the RPC library's, and
-- a parameter.
use open_content_decryption.Base.{
  ℕ, ◌≡◌, ap, sym, ◌∙◌, Bool, Option, some, Bytes, [], append-nil, arith,
}
use open_content_decryption.Base.Int.{ℤ}
use open_content_decryption.Base.Outcome.{ok}
use open_content_decryption.Rpc.{
  Codec, Xdr, Reply, replied, RequestIsTypeSupported, RequestMediakeys, RequestCreateSession,
  RequestLoadSession, RequestSessionUpdate, RequestSessionRelease, RequestMediaengineData,
  xdr_rpc_request_is_type_supported, xdr_rpc_request_mediakeys, xdr_rpc_request_create_session,
  xdr_rpc_request_load_session, xdr_rpc_request_session_update, xdr_rpc_request_session_release,
  xdr_rpc_request_mediaengine_data, both, open_cdm_1, send_generic, send,
}
use open_content_decryption.Rpc.Codecs.{IsXdr}
use open_content_decryption.Rpc.Dispatch.{open_cdm_1-put, session_update, answer}
use open_content_decryption.Service.{rpc_update}
use open_content_decryption.World.{World, M, Platform, ◌>>=◌}

-- `clnt_call` with the number of a procedure, the routines of its argument and its result, and the
-- argument: the result, or none where it is not `RPC_SUCCESS`. The timeout and the handle are left out.
abbrev pub ClntCall : Type 1
ClntCall = (A R : Type 0) → ℕ → Codec A → Codec R → A → M (Option R)

module _ (xdr : Xdr) (clnt_call : ClntCall) where
  unfoldable pub rpc_open_cdm_is_type_supported_1 : RequestIsTypeSupported → M (Option ℤ)
  rpc_open_cdm_is_type_supported_1 = clnt_call _ _ 1 (xdr_rpc_request_is_type_supported xdr) xdr.int

  unfoldable pub rpc_open_cdm_mediakeys_1 : RequestMediakeys → M (Option ℤ)
  rpc_open_cdm_mediakeys_1 = clnt_call _ _ 2 (xdr_rpc_request_mediakeys xdr) xdr.int

  unfoldable pub rpc_open_cdm_mediakeys_create_session_1 :
      RequestCreateSession → M (Option (ℤ × Bytes))
  rpc_open_cdm_mediakeys_create_session_1 =
      clnt_call _ _ 3 (xdr_rpc_request_create_session xdr) (both xdr.int xdr.chars)

  unfoldable pub rpc_open_cdm_mediakeys_load_session_1 : RequestLoadSession → M (Option ℤ)
  rpc_open_cdm_mediakeys_load_session_1 = clnt_call _ _ 4 (xdr_rpc_request_load_session xdr) xdr.int

  unfoldable pub rpc_open_cdm_mediakeysession_update_1 : RequestSessionUpdate → M (Option ℤ)
  rpc_open_cdm_mediakeysession_update_1 =
      clnt_call _ _ 5 (xdr_rpc_request_session_update xdr) xdr.int

  unfoldable pub rpc_open_cdm_mediakeysession_release_1 : RequestSessionRelease → M (Option ℤ)
  rpc_open_cdm_mediakeysession_release_1 =
      clnt_call _ _ 6 (xdr_rpc_request_session_release xdr) xdr.int

  unfoldable pub rpc_open_cdm_mediaengine_1 : RequestMediaengineData → M (Option ℤ)
  rpc_open_cdm_mediaengine_1 = clnt_call _ _ 7 (xdr_rpc_request_mediaengine_data xdr) xdr.int

-- A server: what it replies to the bytes of an argument.
abbrev pub Server : Type 0
Server = ℕ → Bytes → M Reply

-- The RPC library carries an argument that was written to the server, and a reply that can be read back.
abbrev pub Delivers : ClntCall → Server → Type 1
Delivers clnt_call server =
    (A R : Type 0) (number : ℕ) (c : Codec A) (d : Codec R) (q : A) (args reply : Bytes) (r : R)
    (w w' : World)
    → c.put q ≡ some args
    → server number args w ≡ ok (replied reply, w')
    → d.get reply ≡ some (r, [])
    → clnt_call A R number c d q w ≡ ok (some r, w')

module _ (xdr : Xdr) (platform : Platform) (unspecified starts : Bool) (clnt_call : ClntCall)
    (delivers : Delivers clnt_call (open_cdm_1 xdr platform unspecified starts)) where
  clnt_call_lem :
      {A : Type 0} (c : Codec A) (number : ℕ) (q : A) (args reply : Bytes) (m : M ℤ) (r : ℤ)
      (w w' : World)
      → IsXdr xdr
      → c.put q ≡ some args
      → xdr.int.put r ≡ some reply
      → open_cdm_1 xdr platform unspecified starts number args w
        ≡ (m >>= send_generic xdr platform unspecified starts) w
      → m w ≡ ok (r, w')
      → clnt_call _ _ number c xdr.int q w ≡ ok (some r, w')
  unfolding send_generic send
  clnt_call_lem c number q args reply m r w w' h e written served done =
      delivers _ _ number c xdr.int q args reply r w w' e (served ∙ ground (arith, done, written))
        (ap xdr.int.get (sym (append-nil reply)) ∙ h.int r reply [] written)

  -- With an RPC library that delivers, and an XDR library that reads what it writes and wrote the request
  -- and the answer: where the procedure returns, the browser's call of `Update` gives its answer, and
  -- leaves the server as the procedure does.
  pub update_1_lem :
      (q : RequestSessionUpdate) (args reply : Bytes) (r : ℤ) (w w' : World)
      → IsXdr xdr
      → (xdr_rpc_request_session_update xdr).put q ≡ some args
      → xdr.int.put r ≡ some reply
      → rpc_update platform q.session_id q.key starts w ≡ ok (r, w')
      → rpc_open_cdm_mediakeysession_update_1 xdr clnt_call q w ≡ ok (some r, w')
  unfolding rpc_open_cdm_mediakeysession_update_1 answer
  update_1_lem q args reply r w w' h e written done =
      clnt_call_lem (xdr_rpc_request_session_update xdr) 5 q args reply
        (rpc_update platform q.session_id q.key starts) r w w' h e written
        (rw append-nil at
          (open_cdm_1-put xdr platform unspecified starts (session_update q) args [] w h e))
        done
