-- ===== src/Tests/Browser.antt =====
-- A browser that keeps what its procedures are called with, and the theorems on callbacks, applied.
use open_content_decryption.Base.{true, false, none, some, List, [], ◌∷◌, ◌++◌, Bytes, codes}
use open_content_decryption.Callbacks.{before_nul}
use open_content_decryption.Rpc.{Codec, replied}
use open_content_decryption.Rpc.CallbackDelivery.{RemoteCallback}
use open_content_decryption.Rpc.CallbackProgram.{Browser, CallbackCall, open_cdm_callback_1}
use open_content_decryption.Tests.History.{sid}
use open_content_decryption.Tests.Wire.{text, wire}
use open_content_decryption.World.{Sent, Event}

abbrev string : Codec Bytes
string = record { put = λ s. text.put (before_nul s); get = text.get }

-- Its procedures return NULL for errors only.
abbrev browser : Browser
browser = record {
  State = List RemoteCallback;
  on_message_1_svc = λ q s. (true, s ++ RemoteCallback.message q ∷ []);
  on_ready_1_svc = λ q s. (true, s ++ RemoteCallback.ready q ∷ []);
  on_error_1_svc = λ q s. (false, s ++ RemoteCallback.error q ∷ []);
  on_key_status_update_1_svc = λ q s. (true, s ++ RemoteCallback.key_status_update q ∷ []);
}

-- An RPC library that carries everything to `open_cdm_callback_1` and back.
carry : CallbackCall browser
carry A R n c d q s = elim (c.put q) [
  | none ↦ (none, s)
  | some args ↦
      (let (reply, s1) = open_cdm_callback_1 wire string browser n args s in
        (
          elim reply [
            | replied bytes ↦ elim (d.get bytes) [ none ↦ none | some (r, _) ↦ some r ]
            | _ ↦ none
          ],
          s1,
        ))
]

abbrev sent : List Sent
sent =
    record { program = 7; session_id = sid; event = Event.on_message (codes "u") (codes "u") }
    ∷ record { program = 8; session_id = sid; event = Event.on_ready }
    ∷ record { program = 7; session_id = sid; event = Event.on_key_status_update (codes "k") }
    ∷ []
