-- ===== src/Tests/Modules.antt =====
-- The theorems on any content decryption module, applied to the stub.
use open_content_decryption.Base.{◌≡◌, ◌∙◌, refl, arith, true, some, []}
use open_content_decryption.Base.Int.{pos}
use open_content_decryption.Base.Outcome.{ok}
use open_content_decryption.Cdmi.{Cdm}
use open_content_decryption.Cdmi.Conforming.{StubLives, CounterRoom}
use open_content_decryption.Cdmi.Contract.{Conforms}
use open_content_decryption.Cdmi.Stub.{stub}
use open_content_decryption.Cdmi.StubConforms.{stub-Conforms}
use open_content_decryption.Decimal.{decimal}
use open_content_decryption.Service.AnyCdm.{rpc_mediakeys_by, rpc_create_session_by}
use open_content_decryption.Service.AnyCdm.Linked.{stub_linked}
use open_content_decryption.Service.AnyCdm.Requests.{
  Request, Served, at_start, then_asked, request_label, Served-Serves,
}
use open_content_decryption.Service.AnyCdm.Table.{Table}
use open_content_decryption.Service.Create.{rpc_create_session_lem}
use open_content_decryption.Service.Refinement.{rpc_mediakeys_lem}
use open_content_decryption.Service.Steps.{Move, view}
use open_content_decryption.Tests.Fixture.{platform, platform-HasRoom}
use open_content_decryption.Tests.History.{ready, opened}
use open_content_decryption.World.{initial, cdmi_success}

abbrev module_stub : Cdm
module_stub = stub platform true true (pos 0)

conforms : Conforms StubLives module_stub CounterRoom
conforms = stub-Conforms platform platform-HasRoom true true (pos 0)

linked_create :
    rpc_create_session_by module_stub platform.usable [] [] 7 ready
    ≡ ok (record { platform_val = cdmi_success; session_id = some (decimal 10) }, opened)
linked_create =
    (stub_linked platform true true (pos 0) [] [] [] [] [] 7 (pos 0) (pos 0) ready).2
    ∙ rpc_create_session_lem platform.usable true 7 ready platform-HasRoom (omega arith) refl

linked_keys : rpc_mediakeys_by module_stub platform.usable initial ≡ ok (cdmi_success, ready)
linked_keys =
    (stub_linked platform true true (pos 0) [] [] [] [] [] 7 (pos 0) (pos 0) initial).1
    ∙ rpc_mediakeys_lem initial

abbrev creating : Request module_stub platform.usable CounterRoom ready opened
creating = Request.create [] [] 7 _ (omega arith) linked_create

ready-Served : Served module_stub platform.usable CounterRoom StubLives ready
ready-Served = then_asked (at_start initial refl) (Request.mediakeys cdmi_success linked_keys)

Served-Serves_example :
    Table StubLives opened × Move (request_label creating) (view ready) (view opened)
Served-Serves_example =
    Served-Serves StubLives module_stub CounterRoom conforms platform.usable ready-Served creating
