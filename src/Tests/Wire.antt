-- ===== src/Tests/Wire.antt =====
-- A small wire format in place of the XDR library, and the theorems on requests that arrive, applied.
use open_content_decryption.Base.{
  ℕ, ◌≡◌, refl, arith, true, Option, none, some, [], ◌∷◌, ◌++◌, Bytes, length, length-append, leb,
  take, drop, take-append, codes, ◌==◌, if◌then◌else◌,
}
use open_content_decryption.Base.Int.{ℤ, pos, negsuc}
use open_content_decryption.Base.Outcome.{ok, fault}
use open_content_decryption.Rpc.{
  Codec, Xdr, RequestSessionUpdate, RequestCreateSession, xdr_rpc_request_is_type_supported,
  xdr_rpc_request_mediakeys, xdr_rpc_request_create_session, xdr_rpc_request_callback_info,
  xdr_rpc_request_load_session, xdr_rpc_request_session_update, xdr_rpc_request_session_release,
  xdr_rpc_request_mediaengine_data, open_cdm_1, both, fields,
}
use open_content_decryption.Rpc.Codecs.{IsCodec, IsXdr, requests-IsCodec}
use open_content_decryption.Rpc.Dispatch.{session_update, answer, open_cdm_1-put}
use open_content_decryption.Rpc.{replied}
use open_content_decryption.Rpc.Client.{
  ClntCall, Delivers, rpc_open_cdm_mediakeysession_update_1, update_1_lem,
}
use open_content_decryption.JsonWebKey.{KeyIdAndKeyPairs}
use open_content_decryption.Service.Requests.{updated}
use open_content_decryption.Tests.Fixture.{platform}
use open_content_decryption.Tests.History.{opened, sid, opened-updated}
use open_content_decryption.Tests.License.{response, key, key_id}
use open_content_decryption.World.{cdmi_success}

pub get_text : Bytes → Option (Bytes × Bytes)
get_text [] = none
get_text (n ∷ r) = if leb n (length r) then some (take n r, drop n r) else none

pub get_number : Bytes → Option (ℕ × Bytes)
get_number [] = none
get_number (n ∷ r) = some (n, r)

pub get_integer : Bytes → Option (ℤ × Bytes)
get_integer (sign ∷ n ∷ r) = if sign == 0 then some (pos n, r) else some (negsuc n, r)
get_integer _ = none

pub put_integer : ℤ → Option Bytes
put_integer (pos n) = some (0 ∷ n ∷ [])
put_integer (negsuc n) = some (1 ∷ n ∷ [])

abbrev pub text : Codec Bytes
text = record { put = λ s. some (length s ∷ s); get = get_text }

abbrev natural : Codec ℕ
natural = record { put = λ n. some (n ∷ []); get = get_number }

abbrev integer : Codec ℤ
integer = record { put = put_integer; get = get_integer }

abbrev pub wire : Xdr
wire = record {
  chars = text;
  uint8s = text;
  uint64 = natural;
  uint32 = natural;
  int32 = integer;
  int = integer;
}

drop_front : (s rest : Bytes) → drop (length s) (s ++ rest) ≡ rest
drop_front [] rest = refl
drop_front (c ∷ s) rest = drop_front s rest

fits : (s rest : Bytes) → leb (length s) (length (s ++ rest)) ≡ true
fits s rest = ground (arith, length-append s rest)

pub text-IsCodec : IsCodec text
unfolding get_text
text-IsCodec a s rest h =
    let same : length a ∷ a ≡ s = cc in
    rw (← same) (rw (fits a rest, take-append a rest, drop_front a rest) refl)

natural-IsCodec : IsCodec natural
unfolding get_number
natural-IsCodec a s rest h = let same : a ∷ [] ≡ s = cc in rw (← same) refl

integer-IsCodec : IsCodec integer
unfolding get_integer put_integer
integer-IsCodec (pos n) s rest h = let same : 0 ∷ n ∷ [] ≡ s = cc in rw (← same) refl
integer-IsCodec (negsuc n) s rest h = let same : 1 ∷ n ∷ [] ≡ s = cc in rw (← same) refl

pub wire-IsXdr : IsXdr wire
wire-IsXdr = record {
  chars = text-IsCodec;
  uint8s = text-IsCodec;
  uint64 = natural-IsCodec;
  uint32 = natural-IsCodec;
  int32 = integer-IsCodec;
  int = integer-IsCodec;
}

requests-IsCodec_example :
    IsCodec (xdr_rpc_request_is_type_supported wire)
    × IsCodec (xdr_rpc_request_mediakeys wire)
    × IsCodec (xdr_rpc_request_create_session wire)
    × IsCodec (xdr_rpc_request_load_session wire)
    × IsCodec (xdr_rpc_request_session_update wire)
    × IsCodec (xdr_rpc_request_session_release wire)
    × IsCodec (xdr_rpc_request_mediaengine_data wire)
requests-IsCodec_example = requests-IsCodec wire wire-IsXdr

abbrev asked : RequestSessionUpdate
asked = record { session_id = sid; key = response }

abbrev asked_bytes : Bytes
asked_bytes = length sid ∷ (sid ++ (length response ∷ response))

asked_put : (xdr_rpc_request_session_update wire).put asked ≡ some asked_bytes
unfolding xdr_rpc_request_session_update both fields
asked_put = refl

open_cdm_1-put_example :
    open_cdm_1 wire platform true true 5 (asked_bytes ++ (7 ∷ [])) opened
    ≡ answer wire platform true true (session_update asked) opened
open_cdm_1-put_example =
    open_cdm_1-put wire platform true true (session_update asked) asked_bytes (7 ∷ []) opened
      wire-IsXdr asked_put

abbrev wanted : RequestCreateSession
wanted = record {
  init_data_type = codes "cenc";
  init_data = [];
  callback_info = record { hostname = codes "h"; prog_num = 7; prog_version = 1 };
}

abbrev wanted_bytes : Bytes
wanted_bytes = 4 ∷ (codes "cenc" ++ (0 ∷ 1 ∷ (codes "h" ++ (7 ∷ 1 ∷ []))))

wanted_put : (xdr_rpc_request_create_session wire).put wanted ≡ some wanted_bytes
unfolding xdr_rpc_request_create_session xdr_rpc_request_callback_info both fields
wanted_put = refl

-- An RPC library that carries everything to `open_cdm_1` and back.
carry : ClntCall
carry A R number c d q w = elim (c.put q) [
  | none ↦ ok (none, w)
  | some args ↦ elim (open_cdm_1 wire platform true true number args w) [
    | fault x ↦ fault x
    | ok (answered, w') ↦ elim answered [
      | replied reply ↦ elim (d.get reply) [ none ↦ ok (none, w') | some (r, _) ↦ ok (some r, w') ]
      | _ ↦ ok (none, w')
    ]
  ]
]

carry-Delivers : Delivers carry (open_cdm_1 wire platform true true)
unfolding carry
carry-Delivers A R number c d q args reply r w w' e served read = ground (arith, e, served, read)

abbrev asked_keys : KeyIdAndKeyPairs
asked_keys = (key_id, key) ∷ []

answer_written : wire.int.put cdmi_success ≡ some (0 ∷ 0 ∷ [])
unfolding put_integer
answer_written = refl

update_1_lem_example :
    rpc_open_cdm_mediakeysession_update_1 wire carry asked opened
    ≡ ok (some cdmi_success, updated sid 0 asked_keys opened)
update_1_lem_example =
    update_1_lem wire platform true true carry carry-Delivers asked asked_bytes (0 ∷ 0 ∷ [])
      cdmi_success opened (updated sid 0 asked_keys opened) wire-IsXdr asked_put answer_written
      opened-updated
