-- ===== src/Rpc/Codecs.antt =====
-- rpc/gen/opencdm_xdr_xdr.c: what was written is read again, by the routine of every struct.
use open_content_decryption.Base.{
  ◌≡◌, refl, ◌∙◌, some, ◌++◌, append_assoc, Bytes, Option-cases, inl, inr,
}
use open_content_decryption.Rpc.{
  Codec, Xdr, both, put_both, get_both, fields, xdr_rpc_request_is_type_supported,
  xdr_rpc_request_mediakeys, xdr_rpc_request_callback_info, xdr_rpc_request_create_session,
  xdr_rpc_request_load_session, xdr_rpc_request_session_update, xdr_rpc_request_session_release,
  xdr_rpc_request_mediaengine_data,
}

-- What is written is read again, and what follows is left.
abbrev pub IsCodec : {A : Type 0} → Codec A → Type 0
IsCodec {A} c = (a : A) (s rest : Bytes) → c.put a ≡ some s → c.get (s ++ rest) ≡ some (a, rest)

-- The XDR library reads what it writes.
pub record IsXdr (xdr : Xdr) : Type 0 where
  pub chars : IsCodec xdr.chars
  pub uint8s : IsCodec xdr.uint8s
  pub uint64 : IsCodec xdr.uint64
  pub uint32 : IsCodec xdr.uint32
  pub int32 : IsCodec xdr.int32
  pub int : IsCodec xdr.int

-- What is written is read again up to what the routine shows of a value, and what follows is left.
abbrev pub ReadsAs : {A : Type 0} → (A → A) → Codec A → Type 0
ReadsAs {A} shown c =
    (a : A) (s rest : Bytes) → c.put a ≡ some s → c.get (s ++ rest) ≡ some (shown a, rest)

pub both-ReadsAs :
    {A B : Type 0} (f : A → A) (g : B → B) (c : Codec A) (d : Codec B)
    → ReadsAs f c
    → ReadsAs g d
    → ReadsAs (λ x. (f x.0, g x.1)) (both c d)
unfolding both
both-ReadsAs f g c d hc hd (a, b) s rest h =
    let written : put_both c d a b ≡ some s = h in
    let read : (t : Bytes) → (both c d).get t ≡ get_both c d t = λ t. refl in
    elim (Option-cases (c.put a)) [
      | inl failed ↦ cc (rw (failed, put_both) at written)
      | inr (s1, first) ↦ elim (Option-cases (d.put b)) [
        | inl failed ↦ cc (rw (first, failed, put_both) at written)
        | inr (s2, second) ↦
            let whole : some (s1 ++ s2) ≡ some s = rw (first, second, put_both) at written in
            let same : s1 ++ s2 ≡ s = cc in
            read (s ++ rest)
            ∙ rw
                (
                  ← same,
                  append_assoc s1 s2 rest,
                  hc a s1 (s2 ++ rest) first,
                  hd b s2 rest second,
                  get_both,
                )
                refl
      ]
    ]

pub fields-ReadsAs :
    {A B : Type 0} (make : A → B) (take_apart : B → A) (f : A → A) (c : Codec A)
    → ReadsAs f c
    → ReadsAs (λ b. make (f (take_apart b))) (fields make take_apart c)
unfolding fields
fields-ReadsAs make take_apart f c hc b s rest h = rw (hc (take_apart b) s rest h) refl

both-IsCodec :
    {A B : Type 0} (c : Codec A) (d : Codec B) → IsCodec c → IsCodec d → IsCodec (both c d)
both-IsCodec c d hc hd = both-ReadsAs (λ a. a) (λ b. b) c d hc hd

fields-IsCodec :
    {A B : Type 0} (make : A → B) (take_apart : B → A) (c : Codec A)
    → ((b : B) → make (take_apart b) ≡ b)
    → IsCodec c
    → IsCodec (fields make take_apart c)
fields-IsCodec make take_apart c same hc b s rest h =
    rw (same b) at (fields-ReadsAs make take_apart (λ a. a) c hc b s rest h)

-- Each request comes back from the wire as it was written, whatever follows it: for the routine of
-- every request, over an XDR library that reads what it writes.
pub requests-IsCodec :
    (xdr : Xdr)
    → IsXdr xdr
    → IsCodec (xdr_rpc_request_is_type_supported xdr)
      × IsCodec (xdr_rpc_request_mediakeys xdr)
      × IsCodec (xdr_rpc_request_create_session xdr)
      × IsCodec (xdr_rpc_request_load_session xdr)
      × IsCodec (xdr_rpc_request_session_update xdr)
      × IsCodec (xdr_rpc_request_session_release xdr)
      × IsCodec (xdr_rpc_request_mediaengine_data xdr)
unfolding xdr_rpc_request_is_type_supported xdr_rpc_request_mediakeys xdr_rpc_request_callback_info
    xdr_rpc_request_create_session xdr_rpc_request_load_session xdr_rpc_request_session_update
    xdr_rpc_request_session_release xdr_rpc_request_mediaengine_data
requests-IsCodec xdr h =
    let number = both-IsCodec xdr.uint64 xdr.uint32 h.uint64 h.uint32 in
    let info = fields-IsCodec _ _ _ (λ r. refl) (both-IsCodec xdr.chars _ h.chars number) in
    let ids = both-IsCodec xdr.int32 xdr.int32 h.int32 h.int32 in
    (
      fields-IsCodec _ _ _ (λ r. refl) (both-IsCodec xdr.chars xdr.chars h.chars h.chars),
      fields-IsCodec _ _ _ (λ r. refl) h.chars,
      fields-IsCodec _ _ _ (λ r. refl)
          (both-IsCodec xdr.chars _ h.chars (both-IsCodec xdr.uint8s _ h.uint8s info)),
      fields-IsCodec _ _ _ (λ r. refl) h.chars,
      fields-IsCodec _ _ _ (λ r. refl) (both-IsCodec xdr.chars xdr.uint8s h.chars h.uint8s),
      fields-IsCodec _ _ _ (λ r. refl) h.chars,
      fields-IsCodec _ _ _ (λ r. refl)
          (both-IsCodec xdr.chars _ h.chars (both-IsCodec xdr.uint8s _ h.uint8s ids)),
    )
