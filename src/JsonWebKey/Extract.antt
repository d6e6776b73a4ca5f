-- ===== src/JsonWebKey/Extract.antt =====
-- The loop of `ExtractKeysFromJWKSet` finds the members that the tokens spell.
use native.Mathlib.Numerals.{add-one}
use open_content_decryption.Base.{
  ℕ, zero, suc, ◌+◌, ◌≤◌, ◌≡◌, refl, ap, sym, ◌∙◌, true, false, not, ◌&&◌, Option, none, some, List,
  [], ◌∷◌, Bytes, arith, ◌==◌, ltb, inl, inr, if◌then◌else◌, length, equal, get_elem?, get_elem?-lt,
}
use open_content_decryption.Base.Outcome.{Outcome, ok}
use open_content_decryption.JsonWebKey.{
  Token, Scan, is_string, string, alg_tag, key_tag, key_id_tag, token_string, scan_token,
  scan_tokens, read_algorithm, read_key, read_key_id, max_json_tokens,
}
use open_content_decryption.JsonWebKey.Text.{Spans, IsText, jsoneq-Spans, token_string-Spans}
use open_content_decryption.JsonWebKey.Members.{
  is_tag_text, tag_cases, Member, Reads, done, other, member, found,
}

alg_tag-IsText : IsText alg_tag
alg_tag-IsText = omega arith

key_tag-IsText : IsText key_tag
key_tag-IsText = omega arith

key_id_tag-IsText : IsText key_id_tag
key_id_tag-IsText = omega arith

-- A token that is no tag changes nothing.
scan_token-other :
    {json s : Bytes} (t : List Token) (i : ℕ) (tok : Token) (sc : Scan)
    → get_elem? t i ≡ some tok
    → Spans json tok s
    → (is_string tok.kind && is_tag_text s) ≡ false
    → scan_token json t i sc ≡ ok (some sc)
unfolding scan_token is_tag_text
scan_token-other {json} {s} t i tok sc e p q =
    rw
      (
        e,
        jsoneq-Spans p alg_tag alg_tag-IsText,
        jsoneq-Spans p key_tag key_tag-IsText,
        jsoneq-Spans p key_id_tag key_id_tag-IsText,
      )
      (ground arith)

-- The body of the loop at the name of a member, whose value is the next token.
abbrev next : Bytes → Bytes → Scan → Option Scan
next name value sc =
    if equal name alg_tag
    then some (record sc { algorithm = value })
    else if equal name key_tag
    then (if not (length sc.key == 0) then none else some (record sc { key = value }))
    else if equal name key_id_tag
    then (if not (length sc.key_id == 0) then none else some (record sc { key_id = value }))
    else some sc

scan_token-member :
    {json name value : Bytes} (t : List Token) (i : ℕ) (tok tok' : Token) (sc : Scan)
    → length t ≤ max_json_tokens
    → get_elem? t i ≡ some tok
    → Spans json tok name
    → tok.kind ≡ string
    → get_elem? t (suc i) ≡ some tok'
    → Spans json tok' value
    → scan_token json t i sc ≡ ok (next name value sc)
unfolding scan_token read_algorithm read_key read_key_id
scan_token-member {json} {name} {value} t i tok tok' sc cap e p k e' p' =
    let text : token_string json t (i + 1) ≡ ok value =
      rw add-one (token_string-Spans t (suc i) e' p') in
    let room : ltb (i + 1) max_json_tokens ≡ true = ground (arith, get_elem?-lt t (suc i) e') in
    rw
      (
        e,
        jsoneq-Spans p alg_tag alg_tag-IsText,
        jsoneq-Spans p key_tag key_tag-IsText,
        jsoneq-Spans p key_id_tag key_id_tag-IsText,
        k,
        text,
        room,
      )
      (ground arith)

found_key :
    (key value : Bytes) (sc : Scan) (ms : List Member)
    → sc.key ≡ key
    → found sc ((key_tag, value) ∷ ms)
      ≡ elim (next key_tag value sc) [ none ↦ none | some s' ↦ found s' ms ]
unfolding found equal
found_key [] value sc ms e = rw e refl
found_key (x ∷ xs) value sc ms e = rw e (ground arith)

found_key_id :
    (key_id value : Bytes) (sc : Scan) (ms : List Member)
    → sc.key_id ≡ key_id
    → found sc ((key_id_tag, value) ∷ ms)
      ≡ elim (next key_id_tag value sc) [ none ↦ none | some s' ↦ found s' ms ]
unfolding found equal
found_key_id [] value sc ms e = rw e refl
found_key_id (x ∷ xs) value sc ms e = rw e (ground arith)

found-member :
    (name value : Bytes) (sc : Scan) (ms : List Member)
    → is_tag_text name ≡ true
    → found sc ((name, value) ∷ ms)
      ≡ elim (next name value sc) [ none ↦ none | some s' ↦ found s' ms ]
unfolding found equal
found-member name value sc ms h = elim (tag_cases name h) [
  | inl a ↦ rw a refl
  | inr (inl k) ↦ rw k (found_key sc.key value sc ms refl)
  | inr (inr kid) ↦ rw kid (found_key_id sc.key_id value sc ms refl)
]

-- A position that is read to the end is not behind it.
Reads-le :
    {json : Bytes} {t : List Token} {n i : ℕ} {ms : List Member} → Reads json t n i ms → i ≤ n
Reads-le (done e) = omega arith
Reads-le (other tok s e p q r) = omega (arith, Reads-le r)
Reads-le (member tok tok' name value e p k h e' p' q r) = omega (arith, Reads-le r)

through :
    (o : Option Scan) (ms : List Member) (rest : Scan → Outcome (Option Scan))
    → ((s : Scan) → rest s ≡ ok (found s ms))
    → let after : Outcome (Option Scan) = elim o [ none ↦ ok none | some s ↦ rest s ] in
      after ≡ ok (elim o [ none ↦ none | some s ↦ found s ms ])
through none ms rest h = refl
through (some s) ms rest h = h s

-- Where the tokens from a position on spell members up to the last token and fit the array, the
-- loop from this position ends with what `found` says of these members, in the algorithm, the key
-- and the key id, or with its failure.
pub scan_tokens-Reads :
    {json : Bytes} {t : List Token} {n i : ℕ} {ms : List Member} (rounds : ℕ) (sc : Scan)
    → length t ≤ max_json_tokens
    → i + rounds ≡ n
    → Reads json t n i ms
    → scan_tokens json t rounds i sc ≡ ok (found sc ms)
unfolding scan_tokens found
scan_tokens-Reads zero sc cap e (done e') = refl
scan_tokens-Reads (suc r) sc cap e (done e') = absurd (omega arith)
scan_tokens-Reads zero sc cap e (other tok s g p q rest) = absurd (omega (arith, Reads-le rest))
scan_tokens-Reads {t} {i} (suc r) sc cap e (other tok s g p q rest) =
    rw (scan_token-other t i tok sc g p q) (scan_tokens-Reads r sc cap (omega arith) rest)
scan_tokens-Reads zero sc cap e (member tok tok' name value g p k h g' p' q rest) =
    absurd (omega (arith, Reads-le rest))
scan_tokens-Reads (suc zero) sc cap e (member tok tok' name value g p k h g' p' q rest) =
    absurd (omega (arith, Reads-le rest))
scan_tokens-Reads {json} {t} {n} {i} (suc (suc r)) sc cap e
      (member {ms} tok tok' name value g p k h g' p' q rest) =
    rw (scan_token-member t i tok tok' sc cap g p k g' p') (
      through (next name value sc) ms (scan_tokens json t (suc r) (suc i)) (λ s'.
        rw (scan_token-other t (suc i) tok' s' g' p' q)
          (scan_tokens-Reads r s' cap (omega arith) rest))
      ∙ ap ok (sym (found-member name value sc ms h)))
