-- ===== src/JsonWebKey/Text.antt =====
-- Tokens that lie inside the text: `jsoneq` compares the text of a token with a tag, and
-- `token_string` reads it.
use open_content_decryption.Base.{
  ℕ, ◌+◌, ◌≡◌, refl, ap, ◌∙◌, ◌≢◌, true, ◌&&◌, some, List, [], ◌∷◌, ◌++◌, Bytes, All, arith, ◌==◌,
  leb, inl, inr, Bool-cases, if◌then◌else◌, length, length-append, equal, equal_iff, drop,
  take-append, get_elem?, append_assoc,
}
use open_content_decryption.Base.Int.{pos, negsuc, ◌-ℤ◌}
use open_content_decryption.Base.Outcome.{ok}
use open_content_decryption.JsonWebKey.{
  Token, JsmnType, is_string, c_str, memory_at, strncmp, jsoneq, string_at, token_string,
}

-- The token `tok` spans the piece `s` of the text.
pub record Spans (json : Bytes) (tok : Token) (s : Bytes) : Type 0 where
  pub before : Bytes
  pub behind : Bytes
  pub splits : json ≡ before ++ (s ++ behind)
  pub starts : tok.start ≡ pos (length before)
  pub stops : tok.stop ≡ pos (length before + length s)

drop-append : (xs ys : Bytes) → drop (length xs) (xs ++ ys) ≡ ys
drop-append [] ys = refl
drop-append (x ∷ xs) ys = drop-append xs ys

memory_at-append :
    (before s behind : Bytes)
    → memory_at (before ++ (s ++ behind)) (pos (length before)) ≡ ok (s ++ (behind ++ 0 ∷ []))
unfolding memory_at
memory_at-append before s behind =
    elim (Bool-cases (leb (length before) (length (before ++ (s ++ behind))))) [
      | inl e ↦ rw e (
          ap ok (
            ap (drop (length before)) (append_assoc before (s ++ behind) (0 ∷ []))
            ∙ drop-append before _
            ∙ append_assoc s behind (0 ∷ [])))
      | inr e ↦ absurd (ground (arith, length-append before (s ++ behind)))
    ]

memory_at-Spans :
    {json s : Bytes} {tok : Token} (p : Spans json tok s)
    → memory_at json tok.start ≡ ok (s ++ (p.behind ++ 0 ∷ []))
memory_at-Spans {json} {s} {tok} p =
    rw p.starts (
      ap (λ j. memory_at j (pos (length p.before))) p.splits ∙ memory_at-append p.before s p.behind)

span_length :
    {json s : Bytes} {tok : Token} → Spans json tok s → tok.stop -ℤ tok.start ≡ pos (length s)
unfolding ◌-ℤ◌
span_length p = rw (p.starts, p.stops) (ground arith)

-- A tag has no NUL.
abbrev pub IsText : Bytes → Type 0
IsText = All (λ c. c ≢ 0)

strncmp-equal :
    (s tag more : Bytes)
    → IsText tag
    → length s ≡ length tag
    → strncmp (length tag) (s ++ more) (c_str tag) ≡ equal s tag
unfolding strncmp equal
strncmp-equal [] [] more h e = refl
strncmp-equal [] (y ∷ tag) more h e = absurd (omega arith)
strncmp-equal (x ∷ s) [] more h e = absurd (omega arith)
strncmp-equal (x ∷ s) (y ∷ tag) more (hy, ht) e = ground (arith, strncmp-equal s tag more ht)

length-equal : (s t : Bytes) → equal s t ≡ true → length s ≡ length t
length-equal s t e = ap length ((equal_iff s t).0 e)

-- Where the lengths agree the characters are compared; where they do not, the texts differ.
compare_tag :
    (kind : JsmnType) (s tag more : Bytes)
    → IsText tag
    → (if is_string kind && length tag == length s
        then ok (if strncmp (length tag) (s ++ more) (c_str tag) then pos 0 else negsuc 0)
        else ok (negsuc 0))
      ≡ ok (if is_string kind && equal s tag then pos 0 else negsuc 0)
compare_tag kind s tag more h = elim (Bool-cases (length tag == length s)) [
  | inl same ↦ rw (strncmp-equal s tag more h (ground arith)) (ground arith)
  | inr differ ↦ ground (arith, length-equal s tag)
]

module _ {json s : Bytes} {tok : Token} (p : Spans json tok s) where
  -- `jsoneq` on a token of the text gives 0 exactly if it is a string with the text of the tag.
  pub jsoneq-Spans :
      (tag : Bytes)
      → IsText tag
      → jsoneq json tok tag ≡ ok (if is_string tok.kind && equal s tag then pos 0 else negsuc 0)
  unfolding jsoneq
  jsoneq-Spans tag h =
      rw (span_length p, memory_at-Spans p) (compare_tag tok.kind s tag (p.behind ++ 0 ∷ []) h)

  pub string_at-Spans : string_at json tok.start (tok.stop -ℤ tok.start) ≡ ok s
  string_at-Spans =
      rw (span_length p, memory_at-Spans p)
        (rw take-append (ground (arith, length-append s (p.behind ++ 0 ∷ []))))

-- `std::string(jchr + t[i].start, …)` is the piece that the token spans.
pub token_string-Spans :
    {json s : Bytes} {tok : Token} (t : List Token) (i : ℕ)
    → get_elem? t i ≡ some tok
    → Spans json tok s
    → token_string json t i ≡ ok s
unfolding token_string
token_string-Spans t i e p = rw e (string_at-Spans p)
