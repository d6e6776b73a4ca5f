-- ===== src/Service/Invariant.antt =====
-- service.cpp: what holds of `g_mediaKeySessions` between two requests, whatever was asked before.
use open_content_decryption.Base.{
  ℕ, ◌+◌, ◌^◌, ◌<◌, ◌≡◌, ◌≢◌, refl, sym, ◌∙◌, Bool, true, false, none, some, Bytes, length, arith,
  get_elem?, set, inl, inr, Option-cases,
}
use open_content_decryption.Decimal.{decimal, decimal_injective}
use open_content_decryption.World.{World, Ptr, initial, cdmi_s_false}
use open_content_decryption.World.Slots.{
  get_elem?-append_last, get_elem?-append_old, get_elem?-set_ne,
}
use open_content_decryption.Service.Create.{created, session_of}
use open_content_decryption.Service.Sessions.{
  lookup, touch, erase, IsMap, lookup-touch, insert-IsMap, touch-IsMap, erase-IsMap,
  lookup-insert_cases, lookup-erase_cases,
}

-- An id has one entry, and what is open under an id is a living session of that id, with a callback to
-- itself. Ids were given out by the counter.
pub record Inv (w : World) : Type 0 where
  pub is_map : IsMap w.media_key_sessions
  pub sound :
      (sid : Bytes) (p : Ptr)
      → lookup sid w.media_key_sessions ≡ some p
      → get_elem? w.key_sessions p ≡ some (session_of sid p)
  pub issued :
      (sid : Bytes) (p : Ptr)
      → lookup sid w.media_key_sessions ≡ some p
      → (n : ℕ) × (n < w.session_cnt) × (sid ≡ decimal n)
  pub no_keys : w.media_keys ≡ false → w.create_session_cr ≡ cdmi_s_false

pub initial-Inv : Inv initial
unfolding lookup
initial-Inv = record {
  is_map = tt;
  sound = λ sid p h. cc;
  issued = λ sid p h. cc;
  no_keys = λ h. refl;
}

-- A change that leaves the objects, the counter and the open sessions alone.
pub record Leaves (sid : Bytes) (w w' : World) : Type 0 where
  pub objects : w'.key_sessions ≡ w.key_sessions
  pub sessions : w'.media_key_sessions ≡ touch sid w.media_key_sessions
  pub counter : w'.session_cnt ≡ w.session_cnt
  pub factory : w'.media_keys ≡ w.media_keys
  pub answer : w'.create_session_cr ≡ w.create_session_cr

pub Leaves-Inv : (sid : Bytes) (w w' : World) → Leaves sid w w' → Inv w → Inv w'
Leaves-Inv sid w w' l v = record {
  is_map = rw l.sessions (touch-IsMap sid w.media_key_sessions v.is_map);
  sound = λ j p h.
      rw l.objects
        (v.sound j p (sym (lookup-touch sid j w.media_key_sessions) ∙ rw l.sessions at h));
  issued = λ j p h.
      rw l.counter
        (v.issued j p (sym (lookup-touch sid j w.media_key_sessions) ∙ rw l.sessions at h));
  no_keys = λ h. l.answer ∙ v.no_keys (sym l.factory ∙ h);
}

-- A new session's id is not open: no session that is open has it.
pub fresh : (w : World) → Inv w → lookup (decimal w.session_cnt) w.media_key_sessions ≡ none
fresh w v = elim (Option-cases (lookup (decimal w.session_cnt) w.media_key_sessions)) [
  | inl e ↦ e
  | inr (p, e) ↦
      let (n, below, same) = v.issued (decimal w.session_cnt) p e in
      absurd (omega (arith, decimal_injective w.session_cnt n same))
]

created_sound :
    (prog_num : ℕ) (starts : Bool) (w : World)
    → Inv w
    → (j : Bytes) (p : Ptr) → lookup j (created prog_num starts w).media_key_sessions ≡ some p
    → get_elem? (created prog_num starts w).key_sessions p ≡ some (session_of j p)
unfolding created
created_sound prog_num starts w v j p h =
    elim (lookup-insert_cases (decimal w.session_cnt) j (length w.key_sessions) p
      w.media_key_sessions h) [
        | inl (same_id, same) ↦ rw (← same, ← same_id) (get_elem?-append_last w.key_sessions _)
        | inr old ↦ get_elem?-append_old w.key_sessions _ _ p (v.sound j p old)
      ]

created_issued :
    (prog_num : ℕ) (starts : Bool) (w : World)
    → w.session_cnt + 1 < 2 ^ 32
    → Inv w
    → (j : Bytes) (p : Ptr) → lookup j (created prog_num starts w).media_key_sessions ≡ some p
    → (n : ℕ) × (n < (created prog_num starts w).session_cnt) × (j ≡ decimal n)
unfolding created
created_issued prog_num starts w small v j p h =
    elim (lookup-insert_cases (decimal w.session_cnt) j (length w.key_sessions) p
      w.media_key_sessions h) [
        | inl (same_id, same) ↦ (w.session_cnt, omega arith, sym same_id)
        | inr old ↦ let (n, below, e) = v.issued j p old in (n, omega arith, e)
      ]

pub created-Inv :
    (prog_num : ℕ) (starts : Bool) (w : World)
    → w.session_cnt + 1 < 2 ^ 32
    → w.media_keys ≡ true
    → Inv w
    → Inv (created prog_num starts w)
unfolding created
created-Inv prog_num starts w small made v = record {
  is_map = insert-IsMap (decimal w.session_cnt) _ w.media_key_sessions v.is_map;
  sound = created_sound prog_num starts w v;
  issued = created_issued prog_num starts w small v;
  no_keys = λ h. cc;
}

-- The state after a session was released: its object is freed and its entry gone.
unfoldable pub released : Bytes → Ptr → World → World
released sid p w = record w {
  media_key_sessions = erase sid (touch sid w.media_key_sessions);
  key_sessions = set w.key_sessions p (record (session_of sid p) { live = false });
}

-- Two open sessions are two objects.
distinct :
    (w : World) (i j : Bytes) (p q : Ptr)
    → Inv w
    → lookup i w.media_key_sessions ≡ some p
    → lookup j w.media_key_sessions ≡ some q
    → i ≢ j
    → p ≢ q
distinct w i j p q v hi hj ne e = ne (cc (v.sound i p hi, v.sound j q hj, e))

pub released-Inv :
    (sid : Bytes) (p : Ptr) (w : World)
    → lookup sid w.media_key_sessions ≡ some p
    → Inv w
    → Inv (released sid p w)
unfolding released
released-Inv sid p w open_session v = record {
  is_map = erase-IsMap sid _ (touch-IsMap sid w.media_key_sessions v.is_map);
  sound = λ j q h.
      let (other, old) = was j q h in
      get_elem?-set_ne w.key_sessions p q _ (distinct w sid j p q v open_session old other)
      ∙ v.sound j q old;
  issued = λ j q h. v.issued j q (was j q h).1;
  no_keys = v.no_keys;
}
  where
    was :
        (j : Bytes) (q : Ptr)
        → lookup j (erase sid (touch sid w.media_key_sessions)) ≡ some q
        → (sid ≢ j) × (lookup j w.media_key_sessions ≡ some q)
    was j q h =
        let (other, e) =
          lookup-erase_cases sid j q (touch sid w.media_key_sessions)
            (touch-IsMap sid w.media_key_sessions v.is_map) h in
        (other, sym (lookup-touch sid j w.media_key_sessions) ∙ e)
