-- ===== src/Cdmi/Conforming.antt =====
-- cdmi-stub: the session objects of the stub, and what writes leave of them.
use open_content_decryption.Base.{
  ℕ, ◌+◌, ◌^◌, ◌%◌, ◌<◌, ◌≡◌, ◌≢◌, refl, ap, sym, ◌∙◌, true, false, none, some, Option, List, [],
  ◌∷◌, ◌++◌, Bytes, length, arith, get_elem?, set, inl, inr, Bool-cases, ◌==◌, ==_iff,
}
use open_content_decryption.Base.Outcome.{ok, Outcome-cases}
use open_content_decryption.Cdmi.Contract.{Keeps}
use open_content_decryption.Decimal.{decimal, decimal_injective}
use open_content_decryption.Service.Create.{new_slot}
use open_content_decryption.World.{World, Ptr, KeySession, Callback, Slot, Task, alive, deref}
use open_content_decryption.World.Slots.{
  alive-eq-ok, get_elem?-append_last, get_elem?-append_old, get_elem?-set_ne, get_elem?-set_self,
}

abbrev pub slot_of : Bytes → Option Callback → Slot KeySession
slot_of sid callback = record {
  content = record { session_id = sid; callback = callback };
  live = true;
}

-- A session object that was not destroyed, under an id that the counter gave out.
pub record StubLives (sid : Bytes) (p : Ptr) (w : World) : Type 0 where
  pub callback : Option Callback
  pub here : get_elem? w.key_sessions p ≡ some (slot_of sid callback)
  pub number : ℕ
  pub below : number < w.session_cnt
  pub text : sid ≡ decimal number

-- The counter does not come round with the next session.
abbrev pub CounterRoom : World → Type 0
CounterRoom w = w.session_cnt + 1 < 2 ^ 32

-- What leaves the objects and the counter alone keeps the sessions.
pub same_objects :
    (w w' : World)
    → w'.media_key_sessions ≡ w.media_key_sessions
    → w'.key_sessions ≡ w.key_sessions
    → w'.session_cnt ≡ w.session_cnt
    → Keeps StubLives w w'
same_objects w w' table objects counter = record {
  sessions = table;
  lives = λ sid p l. record {
    callback = l.callback;
    here = ap (λ xs. get_elem? xs p) objects ∙ l.here;
    number = l.number;
    below = omega (arith, l.below);
    text = l.text;
  };
}

pub one_id_lem : (i j : Bytes) (p : Ptr) (w : World) → StubLives i p w → StubLives j p w → i ≡ j
one_id_lem i j p w l l' = cc (l.here, l'.here)

-- `CreateMediaKeySession` puts one object more at the end.
abbrev pub added : World → World
added w = record w {
  session_cnt = (w.session_cnt + 1) % 2 ^ 32;
  key_sessions = w.key_sessions ++ new_slot (decimal w.session_cnt) ∷ [];
}

pub added-Lives :
    (w : World) (sid : Bytes) (p : Ptr)
    → CounterRoom w
    → StubLives sid p w
    → StubLives sid p (added w)
added-Lives w sid p room l = record {
  callback = l.callback;
  here = get_elem?-append_old w.key_sessions _ _ p l.here;
  number = l.number;
  below = omega (arith, l.below);
  text = l.text;
}

pub new-Lives :
    (w : World)
    → CounterRoom w
    → StubLives (decimal w.session_cnt) (length w.key_sessions) (added w)
new-Lives w room = record {
  callback = none;
  here = get_elem?-append_last w.key_sessions _;
  number = w.session_cnt;
  below = omega arith;
  text = refl;
}

pub fresh_id : (w : World) (q : Ptr) → StubLives (decimal w.session_cnt) q w → ⊥
fresh_id w q l = omega (arith, l.below, decimal_injective w.session_cnt l.number l.text)

pub deref-eq-ok :
    (p : Ptr) (w w' : World) (s : KeySession)
    → deref p w ≡ ok (s, w')
    → (get_elem? w.key_sessions p ≡ some (record { content = s; live = true })) × (w ≡ w')
unfolding deref
deref-eq-ok p w w' s h = elim (Outcome-cases (alive (get_elem? w.key_sessions p))) [
  | inr (e, failed) ↦ cc (rw (failed, deref) at h)
  | inl (t, given) ↦
      let same : t ≡ s = ground (arith, h, given) in
      (alive-eq-ok _ s (given ∙ ap ok same), ground (arith, h, given))
]

pub apart : (p q : Ptr) → (p == q) ≡ false → p ≢ q
apart p q h = ground (arith, ==_iff p q)

-- `Run` writes the callback of its own session.
abbrev pub written : Ptr → KeySession → Callback → List Task → World → World
written p s cb threads w = record w {
  key_sessions =
      set w.key_sessions p (record { content = record s { callback = some cb }; live = true });
  threads = threads;
}

pub written-Keeps :
    (p : Ptr) (s : KeySession) (cb : Callback) (threads : List Task) (w : World)
    → get_elem? w.key_sessions p ≡ some (record { content = s; live = true })
    → Keeps StubLives w (written p s cb threads w)
written-Keeps p s cb threads w here = record {
  sessions = refl;
  lives = λ sid q l. elim (Bool-cases (p == q)) [
    | inl hit ↦
        let same : p ≡ q = (==_iff p q).0 hit in
        record {
          callback = some cb;
          here =
              ap (get_elem? (set w.key_sessions p _)) (sym same)
              ∙ get_elem?-set_self w.key_sessions p _ _ here
              ∙ named sid q l same;
          number = l.number;
          below = l.below;
          text = l.text;
        }
    | inr miss ↦ record {
      callback = l.callback;
      here = get_elem?-set_ne w.key_sessions p q _ (apart p q miss) ∙ l.here;
      number = l.number;
      below = l.below;
      text = l.text;
    }
  ];
}
  where
    named :
        (sid : Bytes) (q : Ptr)
        → StubLives sid q w
        → p ≡ q
        → some (record { content = record s { callback = some cb }; live = true })
          ≡ some (slot_of sid (some cb))
    named sid q l same =
        let e : s ≡ record { session_id = sid; callback = l.callback } =
          cc (here, l.here, ap (get_elem? w.key_sessions) same) in
        ap (λ t. some (record { content = record t { callback = some cb }; live = true })) e
