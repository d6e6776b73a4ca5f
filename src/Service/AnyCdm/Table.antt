-- ===== src/Service/AnyCdm/Table.antt =====
-- service.cpp: `g_mediaKeySessions` over the sessions of any content decryption module.
use mathlib.Core.Path.{fun_ext}
use open_content_decryption.Base.{
  ℕ, ◌≡◌, ◌≢◌, refl, ap, sym, subst, ◌∙◌, some, List, Bytes, equal, if◌then◌else◌, inl, inr,
  Option-cases,
}
use open_content_decryption.Base.Int.{ℤ}
use open_content_decryption.Cdmi.{Cdm}
use open_content_decryption.Cdmi.Contract.{Keeps, Conforms, with_globals}
use open_content_decryption.Service.Sessions.{
  Sessions, IsMap, lookup, touch, insert, erase, lookup-touch, touch-IsMap, insert-IsMap,
  erase-IsMap, lookup-insert, lookup-insert_cases, lookup-erase, lookup-erase_cases,
}
use open_content_decryption.Service.Steps.{Label, creates, releases, Move, opens, closes, view}
use open_content_decryption.World.{World, Ptr, EngineSession, Task, cdmi_success}

-- An id has one entry, and what is open under an id is a living session of that id.
pub record Table (Lives : Bytes → Ptr → World → Type 0) (w : World) : Type 0 where
  pub is_map : IsMap w.media_key_sessions
  pub sound : (sid : Bytes) (p : Ptr) → lookup sid w.media_key_sessions ≡ some p → Lives sid p w

module _ (Lives : Bytes → Ptr → World → Type 0) where
  -- What a request keeps, and how it moves the view of the open sessions.
  abbrev pub Serves : Label → World → World → Type 0
  Serves l w w' = Table Lives w' × Move l (view w) (view w')

  pub Keeps-Table : (w w' : World) → Keeps Lives w w' → Table Lives w → Table Lives w'
  Keeps-Table w w' k t = record {
    is_map = rw k.sessions t.is_map;
    sound = λ sid p h. k.lives sid p (t.sound sid p (rw k.sessions at h));
  }

  pub Keeps-view : (w w' : World) → Keeps Lives w w' → view w' ≡ view w
  Keeps-view w w' k = ap (λ m j. lookup j m) k.sessions

  module _ (cdm : Cdm) (Room : World → Type 0) (c : Conforms Lives cdm Room) where
    -- The service's own writes, but of the table.
    pub globals-Table :
        (pnum : ℕ) (cr : ℤ) (engines : List EngineSession) (threads : List Task) (w : World)
        → Table Lives w
        → Table Lives (with_globals w.media_key_sessions pnum cr engines threads w)
    globals-Table pnum cr engines threads w t = record {
      is_map = t.is_map;
      sound =
          λ sid p h. c.own sid p w.media_key_sessions pnum cr engines threads w (t.sound sid p h);
    }

    pub stored-Lives :
        (sessions : Sessions) (sid : Bytes) (p : Ptr) (w : World)
        → Lives sid p w
        → Lives sid p (record w { media_key_sessions = sessions })
    stored-Lives sessions sid p w l =
        c.own sid p sessions w.pnum w.create_session_cr w.media_engine_sessions w.threads w l

    pub touched-Table :
        (sid : Bytes) (w : World)
        → Table Lives w
        → Table Lives (record w { media_key_sessions = touch sid w.media_key_sessions })
    touched-Table sid w t = record {
      is_map = touch-IsMap sid w.media_key_sessions t.is_map;
      sound = λ j p h.
          stored-Lives _ j p w (t.sound j p (sym (lookup-touch sid j w.media_key_sessions) ∙ h));
    }

    pub touched-view :
        (sid : Bytes) (w : World)
        → view (record w { media_key_sessions = touch sid w.media_key_sessions }) ≡ view w
    touched-view sid w = fun_ext λ j. lookup-touch sid j w.media_key_sessions

    -- A new session under an id that no living one has.
    pub stored-Serves :
        (sid : Bytes) (p : Ptr) (w w' : World)
        → Keeps Lives w w'
        → Lives sid p w'
        → ((q : Ptr) → Lives sid q w → ⊥)
        → Table Lives w
        → Serves
            (creates (some sid))
            w
            (record w' { media_key_sessions = insert sid (some p) w'.media_key_sessions })
    stored-Serves sid p w w' k l fresh t = (
      record {
        is_map = insert-IsMap sid (some p) w'.media_key_sessions (Keeps-Table w w' k t).is_map;
        sound = λ j q h. elim (lookup-insert_cases sid j p q w'.media_key_sessions h) [
          | inl (same_id, same) ↦
              stored-Lives _ j q w'
                (subst (λ i. Lives i q w') same_id (subst (λ r. Lives sid r w') same l))
          | inr old ↦ stored-Lives _ j q w' ((Keeps-Table w w' k t).sound j q old)
        ];
      },
      opens sid p refl
          (elim (Option-cases (lookup sid w.media_key_sessions)) [
            | inl missing ↦ missing
            | inr (q, found) ↦ absurd (fresh q (t.sound sid q found))
          ])
          (fun_ext (λ j.
            lookup-insert sid j (some p) w'.media_key_sessions
            ∙ ap (λ m. if equal sid j then some p else lookup j m) k.sessions)),
    )

    -- A living session whose entry is erased, in a state where it is then freed.
    pub erased-Serves :
        (sid : Bytes) (p : Ptr) (w w1 w' : World)
        → lookup sid w.media_key_sessions ≡ some p
        → Lives sid p w1
        → ((j : Bytes) (q : Ptr) → p ≢ q → Lives j q w1 → Lives j q w')
        → w'.media_key_sessions ≡ erase sid w.media_key_sessions
        → ((j : Bytes) (q : Ptr) → Lives j q w → Lives j q w1)
        → Table Lives w
        → Serves (releases sid cdmi_success) w w'
    erased-Serves sid p w w1 w' found l others gone kept t = (
      record {
        is_map = rw gone (erase-IsMap sid w.media_key_sessions t.is_map);
        sound = λ j q h.
            let (other, old) =
              lookup-erase_cases sid j q w.media_key_sessions t.is_map (rw gone at h) in
            let l' = kept j q (t.sound j q old) in
            others j q
              (λ same. other (c.one_id sid j p w1 l (subst (λ r. Lives j r w1) (sym same) l'))) l';
      },
      closes sid p refl found
          (fun_ext (λ j. ap (lookup j) gone ∙ lookup-erase sid j w.media_key_sessions t.is_map)),
    )
