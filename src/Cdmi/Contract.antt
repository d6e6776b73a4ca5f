-- ===== src/Cdmi/Contract.antt =====
-- cdmi.h: what the service relies on in a content decryption module. Of this, cdmi.h says that the id of
-- a session is valid as long as the session exists; the rest is what service.cpp takes for granted.
use open_content_decryption.Base.{ℕ, ◌≡◌, ◌≢◌, Option, List, Bytes}
use open_content_decryption.Base.Int.{ℤ}
use open_content_decryption.Base.Outcome.{ok}
use open_content_decryption.Cdmi.{Cdm}
use open_content_decryption.Service.Sessions.{Sessions}
use open_content_decryption.World.{World, Ptr, Callback, EngineSession, Task, cdmi_success}

-- The globals of service.cpp, written by the service.
abbrev pub with_globals : Sessions → ℕ → ℤ → List EngineSession → List Task → World → World
with_globals sessions pnum cr engines threads w = record w {
  media_key_sessions = sessions;
  pnum = pnum;
  create_session_cr = cr;
  media_engine_sessions = engines;
  threads = threads;
}

-- `Lives sid p w`: a session object of the id `sid` that was not destroyed is behind `p`.
module _ (Lives : Bytes → Ptr → World → Type 0) where
  -- The module leaves `g_mediaKeySessions` and the sessions alone.
  pub record Keeps (w w' : World) : Type 0 where
    pub sessions : w'.media_key_sessions ≡ w.media_key_sessions
    pub lives : (sid : Bytes) (p : Ptr) → Lives sid p w → Lives sid p w'

  -- `Room w`: the module can make another session.
  pub record Conforms (cdm : Cdm) (Room : World → Type 0) : Type 0 where
    -- A session has one id, and does not depend on the globals of the service.
    pub one_id : (i j : Bytes) (p : Ptr) (w : World) → Lives i p w → Lives j p w → i ≡ j
    pub own :
        (sid : Bytes) (p : Ptr) (sessions : Sessions) (pnum : ℕ) (cr : ℤ)
        (engines : List EngineSession) (threads : List Task) (w : World)
        → Lives sid p w
        → Lives sid p (with_globals sessions pnum cr engines threads w)
    pub room_own :
        (sessions : Sessions) (pnum : ℕ) (cr : ℤ) (engines : List EngineSession)
        (threads : List Task) (w : World)
        → Room w
        → Room (with_globals sessions pnum cr engines threads w)
    -- A new session has an id that no living one has.
    pub create_keeps :
        (mime_type init_data cdm_data : Bytes) (cr : ℤ) (p : Ptr) (w w' : World)
        → Room w
        → cdm.media_keys.create_media_key_session mime_type init_data cdm_data w ≡ ok ((cr, p), w')
        → Keeps w w'
    pub create_new :
        (mime_type init_data cdm_data : Bytes) (p : Ptr) (w w' : World)
        → Room w
        → cdm.media_keys.create_media_key_session mime_type init_data cdm_data w
          ≡ ok ((cdmi_success, p), w')
        → (sid : Bytes) × Lives sid p w' × ((q : Ptr) → Lives sid q w → ⊥)
    -- The id is valid as long as the session exists, and no member destroys a session.
    pub get_session_id_lives :
        (sid : Bytes) (p : Ptr) (w : World)
        → Lives sid p w
        → (cdm.media_key_session p).get_session_id w ≡ ok (sid, w)
    pub run_keeps :
        (p : Ptr) (callback : Option Callback) (w w' : World)
        → (cdm.media_key_session p).run callback w ≡ ok (tt, w')
        → Keeps w w'
    pub update_keeps :
        (p : Ptr) (response : Bytes) (w w' : World)
        → (cdm.media_key_session p).update response w ≡ ok (tt, w')
        → Keeps w w'
    pub create_media_keys_keeps :
        (w w' : World) (r : ℤ) → cdm.create_media_keys w ≡ ok (r, w') → Keeps w w'
    pub create_media_engine_session_keeps :
        (session : Option Ptr) (w w' : World) (cr : ℤ) (e : EngineSession)
        → cdm.create_media_engine_session session w ≡ ok ((cr, e), w')
        → Keeps w w'
    pub close_keeps :
        (p : Ptr) (w w' : World) → (cdm.media_key_session p).close w ≡ ok (tt, w') → Keeps w w'
    -- Freeing one session leaves the others alone.
    pub free_keeps :
        (sid : Bytes) (p : Ptr) (w w' : World)
        → Lives sid p w
        → cdm.free_object p w ≡ ok (tt, w')
        → (w'.media_key_sessions ≡ w.media_key_sessions)
          × ((j : Bytes) (q : Ptr) → p ≢ q → Lives j q w → Lives j q w')
