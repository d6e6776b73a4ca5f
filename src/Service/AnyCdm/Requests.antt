-- ===== src/Service/AnyCdm/Requests.antt =====
-- service.cpp: requests in any order, over any content decryption module of which `Conforms` holds.
use open_content_decryption.Base.{ℕ, ◌≡◌, [], Bytes}
use open_content_decryption.Base.Int.{ℤ}
use open_content_decryption.Base.Outcome.{ok}
use open_content_decryption.Cdmi.{Cdm}
use open_content_decryption.Cdmi.Contract.{Conforms, Keeps}
use open_content_decryption.Service.{CreateResponse}
use open_content_decryption.Service.AnyCdm.{
  rpc_create_session_by, rpc_mediakeys_by, rpc_update_by, rpc_release_by, rpc_mediaengine_by,
}
use open_content_decryption.Service.AnyCdm.Create.{create-Serves}
use open_content_decryption.Service.AnyCdm.Handlers.{
  update-Serves, release-Serves, mediaengine-Serves, mediakeys-Serves,
}
use open_content_decryption.Service.AnyCdm.Table.{Table, Serves, Keeps-Table}
use open_content_decryption.Service.Sessions.{lookup}
use open_content_decryption.Service.Steps.{Label, quiet, creates, releases, Move, view}
use open_content_decryption.World.{World, Ptr}

module _ (cdm : Cdm) (usable : ℕ → ℕ) (Room : World → Type 0) where
  -- One request. `Room` says when the module can make another session.
  pub data Request (w w' : World) : Type 0 where
    mediakeys : (r : ℤ) → rpc_mediakeys_by cdm usable w ≡ ok (r, w') → Request w w'
    create :
        (mime_type init_data : Bytes) (prog_num : ℕ) (r : CreateResponse)
        → Room w
        → rpc_create_session_by cdm usable mime_type init_data prog_num w ≡ ok (r, w')
        → Request w w'
    update :
        (sid key : Bytes) (r : ℤ) → rpc_update_by cdm usable sid key w ≡ ok (r, w') → Request w w'
    release : (sid : Bytes) (r : ℤ) → rpc_release_by cdm usable sid w ≡ ok (r, w') → Request w w'
    mediaengine :
        (sid : Bytes) (shmem sem r : ℤ)
        → rpc_mediaengine_by cdm usable sid shmem sem w ≡ ok (r, w')
        → Request w w'

  -- What was asked for from a process without sessions on, and what threads do meanwhile.
  pub data Served (Lives : Bytes → Ptr → World → Type 0) : World → Type 0 where
    at_start : (w : World) → w.media_key_sessions ≡ [] → Served Lives w
    then_asked : {w w' : World} → Served Lives w → Request w w' → Served Lives w'
    meanwhile : {w w' : World} → Served Lives w → Keeps Lives w w' → Served Lives w'

abbrev pub request_label :
    {cdm : Cdm} {usable : ℕ → ℕ} {Room : World → Type 0} {w w' : World}
    → Request cdm usable Room w w'
    → Label
request_label (Request.create _ _ _ r _ _) = creates r.session_id
request_label (Request.release sid r _) = releases sid r
request_label _ = quiet

module _ (Lives : Bytes → Ptr → World → Type 0) (cdm : Cdm) (Room : World → Type 0)
    (c : Conforms Lives cdm Room) (usable : ℕ → ℕ) where
  Request-Serves :
      (w w' : World) (q : Request cdm usable Room w w')
      → Table Lives w
      → Serves Lives (request_label q) w w'
  Request-Serves w w' (Request.mediakeys r h) t =
      mediakeys-Serves Lives cdm Room c usable w w' r h t
  Request-Serves w w' (Request.create mime_type init_data prog_num r room h) t =
      create-Serves Lives cdm Room c usable mime_type init_data prog_num w w' r room h t
  Request-Serves w w' (Request.update sid key r h) t =
      update-Serves Lives cdm Room c usable sid key w w' r h t
  Request-Serves w w' (Request.release sid r h) t =
      release-Serves Lives cdm Room c usable sid w w' r h t
  Request-Serves w w' (Request.mediaengine sid shmem sem r h) t =
      mediaengine-Serves Lives cdm Room c usable sid shmem sem w w' r h t

  empty-Table : (w : World) → w.media_key_sessions ≡ [] → Table Lives w
  unfolding lookup
  empty-Table w h = record { is_map = rw h tt; sound = λ sid p found. cc (rw h at found) }

  Served-Table : {w : World} → Served cdm usable Room Lives w → Table Lives w
  Served-Table (at_start w h) = empty-Table w h
  Served-Table (then_asked {w} {w'} s q) = (Request-Serves w w' q (Served-Table s)).0
  Served-Table (meanwhile {w} {w'} s k) = Keeps-Table Lives w w' k (Served-Table s)

  -- For any content decryption module of which what the service takes for granted holds, as
  -- `Conforms` says it: whatever requests were served since there was no session, and whatever
  -- threads did meanwhile that keeps the sessions, each id has one entry after the next request
  -- that is answered too, and what is open under an id is a living session of that id. The
  -- request moves the view of the open sessions as its label promises: an id handed out was not
  -- open and is open then, a release with success closes an id that was open, one with
  -- `CDMi_S_FALSE` finds no session, and nothing else changes the view.
  pub Served-Serves :
      {w w' : World}
      → Served cdm usable Room Lives w
      → (q : Request cdm usable Room w w')
      → Table Lives w' × Move (request_label q) (view w) (view w')
  Served-Serves {w} {w'} s q = Request-Serves w w' q (Served-Table s)
