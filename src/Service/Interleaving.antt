-- ===== src/Service/Interleaving.antt =====
-- service.cpp, `decryptShmem`: the rounds of several threads in smaller steps, that interleave with each
-- other and with requests.
pub mod Parts
pub mod Sessions
pub mod Alone
pub mod Own
pub mod Overlap
pub mod Whole
use open_content_decryption.Base.{
  ℕ, ◌-◌, ◌≡◌, ◌⊎◌, inl, inr, not, ◌&&◌, ◌==◌, ltb, none, some, List, [], ◌∷◌, ◌++◌, length,
  get_elem?, if◌then◌else◌,
}
use open_content_decryption.Base.Outcome.{ok, out_of_bounds}
use open_content_decryption.MediaKeySession.{Decrypted}
use open_content_decryption.MediaKeys.{engine_decrypt}
use open_content_decryption.SampleLoop.{
  Exchange, Round, returned, finished, is_end, map_shared_memory, release_previous, write_back,
  copy_out,
}
use open_content_decryption.Service.Histories.{IsRequest}
use open_content_decryption.Service.Steps.{Step}
use open_content_decryption.World.{
  World, M, Platform, EngineSession, initial, ◌>>=◌, ◌>>◌, gets, fails, pure,
}

unfoldable pub begin_exchange : EngineSession → Exchange → M (Round ⊎ EngineSession)
begin_exchange e x = if is_end x then pure (inl finished) else (do
  map_shared_memory x.id_iv_shmem
  map_shared_memory x.id_sample_shmem
  release_previous e
  pure (inr e))

-- A round up to the call of `Decrypt`: it may end here.
unfoldable pub begin_round : ℕ → Exchange → M (Round ⊎ EngineSession)
begin_round idx x = do
  engines ← gets (λ w. w.media_engine_sessions)
  if not (length engines == 0) && ltb (length engines - 1) idx
      then pure (inl returned)
      else elim (get_elem? engines idx) [ none ↦ fails out_of_bounds | some e ↦ begin_exchange e x ]

-- `Decrypt` with what it writes through its pointers.
unfoldable pub decrypt_into : Platform → EngineSession → Exchange → M Decrypted
decrypt_into platform e x = do d ← engine_decrypt platform e x.iv x.sample; write_back d; pure d

-- A round under way: before `Decrypt`, or between it and `memcpy`.
pub data InRound : Type 0 where
  before_decrypt : EngineSession → Exchange → InRound
  before_copy : Exchange → Decrypted → InRound

pub record Process : Type 0 where
  pub world : World
  pub rounds : List InRound

-- What can happen next, where a round may begin beside the rounds under way that `Guard` lets it.
pub data Part (platform : Platform) (Guard : List InRound → Type 0) (s s' : Process) : Type 0 where
  begins :
      (idx : ℕ) (x : Exchange) (e : EngineSession) (w : World)
      → Guard s.rounds
      → begin_round idx x s.world ≡ ok (inr e, w)
      → s' ≡ record { world = w; rounds = before_decrypt e x ∷ s.rounds }
      → Part platform Guard s s'
  ends :
      (idx : ℕ) (x : Exchange) (r : Round) (w : World)
      → begin_round idx x s.world ≡ ok (inl r, w)
      → s' ≡ record s { world = w }
      → Part platform Guard s s'
  decrypts :
      (front behind : List InRound) (e : EngineSession) (x : Exchange) (d : Decrypted) (w : World)
      → s.rounds ≡ front ++ before_decrypt e x ∷ behind
      → decrypt_into platform e x s.world ≡ ok (d, w)
      → s' ≡ record { world = w; rounds = front ++ before_copy x d ∷ behind }
      → Part platform Guard s s'
  copies :
      (front behind : List InRound) (x : Exchange) (d : Decrypted) (r : Round) (w : World)
      → s.rounds ≡ front ++ before_copy x d ∷ behind
      → copy_out x.sample d.size s.world ≡ ok (r, w)
      → s' ≡ record { world = w; rounds = front ++ behind }
      → Part platform Guard s s'
  request :
      (w : World) (step : Step platform s.world w)
      → IsRequest step
      → s' ≡ record s { world = w }
      → Part platform Guard s s'

pub data Interleaved (platform : Platform) (Guard : List InRound → Type 0) : Process → Type 0 where
  start : Interleaved platform Guard (record { world = initial; rounds = [] })
  next :
      {s s' : Process}
      → Interleaved platform Guard s
      → Part platform Guard s s'
      → Interleaved platform Guard s'

-- One round at a time.
abbrev pub IsAlone : List InRound → Type 0
IsAlone rounds = rounds ≡ []
