-- ===== src/SampleLoop.antt =====
-- service.cpp: `decryptShmem`, the thread that decrypts samples in shared memory, one for each media
-- engine session.
pub mod Parts
pub mod Rounds
use open_content_decryption.Base.{
  ℕ, ◌+◌, ◌-◌, Bool, true, false, not, ◌&&◌, ◌||◌, Option, none, some, List, [], ◌∷◌, ◌++◌, Bytes,
  length, ltb, leb, ◌==◌, get_elem?, take, drop, if◌then◌else◌,
}
use open_content_decryption.Base.Int.{ℤ, pos, eqb_ℤ}
use open_content_decryption.Base.Outcome.{
  Outcome, ok, fault, out_of_bounds, assertion, uninitialised, null_pointer,
}
use open_content_decryption.World.{
  World, M, Ptr, EngineSession, Platform, Slot, alive, ◌>>=◌, ◌>>◌, gets, modify, fails, pure,
}
use open_content_decryption.MediaKeySession.{Decrypted}
use open_content_decryption.MediaKeys.{engine_decrypt, engine_release_clear_content}

-- What the thread finds in the exchanged memory once it has the lock: `shmem_info` with the initial
-- value and the sample that its ids stand for, of `ivSize` and `sampleSize` bytes.
pub record Exchange : Type 0 where
  pub id_iv_shmem : ℤ
  pub id_sample_shmem : ℤ
  pub iv : Bytes
  pub sample : Bytes

-- How a round ends: by `return`, by `break`, or with the bytes that the sample's memory then holds.
pub data Round : Type 0 where
  returned finished : Round
  decrypted : Bytes → Round

-- `MapSharedMemory` asserts that its id is not 0.
abbrev pub map_shared_memory : ℤ → M (Unit {0})
map_shared_memory id = if eqb_ℤ id (pos 0) then fails assertion else pure tt

abbrev pub is_end : Exchange → Bool
is_end x =
    eqb_ℤ x.id_iv_shmem (pos 0)
    && eqb_ℤ x.id_sample_shmem (pos 0)
    && length x.iv == 0
    && length x.sample == 0

-- `if (clear_content) ReleaseClearContent(…)`. The static pointer is not reset.
unfoldable pub release_previous : EngineSession → M (Unit {0})
release_previous e = do
  previous ← gets (λ w. w.clear_content)
  elim previous [ none ↦ pure tt | some b ↦ engine_release_clear_content e b ]

unfoldable pub read_buffer : Ptr → M Bytes
read_buffer p w = elim (alive (get_elem? w.buffers p)) [ fault e ↦ fault e | ok s ↦ ok (s, w) ]

abbrev pub min_of : ℕ → ℕ → ℕ
min_of a b = if ltb a b then a else b

-- What `Decrypt` writes through `&clear_content`, the pointer to the static variable.
unfoldable pub write_back : Decrypted → M (Unit {0})
write_back d = elim d.buffer [
  | none ↦ pure tt
  | some b ↦ modify (λ w. record w { clear_content = some b })
]

-- `memcpy(mem_sample, clear_content, MIN(sampleSize, clear_content_size))`. A failed `Decrypt` leaves
-- `clear_content_size` without a value.
unfoldable pub copy_out : Bytes → Option ℕ → M Round
unfolding read_buffer
copy_out sample clear_content_size = elim clear_content_size [
  | none ↦ fails uninitialised
  | some size ↦ do
    clear_content ← gets (λ w. w.clear_content)
    elim clear_content [
      | none ↦ fails null_pointer
      | some b ↦ do
        bytes ← read_buffer b
        let n = min_of (length sample) size
        pure (decrypted (take n bytes ++ drop n sample))
    ]
]

unfoldable pub copy_back : Bytes → Decrypted → M Round
copy_back sample d = do write_back d; copy_out sample d.size

-- What a round does with the mapped memory.
unfoldable pub decrypt_mapped : Platform → EngineSession → Exchange → M Round
decrypt_mapped platform e x = do
  release_previous e
  d ← engine_decrypt platform e x.iv x.sample
  copy_back x.sample d

-- One round, from the lock to the unlock.
unfoldable pub exchange : Platform → EngineSession → Exchange → M Round
exchange platform e x = if is_end x then pure finished else do
  map_shared_memory x.id_iv_shmem
  map_shared_memory x.id_sample_shmem
  decrypt_mapped platform e x

-- The tests at the head of the loop. `at` throws where the index is out of range.
unfoldable pub decrypt_round : Platform → ℕ → Exchange → M Round
decrypt_round platform idx x = do
  engines ← gets (λ w. w.media_engine_sessions)
  if not (length engines == 0) && ltb (length engines - 1) idx
      then pure returned
      else elim (get_elem? engines idx) [
        | none ↦ fails out_of_bounds
        | some e ↦ exchange platform e x
      ]

-- The loop, over the exchanges that the client makes: the samples' memories, one after the other.
unfoldable pub decrypt_shmem_loop : Platform → ℕ → List Exchange → M (List Bytes)
decrypt_shmem_loop platform idx [] = pure []
decrypt_shmem_loop platform idx (x ∷ xs) =
    let rest = decrypt_shmem_loop platform idx xs in
    decrypt_round platform idx x >>= elim [
      | returned ↦ pure []
      | finished ↦ pure []
      | decrypted bytes ↦ rest >>= λ more. pure (bytes ∷ more)
    ]

-- `decryptShmem(idxMES, idXchngSem, idXchngShMem)`: maps the exchanged memory, and loops.
unfoldable pub run_decrypt_shmem : Platform → ℕ → ℤ → List Exchange → M (List Bytes)
run_decrypt_shmem platform idx id_xchng_shmem xs = do
  map_shared_memory id_xchng_shmem
  decrypt_shmem_loop platform idx xs
