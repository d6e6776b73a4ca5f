-- ===== src/Service/Endings.antt =====
-- service.cpp: how the loop of `decryptShmem` ends.
use open_content_decryption.Base.{
  ℕ, ◌<◌, ◌≡◌, refl, true, List, [], ◌∷◌, ◌++◌, length, arith, get_elem?-some, inl, inr,
}
use open_content_decryption.Base.Outcome.{ok, Outcome-cases}
use open_content_decryption.SampleLoop.{
  Exchange, returned, finished, decrypted, is_end, exchange, decrypt_round, decrypt_shmem_loop,
}
use open_content_decryption.Service.Engines.{decrypt_round_in_range}
use open_content_decryption.Service.Frames.{decrypt_round-Frames}
use open_content_decryption.World.{World, Platform}

-- The round that finds the end marker.
finishes :
    (platform : Platform) (idx : ℕ) (x : Exchange) (w : World)
    → idx < length w.media_engine_sessions
    → is_end x ≡ true
    → decrypt_round platform idx x w ≡ ok (finished, w)
unfolding exchange
finishes platform idx x w below marks =
    let (e, found) = get_elem?-some w.media_engine_sessions idx below in
    rw (decrypt_round_in_range platform idx x w e found below) (rw marks refl)

-- For a thread whose media engine session is there: the loop ends at the first exchange that is the end
-- marker, if not before. Nothing that comes after it is looked at, and what was decrypted before it
-- and the state are as without it.
pub loop_end :
    (platform : Platform) (idx : ℕ) (xs : List Exchange) (x : Exchange) (ys : List Exchange)
    (w : World)
    → idx < length w.media_engine_sessions
    → is_end x ≡ true
    → decrypt_shmem_loop platform idx (xs ++ x ∷ ys) w ≡ decrypt_shmem_loop platform idx xs w
unfolding decrypt_shmem_loop
loop_end platform idx [] x ys w below marks = ground (arith, finishes platform idx x w below marks)
loop_end platform idx (y ∷ xs) x ys w below marks =
    elim (Outcome-cases (decrypt_round platform idx y w)) [
      | inr (e, failed) ↦ ground (arith, failed)
      | inl ((returned, w1), done) ↦ ground (arith, done)
      | inl ((finished, w1), done) ↦ ground (arith, done)
      | inl ((decrypted bytes, w1), done) ↦
          let same = (decrypt_round-Frames platform idx y w w1 (decrypted bytes) done).engines in
          let later = loop_end platform idx xs x ys w1 (rw same below) marks in
          ground (arith, done, later)
    ]
