-- ===== src/SharedMemory/Segments.antt =====
-- service.cpp, `decryptShmem`: the segments of a round, mapped and detached again.
use open_content_decryption.Base.{
  ℕ, ◌≡◌, refl, ◌∙◌, ◌||◌, Bool-cases, subst, inl, inr, if◌then◌else◌, arith,
}
use open_content_decryption.Base.Int.{ℤ, pos, negsuc, eqb_ℤ}
use open_content_decryption.Base.Outcome.{Outcome, ok, fault, out_of_bounds, Outcome-cases}
use open_content_decryption.SampleLoop.{Exchange}
use open_content_decryption.SharedMemory.{Ipc, map_segment, detach_existing_shared_memory}
use open_content_decryption.SharedMemory.Calls.{IsIpc, SameSemaphore}

module _ (ipc : Ipc) where
  -- The segments of the initial value and of the sample, mapped for a round and detached after it. Where
  -- `shmat` failed, `Decrypt` reads at the address -1, or `memcpy` writes there.
  unfoldable pub map_both : Exchange → ipc.State → Outcome ((ℤ × ℤ) × ipc.State)
  map_both x k = elim (map_segment ipc x.id_iv_shmem k) [
    | fault e ↦ fault e
    | ok (mem_iv, k1) ↦ elim (map_segment ipc x.id_sample_shmem k1) [
      | fault e ↦ fault e
      | ok (mem_sample, k2) ↦
          if eqb_ℤ mem_iv (negsuc 0) || eqb_ℤ mem_sample (negsuc 0)
          then fault out_of_bounds
          else ok ((mem_iv, mem_sample), k2)
    ]
  ]

  unfoldable pub detach_both : ℤ × ℤ → ipc.State → ipc.State
  detach_both (mem_iv, mem_sample) k =
      (detach_existing_shared_memory ipc mem_sample
        (detach_existing_shared_memory ipc mem_iv k).1).1

  unfoldable pub round_segments : Exchange → ipc.State → Outcome (Unit {0} × ipc.State)
  round_segments x k = elim (map_both x k) [
    | fault e ↦ fault e
    | ok (mapped, k1) ↦ ok (tt, detach_both mapped k1)
  ]

-- Of the set `sem`, all semaphores have the same values, and every process the same adjustments.
abbrev pub SameValues : (ipc : Ipc) → ℤ → ipc.State → ipc.State → Type 0
SameValues ipc sem k k' = (i : ℕ) → SameSemaphore ipc sem i k k'

module _ (ipc : Ipc) (sem : ℤ) where
  pub SameValues-refl : (k : ipc.State) → SameValues ipc sem k k
  SameValues-refl k i = (refl, λ q. refl)

  pub SameValues-trans :
      (k1 k2 k3 : ipc.State)
      → SameValues ipc sem k1 k2
      → SameValues ipc sem k2 k3
      → SameValues ipc sem k1 k3
  SameValues-trans k1 k2 k3 f g i = ((g i).0 ∙ (f i).0, λ q. (g i).1 q ∙ (f i).1 q)

module _ (ipc : Ipc) (h : IsIpc ipc) (sem : ℤ) where
  pub map_segment-SameValues :
      (id a : ℤ) (k k' : ipc.State) → map_segment ipc id k ≡ ok (a, k') → SameValues ipc sem k k'
  unfolding map_segment
  map_segment-SameValues id a k k' e = elim (Bool-cases (eqb_ℤ id (pos 0))) [
    | inl null ↦ absurd (ground (arith, null, e))
    | inr mapped ↦
        let k1 = (ipc.shmat id (pos 0) k).1 in
        let same : ipc.shmctl_rmid id k1 ≡ k' = ground (arith, mapped, e) in
        subst (SameValues ipc sem k) same (
          SameValues-trans ipc sem k k1 (ipc.shmctl_rmid id k1)
            (λ i. (h.segments_apart id (pos 0) k sem i).0)
            (λ i. (h.segments_apart id id k1 sem i).1))
  ]

  pub detach-SameValues :
      (a : ℤ) (k : ipc.State) → SameValues ipc sem k (detach_existing_shared_memory ipc a k).1
  unfolding detach_existing_shared_memory
  detach-SameValues a k i = (h.segments_apart a a k sem i).2

  detach_both-SameValues : (m : ℤ × ℤ) (k : ipc.State) → SameValues ipc sem k (detach_both ipc m k)
  unfolding detach_both
  detach_both-SameValues (mem_iv, mem_sample) k =
      let k1 = (detach_existing_shared_memory ipc mem_iv k).1 in
      SameValues-trans ipc sem k k1 (detach_existing_shared_memory ipc mem_sample k1).1
        (detach-SameValues mem_iv k) (detach-SameValues mem_sample k1)

  map_both-SameValues :
      (x : Exchange) (k k' : ipc.State) (m : ℤ × ℤ)
      → map_both ipc x k ≡ ok (m, k')
      → SameValues ipc sem k k'
  unfolding map_both
  map_both-SameValues x k k' m e = elim (Outcome-cases (map_segment ipc x.id_iv_shmem k)) [
    | inr (f, failed) ↦ absurd (ground (arith, failed, e))
    | inl ((mem_iv, k1), first) ↦ elim (Outcome-cases (map_segment ipc x.id_sample_shmem k1)) [
      | inr (f, failed) ↦ absurd (ground (arith, first, failed, e))
      | inl ((mem_sample, k2), second) ↦
          let same : k2 ≡ k' = ground (arith, first, second, e) in
          subst (SameValues ipc sem k) same (
            SameValues-trans ipc sem k k1 k2
              (map_segment-SameValues x.id_iv_shmem mem_iv k k1 first)
              (map_segment-SameValues x.id_sample_shmem mem_sample k1 k2 second))
    ]
  ]

  pub round_segments-SameValues :
      (x : Exchange) (k k' : ipc.State)
      → round_segments ipc x k ≡ ok (tt, k')
      → SameValues ipc sem k k'
  unfolding round_segments
  round_segments-SameValues x k k' e = elim (Outcome-cases (map_both ipc x k)) [
    | inr (f, failed) ↦ absurd (ground (arith, failed, e))
    | inl ((m, k1), mapped) ↦
        let same : detach_both ipc m k1 ≡ k' = ground (arith, mapped, e) in
        subst (SameValues ipc sem k) same (
          SameValues-trans ipc sem k k1 (detach_both ipc m k1) (map_both-SameValues x k k1 m mapped)
            (detach_both-SameValues m k1))
  ]
