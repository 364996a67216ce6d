-- ===== src/PullReplication/Cover.antt =====
-- valuepullreplication_GEN_.go: the ranges that inPullReplication scans for one message.
use native.Mathlib.Nat.{div-mul-le_self, mul-le-mul_left}
use valuestore.Base.{
  ℕ, ◌+◌, ◌-◌, ◌*◌, ◌/◌, ◌^◌, ℤ, ◌≤◌, ◌<◌, ◌≡◌, ◌&&◌, List, [], ◌∷◌, inl, inr, arith, Bool-cases,
  leb, ◌==◌, if◌then◌else◌,
}
use valuestore.KeyRanges.{sub}
use valuestore.PullReplication.{replica_index, scan_start, scan_ranges}

-- How many of the ranges have the key.
abbrev pub times : ℕ → List (ℕ × ℕ) → ℕ
times k [] = 0
times k ((start, stop) ∷ ranges) = (if leb start k && leb k stop then 1 else 0) + times k ranges

module _ (start stop replicas : ℕ) (responsible : ℤ) where
  scan_start_bounds :
      start ≤ stop
      → stop < 2 ^ 64
      → replica_index responsible < replicas
      → (start ≤ scan_start start stop replicas responsible)
        × (scan_start start stop replicas responsible ≤ stop)
  unfolding scan_start
  scan_start_bounds ordered small known =
      let i = replica_index responsible in
      let q = (stop - start) / replicas in
      let width : sub stop start ≡ stop - start = omega arith in
      let up : q * i ≤ q * replicas = mul-le-mul_left q (omega arith) in
      let down : q * replicas ≤ stop - start = div-mul-le_self (stop - start) replicas in
      rw width (omega (arith, up, down), omega (arith, up, down))

  -- For a message whose range does not end before it begins, on a ring that knows the node as one
  -- of its replicas, or does not know it: the scans cover each key of the range exactly once, and
  -- no other key.
  pub scan_ranges-times :
      start ≤ stop
      → stop < 2 ^ 64
      → replica_index responsible < replicas
      → (k : ℕ)
      → times k (scan_ranges start stop replicas responsible)
        ≡ (if leb start k && leb k stop then 1 else 0)
  unfolding scan_ranges
  scan_ranges-times ordered small known k =
      let from = scan_start start stop replicas responsible in
      let (low, high) = scan_start_bounds ordered small known in
      elim (Bool-cases (from == start)) [
        | inl whole ↦ simp whole (ground (arith, whole))
        | inr part ↦
            let before : sub from 1 ≡ from - 1 = ground (arith, low, high, part) in
            simp part (rw before (ground (arith, low, high, part)))
      ]
