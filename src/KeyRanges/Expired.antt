-- ===== src/KeyRanges/Expired.antt =====
-- valuetombstonediscard_GEN_.go: the ranges of the two passes, compared.
use native.Mathlib.Nat.{div-mul-le_self, mul-le-mul_left, mul-suc}
use valuestore.Base.{
  ℕ, zero, suc, ◌+◌, ◌-◌, ◌*◌, ◌/◌, ◌≤◌, ◌≡◌, refl, ap, true, false, ◌∷◌, ◌++◌, ◌==◌, ltb, arith,
}
use mathlib.Core.Path.{subst}
use valuestore.Ring.{Ring}
use valuestore.KeyRanges.{numbers, partitions_of, partitions_round}

-- Below the first partition, up to it.
round_below :
    (n most first p : ℕ)
    → p + suc n ≡ first
    → first ≤ most
    → partitions_round (suc n) most first p ≡ numbers p (suc n)
unfolding partitions_round
round_below zero most first p e h =
    let inside : ltb most (p + 1) ≡ false = ground (arith, e, h) in
    let done : ((p + 1) == first) ≡ true = ground (arith, e) in simp (inside, done) refl
round_below (suc n) most first p e h =
    let inside : ltb most (p + 1) ≡ false = ground (arith, e, h) in
    let more : ((p + 1) == first) ≡ false = ground (arith, e) in
    let next : p + 1 ≡ suc p = omega arith in
    simp (inside, more)
      (ap (λ xs. p ∷ xs) (simp next (round_below n most first (suc p) (omega (arith, e)) h)))

-- From the first partition on, and then round.
round_above :
    (n f most first p : ℕ)
    → p + n ≡ most
    → first ≤ p
    → f ≡ n + first
    → partitions_round (suc f) most first p ≡ numbers p (suc n) ++ numbers 0 first
unfolding partitions_round
round_above zero f most zero p e h fuel =
    let past : ltb most (p + 1) ≡ true = ground (arith, e) in simp past refl
round_above zero f most (suc first) p e h fuel =
    let past : ltb most (p + 1) ≡ true = ground (arith, e) in
    let is_fuel : f ≡ suc first = omega (arith, fuel) in
    let other : (0 == suc first) ≡ false = ground arith in
    simp (past, other, is_fuel)
      (ap (λ xs. p ∷ xs) (round_below first most (suc first) 0 (omega arith) (omega (arith, h, e))))
round_above (suc n) zero most first p e h fuel = absurd (omega (arith, fuel))
round_above (suc n) (suc f) most first p e h fuel =
    let inside : ltb most (p + 1) ≡ false = ground (arith, e) in
    let more : ((p + 1) == first) ≡ false = ground (arith, h) in
    let next : p + 1 ≡ suc p = omega arith in
    simp (inside, more)
      (ap (λ xs. p ∷ xs)
        (simp next (
          round_above n f most first (suc p) (omega (arith, e)) (omega (arith, h))
            (omega (arith, fuel)))))

below_whole :
    (q most worker_max worker : ℕ)
    → worker ≤ worker_max
    → q * (worker_max + 1) ≤ most + 1
    → q * worker ≤ most
below_whole zero most worker_max worker h k = omega arith
below_whole (suc q) most worker_max worker h k =
    let less = mul-le-mul_left {m = worker} {n = worker_max} (suc q) h in
    let step : worker_max + 1 ≡ suc worker_max = omega arith in
    let whole : suc q * suc worker_max ≤ most + 1 = subst (λ x. suc q * x ≤ most + 1) step k in
    let split = mul-suc (suc q) worker_max in omega (arith, less, split, whole)

first_inside :
    (most worker_max worker : ℕ)
    → worker ≤ worker_max
    → (most + 1) / (worker_max + 1) * worker ≤ most
first_inside most worker_max worker h =
    below_whole ((most + 1) / (worker_max + 1)) most worker_max worker h
      (div-mul-le_self (most + 1) (worker_max + 1))

-- A round over the partitions comes to those of the two loops, in their order.
pub partitions_round-partitions_of :
    (most worker_max worker : ℕ)
    → worker ≤ worker_max
    → let first = (most + 1) / (worker_max + 1) * worker in
      partitions_round (most + 1) most first first ≡ partitions_of most worker_max worker
unfolding partitions_of
partitions_round-partitions_of most worker_max worker h =
    let first = (most + 1) / (worker_max + 1) * worker in
    let inside : first ≤ most = first_inside most worker_max worker h in
    let fuel : suc most ≡ most + 1 = omega arith in
    let count : suc (most - first) ≡ most + 1 - first = omega (arith, inside) in
    let round =
      round_above (most - first) most most first first (omega (arith, inside)) (omega arith)
        (omega (arith, inside)) in
    subst
      (λ n.
        partitions_round n most first first ≡ numbers first (most + 1 - first) ++ numbers 0 first)
      fuel
      (subst
        (λ n. partitions_round (suc most) most first first ≡ numbers first n ++ numbers 0 first)
        count round)
