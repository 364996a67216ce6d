-- ===== src/KeyRanges/Cover.antt =====
-- valuetombstonediscard_GEN_.go: where a key lies among the ranges of a pass.
use native.Mathlib.Nat.{
  div-mul-le_self, lt-div-mul-add, div-lt_iff_lt-mul, div-add-mod', mod-lt, mul_comm, one-le-pow,
  pow-suc, pow-le-pow_right, mul_assoc, mul-le-mul_right, mul-le-mul_left, add-mul,
}
use valuestore.Base.{
  ℕ, zero, suc, ◌+◌, ◌-◌, ◌*◌, ◌/◌, ◌%◌, ◌^◌, ◌≤◌, ◌<◌, ◌≡◌, refl, ap, ◌∙◌, inl, inr, true, false,
  List, [], ◌++◌, append-nil, some, map, ◌==◌, Bool-cases, ltb, arith, get_elem?,
}
use mathlib.Core.Path.{subst}
use valuestore.Ring.{Ring}
use valuestore.KeyRanges.{
  shift_left, partition_shift, partition_max, range_of, numbers, partitions_of, discard_ranges,
}

-- The key is between the two ends.
abbrev pub IsIn : ℕ → ℕ × ℕ → Type 0
IsIn k r = (r.0 ≤ k) × (k ≤ r.1)

left_pos : (a b o : ℕ) → o < a * b → 0 < a
left_pos zero b o h = absurd (omega (arith, h))
left_pos (suc a) b o h = omega arith

-- `2 ^ 64` in `most + 1` partitions of `2 ^ shift` keys
module _ (shift most worker_max size : ℕ) (size_is : 2 ^ shift ≡ size) (size_small : size < 2 ^ 64)
    (whole : (most + 1) * size ≡ 2 ^ 64) where
  room : (p : ℕ) → p ≤ most → p * size + size ≤ 2 ^ 64
  room p h = omega (
    arith,
    mul-le-mul_right {m = p + 1} {n = most + 1} size (omega (arith, h)),
    add-mul p 1 size,
    whole,
  )

  size_pos : 0 < size
  size_pos = omega (arith, size_is, one-le-pow shift 2)

  left_is : (p : ℕ) → p ≤ most → shift_left p shift ≡ p * size
  left_is p h = rw size_is (omega (arith, room p h, size_pos))

  one_is : shift_left 1 shift ≡ size
  one_is = rw size_is (omega (arith, size_small))

  IsIn-range_of_last :
      (k p : ℕ)
      → k < 2 ^ 64
      → p ≤ most
      → p * size + size / (worker_max + 1) * worker_max ≤ k
      → k < p * size + size
      → IsIn k (range_of shift most worker_max p worker_max)
  unfolding range_of
  IsIn-range_of_last k p small pm low high =
      let same : (worker_max == worker_max) ≡ true = ground arith in
      elim (Bool-cases (p == most)) [
        | inl e ↦
            simp (left_is p pm, one_is, same, e) (omega (arith, low, small), omega (arith, small))
        | inr e ↦
            let inside : p + 1 ≤ most = ground (arith, e, pm) in
            simp (left_is p pm, one_is, same, e, left_is (p + 1) inside)
              (
                omega (arith, low, small),
                omega (arith, add-mul p 1 size, room (p + 1) inside, high),
              )
      ]

  IsIn-range_of_inner :
      (k p w : ℕ)
      → k < 2 ^ 64
      → p ≤ most
      → w < worker_max
      → p * size + size / (worker_max + 1) * w ≤ k
      → k < p * size + size / (worker_max + 1) * (w + 1)
      → IsIn k (range_of shift most worker_max p w)
  unfolding range_of
  IsIn-range_of_inner k p w small pm wm low high =
      let other : (w == worker_max) ≡ false = ground (arith, wm) in
      simp (left_is p pm, one_is, other)
        (
          omega (arith, low, small),
          omega (
            arith,
            high,
            room p pm,
            mul-le-mul_left {m = w + 1} {n = worker_max + 1} (size / (worker_max + 1))
                (omega (arith, wm)),
            div-mul-le_self size (worker_max + 1),
          ),
        )

  -- The worker of a key in its partition.
  covered :
      (k : ℕ)
      → k < 2 ^ 64
      → (p : ℕ) × (w : ℕ) × (p ≤ most)
        × (w ≤ worker_max)
        × IsIn k (range_of shift most worker_max p w)
  covered k small =
      let p = k / size in
      let o = k % size in
      let piece = size / (worker_max + 1) in
      let whole_key : p * size + o ≡ k = div-add-mod' k size in
      let o_small : o < size = mod-lt k size_pos in
      let pm : p ≤ most =
        let below =
          (div-lt_iff_lt-mul {k = size} {x = k} {y = most + 1} size_pos).1
            (omega (arith, small, whole)) in
        omega (arith, below) in
      elim (Bool-cases (ltb o (piece * worker_max))) [
        | inl inner ↦
            let some_keys : 0 < piece = left_pos piece worker_max o (ground (arith, inner)) in
            let w = o / piece in
            let wm : w < worker_max =
              (div-lt_iff_lt-mul {k = piece} {x = o} {y = worker_max} some_keys).1
                (ground (arith, inner, mul_comm worker_max piece)) in
            let low = div-mul-le_self o piece in
            let high = lt-div-mul-add {a = o} {b = piece} some_keys in
            (
              p,
              w,
              pm,
              omega (arith, wm),
              IsIn-range_of_inner k p w small pm wm
                  (omega (arith, low, whole_key, mul_comm piece w))
                  (omega (arith, high, whole_key, mul_comm piece (w + 1), add-mul w 1 piece)),
            )
        | inr outer ↦ (
          p,
          worker_max,
          pm,
          omega arith,
          IsIn-range_of_last k p small pm (ground (arith, outer, whole_key))
              (omega (arith, whole_key, o_small)),
        )
      ]

numbers-left :
    {A : Type 0} (f : ℕ → A) (a n i p : ℕ) (ys : List ℕ)
    → i < n
    → a + i ≡ p
    → get_elem? (map f (numbers a n ++ ys)) i ≡ some (f p)
numbers-left f a zero i p ys h e = absurd (omega (arith, h))
numbers-left f a (suc n) zero p ys h e = ap (λ x. some (f x)) (omega (arith, e))
numbers-left f a (suc n) (suc i) p ys h e =
    numbers-left f (suc a) n i p ys (omega (arith, h)) (omega (arith, e))

numbers-right :
    {A : Type 0} (f : ℕ → A) (a n i j : ℕ) (ys : List ℕ)
    → n + i ≡ j
    → get_elem? (map f (numbers a n ++ ys)) j ≡ get_elem? (map f ys) i
numbers-right f a zero i j ys e = let same : i ≡ j = omega (arith, e) in rw same refl
numbers-right f a (suc n) i zero ys e = absurd (omega (arith, e))
numbers-right f a (suc n) i (suc j) ys e = numbers-right f (suc a) n i j ys (omega (arith, e))

numbers-only :
    {A : Type 0} (f : ℕ → A) (n p : ℕ) → p < n → get_elem? (map f (numbers 0 n)) p ≡ some (f p)
numbers-only f n p h =
    subst (λ xs. get_elem? (map f xs) p ≡ some (f p)) (append-nil (numbers 0 n))
      (numbers-left f 0 n p p [] h (omega arith))

-- Wherever a worker starts, it comes to every partition.
pub partitions_of-reaches :
    {A : Type 0} (f : ℕ → A) (most worker_max worker p : ℕ)
    → p ≤ most
    → (i : ℕ) × (get_elem? (map f (partitions_of most worker_max worker)) i ≡ some (f p))
unfolding partitions_of
partitions_of-reaches f most worker_max worker p h =
    let first = (most + 1) / (worker_max + 1) * worker in
    elim (Bool-cases (ltb p first)) [
      | inl before ↦
          let found : get_elem? (map f (numbers 0 first)) p ≡ some (f p) =
            numbers-only f first p (ground (arith, before)) in
          (
            most + 1 - first + p,
            numbers-right f first (most + 1 - first) p (most + 1 - first + p) (numbers 0 first) refl
                ∙ found,
          )
      | inr after ↦ (
        p - first,
        numbers-left f first (most + 1 - first) (p - first) p (numbers 0 first)
            (ground (arith, after, h)) (ground (arith, after)),
      )
    ]

pow_add : (a b c : ℕ) → a + b ≡ c → 2 ^ a * 2 ^ b ≡ 2 ^ c
pow_add a zero c e = let same : a ≡ c = omega (arith, e) in rw same (omega arith)
pow_add a (suc b) zero e = absurd (omega (arith, e))
pow_add a (suc b) (suc c) e = omega (
  arith,
  pow-suc 2 b,
  pow-suc 2 c,
  pow_add a b c (omega (arith, e)),
  mul_assoc (2 ^ a) (2 ^ b) 2,
  ap (λ x. 2 ^ a * x) (pow-suc 2 b),
)

-- With a ring of between 1 and 63 partition bits, a pass that nothing stops leaves no key out: each
-- 64-bit key lies in a range that one of the workers discards from.
pub discard_ranges-Cover :
    (ring : Ring) (worker_max k : ℕ)
    → 1 ≤ ring.partition_bit_count
    → ring.partition_bit_count ≤ 63
    → k < 2 ^ 64
    → (w : ℕ) × (i : ℕ) × (r : ℕ × ℕ) × (w ≤ worker_max)
      × (get_elem? (discard_ranges (some ring) worker_max w) i ≡ some r)
      × IsIn k r
unfolding discard_ranges partition_shift partition_max
discard_ranges-Cover ring worker_max k low high small =
    let pbc = ring.partition_bit_count in
    let size = 2 ^ (64 - pbc) in
    let whole : 2 ^ pbc * size ≡ 2 ^ 64 = pow_add pbc (64 - pbc) 64 (omega (arith, low, high)) in
    let size_min =
      pow-le-pow_right {n = 2} (omega arith) {i = 1} {j = 64 - pbc} (omega (arith, high)) in
    let size_max =
      pow-le-pow_right {n = 2} (omega arith) {i = 64 - pbc} {j = 63} (omega (arith, low)) in
    let count_max =
      pow-le-pow_right {n = 2} (omega arith) {i = pbc} {j = 63} (omega (arith, high)) in
    let count_min = one-le-pow pbc 2 (omega arith) in
    let most : partition_max (some ring) ≡ 2 ^ pbc - 1 = omega (arith, count_max, count_min) in
    let most_suc : partition_max (some ring) + 1 ≡ 2 ^ pbc = omega (arith, most, count_min) in
    let (p, w, pm, wm, inside) =
      covered (64 - pbc) (partition_max (some ring)) worker_max size refl (omega (arith, size_max))
        (rw most_suc whole) k small in
    let (i, at) =
      partitions_of-reaches
        (λ q. range_of (partition_shift (some ring)) (partition_max (some ring)) worker_max q w)
        (partition_max (some ring)) worker_max w p pm in
    (w, i, range_of (64 - pbc) (partition_max (some ring)) worker_max p w, wm, at, inside)
