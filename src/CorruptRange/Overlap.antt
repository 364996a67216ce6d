-- ===== src/CorruptRange/Overlap.antt =====
-- valuestorefile_GEN_.go, valueInCorruptRange: the test and the ranges that overlap a value.
use valuestore.Base.{
  ℕ, ◌+◌, ◌-◌, ◌%◌, ◌^◌, ◌≤◌, ◌<◌, ◌≡◌, refl, ◌⊎◌, ◌↔◌, inl, inr, true, false, ◌||◌, List, [], ◌∷◌,
  ◌==◌, Bool-cases, All, arith,
}
use valuestore.CorruptRange.{CorruptRange, is_within, some_within, in_corrupt_range}

-- Some byte from the first to the last is in one of the ranges.
abbrev pub Overlaps : ℕ → ℕ → List CorruptRange → Type 0
Overlaps first last [] = ⊥
Overlaps first last (r ∷ rs) = ((r.start ≤ last) × (first ≤ r.stop)) ⊎ Overlaps first last rs

some_within-Overlaps :
    (first last : ℕ) (rs : List CorruptRange)
    → first ≤ last
    → All (λ r. r.start ≤ r.stop) rs
    → some_within first last rs ≡ true
    → Overlaps first last rs
unfolding some_within
some_within-Overlaps first last [] h valid e = absurd cc
some_within-Overlaps first last (r ∷ rs) h valid e = elim (Bool-cases (is_within first r)) [
  | inl at_first ↦ inl (ground (arith, at_first, h), ground (arith, at_first))
  | inr not_first ↦ elim (Bool-cases (is_within last r)) [
    | inl at_last ↦ inl (ground (arith, at_last), ground (arith, at_last, h))
    | inr not_last ↦
        inr (some_within-Overlaps first last rs h valid.1 (simp (not_first, not_last) at e))
  ]
]

Overlaps-some_within :
    (first last : ℕ) (rs : List CorruptRange)
    → first ≤ last
    → All (λ r. last - first ≤ r.stop - r.start) rs
    → All (λ r. r.start ≤ r.stop) rs
    → Overlaps first last rs
    → some_within first last rs ≡ true
unfolding some_within
Overlaps-some_within first last [] h wide valid o = absurd o
Overlaps-some_within first last (r ∷ rs) h wide valid (inl cut) =
    elim (Bool-cases (is_within first r)) [
      | inl at_first ↦ simp at_first refl
      | inr not_first ↦
          let at_last : is_within last r ≡ true =
            ground (arith, not_first, cut.0, cut.1, wide.0, valid.0, h) in
          simp (not_first, at_last) refl
    ]
Overlaps-some_within first last (r ∷ rs) h wide valid (inr o) =
    let rest = Overlaps-some_within first last rs h wide.1 valid.1 o in
    elim (Bool-cases (is_within first r)) [
      | inl at_first ↦ simp at_first refl
      | inr not_first ↦ elim (Bool-cases (is_within last r)) [
        | inl at_last ↦ simp (not_first, at_last) refl
        | inr not_last ↦ simp (not_first, not_last) rest
      ]
    ]

-- For a value that is not empty, lies behind the header, ends within 32 bits and is no longer than
-- any of the ranges, the test holds just when a range overlaps the value.
pub in_corrupt_range-Overlaps :
    (offset size : ℕ) (rs : List CorruptRange)
    → 0 < offset
    → 0 < size
    → offset + size ≤ 2 ^ 32
    → All (λ r. r.start ≤ r.stop) rs
    → All (λ r. size - 1 ≤ r.stop - r.start) rs
    → (in_corrupt_range offset size rs ≡ true) ↔ Overlaps offset (offset + size - 1) rs
unfolding in_corrupt_range
in_corrupt_range-Overlaps offset size rs behind some_bytes small valid wide =
    let value : ((offset == 0) || (size == 0)) ≡ false = ground (arith, behind, some_bytes) in
    let last : (offset + size + (2 ^ 32 - 1)) % 2 ^ 32 ≡ offset + size - 1 =
      omega (arith, small, some_bytes) in
    let width : offset + size - 1 - offset ≡ size - 1 = omega (arith, some_bytes) in
    (
      λ e.
          some_within-Overlaps offset (offset + size - 1) rs (omega (arith, some_bytes)) valid
            (simp (value, last) at e),
      λ o.
          simp (value, last)
            (Overlaps-some_within offset (offset + size - 1) rs (omega (arith, some_bytes))
              (simp width wide) valid o),
    )
