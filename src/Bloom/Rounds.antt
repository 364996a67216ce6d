-- ===== src/Bloom/Rounds.antt =====
-- valuektbloomfilter_GEN_.go: the bits that the rounds of add set and the rounds of mayHave test.
use native.Mathlib.Nat.{mod-lt, one-le-pow}
use valuestore.Base.{
  ℕ, zero, suc, ◌*◌, ◌/◌, ◌%◌, ◌^◌, ◌≤◌, ◌<◌, ◌≡◌, ◌≢◌, refl, ap, Bool, true, false, List, [], ◌∷◌,
  some, inl, inr, arith, bit_and, bit_or, ◌==◌, ◌∙◌, if◌then◌else◌, Bool-cases, length, get_or, set,
  All, length-set, get_or-set, get_elem?-get_or,
}
use valuestore.Base.SingleBit.{bit, bit-bit_or, bit_bound, bit_self, bit_and_pow}
use valuestore.Base.Bytes.{Bytes}
use valuestore.LocMap.{Key}
use valuestore.Bloom.{
  Sizing, set_bit, test_bit, scratch_of, words_of, set_bits, test_bits, add_rounds, test_rounds,
}

-- Every bit number below `m` lies in the bytes.
abbrev pub Fits : ℕ → Bytes → Type 0
Fits m bits = (0 < m) × (m ≤ length bits * 8)

-- The bit of a word is set.
abbrev pub Holds : ℕ → Bytes → ℕ → Type 0
Holds m bits word = bit (word % m % 8) (get_or bits (word % m / 8) 0) ≡ 1

-- The bytes are as many, and no bit is lost.
abbrev pub Grows : ℕ → Bytes → Bytes → Type 0
Grows m bits after =
    (length after ≡ length bits) × ((word : ℕ) → Holds m bits word → Holds m after word)

pub in_range : (m word : ℕ) (bits : Bytes) → Fits m bits → word % m / 8 < length bits
in_range m word bits (pos, h) = omega (arith, mod-lt word pos)

-- What `|=` of a single bit leaves.
module _ (bits : Bytes) (at i : ℕ) (inside : at < length bits) where
  with_bit_self : bit i (get_or (set bits at (bit_or (get_or bits at 0) (2 ^ i))) at 0) ≡ 1
  with_bit_self = rw ((get_or-set bits at at (bit_or (get_or bits at 0) (2 ^ i)) 0 inside).0 refl) (
      omega (
        arith,
        bit-bit_or i (get_or bits at 0) (2 ^ i),
        bit_self i,
        bit_bound i (get_or bits at 0),
      ))

  with_bit_kept :
      (j c : ℕ)
      → bit j (get_or bits c 0) ≡ 1
      → bit j (get_or (set bits at (bit_or (get_or bits at 0) (2 ^ i))) c 0) ≡ 1
  with_bit_kept j c h = elim (Bool-cases (at == c)) [
    | inl e ↦
        let here : at ≡ c = ground (arith, e) in
        rw ((get_or-set bits at c (bit_or (get_or bits at 0) (2 ^ i)) 0 inside).0 here) (
          omega (
            arith,
            bit-bit_or j (get_or bits at 0) (2 ^ i),
            bit_bound j (2 ^ i),
            ap (λ x. bit j (get_or bits x 0)) here,
          ))
    | inr e ↦
        let there : at ≢ c = λ x. ground (arith, e, x) in
        rw ((get_or-set bits at c (bit_or (get_or bits at 0) (2 ^ i)) 0 inside).1 there) h
  ]

set_bit-Grows :
    (m : ℕ) (bits : Bytes) (word : ℕ)
    → Fits m bits
    → (after : Bytes) × (set_bit m bits word ≡ some after) × Grows m bits after × Holds m after word
unfolding set_bit
set_bit-Grows m bits word fits =
    let at = word % m / 8 in
    let b = get_or bits at 0 in
    let after = set bits at (bit_or b (2 ^ (word % m % 8))) in
    let some_m : (m == 0) ≡ false = ground (arith, fits) in
    let found = get_elem?-get_or bits at 0 (in_range m word bits fits) in
    (
      after,
      simp (some_m, found) refl,
      (
        length-set bits at _,
        λ w h.
            with_bit_kept bits at (word % m % 8) (in_range m word bits fits) (w % m % 8) (w % m / 8)
              h,
      ),
      with_bit_self bits at (word % m % 8) (in_range m word bits fits),
    )

pub Fits-grown : (m : ℕ) (bits after : Bytes) → Fits m bits → Grows m bits after → Fits m after
Fits-grown m bits after (pos, room) (same, kept) = (pos, omega arith)

Grows-trans : (m : ℕ) (a b c : Bytes) → Grows m a b → Grows m b c → Grows m a c
Grows-trans m a b c (same, kept) (same', kept') = (same' ∙ same, λ w h. kept' w (kept w h))

test_bit-Holds :
    (m : ℕ) (bits : Bytes) (word : ℕ)
    → Fits m bits
    → Holds m bits word
    → test_bit m bits word ≡ some true
unfolding test_bit
test_bit-Holds m bits word fits h =
    let some_m : (m == 0) ≡ false = ground (arith, fits) in
    let found = get_elem?-get_or bits (word % m / 8) 0 (in_range m word bits fits) in
    let on : (bit_and (get_or bits (word % m / 8) 0) (2 ^ (word % m % 8)) == 0) ≡ false = ground (
      arith,
      bit_and_pow (word % m % 8) (get_or bits (word % m / 8) 0),
      h,
      one-le-pow (word % m % 8) 2,
    ) in
    simp (some_m, found, on) refl

set_bits-Grows :
    (m : ℕ) (words : List ℕ) (bits : Bytes)
    → Fits m bits
    → (after : Bytes) × (set_bits m words bits ≡ some after)
      × Grows m bits after
      × All (Holds m after) words
unfolding set_bits
set_bits-Grows m [] bits fits = (bits, refl, (refl, λ w h. h), tt)
set_bits-Grows m (word ∷ words) bits fits =
    let (one, e, grows, own) = set_bit-Grows m bits word fits in
    let (after, e', grows', rest) = set_bits-Grows m words one (Fits-grown m bits one fits grows) in
    (
      after,
      simp (set_bits, e, e') refl,
      Grows-trans m bits one after grows grows',
      (grows'.1 word own, rest),
    )

test_bits-Holds :
    (m : ℕ) (words : List ℕ) (bits : Bytes)
    → Fits m bits
    → All (Holds m bits) words
    → test_bits m words bits ≡ some true
unfolding test_bits
test_bits-Holds m [] bits fits h = refl
test_bits-Holds m (word ∷ words) bits fits (h, hs) =
    simp (test_bits, test_bit-Holds m bits word fits h, test_bits-Holds m words bits fits hs) refl

test_bit_total :
    (m : ℕ) (bits : Bytes) (word : ℕ) → Fits m bits → (b : Bool) × (test_bit m bits word ≡ some b)
unfolding test_bit
test_bit_total m bits word fits =
    let some_m : (m == 0) ≡ false = ground (arith, fits) in
    let found = get_elem?-get_or bits (word % m / 8) 0 (in_range m word bits fits) in
    let b = get_or bits (word % m / 8) 0 in
    (if bit_and b (2 ^ (word % m % 8)) == 0 then false else true, simp (some_m, found) refl)

test_bits_total :
    (m : ℕ) (words : List ℕ) (bits : Bytes)
    → Fits m bits
    → (b : Bool) × (test_bits m words bits ≡ some b)
unfolding test_bits
test_bits_total m [] bits fits = (true, refl)
test_bits_total m (word ∷ words) bits fits =
    let (b, e) = test_bit_total m bits word fits in
    let (b', e') = test_bits_total m words bits fits in
    elim (Bool-cases b) [
      | inl on ↦ (b', simp (test_bits, e, on, e') refl)
      | inr off ↦ (false, simp (test_bits, e, off) refl)
    ]

module _ (sz : Sizing) where
  abbrev pub words : ℕ → Key → ℕ → ℕ → List ℕ
  words salt k timestamp i = words_of (sz.sum128 (scratch_of salt i k timestamp))

  -- Every bit of rounds `i` to 1 is set.
  abbrev pub HoldsRounds : ℕ → ℕ → ℕ → Key → ℕ → Bytes → Type 0
  HoldsRounds zero m salt k timestamp bits = Unit
  HoldsRounds (suc i) m salt k timestamp bits =
      All (Holds m bits) (words salt k timestamp (suc i)) × HoldsRounds i m salt k timestamp bits

  pub HoldsRounds-grown :
      (i m salt : ℕ) (k : Key) (timestamp : ℕ) (bits after : Bytes)
      → Grows m bits after
      → HoldsRounds i m salt k timestamp bits
      → HoldsRounds i m salt k timestamp after
  HoldsRounds-grown zero m salt k timestamp bits after g h = tt
  HoldsRounds-grown (suc i) m salt k timestamp bits after g ((a, (b, (c, (d, e)))), h) = (
    (g.1 _ a, (g.1 _ b, (g.1 _ c, (g.1 _ d, e)))),
    HoldsRounds-grown i m salt k timestamp bits after g h,
  )

  pub add_rounds-Grows :
      (i m salt : ℕ) (k : Key) (timestamp : ℕ) (bits : Bytes)
      → Fits m bits
      → (after : Bytes) × (add_rounds sz i m salt k timestamp bits ≡ some after)
        × Grows m bits after
        × HoldsRounds i m salt k timestamp after
  unfolding add_rounds
  add_rounds-Grows zero m salt k timestamp bits fits = (bits, refl, (refl, λ w h. h), tt)
  add_rounds-Grows (suc i) m salt k timestamp bits fits =
      let (one, e, grows, own) = set_bits-Grows m (words salt k timestamp (suc i)) bits fits in
      let (after, e', grows', rest) =
        add_rounds-Grows i m salt k timestamp one (Fits-grown m bits one fits grows) in
      let (a, (b, (c, (d, u)))) = own in
      (
        after,
        simp (add_rounds, e, e') refl,
        Grows-trans m bits one after grows grows',
        ((grows'.1 _ a, (grows'.1 _ b, (grows'.1 _ c, (grows'.1 _ d, u)))), rest),
      )

  pub test_rounds-HoldsRounds :
      (i m salt : ℕ) (k : Key) (timestamp : ℕ) (bits : Bytes)
      → Fits m bits
      → HoldsRounds i m salt k timestamp bits
      → test_rounds sz i m salt k timestamp bits ≡ some true
  unfolding test_rounds
  test_rounds-HoldsRounds zero m salt k timestamp bits fits h = refl
  test_rounds-HoldsRounds (suc i) m salt k timestamp bits fits (h, hs) =
      simp
        (
          test_rounds,
          test_bits-Holds m (words salt k timestamp (suc i)) bits fits h,
          test_rounds-HoldsRounds i m salt k timestamp bits fits hs,
        )
        refl

  pub test_rounds_total :
      (i m salt : ℕ) (k : Key) (timestamp : ℕ) (bits : Bytes)
      → Fits m bits
      → (b : Bool) × (test_rounds sz i m salt k timestamp bits ≡ some b)
  unfolding test_rounds
  test_rounds_total zero m salt k timestamp bits fits = (true, refl)
  test_rounds_total (suc i) m salt k timestamp bits fits =
      let (b, e) = test_bits_total m (words salt k timestamp (suc i)) bits fits in
      let (b', e') = test_rounds_total i m salt k timestamp bits fits in
      elim (Bool-cases b) [
        | inl on ↦ (b', simp (test_rounds, e, on, e') refl)
        | inr off ↦ (false, simp (test_rounds, e, off) refl)
      ]
