-- ===== src/Bloom/Answers.antt =====
-- valuektbloomfilter_GEN_.go: what a filter answers of the entries that it was given.
use valuestore.Base.{
  ℕ, zero, suc, ◌%◌, ◌/◌, ◌^◌, ◌<◌, ◌≡◌, refl, ◌∙◌, Bool, true, false, List, [], ◌∷◌, Option, none,
  some, arith, bit_and, ◌==◌, length, get_or, replicate, All, length-replicate, get_elem?-get_or,
}
use valuestore.Base.Bytes.{Bytes}
use valuestore.Base.SingleBit.{bit-zero, bit_and_pow}
use valuestore.LocMap.{Key}
use valuestore.Bloom.{Sizing, Filter, test_bit, test_bits, add, test_rounds, may_have, reset}
use valuestore.Bloom.Rounds.{
  Fits, Grows, Fits-grown, HoldsRounds, HoldsRounds-grown, add_rounds-Grows,
  test_rounds-HoldsRounds, test_rounds_total, in_range, words,
}

-- A key with the timestamp of its value.
abbrev pub Entry : Type 0
Entry = Key × ℕ

module _ (sz : Sizing) where
  -- The calls of add on one filter, in order.
  unfoldable pub add_all : List Entry → Filter → Option Filter
  add_all [] f = some f
  add_all ((k, timestamp) ∷ entries) f = elim (add sz f k timestamp) [
    | none ↦ none
    | some g ↦ add_all entries g
  ]

  abbrev Has : Filter → Entry → Type 0
  Has f (k, timestamp) = HoldsRounds sz f.k_div4 f.m f.salt k timestamp f.bits

  -- The filter has the fields of the other and no bit less.
  abbrev Extends : Filter → Filter → Type 0
  Extends f g = (bits : Bytes) × (g ≡ record f { bits = bits }) × Grows f.m f.bits bits

  add_Extends :
      (f : Filter) (k : Key) (timestamp : ℕ)
      → Fits f.m f.bits
      → (bits : Bytes) × (add sz f k timestamp ≡ some (record f { bits = bits }))
        × Grows f.m f.bits bits
        × HoldsRounds sz f.k_div4 f.m f.salt k timestamp bits
  unfolding add
  add_Extends f k timestamp fits =
      let (bits, e, grows, has) = add_rounds-Grows sz f.k_div4 f.m f.salt k timestamp f.bits fits in
      (bits, simp (add, e) refl, grows, has)

  add_all_bits :
      (entries : List Entry) (f : Filter)
      → Fits f.m f.bits
      → (bits : Bytes) × (add_all entries f ≡ some (record f { bits = bits }))
        × Grows f.m f.bits bits
        × All (Has (record f { bits = bits })) entries
  unfolding add_all
  add_all_bits [] f fits = (f.bits, refl, (refl, λ w h. h), tt)
  add_all_bits ((k, timestamp) ∷ entries) f fits =
      let (one, e, grows, own) = add_Extends f k timestamp fits in
      let (bits, e', grows', rest) =
        add_all_bits entries (record f { bits = one }) (Fits-grown f.m f.bits one fits grows) in
      (
        bits,
        simp (add_all, e, e') refl,
        (grows'.0 ∙ grows.0, λ w h. grows'.1 w (grows.1 w h)),
        (HoldsRounds-grown sz f.k_div4 f.m f.salt k timestamp one bits grows' own, rest),
      )

  pub may_have_total :
      (f : Filter) (k : Key) (timestamp : ℕ)
      → Fits f.m f.bits
      → (b : Bool) × (may_have sz f k timestamp ≡ some b)
  unfolding may_have
  may_have_total f k timestamp fits =
      test_rounds_total sz f.k_div4 f.m f.salt k timestamp f.bits fits

  All-may_have :
      (entries : List Entry) (f : Filter)
      → Fits f.m f.bits
      → All (Has f) entries
      → All (λ e. may_have sz f e.0 e.1 ≡ some true) entries
  unfolding may_have
  All-may_have [] f fits h = tt
  All-may_have ((k, timestamp) ∷ entries) f fits (h, hs) = (
    test_rounds-HoldsRounds sz f.k_div4 f.m f.salt k timestamp f.bits fits h,
    All-may_have entries f fits hs,
  )

  -- A filter whose bytes hold at least `m` bits, `m` not zero, takes any entries without a panic
  -- and is as roomy afterwards, and it answers then of every one of them that it may have it: no call of add takes back
  -- what an earlier one made it answer, whatever the hash does.
  pub add_all-may_have :
      (f : Filter) (entries : List Entry)
      → Fits f.m f.bits
      → (g : Filter) × (add_all entries f ≡ some g)
        × Fits g.m g.bits
        × All (λ e. may_have sz g e.0 e.1 ≡ some true) entries
  add_all-may_have f entries fits =
      let (bits, e, grows, has) = add_all_bits entries f fits in
      (
        record f { bits = bits },
        e,
        Fits-grown f.m f.bits bits fits grows,
        All-may_have entries (record f { bits = bits }) (Fits-grown f.m f.bits bits fits grows) has,
      )

get_or-replicate : (n i : ℕ) → get_or {A = ℕ} (replicate n 0) i 0 ≡ 0
get_or-replicate zero i = refl
get_or-replicate (suc n) zero = refl
get_or-replicate (suc n) (suc i) = get_or-replicate n i

test_bit_cleared :
    (m n word : ℕ) → Fits m (replicate n 0) → test_bit m (replicate n 0) word ≡ some false
unfolding test_bit
test_bit_cleared m n word fits =
    let some_m : (m == 0) ≡ false = ground (arith, fits) in
    let found =
      get_elem?-get_or (replicate n 0) (word % m / 8) 0 (in_range m word (replicate n 0) fits) in
    let off : (bit_and (get_or (replicate n 0) (word % m / 8) 0) (2 ^ (word % m % 8)) == 0) ≡ true =
      rw (get_or-replicate n (word % m / 8))
        (ground (arith, bit_and_pow (word % m % 8) 0, bit-zero (word % m % 8))) in
    simp (some_m, found, off) refl

test_bits_cleared :
    (m n word : ℕ) (words : List ℕ)
    → Fits m (replicate n 0)
    → test_bits m (word ∷ words) (replicate n 0) ≡ some false
unfolding test_bits
test_bits_cleared m n word words fits = simp (test_bits, test_bit_cleared m n word fits) refl

test_rounds_cleared :
    (sz : Sizing) (i m salt : ℕ) (k : Key) (timestamp n : ℕ)
    → 0 < i
    → Fits m (replicate n 0)
    → test_rounds sz i m salt k timestamp (replicate n 0) ≡ some false
unfolding test_rounds
test_rounds_cleared sz zero m salt k timestamp n pos fits = absurd (omega arith)
test_rounds_cleared sz (suc i) m salt k timestamp n pos fits =
    simp (test_rounds, test_bits_cleared m n _ _ fits) refl

-- A filter of at least one round whose bytes hold at least `m` bits, `m` not zero, answers after
-- a reset of no key and timestamp that it may have it, and has room as before for what add gives
-- it next.
pub reset-may_have :
    (sz : Sizing) (f : Filter) (salt : ℕ) (k : Key) (timestamp : ℕ)
    → 0 < f.k_div4
    → Fits f.m f.bits
    → (may_have sz (reset f salt) k timestamp ≡ some false)
      × Fits (reset f salt).m (reset f salt).bits
unfolding may_have reset
reset-may_have sz f salt k timestamp pos (some_m, room) =
    let fits : Fits f.m (replicate (length f.bits) 0) =
      (some_m, omega (arith, length-replicate {A = ℕ} (length f.bits) 0)) in
    (test_rounds_cleared sz f.k_div4 f.m _ k timestamp (length f.bits) pos fits, fits)
