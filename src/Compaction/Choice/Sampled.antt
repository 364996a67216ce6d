-- ===== src/Compaction/Choice/Sampled.antt =====
-- valuecompaction_GEN_.go, needsCompaction: what the sample counts.
use mathlib.Core.Path.{subst}
use valuestore.Base.{
  ℕ, zero, suc, ◌+◌, ◌-◌, ◌^◌, ◌≤◌, ◌<◌, ◌≡◌, ◌⊎◌, refl, ap, ◌∙◌, Bool, true, false, not, ◌||◌,
  List, [], ◌∷◌, ◌++◌, inl, inr, arith, ltb, leb, ◌==◌, if◌then◌else◌, Bool-cases, length, take,
  set, replicate, drop, All,
}
use valuestore.LocMap.{LocMap}
use valuestore.Toc.{Entry}
use valuestore.Store.{Store, lookup, is_gone}
use valuestore.Compaction.{up}
use valuestore.Compaction.Choice.{
  Sample, skips, sample_entry, sample_entries, nothing_checked, needs_compaction, to_check_of,
  is_chosen,
}

-- The key's location is of another time or in another block than the entry.
abbrev pub is_elsewhere : (l : LocMap) → Store l → Entry → Bool
is_elsewhere l s e =
    not ((l.get s.map e.key).timestampbits == e.timestampbits)
    || not ((l.get s.map e.key).block_id == e.block_id)

abbrev pub elsewhere : (l : LocMap) → Store l → List Entry → ℕ
elsewhere l s [] = 0
elsewhere l s (e ∷ es) = (if is_elsewhere l s e then 1 else 0) + elsewhere l s es

abbrev pub entries_of : List (ℕ × Entry) → List Entry
entries_of [] = []
entries_of (e ∷ es) = e.1 ∷ entries_of es

-- The workers that go on.
abbrev pub going : List Bool → ℕ
going [] = 0
going (b ∷ flags) = (if b then 0 else 1) + going flags

going-set :
    (flags : List Bool) (k : ℕ)
    → skips flags k ≡ false
    → suc (going (set flags k true)) ≡ going flags
going-set [] k e = absurd cc
going-set (b ∷ flags) zero e = let off : b ≡ false = e in simp off (omega arith)
going-set (b ∷ flags) (suc k) e = omega (arith, going-set flags k e)

going-replicate : (n : ℕ) → going (replicate n false) ≡ n
going-replicate zero = refl
going-replicate (suc n) = omega (arith, going-replicate n)

skips-replicate : (n k : ℕ) → k < n → skips (replicate n false) k ≡ false
skips-replicate zero k h = absurd (omega (arith, h))
skips-replicate (suc n) zero h = refl
skips-replicate (suc n) (suc k) h = skips-replicate n k (omega (arith, h))

-- Some of the entries, in order.
abbrev pub IsSome : List Entry → List (ℕ × Entry) → Type 0
IsSome [] es = Unit {0}
IsSome (x ∷ more) [] = ⊥
IsSome (x ∷ more) (e ∷ es) = ((x ≡ e.1) × IsSome more es) ⊎ IsSome (x ∷ more) es

IsSome-skip :
    (more : List Entry) (e : ℕ × Entry) (es : List (ℕ × Entry))
    → IsSome more es
    → IsSome more (e ∷ es)
IsSome-skip [] e es h = tt
IsSome-skip (x ∷ more) e es h = inr h

module _ (l : LocMap) (s : Store l) (to_check : ℕ) where
  sample_entry_lem :
      (k : ℕ) (e : Entry) (p : Sample)
      → sample_entry l s to_check k e p ≡ record {
        stale = if is_elsewhere l s e then up p.stale else p.stale;
        checked = up p.checked;
        skip_rest =
            if (up p.checked == to_check) || ltb to_check (up p.checked)
            then set p.skip_rest k true
            else p.skip_rest;
      }
  unfolding sample_entry lookup
  sample_entry_lem k e p = elim (Bool-cases (is_gone (l.get s.map e.key))) [
    | inl gone ↦ simp gone refl
    | inr here ↦ simp here refl
  ]

  -- An entry that is counted: the flag goes up where the sample is full.
  sample_entry_counts :
      (k : ℕ) (e : Entry) (p : Sample)
      → p.checked + 1 < 2 ^ 32
      → p.stale ≤ p.checked
      → let n = sample_entry l s to_check k e p in
        (n.stale ≡ p.stale + (if is_elsewhere l s e then 1 else 0))
        × (n.checked ≡ p.checked + 1)
        × (n.skip_rest
            ≡ (if leb to_check (p.checked + 1) then set p.skip_rest k true else p.skip_rest))
  sample_entry_counts k e p small less =
      let lem = sample_entry_lem k e p in
      let full : ((up p.checked == to_check) || ltb to_check (up p.checked))
          ≡ leb to_check (p.checked + 1) =
        ground (arith, small) in
      (
        ap (λ (q : Sample). q.stale) lem ∙ ground (arith, small, less),
        ap (λ (q : Sample). q.checked) lem ∙ omega (arith, small),
        ap (λ (q : Sample). q.skip_rest) lem
            ∙ ap (λ b. if b then set p.skip_rest k true else p.skip_rest) full,
      )

  -- What is counted of more entries.
  record Counts (p q : Sample) (es : List Entry) : Type 0 where
    stale : q.stale ≡ p.stale + elsewhere l s es
    checked : q.checked ≡ p.checked + length es

  Counts-cons :
      (k : ℕ) (e : Entry) (es : List Entry) (p q : Sample)
      → p.checked + 1 < 2 ^ 32
      → p.stale ≤ p.checked
      → Counts (sample_entry l s to_check k e p) q es
      → Counts p q (e ∷ es)
  Counts-cons k e es p q small less r =
      let (stale, checked, flags) = sample_entry_counts k e p small less in
      record { stale = omega (arith, r.stale, stale); checked = omega (arith, r.checked, checked) }

  -- Once the sample is full, a worker counts one entry more at most.
  full_counts :
      (es : List (ℕ × Entry)) (p : Sample)
      → to_check ≤ p.checked
      → p.checked + going p.skip_rest < 2 ^ 32
      → p.stale ≤ p.checked
      → (more : List Entry) × (length more ≤ going p.skip_rest)
        × IsSome more es
        × Counts p (sample_entries l s to_check es p) more
  unfolding sample_entries
  full_counts [] p full small less =
      ([], omega arith, tt, record { stale = omega arith; checked = omega arith })
  full_counts ((k, e) ∷ es) p full small less = elim (Bool-cases (skips p.skip_rest k)) [
    | inl over ↦
        let (more, few, some_of, r) = full_counts es p full small less in
        simp over (more, few, IsSome-skip more (k, e) es some_of, r)
    | inr on ↦
        let one_off = going-set p.skip_rest k on in
        let (stale, checked, flags) =
          sample_entry_counts k e p (omega (arith, small, one_off)) less in
        let past : leb to_check (p.checked + 1) ≡ true = ground (arith, full) in
        let off : (sample_entry l s to_check k e p).skip_rest ≡ set p.skip_rest k true =
          flags ∙ ap (λ b. if b then set p.skip_rest k true else p.skip_rest) past in
        let left : suc (going (sample_entry l s to_check k e p).skip_rest) ≡ going p.skip_rest =
          ap (λ f. suc (going f)) off ∙ one_off in
        let one : (if is_elsewhere l s e then 1 else 0) ≤ 1 = ground arith in
        let (more, few, some_of, r) =
          full_counts es (sample_entry l s to_check k e p) (omega (arith, full, checked))
            (omega (arith, small, checked, left)) (omega (arith, stale, checked, less, one)) in
        simp on (
          e ∷ more,
          omega (arith, few, left),
          inl (refl, some_of),
          Counts-cons k e more p _ (omega (arith, small, one_off)) less r,
        )
  ]

  -- While it is not full, every worker counts what it comes to.
  filling_counts :
      (workers : ℕ) (es : List (ℕ × Entry)) (r : ℕ) (p : Sample)
      → 0 < workers
      → to_check + workers < 2 ^ 32
      → All (λ e. e.0 < workers) es
      → p.skip_rest ≡ replicate workers false
      → p.checked + suc r ≡ to_check
      → p.stale ≤ p.checked
      → (more : List Entry) × (length more < workers)
        × IsSome more (drop (suc r) es)
        × Counts p (sample_entries l s to_check es p) (take (suc r) (entries_of es) ++ more)
  unfolding sample_entries
  filling_counts workers [] r p one_there small inside flags left less =
      ([], omega (arith, one_there), tt, record { stale = omega arith; checked = omega arith })
  filling_counts workers ((k, e) ∷ es) zero p one_there small (own, inside) flags left less =
      let on : skips p.skip_rest k ≡ false =
        ap (λ f. skips f k) flags ∙ skips-replicate workers k own in
      let (stale, checked, next) = sample_entry_counts k e p (omega (arith, small, left)) less in
      let past : leb to_check (p.checked + 1) ≡ true = ground (arith, left) in
      let off : (sample_entry l s to_check k e p).skip_rest ≡ set p.skip_rest k true =
        next ∙ ap (λ b. if b then set p.skip_rest k true else p.skip_rest) past in
      let others : suc (going (sample_entry l s to_check k e p).skip_rest) ≡ workers =
        ap (λ f. suc (going f)) off
        ∙ going-set p.skip_rest k on
        ∙ ap going flags
        ∙ going-replicate workers in
      let one : (if is_elsewhere l s e then 1 else 0) ≤ 1 = ground arith in
      let (more, few, some_of, r) =
        full_counts es (sample_entry l s to_check k e p) (omega (arith, left, checked))
          (omega (arith, small, checked, left, others))
          (omega (arith, stale, checked, less, one)) in
      simp on (
        more,
        omega (arith, few, others),
        some_of,
        Counts-cons k e more p _ (omega (arith, small, left)) less r,
      )
  filling_counts workers ((k, e) ∷ es) (suc r) p one_there small (own, inside) flags left less =
      let on : skips p.skip_rest k ≡ false =
        ap (λ f. skips f k) flags ∙ skips-replicate workers k own in
      let (stale, checked, next) = sample_entry_counts k e p (omega (arith, small, left)) less in
      let early : leb to_check (p.checked + 1) ≡ false = ground (arith, left) in
      let same : (sample_entry l s to_check k e p).skip_rest ≡ replicate workers false =
        next ∙ ap (λ b. if b then set p.skip_rest k true else p.skip_rest) early ∙ flags in
      let one : (if is_elsewhere l s e then 1 else 0) ≤ 1 = ground arith in
      let (more, few, some_of, c) =
        filling_counts workers es r (sample_entry l s to_check k e p) one_there small inside same
          (omega (arith, checked, left)) (omega (arith, stale, checked, less, one)) in
      simp on (
        more,
        few,
        some_of,
        Counts-cons k e (take (suc r) (entries_of es) ++ more) p _ (omega (arith, small, left)) less
            c,
      )

module _ (l : LocMap) (portion : ℕ → ℕ) (workers : ℕ) (s : Store l) where
  -- A file with fewer than 1000 entries is compacted. Of one with more, but fewer than 2 ^ 32,
  -- whose table is read without an error, the workers, of which there is at least one and fewer
  -- than 2 ^ 31, count the first million entries at most, in the order in which they come to them,
  -- and some of those behind, fewer than there are workers: the file is compacted when more of the
  -- counted ones than the portion allows have a timestamp or a block that is not that of their
  -- key's location.
  pub is_chosen-elsewhere :
      (total : ℕ) (es : List (ℕ × Entry))
      → total < 2 ^ 32
      → 0 < workers
      → workers < 2 ^ 31
      → All (λ e. e.0 < workers) es
      → let n = to_check_of l portion workers s total in
        (more : List Entry) × (length more < workers)
        × IsSome more (drop n es)
        × (is_chosen l portion workers s total [] es ≡ (
            if ltb total 1000
            then true
            else ltb
                (portion (length (take n (entries_of es) ++ more)))
                (elsewhere l s (take n (entries_of es) ++ more))))
  unfolding is_chosen needs_compaction
  is_chosen-elsewhere total es small one_there few_there inside =
      elim (Bool-cases (ltb total 1000)) [
        | inl few ↦ ([], one_there, tt, simp few refl)
        | inr many ↦
            let n = to_check_of l portion workers s total in
            let enough : 1000 ≤ n = ground (arith, many, small) in
            let word : n ≤ 1000000 = ground (arith, small) in
            let some_left : suc (n - 1) ≡ n = omega (arith, enough) in
            let (more, less, some_of, c) =
              filling_counts l s n workers es (n - 1) (nothing_checked workers) one_there
                (omega (arith, word, few_there)) inside refl (omega (arith, some_left))
                (omega arith) in
            let q = sample_entries l s n es (nothing_checked workers) in
            let count : q.checked ≡ length (take n (entries_of es) ++ more) =
              c.checked
              ∙ ap (λ i. 0 + length (take i (entries_of es) ++ more)) some_left
              ∙ omega arith in
            let others : q.stale ≡ elsewhere l s (take n (entries_of es) ++ more) =
              c.stale
              ∙ ap (λ i. 0 + elsewhere l s (take i (entries_of es) ++ more)) some_left
              ∙ omega arith in
            (
              more,
              less,
              subst (λ i. IsSome more (drop i es)) some_left some_of,
              simp many (simp (count, others) refl),
            )
      ]
