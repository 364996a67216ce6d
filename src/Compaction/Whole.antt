-- ===== src/Compaction/Whole.antt =====
-- valuecompaction_GEN_.go, compactFile: all entries of a table.
use valuestore.Base.{
  ℕ, ◌+◌, ◌^◌, ◌≤◌, ◌<◌, ◌≡◌, ◌≢◌, refl, sym, ap, ◌∙◌, Bool, true, false, List, [], ◌∷◌, ◌++◌,
  Option, arith, ltb, if◌then◌else◌, length, length-append, All, All-split, All-map,
}
use valuestore.LocMap.{Key, LocMap, IsLocMap}
use valuestore.MemWriter.{Limits}
use valuestore.MemWriter.Bounds.{IsLimits}
use valuestore.Toc.{Entry, TocError}
use valuestore.Store.{Store, Answer, answered, blocked, crashed, FileReader}
use valuestore.Store.Effects.{IsSound}
use valuestore.Compaction.{
  Counts, up, compact_batch, compact_batches, removes, no_counts, and_removes, compact_file,
}
use valuestore.Compaction.Entries.{Fate, old, broken, moved, Meets, IsPlain, entry-Turned}
use valuestore.Compaction.Runs.{
  IsSafe, IsMoved, Differ, AllDiffer, AllDiffer-split, all_broken, Ran, Ran-append, entry_Ran,
}

abbrev pub entries : List (Entry × Fate) → List Entry
entries [] = []
entries (p ∷ ps) = p.0 ∷ entries ps

abbrev pub all_entries : List (List (Entry × Fate)) → List (List Entry)
all_entries [] = []
all_entries (ps ∷ pss) = entries ps ∷ all_entries pss

abbrev pub flat : List (List (Entry × Fate)) → List (Entry × Fate)
flat [] = []
flat (ps ∷ pss) = ps ++ flat pss

module _ {l : LocMap} (lim : Limits) (laws : IsLocMap l) (fit : IsLimits lim)
    (files : ℕ → Option FileReader) (on : Bool) where
  abbrev Met : Store l → Entry × Fate → Type 0
  Met s p = Meets files lim.value_cap (l.get s.map p.0.key) p

  none_Ran :
      (s : Store l) (c : Counts) → IsSound lim on s.workers s.free → Ran lim files on s [] c s c
  none_Ran s c sound = record {
    safe = tt;
    stays = λ k t v claimed apart. claimed;
    untouched = λ j apart. refl;
    still_meets = λ q apart meets. meets;
    sound = sound;
    fewer = omega arith;
    no_write_error = refl;
    read_errors = refl;
  }

  Met-still :
      (s z : Store l) (ps qs : List (Entry × Fate)) (c d : Counts)
      → Ran lim files on s ps c z d
      → All (λ p. All (Differ p) qs) ps
      → All (Met s) qs
      → All (Met z) qs
  Met-still s z ps [] c d r cross meets = tt
  Met-still s z ps (q ∷ qs) c d r cross (meet, meets) = (
    r.still_meets q (All-map (λ p. All (Differ p) (q ∷ qs)) (λ p. Differ p q) ps (λ p h. h.0) cross)
        meet,
    Met-still s z ps qs c d r
        (All-map (λ p. All (Differ p) (q ∷ qs)) (λ p. All (Differ p) qs) ps (λ p h. h.1) cross)
        meets,
  )

  batch_Ran :
      (ps : List (Entry × Fate)) (s : Store l) (c : Counts)
      → All (λ p. IsPlain p.0) ps
      → All (Met s) ps
      → AllDiffer ps
      → IsSound lim on s.workers s.free
      → length ps ≤ length s.free
      → (z : Store l) × (d : Counts) × (compact_batch l lim files (entries ps) s c ≡ answered z d)
        × Ran lim files on s ps c z d
  unfolding compact_batch
  batch_Ran [] s c plain meets apart sound enough = (s, c, refl, none_Ran s c sound)
  batch_Ran ((e, f) ∷ ps) s c (p, plain) (m, meets) (first, apart) sound enough =
      let t = entry-Turned l lim laws fit files on s e f c p m sound (omega (arith, enough)) in
      let r = entry_Ran lim files on s e c f m t in
      let cross : All (λ p. All (Differ p) ps) ((e, f) ∷ []) = (first, tt) in
      let (z, d, ran, u) =
        batch_Ran ps t.after t.counts plain
          (Met-still s t.after ((e, f) ∷ []) ps c t.counts r cross meets) apart t.sound
          (omega (arith, enough, t.fewer)) in
      (
        z,
        d,
        ap
              (λ (a : Answer l (Counts × Bool)). elim a [
                | answered after (x, true) ↦ compact_batch l lim files (entries ps) after x
                | answered after (x, false) ↦ answered after x
                | blocked ↦ blocked
                | crashed ↦ crashed
              ])
              t.ran
            ∙ ran,
        Ran-append lim files on s t.after z ((e, f) ∷ []) ps c t.counts d cross r u,
      )

  batches_Ran :
      (pss : List (List (Entry × Fate))) (s : Store l) (c : Counts)
      → c.write_errors ≡ 0
      → All (λ p. IsPlain p.0) (flat pss)
      → All (Met s) (flat pss)
      → AllDiffer (flat pss)
      → IsSound lim on s.workers s.free
      → length (flat pss) ≤ length s.free
      → (z : Store l) × (d : Counts) × (compact_batches l lim files (all_entries pss) s c
          ≡ answered z d)
        × Ran lim files on s (flat pss) c z d
  unfolding compact_batches
  batches_Ran [] s c none_yet plain meets apart sound enough = (s, c, refl, none_Ran s c sound)
  batches_Ran (ps ∷ pss) s c none_yet plain meets apart sound enough =
      let long = length-append ps (flat pss) in
      let (plain_near, plain_far) = All-split (λ p. IsPlain p.0) ps (flat pss) plain in
      let (near, far) = All-split (Met s) ps (flat pss) meets in
      let (cross, apart_near, apart_far) = AllDiffer-split ps (flat pss) apart in
      let (y, d, ran, r) =
        batch_Ran ps s c plain_near near apart_near sound (omega (arith, enough, long)) in
      let (z, f, rest, t) =
        batches_Ran pss y d (r.no_write_error ∙ none_yet) plain_far
          (Met-still s y ps (flat pss) c d r cross far) apart_far r.sound
          (omega (arith, enough, long, r.fewer)) in
      let going : ltb 0 c.write_errors ≡ false = ground (arith, none_yet) in
      (
        z,
        f,
        ap
              (λ b. elim (if b then answered s c else compact_batch l lim files (entries ps) s c) [
                | answered after x ↦ compact_batches l lim files (all_entries pss) after x
                | blocked ↦ blocked
                | crashed ↦ crashed
              ])
              going
            ∙ ap
                (λ (a : Answer l Counts). elim a [
                  | answered after x ↦ compact_batches l lim files (all_entries pss) after x
                  | blocked ↦ blocked
                  | crashed ↦ crashed
                ])
                ran
            ∙ rest,
        Ran-append lim files on s y z ps (flat pss) c d f cross r t,
      )

-- An entry that is old or was read.
abbrev pub IsRead : Fate → Type 0
IsRead old = Unit {0}
IsRead broken = ⊥
IsRead (moved v) = Unit {0}

All-IsRead :
    (ps : List (Entry × Fate)) (n : ℕ)
    → n + length ps < 2 ^ 32
    → all_broken ps n ≡ 0
    → (n ≡ 0) × All (λ p. IsRead p.1) ps
All-IsRead [] n fits zeroed = (zeroed, tt)
All-IsRead ((e, old) ∷ ps) n fits zeroed =
    let (z, rest) = All-IsRead ps n (omega (arith, fits)) zeroed in (z, (tt, rest))
All-IsRead ((e, moved v) ∷ ps) n fits zeroed =
    let (z, rest) = All-IsRead ps n (omega (arith, fits)) zeroed in (z, (tt, rest))
All-IsRead ((e, broken) ∷ ps) n fits zeroed =
    let (z, rest) = All-IsRead ps (up n) (omega (arith, fits)) zeroed in
    absurd (omega (arith, z, fits))

removes-read :
    (canceled : Bool) (c : Counts) (fdc : ℕ) (errs : List TocError)
    → removes canceled c fdc errs ≡ true
    → (canceled ≡ false) × (c.read_errors ≡ 0)
removes-read canceled c fdc errs h = ground (arith, h)

module _ {l : LocMap} (lim : Limits) (laws : IsLocMap l) (fit : IsLimits lim)
    (files : ℕ → Option FileReader) (on : Bool) where
  -- The compaction of a file with one worker, with sizes that fit a page, a location map that keeps
  -- its laws, workers and free blocks that are well formed, writes enabled for all or none, a free
  -- block for each entry, and fewer than 2 ^ 32 entries. Their timestampbits have 64 bits and no
  -- mark of a rewrite, and two of one key have different ones. Each entry either is old, its key's
  -- location being newer or nothing that can be read, a tombstone among them, or has the
  -- timestampbits of its key's location, which is in a value file whose read gives an error that is
  -- not "not found", or a value that is not too long, which is to be moved. Then the compaction
  -- ends, and at each value that was to be moved the key's location has the entry's timestampbits
  -- and a memory block of the store has the value there; a key without such an entry has its
  -- location as before; and the file is removed only if nothing canceled the compaction and no
  -- entry's read gave an error.
  pub compact_file-IsSafe :
      (pss : List (List (Entry × Fate))) (s : Store l) (canceled : Bool) (fdc : ℕ)
      (errs : List TocError)
      → All (λ p. IsPlain p.0) (flat pss)
      → All (λ p. Meets files lim.value_cap (l.get s.map p.0.key) p) (flat pss)
      → AllDiffer (flat pss)
      → IsSound lim on s.workers s.free
      → length (flat pss) ≤ length s.free
      → length (flat pss) < 2 ^ 32
      → (z : Store l) × (c : Counts) × (removed : Bool) × (compact_file l lim files s canceled
            (fdc, (errs, all_entries pss))
          ≡ answered z (c, removed))
        × All (IsSafe z) (flat pss)
        × ((j : Key)
            → All (λ p. IsMoved p.1 → j ≢ p.0.key) (flat pss)
            → l.get z.map j ≡ l.get s.map j)
        × (removed ≡ true → (canceled ≡ false) × All (λ p. IsRead p.1) (flat pss))
  unfolding compact_file
  compact_file-IsSafe pss s canceled fdc errs plain meets apart sound enough few =
      let (z, c, ran, r) =
        batches_Ran lim laws fit files on pss s no_counts refl plain meets apart sound enough in
      (
        z,
        c,
        removes canceled c fdc errs,
        ap (and_removes l lim files canceled fdc errs) ran,
        r.safe,
        r.untouched,
        λ h.
            let (going, zeroed) = removes-read canceled c fdc errs h in
            (going, (All-IsRead (flat pss) 0 (omega (arith, few)) (sym r.read_errors ∙ zeroed)).1),
      )
