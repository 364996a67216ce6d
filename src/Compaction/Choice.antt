-- ===== src/Compaction/Choice.antt =====
-- valuecompaction_GEN_.go: compactionWorker's choice of the files, and needsCompaction. `portion` is
-- `uint32(float64(checked)*threshold)`; what a reading of the table gives, its errors and the
-- entries of its batches, each with the number of its worker, are arguments: the entries in the
-- order in which the workers count them, be it that of one after another or any other.
pub mod Sampled
use valuestore.Base.{
  ℕ, zero, suc, ◌+◌, ◌%◌, ◌^◌, Bool, true, false, not, ◌||◌, List, [], ◌∷◌, Option, none, some, ltb,
  ◌==◌, if◌then◌else◌, length, get_elem?, set, replicate,
}
use valuestore.LocMap.{LocMap}
use valuestore.Toc.{Entry, TocError}
use valuestore.Store.{Store, lookup}
use valuestore.Compaction.{up}

-- The counts that the workers share, and the `skipRest` of each.
pub record Sample : Type 0 where
  pub stale : ℕ
  pub checked : ℕ
  pub skip_rest : List Bool

-- A worker that there is not skips as well.
abbrev pub skips : List Bool → ℕ → Bool
skips flags k = elim (get_elem? flags k) [ none ↦ true | some b ↦ b ]

module _ (l : LocMap) (s : Store l) (to_check : ℕ) where
  -- an entry of worker `k`
  unfoldable pub sample_entry : ℕ → Entry → Sample → Sample
  sample_entry k e p =
      let (t, id, size, err) = lookup l s.map e.key in
      let c = up p.checked in
      record {
        stale =
            if not (t == e.timestampbits) || not (id == e.block_id) then up p.stale else p.stale;
        checked = c;
        skip_rest =
            if (c == to_check) || ltb to_check c then set p.skip_rest k true else p.skip_rest;
      }

  -- A worker that skips leaves the rest of its batch, and the batches behind it.
  unfoldable pub sample_entries : List (ℕ × Entry) → Sample → Sample
  sample_entries [] p = p
  sample_entries ((k, e) ∷ es) p =
      sample_entries es (if skips p.skip_rest k then p else sample_entry k e p)

abbrev pub nothing_checked : ℕ → Sample
nothing_checked workers = record { stale = 0; checked = 0; skip_rest = replicate workers false }

module _ (l : LocMap) (portion : ℕ → ℕ) (workers : ℕ) (s : Store l) where
  unfoldable pub needs_compaction : ℕ → List TocError → List (ℕ × Entry) → Bool
  needs_compaction to_check errs entries =
      let p = sample_entries l s to_check entries (nothing_checked workers) in
      if ltb 0 (length errs) then true else ltb (portion p.checked) p.stale

  -- `toCheck`
  abbrev pub to_check_of : ℕ → ℕ
  to_check_of total = if ltb 1000000 (total % 2 ^ 32) then 1000000 else total % 2 ^ 32

  -- whether the worker compacts a file with `total` entries
  unfoldable pub is_chosen : ℕ → List TocError → List (ℕ × Entry) → Bool
  unfolding needs_compaction
  is_chosen total errs entries =
      if ltb total 1000 then true else needs_compaction (to_check_of total) errs entries
