-- ===== src/Compaction.antt =====
-- valuecompaction_GEN_.go: compactFile with one worker, which takes the batches one after another,
-- and the choice of the files. The entries of a table come from valueReadTOCEntriesBatched; `files`
-- are the value files by their ids, and the memory blocks of the store are those that it works on,
-- that wait for the file writer, or that are free.
pub mod Entries
pub mod Runs
pub mod Whole
pub mod Choice
mod Tests
use valuestore.Base.{
  ℕ, zero, suc, ◌+◌, ◌*◌, ◌%◌, ◌^◌, ℤ, pos, negsuc, Bool, true, false, not, ◌&&◌, ◌||◌, List, [],
  ◌∷◌, ◌++◌, Option, none, some, bit_or, ltb, leb, ◌==◌, if◌then◌else◌, length,
}
use valuestore.Base.Bytes.{Bytes}
use valuestore.Package.{Error, is_not_found, tsb_compaction_rewrite}
use valuestore.LocMap.{Key, Location, LocMap}
use valuestore.MemWriter.{MemBlock, FileMsg, flush_file, shutdown_file, file, Limits}
use valuestore.Toc.{Entry, TocError}
use valuestore.Store.{
  Worker, Store, Answer, answered, blocked, crashed, Found, done, in_block, past_values, FileReader,
  lookup, read, read_mem_block, read_file, write,
}

-- The counts of a compaction, modulo 2 ^ 32.
pub record Counts : Type 0 where
  pub count : ℕ
  pub stale : ℕ
  pub rewrote : ℕ
  pub read_errors : ℕ
  pub write_errors : ℕ

abbrev pub up : ℕ → ℕ
up n = (n + 1) % 2 ^ 32

-- What a read of the store gives; `lost` is a read through a nil block or past a block's values.
pub data Reading : Type 0 where
  gave : ℕ → Bytes → Option Error → Reading
  lost : Reading

abbrev worked_on : List Worker → List MemBlock
worked_on [] = []
worked_on (w ∷ ws) = elim (w.mem_block) [ none ↦ worked_on ws | some b ↦ b ∷ worked_on ws ]

abbrev filed_blocks : List FileMsg → List MemBlock
filed_blocks [] = []
filed_blocks (flush_file ∷ ms) = filed_blocks ms
filed_blocks (shutdown_file ∷ ms) = filed_blocks ms
filed_blocks (file b ∷ ms) = b ∷ filed_blocks ms

abbrev find_block : ℕ → List MemBlock → Option MemBlock
find_block id [] = none
find_block id (b ∷ bs) = if b.id == id then some b else find_block id bs

-- How a read of a block ends; only another block's id would send it on, and the block was found by
-- the id that the location map gives.
abbrev pub settled : Found → Reading
settled (done t v err) = gave t v err
settled (in_block id x) = lost
settled past_values = lost

module _ (l : LocMap) (lim : Limits) (files : ℕ → Option FileReader) where
  unfoldable pub read_in : Store l → Key → Found → Reading
  read_in s k (done t v err) = gave t v err
  read_in s k past_values = lost
  read_in s k (in_block id x) = elim (files id) [
    | some fp ↦ settled (read_file fp x [])
    | none ↦ elim (find_block id (worked_on s.workers ++ (filed_blocks s.filed ++ s.free))) [
      | some b ↦ settled (read_mem_block l s.map b k [])
      | none ↦ lost
    ]
  ]

  -- store.read with an empty value
  unfoldable pub reading : Store l → Key → Reading
  unfolding read_in
  reading s k = read_in s k (read l s.map k [])

  -- What becomes of an entry.
  pub data Verdict : Type 0 where
    outdated unreadable fault : Verdict
    rewrite : Bytes → Verdict

  abbrev pub verdict_read : ℕ → Reading → Verdict
  verdict_read t lost = fault
  verdict_read t (gave u v err) =
      if is_not_found err
      then outdated
      else elim err [ some e ↦ unreadable | none ↦ if ltb t u then outdated else rewrite v ]

  unfoldable pub verdict : Store l → Entry → Verdict
  verdict s e =
      let (t, id, size, err) = lookup l s.map e.key in
      if ltb e.timestampbits t
      then outdated
      else if t == 0
      then outdated
      else verdict_read e.timestampbits (reading s e.key)

  -- The Boolean says whether the batch goes on.
  abbrev pub rewritten : Counts → Answer l (ℕ × Option Error) → Answer l (Counts × Bool)
  rewritten c (answered s (p, none)) = answered s (record c { rewrote = up c.rewrote }, true)
  rewritten c (answered s (p, some e)) =
      answered s (record c { write_errors = up c.write_errors }, false)
  rewritten c blocked = blocked
  rewritten c crashed = crashed

  abbrev pub follow : Verdict → Store l → Entry → Counts → Answer l (Counts × Bool)
  follow outdated s e c = answered s (record c { stale = up c.stale }, true)
  follow unreadable s e c = answered s (record c { read_errors = up c.read_errors }, true)
  follow fault s e c = crashed
  follow (rewrite v) s e c =
      rewritten c (write l lim s e.key (bit_or e.timestampbits tsb_compaction_rewrite) v true)

  unfoldable pub compact_entry : Store l → Entry → Counts → Answer l (Counts × Bool)
  compact_entry s e c = follow (verdict s e) s e (record c { count = up c.count })

  -- `for j := 0; j < len(batch); j++`
  unfoldable pub compact_batch : List Entry → Store l → Counts → Answer l Counts
  compact_batch [] s c = answered s c
  compact_batch (e ∷ es) s c = elim (compact_entry s e c) [
    | answered after (d, true) ↦ compact_batch es after d
    | answered after (d, false) ↦ answered after d
    | blocked ↦ blocked
    | crashed ↦ crashed
  ]

  -- the worker's loop; after a write error it only empties its channel
  unfoldable pub compact_batches : List (List Entry) → Store l → Counts → Answer l Counts
  compact_batches [] s c = answered s c
  compact_batches (b ∷ bs) s c =
      elim (if ltb 0 c.write_errors then answered s c else compact_batch b s c) [
        | answered after d ↦ compact_batches bs after d
        | blocked ↦ blocked
        | crashed ↦ crashed
      ]

-- Whether the file is removed at the end: `fdc` entries were read, with the errors `errs`.
abbrev pub removes : Bool → Counts → ℕ → List TocError → Bool
removes canceled c fdc errs =
    if canceled
    then false
    else if ltb 0 c.read_errors
    then false
    else if ltb 0 c.write_errors
    then false
    else if ltb 0 (length errs) && (fdc == 0)
    then false
    else true

abbrev pub no_counts : Counts
no_counts = record { count = 0; stale = 0; rewrote = 0; read_errors = 0; write_errors = 0 }

module _ (l : LocMap) (lim : Limits) (files : ℕ → Option FileReader) where
  abbrev pub and_removes : Bool → ℕ → List TocError → Answer l Counts → Answer l (Counts × Bool)
  and_removes canceled fdc errs (answered s c) = answered s (c, removes canceled c fdc errs)
  and_removes canceled fdc errs blocked = blocked
  and_removes canceled fdc errs crashed = crashed

  -- compactFile of a table that could be opened, with what reading it gave
  unfoldable pub compact_file :
      Store l → Bool → ℕ × (List TocError × List (List Entry)) → Answer l (Counts × Bool)
  compact_file s canceled (fdc, (errs, batches)) =
      and_removes canceled fdc errs (compact_batches l lim files batches s no_counts)
