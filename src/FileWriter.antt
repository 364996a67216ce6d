-- ===== src/FileWriter.antt =====
-- valuestore_GEN_.go, fileWriter: the full memory blocks of all memory writers go to value files,
-- one after another. `clearing` is what it sends to freeableMemBlockChans itself, each with the
-- number of its channel; a file frees its blocks to the same channels (`StoreFile.freed`). `make n`
-- is the id that createValueReadWriteFile gives the n-th file, if it can make it, and
-- `disk_close` the error of the Close of a file with that id.
pub mod Layout
pub mod Rounds
pub mod Whole
mod Tests
use valuestore.Base.{
  ℕ, zero, suc, ◌+◌, ◌-◌, ◌%◌, ◌^◌, Bool, true, false, ◌&&◌, ◌||◌, List, [], ◌∷◌, ◌++◌, Option,
  none, some, ltb, leb, if◌then◌else◌, length,
}
use valuestore.Base.Bytes.{Bytes}
use valuestore.Package.{Error}
use valuestore.MemWriter.{MemBlock, FileMsg, flush_file, shutdown_file, file}
use valuestore.MemClearer.{ClearMsg, flush_clear, shutdown_clear, clear}
use valuestore.StoreFile.{StoreFile, Closed, header_size, new_file, write, close_writing}

-- `finished` are the files that were closed, with what closing them wrote; an error of that is
-- only logged. The counts of marks stop at 0, where the source's go below it and are as little
-- above 0.
pub record FileWriter : Type 0 where
  pub current : Option StoreFile
  pub finished : List (StoreFile × Option Closed)
  pub flush_left : ℕ
  pub shutdown_left : ℕ
  pub toc_len : ℕ
  pub value_len : ℕ
  pub disabled : Bool
  pub clear_index : ℕ
  pub made : ℕ
  pub clearing : List (ℕ × ClearMsg)

-- `endless` is a write that does not end, `panicked` one through a nil file.
pub data FileTurn : Type 0 where
  running stopped : FileWriter → FileTurn
  panicked endless : FileTurn

-- `for i := 0; i < n; i++`, and the same loop backwards
abbrev pub to_each : ClearMsg → ℕ → ℕ → List (ℕ × ClearMsg)
to_each m i zero = []
to_each m i (suc n) = (i, m) ∷ to_each m (suc i) n

abbrev pub to_each_back : ClearMsg → ℕ → List (ℕ × ClearMsg)
to_each_back m zero = []
to_each_back m (suc n) = (n, m) ∷ to_each_back m n

abbrev pub next_index : ℕ → ℕ → ℕ
next_index clearers i = if leb clearers (i + 1) then 0 else i + 1

module _ (sum32 : Bytes → ℕ) (disk_write : Bytes → Option Error) (disk_close : ℕ → Option Error)
    (make : ℕ → Option ℕ) (interval file_cap writers clearers : ℕ) where
  unfoldable pub close_current : FileWriter → FileWriter
  close_current w = elim (w.current) [
    | none ↦ w
    | some f ↦ record w {
      current = none;
      finished = w.finished ++ (f, close_writing sum32 disk_write (disk_close f.id) f) ∷ [];
    }
  ]

  -- `fl != nil && (tocLen+len(toc) >= fileCap || valueLen+len(values) > fileCap)`
  abbrev pub is_full : FileWriter → MemBlock → Bool
  is_full w b = elim (w.current) [
    | none ↦ false
    | some f ↦
        leb file_cap ((w.toc_len + length b.toc) % 2 ^ 64)
        || ltb file_cap ((w.value_len + length b.values) % 2 ^ 64)
  ]

  abbrev pub wrote_block : Option StoreFile → MemBlock → FileWriter → FileTurn
  wrote_block none b w = endless
  wrote_block (some f) b w = running (record w {
    current = some f;
    toc_len = (w.toc_len + length b.toc) % 2 ^ 64;
    value_len = (w.value_len + length b.values) % 2 ^ 64;
  })

  -- `fl.write(memBlock)`, also after a file could not be made
  unfoldable pub write_block : MemBlock → FileWriter → FileTurn
  write_block b w = elim (w.current) [ none ↦ panicked | some f ↦ wrote_block (write f b) b w ]

  abbrev pub with_file : Option ℕ → FileWriter → FileWriter
  with_file none w = record w { disabled = true }
  with_file (some id) w = record w { current = some (new_file id interval) }

  unfoldable pub open_file : FileWriter → FileWriter
  open_file w = elim (w.current) [
    | none ↦
        with_file (make w.made)
          (record w { made = w.made + 1; toc_len = header_size; value_len = header_size })
    | some f ↦ w
  ]

  unfoldable pub take_block : MemBlock → FileWriter → FileTurn
  take_block b w =
      if w.disabled
      then running (record w {
        clearing = w.clearing ++ (w.clear_index, clear b) ∷ [];
        clear_index = next_index clearers w.clear_index;
      })
      else write_block b (open_file (if is_full w b then close_current w else w))

  -- A round of the loop.
  unfoldable pub file_turn : FileMsg → FileWriter → FileTurn
  file_turn flush_file w =
      let less : FileWriter = record w { flush_left = w.flush_left - 1 } in
      let closed = close_current less in
      if ltb 0 less.flush_left
      then running less
      else running (record closed {
        clearing = closed.clearing ++ to_each flush_clear 0 clearers;
        flush_left = writers;
      })
  file_turn shutdown_file w =
      let less : FileWriter = record w { shutdown_left = w.shutdown_left - 1 } in
      let closed = close_current less in
      if ltb 0 less.shutdown_left
      then running less
      else stopped
          (record closed { clearing = closed.clearing ++ to_each_back shutdown_clear clearers })
  file_turn (file b) w = take_block b w

  -- The loop, on the messages that it is sent.
  unfoldable pub run_files : List FileMsg → FileWriter → FileTurn
  run_files [] w = running w
  run_files (m ∷ ms) w = elim (file_turn m w) [
    | running x ↦ run_files ms x
    | stopped x ↦ stopped x
    | panicked ↦ panicked
    | endless ↦ endless
  ]

-- The state that the loop begins with.
abbrev pub fresh : ℕ → FileWriter
fresh writers = record {
  current = none;
  finished = [];
  flush_left = writers;
  shutdown_left = writers;
  toc_len = 0;
  value_len = 0;
  disabled = false;
  clear_index = 0;
  made = 0;
  clearing = [];
}
