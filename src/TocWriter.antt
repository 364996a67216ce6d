-- ===== src/TocWriter.antt =====
-- valuestore_GEN_.go, tocWriter: the blocks of the memory clearers go to the table of contents of
-- their value file. A writer is the number of its file, so that two may name the same one; a file
-- is what the disk has of the stream that its checksummed writer was given. The path of a file has
-- its timestamp only, so making one takes the content of an earlier one of that timestamp away. `fails n` says whether the step fails that
-- the source numbers `n` in its calls of `fatal`; a write that fails adds nothing. The counts of
-- messages stop at 0, where the source's go below it and are as little above 0.
pub mod Files
pub mod Order
pub mod Readable
pub mod Tables
pub mod Whole
mod Tests
use valuestore.Base.{
  ℕ, zero, suc, ◌+◌, ◌-◌, ◌%◌, ◌^◌, Bool, true, false, List, [], ◌∷◌, ◌++◌, Option, none, some, ltb,
  leb, ◌==◌, if◌then◌else◌, length, drop, map,
}
use valuestore.Base.Bytes.{Bytes, get_word}
use valuestore.MemClearer.{TocMsg, flush_toc, shutdown_toc, toc_block}
use valuestore.StoreFile.{header_size}
use valuestore.Toc.Frames.{head, term}

pub record TocFile : Type 0 where
  pub stamp : ℕ
  pub content : Bytes
  pub closed : Bool

-- The writers A and B with the timestamps and offsets of each, the counts of the memory clearers
-- that have still to flush or to stop, the blocks given back, and the signals to flushedChan.
pub record TocWriter : Type 0 where
  pub files : List TocFile
  pub writer_a : Option ℕ
  pub writer_b : Option ℕ
  pub active_a : ℕ
  pub active_b : ℕ
  pub offset_a : ℕ
  pub offset_b : ℕ
  pub flush_left : ℕ
  pub shutdown_left : ℕ
  pub disabled : Bool
  pub freed : List Bytes
  pub flushed : ℕ

pub data TocTurn : Type 0 where
  running stopped : TocWriter → TocTurn
  panicked : TocTurn

abbrev pub modify {ℓ} : {A : Type ℓ} → (A → A) → List A → ℕ → List A
modify f [] i = []
modify f (x ∷ xs) zero = f x ∷ xs
modify f (x ∷ xs) (suc i) = x ∷ modify f xs i

-- `Write` and `Close` of the writer of a file
abbrev pub append_to : Bytes → TocFile → TocFile
append_to b f = record f { content = f.content ++ b }

abbrev pub close_file : TocFile → TocFile
close_file f = record f { closed = true }

abbrev pub written : TocWriter → ℕ → Bytes → TocWriter
written w i b = record w { files = modify (append_to b) w.files i }

-- os.Create, which truncates what has the same path
abbrev pub truncate : ℕ → TocFile → TocFile
truncate bts f = if f.stamp == bts then record f { content = [] } else f

abbrev pub create : ℕ → List TocFile → List TocFile
create bts files =
    map (truncate bts) files ++ record { stamp = bts; content = []; closed = false } ∷ []

-- `fatal`
abbrev pub disable : TocWriter → TocWriter
disable w = record w { disabled = true }

abbrev pub free : Bytes → TocWriter → TocWriter
free b w = record w { freed = w.freed ++ b ∷ [] }

module _ (interval clearers : ℕ) (fails : ℕ → Bool) where
  -- the terminator and the close, at two points of failure; the Boolean says that both were done
  unfoldable pub seal : ℕ → ℕ → ℕ → TocWriter → TocWriter × Bool
  seal p q i w =
      let termed = written w i (term interval) in
      if fails p
      then (disable w, false)
      else if fails q
      then (disable termed, false)
      else (record termed { files = modify close_file termed.files i }, true)

  abbrev pub seal_b : TocWriter → TocWriter × Bool
  seal_b w = elim (w.writer_b) [
    | none ↦ (w, true)
    | some i ↦
        let (sealed, done) = seal 1 2 i w in
        (
          if done then record sealed { writer_b = none; active_b = 0; offset_b = 0 } else sealed,
          done,
        )
  ]

  abbrev pub seal_a : TocWriter → TocWriter × Bool
  seal_a w = elim (w.writer_a) [
    | none ↦ (w, true)
    | some i ↦
        let (sealed, done) = seal 3 4 i w in
        (
          if done then record sealed { writer_a = none; active_a = 0; offset_a = 0 } else sealed,
          done,
        )
  ]

  -- all clearers have flushed, or have stopped
  unfoldable pub seal_all : Bool → TocWriter → TocTurn
  seal_all flushing w =
      let (without_b, done_b) = seal_b w in
      let (without, done_a) = seal_a without_b in
      if done_b
      then if done_a
        then if flushing
          then running (record without { flushed = without.flushed + 1; flush_left = clearers })
          else stopped without
        else running without
      else running without_b

  -- a table block for a file that is open
  abbrev pub write_to : ℕ → Option ℕ → Bytes → Bytes → (TocWriter → TocWriter) → TocWriter → TocTurn
  write_to p none t body count w = panicked
  write_to p (some i) t body count w =
      if fails p then running (disable w) else running (free t (count (written w i body)))

  -- the oldest of the two files is closed, and a new one begun
  abbrev pub begin_file : ℕ → Bytes → Bytes → TocWriter → TocTurn
  begin_file bts t body w =
      let moved : TocWriter = record w {
        active_b = w.active_a;
        writer_b = w.writer_a;
        offset_b = w.offset_a;
        active_a = bts;
      } in
      let made : TocWriter = record moved {
        files = create bts w.files;
        writer_a = some (length w.files);
      } in
      let headed = written made (length w.files) (head interval) in
      let whole = written headed (length w.files) body in
      if fails 9
      then running (disable moved)
      else if fails 10
      then running (disable made)
      else if fails 11
      then running (disable headed)
      else running (free t (record whole { offset_a = (header_size + length body) % 2 ^ 64 }))

  abbrev pub next_file : ℕ → Bytes → Bytes → TocWriter → TocTurn
  next_file bts t body w = elim (w.writer_b) [
    | none ↦ begin_file bts t body w
    | some i ↦
        let (sealed, done) = seal 7 8 i w in
        if done then begin_file bts t body sealed else running sealed
  ]

  -- a table block, its first eight bytes the timestamp of its value file
  unfoldable pub take_block : Bytes → TocWriter → TocTurn
  take_block t w =
      let bts = get_word 8 0 t in
      let body = drop 8 t in
      if w.disabled
      then running (free t w)
      else if leb (length t) 8
      then running (free t w)
      else if bts == w.active_a
      then write_to 5 w.writer_a t body
          (λ x. record x { offset_a = (x.offset_a + length body) % 2 ^ 64 }) w
      else if bts == w.active_b
      then write_to 6 w.writer_b t body
          (λ x. record x { offset_b = (x.offset_b + length body) % 2 ^ 64 }) w
      else next_file bts t body w

  -- a round of the loop
  unfoldable pub toc_turn : TocMsg → TocWriter → TocTurn
  toc_turn flush_toc w =
      let less : TocWriter = record w { flush_left = w.flush_left - 1 } in
      if ltb 0 less.flush_left then running less else seal_all true less
  toc_turn shutdown_toc w =
      let less : TocWriter = record w { shutdown_left = w.shutdown_left - 1 } in
      if ltb 0 less.shutdown_left then running less else seal_all false less
  toc_turn (toc_block t) w = take_block t w

  -- the loop, on the messages that it is sent
  unfoldable pub run_toc : List TocMsg → TocWriter → TocTurn
  run_toc [] w = running w
  run_toc (m ∷ ms) w = elim (toc_turn m w) [
    | running x ↦ run_toc ms x
    | stopped x ↦ stopped x
    | panicked ↦ panicked
  ]

-- the state that the loop begins with
abbrev pub fresh : ℕ → TocWriter
fresh clearers = record {
  files = [];
  writer_a = none;
  writer_b = none;
  active_a = 0;
  active_b = 0;
  offset_a = 0;
  offset_b = 0;
  flush_left = clearers;
  shutdown_left = clearers;
  disabled = false;
  freed = [];
  flushed = 0;
}
