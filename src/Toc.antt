-- ===== src/Toc.antt =====
-- valuestorefile_GEN_.go, the reading of a table of contents: its header, its entries in batches
-- for the workers of recovery. A file is what `io.ReadFull` gets of
-- it; the checksum is murmur3's, which is not part of the repository. The control channel, by
-- which a pass gives up, is taken to be silent.
pub mod Entries
pub mod Frames
pub mod Loop
pub mod RoundTrip
pub mod Whole
pub mod Batches
pub mod Tests
use valuestore.Base.{
  ℕ, zero, suc, ◌+◌, ◌-◌, ◌*◌, ◌/◌, ◌%◌, ◌^◌, Bool, true, false, not, ◌&&◌, List, [], ◌∷◌, ◌++◌,
  Option, none, some, leb, ltb, ◌==◌, if◌then◌else◌, length, take, drop, replicate, get_elem?, set,
}
use valuestore.Base.Bytes.{Bytes, get_word, put_word}
use valuestore.LocMap.{Key}
use valuestore.MemWriter.{file_entry_size}
use valuestore.StoreFile.{header_size, magic, trailer}

abbrev pub trailer_size : ℕ
trailer_size = 8

-- "VALUESTORETOC v0" and its fill, 28 bytes
abbrev pub toc_magic : Bytes
toc_magic =
    86 ∷ 65 ∷ 76 ∷ 85 ∷ 69 ∷ 83 ∷ 84 ∷ 79 ∷ 82 ∷ 69 ∷ 84 ∷ 79 ∷ 67 ∷ 32 ∷ 118 ∷ 48 ∷ replicate 12 32

-- `bytes.Equal`
abbrev pub eq_bytes : Bytes → Bytes → Bool
eq_bytes [] [] = true
eq_bytes [] (y ∷ ys) = false
eq_bytes (x ∷ xs) [] = false
eq_bytes (x ∷ xs) (y ∷ ys) = (x == y) && eq_bytes xs ys

-- `read_error` is what the file gave, its end too soon included.
pub data TocError : Type 0 where
  unknown_type no_terminator read_error : TocError
  interval_too_small checksum_errors : ℕ → TocError

-- What is left of an opened file, and whether an error stands where it ends.
pub record Source : Type 0 where
  pub ahead : Bytes
  pub broken : Bool

-- `io.ReadFull`: all the bytes; fewer and `io.EOF` or `io.ErrUnexpectedEOF`; or another error.
pub data ReadFull : Type 0 where
  whole short : Bytes → ReadFull
  failing : ReadFull

abbrev pub read_full : ℕ → Source → ReadFull
read_full n src =
    if leb n (length src.ahead)
    then whole (take n src.ahead)
    else if src.broken
    then failing
    else short src.ahead

-- _readValueHeader of the 32 bytes that were read: the interval, or an error
unfoldable pub header_interval : Bool → Bytes → ℕ × Option TocError
header_interval toc buf =
    if not (eq_bytes (take 28 buf) (if toc then toc_magic else magic))
    then (0, some unknown_type)
    else if ltb (get_word 4 28 buf) header_size
    then (0, some (interval_too_small (get_word 4 28 buf)))
    else (get_word 4 28 buf, none)

-- readValueHeader, readValueHeaderTOC
unfoldable pub read_header : Bool → Source → ℕ × Option TocError
read_header toc src = elim (read_full header_size src) [
  | whole buf ↦ header_interval toc buf
  | short buf ↦ (0, some read_error)
  | failing ↦ (0, some read_error)
]

-- valueTOCEntry
pub record Entry : Type 0 where
  pub key : Key
  pub timestampbits : ℕ
  pub block_id : ℕ
  pub offset : ℕ
  pub size : ℕ

-- `batches` and `batchesPos`, one batch or none for each worker; what went to the channels of the
-- workers, in order; `fromDiskCount`.
pub record Batching : Type 0 where
  pub batches : List (Option (List Entry))
  pub sent : List (ℕ × List Entry)
  pub count : ℕ

-- The batch that an entry is put into: `none`, where there is none yet.
abbrev pub batch_at : List (Option (List Entry)) → ℕ → List Entry
batch_at [] k = []
batch_at (none ∷ batches) zero = []
batch_at (some batch ∷ batches) zero = batch
batch_at (b ∷ batches) (suc k) = batch_at batches k

-- One entry goes to the worker of its key, and a full batch is sent. The configuration keeps
-- `batch_size` from being 0, with which the source would panic.
unfoldable pub put_entry : ℕ → Entry → Batching → Batching
put_entry batch_size e b =
    let k = e.key.key_b % length b.batches in
    let batch = batch_at b.batches k ++ e ∷ [] in
    if leb batch_size (length batch)
    then record {
      batches = set b.batches k none;
      sent = b.sent ++ (k, batch) ∷ [];
      count = b.count + 1;
    }
    else record b { batches = set b.batches k (some batch); count = b.count + 1 }

abbrev pub entry_at : ℕ → Bytes → Entry
entry_at block_id rbuf = record {
  key = record { key_a = get_word 8 0 rbuf; key_b = get_word 8 8 rbuf };
  timestampbits = get_word 8 16 rbuf;
  block_id = block_id;
  offset = get_word 4 24 rbuf;
  size = get_word 4 28 rbuf;
}

-- The batches that are left when the file has been read.
abbrev pub flush_batches : ℕ → List (Option (List Entry)) → List (ℕ × List Entry)
flush_batches i [] = []
flush_batches i (none ∷ batches) = flush_batches (suc i) batches
flush_batches i (some batch ∷ batches) = (i, batch) ∷ flush_batches (suc i) batches

-- `buf[:rpos]`, `skipNext`, `checksumErrors`, `errs` and the batches.
pub record Scan : Type 0 where
  pub left : Bytes
  pub skip_next : ℕ
  pub bad : ℕ
  pub errs : List TocError
  pub out : Batching

-- `panicked` is a slice that begins behind its end; `out_of_fuel` is no Go value.
pub data Scanned : Type 0 where
  scanned : Scan → Scanned
  panicked out_of_fuel : Scanned

-- what valueReadTOCEntriesBatched gives back: the count, the errors, and the batches sent
abbrev pub finish : Scanned → Option (ℕ × (List TocError × List (ℕ × List Entry)))
finish (scanned st) = some (
  st.out.count,
  (
    st.errs ++ (if st.bad == 0 then [] else checksum_errors st.bad ∷ []),
    st.out.sent ++ flush_batches 0 st.out.batches,
  ),
)
finish panicked = none
finish out_of_fuel = none

-- one worker or more; the first has a batch from the start
abbrev pub first_batches : ℕ → List (Option (List Entry))
first_batches workers = some [] ∷ replicate (workers - 1) none

module _ (sum32 : Bytes → ℕ) (block_id batch_size : ℕ) where
  -- `for len(rbuf) >= _VALUE_FILE_ENTRY_SIZE { … }`; an entry at offset 0 is passed over
  unfoldable pub take_entries : ℕ → Bytes → Batching → Bytes × Batching
  take_entries zero rbuf out = (rbuf, out)
  take_entries (suc fuel) rbuf out =
      let e = entry_at block_id rbuf in
      let out' = if e.offset == 0 then out else put_entry batch_size e out in
      let more = take_entries fuel (drop file_entry_size rbuf) out' in
      if leb file_entry_size (length rbuf) then more else (rbuf, out)

  -- the entries of a piece, with what the piece before left over in front
  abbrev pub take_piece : Bytes → Scan → Scan
  take_piece rbuf st = record st {
    left = (take_entries (length rbuf) rbuf st.out).0;
    skip_next = 0;
    out = (take_entries (length rbuf) rbuf st.out).1;
  }

  -- `rbuf` behind the bytes to skip, or with what was left in front; `none` is a panic
  abbrev pub next_rbuf : Bytes → Scan → Option Bytes
  next_rbuf rbuf st =
      if st.skip_next == 0
      then some (st.left ++ rbuf)
      else if ltb (length rbuf) st.skip_next
      then none
      else some (drop st.skip_next rbuf)

  -- the last piece, without its terminator
  unfoldable pub last_piece : Bytes → Scan → Scan
  last_piece rbuf st =
      let front = length rbuf - trailer_size in
      if leb trailer_size (length rbuf) && eq_bytes (drop front rbuf) trailer
      then take_piece (take front rbuf) st
      else take_piece rbuf (record st { errs = st.errs ++ no_terminator ∷ [] })

  -- the round in which the file ends
  unfoldable pub last_round : Bytes → Scan → Scanned
  last_round rbuf st = elim (next_rbuf rbuf st) [
    | none ↦ panicked
    | some rest ↦ scanned (last_piece rest st)
  ]

  -- The loop over the file, a piece and its checksum in each round.
  unfoldable pub toc_loop : ℕ → ℕ → Source → Scan → Scanned
  toc_loop zero interval src st = out_of_fuel
  toc_loop (suc fuel) interval src st =
      let next : Source = record src { ahead = drop (interval + 4) src.ahead } in
      let good : Option Scanned = elim (next_rbuf (take interval src.ahead) st) [
        | none ↦ none
        | some rbuf ↦ some (toc_loop fuel interval next (take_piece rbuf st))
      ] in
      let after_good : Scanned = elim good [ none ↦ panicked | some s ↦ s ] in
      let skip = file_entry_size - (st.skip_next + (length st.left + interval)) % file_entry_size in
      let bad =
        toc_loop fuel interval next (record st { left = []; skip_next = skip; bad = st.bad + 1 }) in
      elim (read_full (interval + 4) src) [
        | failing ↦ scanned (record st { errs = st.errs ++ read_error ∷ [] })
        | short rbuf ↦ last_round rbuf st
        | whole piece ↦
            if get_word 4 interval piece == sum32 (take interval src.ahead) then after_good else bad
      ]

  -- valueReadTOCEntriesBatched, of a file opened at its start; `none` is a panic
  unfoldable pub read_toc : ℕ → Source → Option (ℕ × (List TocError × List (ℕ × List Entry)))
  read_toc workers src = elim ((read_header true src).1) [
    | some e ↦ some (0, (e ∷ [], []))
    | none ↦ finish (
        toc_loop (suc (length src.ahead)) (read_header true src).0 src (record {
          left = [];
          skip_next = header_size;
          bad = 0;
          errs = [];
          out = record { batches = first_batches workers; sent = []; count = 0 };
        }))
  ]
