-- ===== src/Recovery.antt =====
-- valuestore_GEN_.go, recovery: the tables of contents are read one after another, and the workers
-- put the entries of their batches into the location map. Names come sorted; the parsing of a
-- name's timestamp, the opening of files and the compaction that follows are parameters.
pub mod Newest
mod Tests
use valuestore.Base.{
  ℕ, zero, suc, ◌+◌, ℤ, pos, negsuc, Bool, true, false, List, [], ◌∷◌, ◌++◌, Option, none, some,
  ltb, if◌then◌else◌,
}
use valuestore.Base.Bytes.{Bytes}
use valuestore.Package.{has_bits, tsb_local_removal}
use valuestore.LocMap.{Key, Location, LocMap}
use valuestore.Toc.{Entry, Source, TocError, read_toc}

-- `if wr.TimestampBits&_TSB_LOCAL_REMOVAL != 0 { wr.BlockID = 0 }`
abbrev pub location_of : Entry → Location
location_of e = record {
  timestampbits = e.timestampbits;
  block_id = if has_bits e.timestampbits tsb_local_removal then 0 else e.block_id;
  offset = e.offset;
  size = e.size;
}

module _ (l : LocMap) where
  -- The location map, and the two counts, of which the second is kept only for a debug log.
  pub record Loaded : Type 0 where
    pub map : l.Map
    pub encountered : ℕ
    pub caused : ℕ

module _ (l : LocMap) where
  -- one entry of a worker's batch
  unfoldable pub load_entry : Bool → Entry → Loaded l → Loaded l
  load_entry debug e s =
      let (p, map) = l.set s.map e.key (location_of e) true in
      record {
        map = map;
        encountered = s.encountered + 1;
        caused =
            if debug then (if ltb p e.timestampbits then s.caused + 1 else s.caused) else s.caused;
      }

  -- a batch, and the entries of several in the order in which the workers come to them
  unfoldable pub load_batch : Bool → List Entry → Loaded l → Loaded l
  load_batch debug [] s = s
  load_batch debug (e ∷ batch) s = load_batch debug batch (load_entry debug e s)

-- A name of the directory: whether it ends in ".valuetoc", the timestamp before that, the opened
-- table, and the id that newValueReadFile gives to the value file.
pub record Name : Type 0 where
  pub text : Bytes
  pub has_suffix : Bool
  pub stamp : Option ℤ
  pub table : Option Source
  pub block_id : Option ℕ

-- What a round of the loop over the names does: it goes on to the next, or has read a table.
-- `panics` is a panic of the reading.
pub data Visit : Type 0 where
  skipped panics : Visit
  visited : ℕ → List TocError → List (ℕ × List Entry) → ℕ → Visit

-- `fromDiskCount`, the batches that were sent, and the names to compact with their block ids.
pub record Tables : Type 0 where
  pub from_disk : ℕ
  pub batches : List (ℕ × List Entry)
  pub compact : List (Bytes × ℕ)

abbrev is_zero : ℤ → Bool
is_zero (pos zero) = true
is_zero _ = false

module _ (sum32 : Bytes → ℕ) (batch_size workers : ℕ) where
  abbrev visit_open : Option Source → Option ℕ → Visit
  visit_open none id = skipped
  visit_open (some src) none = skipped
  visit_open (some src) (some id) = elim (read_toc sum32 id batch_size workers src) [
    | none ↦ panics
    | some (n, (errs, batches)) ↦ visited n errs batches id
  ]

  abbrev visit_stamp : Option ℤ → Visit → Visit
  visit_stamp none opened = skipped
  visit_stamp (some t) opened = if is_zero t then skipped else opened

  unfoldable pub visit : Name → Visit
  visit name =
      if name.has_suffix
      then visit_stamp name.stamp (visit_open name.table name.block_id)
      else skipped

  -- the table's errors put its name on the list to compact
  unfoldable pub gather : Name → Visit → Tables → Option Tables
  gather name skipped t = some t
  gather name panics t = none
  gather name (visited n errs batches id) t = some (record {
    from_disk = t.from_disk + n;
    batches = t.batches ++ batches;
    compact = elim errs [ [] ↦ t.compact | _ ∷ _ ↦ t.compact ++ (name.text, id) ∷ [] ];
  })

  -- the loop over the names; `none` is a panic
  unfoldable pub read_tables : List Name → Tables → Option Tables
  read_tables [] t = some t
  read_tables (name ∷ names) t = elim (gather name (visit name) t) [
    | none ↦ none
    | some next ↦ read_tables names next
  ]
