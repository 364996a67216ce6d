-- ===== src/Store.antt =====
-- valuestore_GEN_.go, the methods of the store: Lookup, Read, Write, Delete, the switches of
-- writes, and the reads of memory blocks (valuememblock_GEN_.go) and files
-- (valuestorefile_GEN_.go). A request's way through the channels of its worker is one `turn` of
-- that worker's memWriter.
pub mod ReadBack
pub mod Tombstone
pub mod Switches
pub mod Held
pub mod Calls
pub mod Effects
pub mod Models
pub mod Refines
pub mod Contract
pub mod Tests
use valuestore.Base.{
  ℕ, suc, ◌+◌, ◌-◌, ◌*◌, ◌/◌, ◌%◌, ◌^◌, ℤ, pos, negsuc, Bool, true, false, not, ◌&&◌, ◌||◌, List,
  [], ◌∷◌, ◌++◌, Option, none, some, bit_and, bit_or, ltb, leb, ◌==◌, if◌then◌else◌, length,
  get_elem?, set, take, drop, map,
}
use valuestore.Base.Bytes.{Bytes}
use valuestore.Package.{
  Error, not_found, timestamp_too_small, timestamp_too_large, has_bits, is_not_found, tsb_deletion,
  tsb_local_removal, tsb_util_bits, timestampmicro_min, timestampmicro_max,
}
use valuestore.LocMap.{Key, Location, LocMap}
use valuestore.MemWriter.{
  MemBlock, FileMsg, WriteMsg, enable, disable, request, Limits, Writer, Turn, running, stopped,
  waits, panicked, stored, refused, turn,
}

-- What one goroutine of memWriter keeps for itself.
pub record Worker : Type 0 where
  pub enabled : Bool
  pub mem_block : Option MemBlock
  pub toc_offset : ℕ
  pub mem_offset : ℕ

-- The counters of the statistics; int32, kept modulo 2 ^ 32.
pub record Counters : Type 0 where
  pub lookups : ℕ
  pub lookup_errors : ℕ
  pub reads : ℕ
  pub read_errors : ℕ
  pub writes : ℕ
  pub write_errors : ℕ
  pub writes_overridden : ℕ
  pub deletes : ℕ
  pub delete_errors : ℕ
  pub deletes_overridden : ℕ
  pub modifications : ℕ

-- `atomic.AddInt32(&counter, 1)`
abbrev pub bump : ℕ → ℕ
bump c = (c + 1) % 2 ^ 32

abbrev pub bump_if : Bool → ℕ → ℕ
bump_if b c = if b then bump c else c

-- The micros of a timestamp: `timestampbits >> _TSB_UTIL_BITS`.
abbrev pub micro_of : ℕ → ℕ
micro_of timestampbits = timestampbits / 2 ^ tsb_util_bits

abbrev pub is_error : Option Error → Bool
is_error none = false
is_error (some _) = true

abbrev pub is_gone : Location → Bool
is_gone x = (x.block_id == 0) || has_bits x.timestampbits tsb_deletion

-- How a read ends: with timestampbits, the value and an error; in a call of another block's read;
-- or past the values of a block, in stale bytes of its page or a panic.
pub data Found : Type 0 where
  done : ℕ → Bytes → Option Error → Found
  in_block : ℕ → Location → Found
  past_values : Found

-- The reader of a file through github.com/gholt/brimio's checksums, which is not part of the
-- repository: so many bytes at an offset, and an error.
abbrev pub FileReader : Type 0
FileReader = ℕ → ℕ → Bytes × Option Error

module _ (l : LocMap) where
  pub record Store : Type 0 where
    pub workers : List Worker
    pub free : List MemBlock
    pub filed : List FileMsg
    pub map : l.Map
    pub read_only : Bool
    pub user_disabled : Bool
    pub counters : Counters

  -- `blocked` waits on a channel for good; `crashed` is a panic.
  pub data Answer (A : Type 0) : Type 0 where
    answered : Store → A → Answer A
    blocked crashed : Answer A

module _ (l : LocMap) where
  -- store.lookup: timestampbits, block id, length, error
  unfoldable pub lookup : l.Map → Key → ℕ × ℕ × ℕ × Option Error
  lookup m k =
      let x = l.get m k in
      if is_gone x
      then (x.timestampbits, x.block_id, 0, some not_found)
      else (x.timestampbits, x.block_id, x.size, none)

  -- store.Lookup
  unfoldable pub api_lookup : Store l → Key → Store l × (ℕ × ℕ × Option Error)
  unfolding lookup
  api_lookup s k =
      let (timestampbits, id, size, err) = lookup s.map k in
      let failed = is_error err && not (is_not_found err) in
      (
        record s {
          counters = record s.counters {
            lookups = bump s.counters.lookups;
            lookup_errors = bump_if failed s.counters.lookup_errors;
          };
        },
        (micro_of timestampbits, size, err),
      )

  -- store.read, up to the call of the block's read
  unfoldable pub read : l.Map → Key → Bytes → Found
  read m k value =
      let x = l.get m k in
      if is_gone x || has_bits x.timestampbits tsb_local_removal
      then done x.timestampbits value (some not_found)
      else in_block x.block_id x

  -- valueMemBlock.read, which asks the location map anew
  unfoldable pub read_mem_block : l.Map → MemBlock → Key → Bytes → Found
  read_mem_block m b k value =
      let x = l.get m k in
      if is_gone x
      then done x.timestampbits value (some not_found)
      else if not (x.block_id == b.id)
      then in_block x.block_id x
      else if ltb (length b.values) (x.offset + x.size)
      then past_values
      else done x.timestampbits (value ++ take x.size (drop x.offset b.values)) none

-- valueStoreFile.read
unfoldable pub read_file : FileReader → Location → Bytes → Found
read_file fp x value =
    if has_bits x.timestampbits tsb_deletion
    then done x.timestampbits value (some not_found)
    else let (bytes, err) = fp x.offset x.size in done x.timestampbits (value ++ bytes) err

module _ (l : LocMap) (lim : Limits) where
  abbrev pub writer_of : Store l → Worker → Writer l
  writer_of s worker = record {
    enabled = worker.enabled;
    mem_block = worker.mem_block;
    toc_offset = worker.toc_offset;
    mem_offset = worker.mem_offset;
    free = s.free;
    filed = s.filed;
    map = s.map;
  }

  abbrev pub with_writer : Store l → ℕ → Writer l → Store l
  with_writer s i w = record s {
    workers = set s.workers i (record {
      enabled = w.enabled;
      mem_block = w.mem_block;
      toc_offset = w.toc_offset;
      mem_offset = w.mem_offset;
    });
    free = w.free;
    filed = w.filed;
    map = w.map;
  }

  abbrev pub count_modification : Bool → Store l → Store l
  count_modification changed s = record s {
    counters = record s.counters { modifications = bump_if changed s.counters.modifications };
  }

  -- `i := int(keyA>>1) % len(store.freeWriteReqChans)`
  abbrev pub worker_index : Store l → Key → ℕ
  worker_index s k = k.key_a / 2 % length s.workers

  write_reply : Store l → ℕ → ℕ → Turn l → Answer l (ℕ × Option Error)
  write_reply s i timestampbits (running w (some (stored p))) =
      answered (count_modification (ltb p timestampbits) (with_writer s i w)) (p, none)
  write_reply s i timestampbits (running w (some (refused e))) =
      answered (with_writer s i w) (timestampbits, some e)
  write_reply s i timestampbits (running w none) = blocked
  write_reply s i timestampbits (stopped w) = blocked
  write_reply s i timestampbits (waits w) = blocked
  write_reply s i timestampbits panicked = crashed

  write_at : Option Worker → Store l → ℕ → Key → ℕ → Bytes → Bool → Answer l (ℕ × Option Error)
  unfolding write_reply
  write_at none s i k timestampbits value internal = crashed
  write_at (some worker) s i k timestampbits value internal = write_reply s i timestampbits (
      turn l lim (writer_of s worker) (
        request
          (record { key = k; timestampbits = timestampbits; value = value; internal = internal })))

  -- store.write: the timestampbits that were there, or those given with an error
  unfoldable pub write : Store l → Key → ℕ → Bytes → Bool → Answer l (ℕ × Option Error)
  unfolding write_at
  write s k timestampbits value internal =
      write_at (get_elem? s.workers (worker_index s k)) s (worker_index s k) k timestampbits value
        internal

  -- `timestampmicro < TIMESTAMPMICRO_MIN`, `timestampmicro > TIMESTAMPMICRO_MAX`
  abbrev pub bound_error : ℤ → Option Error
  bound_error (negsuc n) = some timestamp_too_small
  bound_error (pos m) =
      if ltb m timestampmicro_min
      then some timestamp_too_small
      else if ltb timestampmicro_max m
      then some timestamp_too_large
      else none

  -- `uint64(timestampmicro) << _TSB_UTIL_BITS`
  abbrev pub bits_of : ℤ → ℕ
  bits_of (negsuc n) = (2 ^ 64 - suc n) * 2 ^ tsb_util_bits % 2 ^ 64
  bits_of (pos m) = m * 2 ^ tsb_util_bits % 2 ^ 64

  abbrev pub at_most : ℤ → ℕ → Bool
  at_most (negsuc n) p = true
  at_most (pos m) p = leb m p

  abbrev pub count_write : Bool → Bool → Store l → Store l
  count_write failed overridden s = record s {
    counters = record s.counters {
      write_errors = bump_if failed s.counters.write_errors;
      writes_overridden = bump_if overridden s.counters.writes_overridden;
    };
  }

  abbrev pub count_delete : Bool → Bool → Store l → Store l
  count_delete failed overridden s = record s {
    counters = record s.counters {
      delete_errors = bump_if failed s.counters.delete_errors;
      deletes_overridden = bump_if overridden s.counters.deletes_overridden;
    };
  }

  write_done : ℤ → Answer l (ℕ × Option Error) → Answer l (ℕ × Option Error)
  write_done micro (answered s (p, err)) =
      answered (count_write (is_error err) (not (is_error err) && at_most micro (micro_of p)) s)
        (micro_of p, err)
  write_done micro blocked = blocked
  write_done micro crashed = crashed

  write_bounded : Option Error → Store l → Key → ℤ → Bytes → Answer l (ℕ × Option Error)
  unfolding write write_done
  write_bounded (some e) s k micro value = answered (count_write true false s) (0, some e)
  write_bounded none s k micro value = write_done micro (write s k (bits_of micro) value false)

  -- store.Write: the micros that were there, or an error
  unfoldable pub api_write : Store l → Key → ℤ → Bytes → Answer l (ℕ × Option Error)
  unfolding write_bounded
  api_write s k micro value =
      write_bounded (bound_error micro)
        (record s { counters = record s.counters { writes = bump s.counters.writes } }) k micro
        value

  delete_done : ℤ → Answer l (ℕ × Option Error) → Answer l (ℕ × Option Error)
  delete_done micro (answered s (p, err)) =
      answered (count_delete (is_error err) (not (is_error err) && at_most micro (micro_of p)) s)
        (micro_of p, err)
  delete_done micro blocked = blocked
  delete_done micro crashed = crashed

  delete_bounded : Option Error → Store l → Key → ℤ → Answer l (ℕ × Option Error)
  unfolding write delete_done
  delete_bounded (some e) s k micro = answered (count_delete true false s) (0, some e)
  delete_bounded none s k micro =
      delete_done micro (write s k (bit_or (bits_of micro) tsb_deletion) [] true)

  -- store.Delete: a write of a tombstone, which disabled writes do not stop
  unfoldable pub api_delete : Store l → Key → ℤ → Answer l (ℕ × Option Error)
  unfolding delete_bounded
  api_delete s k micro =
      delete_bounded (bound_error micro)
        (record s { counters = record s.counters { deletes = bump s.counters.deletes } }) k micro

  -- Every worker takes the marked request.
  abbrev pub switch_all : Bool → List Worker → List Worker
  switch_all on [] = []
  switch_all on (w ∷ ws) = record w { enabled = on } ∷ switch_all on ws

  -- store.enableWrites, store.disableWrites
  unfoldable pub enable_writes : Store l → Bool → Store l
  enable_writes s user_call =
      if user_call || not s.user_disabled
      then record s {
        read_only = false;
        user_disabled = false;
        workers = switch_all true s.workers;
      }
      else record s { read_only = false }

  unfoldable pub disable_writes : Store l → Bool → Store l
  disable_writes s user_call = record s {
    read_only = true;
    user_disabled = user_call || s.user_disabled;
    workers = switch_all false s.workers;
  }
