-- ===== src/MemClearer.antt =====
-- valuestore_GEN_.go, memClearer: once a block's values are in a file, its entries go into the
-- location map with their place in the file and into blocks of a table of contents, and the block
-- is free again. Its channels are lists: `pending` is pendingTOCBlockChan, `freed`
-- freeMemBlockChan; a table block is taken from freeTOCBlockChan, of which there is always one.
pub mod Entries
mod Tests
use valuestore.Base.{
  ℕ, zero, suc, ◌+◌, ◌%◌, ◌^◌, Bool, List, [], ◌∷◌, ◌++◌, Option, none, some, not, true, ltb, ◌==◌,
  if◌then◌else◌, length, drop,
}
use valuestore.Base.Bytes.{Bytes, put_word, get_word}
use valuestore.Package.{has_bits, tsb_local_removal}
use valuestore.LocMap.{Key, Location, LocMap}
use valuestore.MemWriter.{MemBlock, toc_entry, file_entry_size}

-- valueTOCBlock, and the marked ones
pub data TocMsg : Type 0 where
  flush_toc shutdown_toc : TocMsg
  toc_block : Bytes → TocMsg

-- What may come from the file writer.
pub data ClearMsg : Type 0 where
  flush_clear shutdown_clear : ClearMsg
  clear : MemBlock → ClearMsg

module _ (l : LocMap) where
  -- The table block in work with the file's timestamp that it is for.
  pub record Clearer : Type 0 where
    pub tb : Option (ℕ × Bytes)
    pub pending : List TocMsg
    pub freed : List MemBlock
    pub map : l.Map

-- An entry of a memory block's table of contents.
pub record MemEntry : Type 0 where
  pub key : Key
  pub timestampbits : ℕ
  pub offset : ℕ
  pub size : ℕ

-- `memBlock.toc[memBlockTOCOffset:]`, its fields
unfoldable pub entry_at : Bytes → MemEntry
entry_at toc = record {
  key = record { key_a = get_word 8 0 toc; key_b = get_word 8 8 toc };
  timestampbits = get_word 8 16 toc;
  offset = get_word 4 24 toc;
  size = get_word 4 28 toc;
}

abbrev pub is_removal : MemEntry → Bool
is_removal e = has_bits e.timestampbits tsb_local_removal

-- The entry's place in the file; a local removal has none.
abbrev pub place_of : MemBlock → MemEntry → Location
place_of b e =
    if is_removal e
    then record { timestampbits = e.timestampbits; block_id = 0; offset = 0; size = 0 }
    else record {
      timestampbits = e.timestampbits;
      block_id = b.file_id;
      offset = (b.file_offset + e.offset) % 2 ^ 32;
      size = e.size;
    }

-- A table block for another file is sent.
abbrev pub sent_if_other : ℕ → Option (ℕ × Bytes) → List TocMsg
sent_if_other file_ts none = []
sent_if_other file_ts (some (ts, bytes)) = if not (ts == file_ts) then toc_block bytes ∷ [] else []

abbrev pub kept_if_same : ℕ → Option (ℕ × Bytes) → Option (ℕ × Bytes)
kept_if_same file_ts none = none
kept_if_same file_ts (some (ts, bytes)) = if not (ts == file_ts) then none else some (ts, bytes)

abbrev pub sent_tb : Option (ℕ × Bytes) → List TocMsg
sent_tb none = []
sent_tb (some (ts, bytes)) = toc_block bytes ∷ []

module _ (l : LocMap) (page_size : ℕ) where
  -- A new table block begins with the file's timestamp.
  add_entry : Clearer l → ℕ → Option (ℕ × Bytes) → Bytes → Clearer l
  add_entry c file_ts none entry = record c { tb = some (file_ts, put_word 8 file_ts ++ entry) }
  add_entry c file_ts (some (ts, bytes)) entry =
      if ltb page_size (length bytes + file_entry_size)
      then record c {
        pending = c.pending ++ toc_block bytes ∷ [];
        tb = some (file_ts, put_word 8 file_ts ++ entry);
      }
      else record c { tb = some (ts, bytes ++ entry) }

  unfoldable pub clear_entry : Clearer l → ℕ → MemBlock → MemEntry → Clearer l
  unfolding add_entry
  clear_entry c file_ts b e =
      let x = place_of b e in
      let (p, map) = l.set c.map e.key x true in
      if ltb e.timestampbits p
      then record c { map = map }
      else add_entry (record c { map = map }) file_ts c.tb
          (toc_entry e.key e.timestampbits x.offset x.size)

  -- The loop over the block's entries, on fuel.
  unfoldable pub clear_loop : ℕ → Clearer l → ℕ → MemBlock → Bytes → Option (Clearer l)
  unfolding clear_entry entry_at
  clear_loop n c file_ts b [] = some c
  clear_loop zero c file_ts b (x ∷ toc) = none
  clear_loop (suc n) c file_ts b (x ∷ toc) =
      clear_loop n (clear_entry c file_ts b (entry_at (x ∷ toc))) file_ts b
        (drop file_entry_size (x ∷ toc))

  abbrev pub emptied : MemBlock → MemBlock
  emptied b = record b { file_id = 0; file_offset = 0; toc = []; values = [] }

  -- How a round ends: `panicked` is a timestampnano of a nil block, `endless` no Go value.
  pub data ClearTurn : Type 0 where
    cleared : Clearer l → ClearTurn
    panicked endless : ClearTurn

  abbrev pub freed_after : MemBlock → Option (Clearer l) → ClearTurn
  freed_after b none = endless
  freed_after b (some c) = cleared (record c { freed = c.freed ++ emptied b ∷ [] })

  -- A nil block's timestamp is asked for where a table block is at hand, and else where the first
  -- entry needs one; until then none is in work.
  abbrev pub freed_nil : MemBlock → Option (Clearer l) → ClearTurn
  freed_nil b none = endless
  freed_nil b (some c) = elim (c.tb) [ none ↦ freed_after b (some c) | some tb ↦ panicked ]

  abbrev pub clear_nil : Clearer l → MemBlock → ClearTurn
  clear_nil c b = elim (c.tb) [
    | none ↦ freed_nil b (clear_loop (length b.toc) c 0 b b.toc)
    | some tb ↦ panicked
  ]

  abbrev pub clear_block : Option ℕ → Clearer l → MemBlock → ClearTurn
  clear_block none c b = clear_nil c b
  clear_block (some file_ts) c b = freed_after b (
      clear_loop (length b.toc)
        (record c {
          tb = kept_if_same file_ts c.tb;
          pending = c.pending ++ sent_if_other file_ts c.tb;
        })
        file_ts b b.toc)

  -- One round of the loop, `timestamp_of` for locBlock(fileID).timestampnano(), none where the
  -- block is nil, as that of file id 0 is.
  unfoldable pub clear_turn : (ℕ → Option ℕ) → Clearer l → ClearMsg → ClearTurn
  unfolding clear_loop
  clear_turn timestamp_of c flush_clear =
      cleared (record c { tb = none; pending = c.pending ++ (sent_tb c.tb ++ flush_toc ∷ []) })
  clear_turn timestamp_of c shutdown_clear =
      cleared (record c { tb = none; pending = c.pending ++ (sent_tb c.tb ++ shutdown_toc ∷ []) })
  clear_turn timestamp_of c (clear b) = clear_block (timestamp_of b.file_id) c b
