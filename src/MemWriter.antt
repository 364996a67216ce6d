-- ===== src/MemWriter.antt =====
-- valuestore_GEN_.go, memWriter: the goroutine that takes write requests, puts their values into a
-- memory block and their locations into the location map. Its channels are lists: `free` is
-- freeMemBlockChan, `filed` what it has sent to fileMemBlockChan, in order.
pub mod Bounds
pub mod ReadBack
pub mod Survival
pub mod Refusals
pub mod Upkeep
pub mod Taken
pub mod Tests
use valuestore.Base.{
  ℕ, ◌+◌, ◌-◌, ◌^◌, Bool, true, false, not, ◌&&◌, ◌||◌, List, [], ◌∷◌, ◌++◌, Option, none, some,
  bit_and, ltb, if◌then◌else◌, length, take, replicate,
}
use valuestore.Base.Bytes.{Bytes, put_word}
use valuestore.Package.{Error, disabled, value_too_long, has_bits, tsb_compaction_rewrite}
use valuestore.LocMap.{Key, Location, LocMap}

abbrev pub file_entry_size : ℕ
file_entry_size = 32

-- valueMemBlock; `cap` of both slices is the page size
pub record MemBlock : Type 0 where
  pub id : ℕ
  pub file_id : ℕ
  pub file_offset : ℕ
  pub toc : Bytes
  pub values : Bytes

-- valueWriteReq, without the channel of its answer
pub record WriteReq : Type 0 where
  pub key : Key
  pub timestampbits : ℕ
  pub value : Bytes
  pub internal : Bool

-- What may be sent to the writer: a request, or one of the four marked requests.
pub data WriteMsg : Type 0 where
  enable disable flush shutdown : WriteMsg
  request : WriteReq → WriteMsg

-- What may be sent to the file writer.
pub data FileMsg : Type 0 where
  flush_file shutdown_file : FileMsg
  file : MemBlock → FileMsg

pub record Limits : Type 0 where
  pub value_cap : ℕ
  pub min_value_alloc : ℕ
  pub page_size : ℕ

-- The answer on a request's errChan, with the timestampbits left in the request.
pub data Reply : Type 0 where
  stored : ℕ → Reply
  refused : Error → Reply

-- An entry of a table of contents.
unfoldable pub toc_entry : Key → ℕ → ℕ → ℕ → Bytes
toc_entry k timestampbits offset size =
    put_word 8 k.key_a
    ++ (put_word 8 k.key_b ++ (put_word 8 timestampbits ++ (put_word 4 offset ++ put_word 4 size)))

-- `timestampbits & ^uint64(_TSB_COMPACTION_REWRITE)`
abbrev pub without_rewrite : ℕ → ℕ
without_rewrite timestampbits = bit_and timestampbits (2 ^ 64 - 1 - tsb_compaction_rewrite)

abbrev pub alloc_of : Limits → WriteReq → ℕ
alloc_of lim req =
    if ltb (length req.value) lim.min_value_alloc then lim.min_value_alloc else length req.value

module _ (l : LocMap) where
  pub record Writer : Type 0 where
    pub enabled : Bool
    pub mem_block : Option MemBlock
    pub toc_offset : ℕ
    pub mem_offset : ℕ
    pub free : List MemBlock
    pub filed : List FileMsg
    pub map : l.Map

  -- `waits` blocks on an empty free channel; `panicked` is a slice out of range.
  pub data Turn : Type 0 where
    running : Writer → Option Reply → Turn
    stopped : Writer → Turn
    waits : Writer → Turn
    panicked : Turn

-- The value's bytes in the block, padded with zeroes up to the allocation.
abbrev pub padded : Limits → WriteReq → Bytes
padded lim req = req.value ++ replicate (alloc_of lim req - length req.value) 0

abbrev pub location_of : MemBlock → ℕ → WriteReq → Location
location_of b mem_offset req = record {
  timestampbits = without_rewrite req.timestampbits;
  block_id = b.id;
  offset = mem_offset;
  size = length req.value;
}

module _ (l : LocMap) (lim : Limits) where
  -- the value was newer, or it is a compaction's rewrite: its bytes and its entry stay
  keep_value : Writer l → MemBlock → WriteReq → ℕ → l.Map → Turn l
  keep_value w b req p map =
      if ltb lim.page_size (w.toc_offset + file_entry_size)
      then panicked
      else running
          (record w {
            mem_block = some (record b {
              toc =
                  take w.toc_offset b.toc
                  ++ toc_entry req.key (without_rewrite req.timestampbits) w.mem_offset
                      (length req.value);
              values = take w.mem_offset b.values ++ padded lim req;
            });
            toc_offset = w.toc_offset + file_entry_size;
            mem_offset = w.mem_offset + alloc_of lim req;
            map = map;
          })
          (some (stored p))

  -- the location map had a newer entry: the bytes are given up
  drop_value : Writer l → MemBlock → WriteReq → ℕ → l.Map → Turn l
  drop_value w b req p map =
      running
        (record w {
          mem_block = some (record b { values = take w.mem_offset b.values });
          map = map;
        })
        (some (stored p))

  put_value : Writer l → MemBlock → WriteReq → Turn l
  unfolding keep_value drop_value
  put_value w b req =
      let (p, map) =
        l.set w.map req.key (location_of b w.mem_offset req)
          (has_bits req.timestampbits tsb_compaction_rewrite) in
      if ltb lim.page_size (w.mem_offset + alloc_of lim req)
      then panicked
      else if ltb p req.timestampbits
      then keep_value w b req p map
      else drop_value w b req p map

  take_block : Writer l → List MemBlock → WriteReq → Turn l
  unfolding put_value
  take_block w [] req = waits w
  take_block w (b ∷ free) req =
      put_value (record w { mem_block = some b; toc_offset = 0; mem_offset = 0; free = free }) b req

  -- a block without room is sent to the file writer, and the next free one is taken
  place : Writer l → Option MemBlock → WriteReq → Turn l
  unfolding put_value take_block
  place w none req = take_block w w.free req
  place w (some b) req =
      if ltb lim.page_size (w.toc_offset + file_entry_size)
        || ltb lim.page_size (w.mem_offset + alloc_of lim req)
      then take_block (record w { mem_block = none; filed = w.filed ++ file b ∷ [] }) w.free req
      else put_value w b req

  handle_request : Writer l → WriteReq → Turn l
  unfolding place
  handle_request w req =
      if not w.enabled && not req.internal
      then running w (some (refused disabled))
      else if ltb lim.value_cap (length req.value)
      then running w (some (refused value_too_long))
      else place w w.mem_block req

  -- a block with entries goes to the file writer before the mark does
  filed_block : Option MemBlock → List FileMsg
  filed_block none = []
  filed_block (some b) = if ltb 0 (length b.toc) then file b ∷ [] else []

  left_block : Option MemBlock → Option MemBlock
  left_block none = none
  left_block (some b) = if ltb 0 (length b.toc) then none else some b

  -- One round of the loop.
  unfoldable pub turn : Writer l → WriteMsg → Turn l
  unfolding handle_request filed_block left_block
  turn w enable = running (record w { enabled = true }) none
  turn w disable = running (record w { enabled = false }) none
  turn w flush =
      running
        (record w {
          mem_block = left_block w.mem_block;
          filed = w.filed ++ (filed_block w.mem_block ++ flush_file ∷ []);
        })
        none
  turn w shutdown = stopped (record w {
    mem_block = left_block w.mem_block;
    filed = w.filed ++ (filed_block w.mem_block ++ shutdown_file ∷ []);
  })
  turn w (request req) = handle_request w req
