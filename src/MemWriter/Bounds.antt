-- ===== src/MemWriter/Bounds.antt =====
-- valuestore_GEN_.go, memWriter: the writer's offsets and the ends of its blocks.
use valuestore.Base.{
  ℕ, ◌+◌, ◌≤◌, ◌≡◌, List, [], ◌∷◌, ◌++◌, Option, none, some, inl, inr, arith, ltb, Bool-cases,
  length, length-append, length-take, length-replicate, take, All,
}
use valuestore.Base.Bytes.{length-put_word}
use valuestore.LocMap.{Key, LocMap}
use valuestore.MemWriter.{
  Limits, MemBlock, WriteReq, WriteMsg, enable, disable, flush, shutdown, request, Writer, Turn,
  running, stopped, file, flush_file, shutdown_file, filed_block, FileMsg, waits, panicked,
  toc_entry, file_entry_size, alloc_of, padded, without_rewrite, keep_value, drop_value, put_value,
  take_block, place, handle_request, left_block, turn,
}

-- What the configuration sees to: a value and an entry fit a page.
pub record IsLimits (lim : Limits) : Type 0 where
  pub values_fit : lim.value_cap ≤ lim.page_size
  pub allocs_fit : lim.min_value_alloc ≤ lim.page_size
  pub entries_fit : file_entry_size ≤ lim.page_size

-- A current block holds just as many bytes as the two offsets say.
abbrev pub IsFilledTo : Option MemBlock → ℕ → ℕ → Type 0
IsFilledTo none t m = Unit {0}
IsFilledTo (some b) t m = (length b.toc ≡ t) × (length b.values ≡ m)

abbrev pub IsEmpty : MemBlock → Type 0
IsEmpty b = (length b.toc ≡ 0) × (length b.values ≡ 0)

pub record IsWriter {l : LocMap} (lim : Limits) (w : Writer l) : Type 0 where
  pub filled_to : IsFilledTo w.mem_block w.toc_offset w.mem_offset
  pub toc_fits : w.toc_offset ≤ lim.page_size
  pub values_fit : w.mem_offset ≤ lim.page_size
  -- `memClearer` empties a block before it is free again
  pub free_empty : All IsEmpty w.free

-- The round does not panic, and the writer that it leaves is well formed.
abbrev pub Keeps : {l : LocMap} → Limits → Turn l → Type 0
Keeps lim (running w r) = IsWriter lim w
Keeps lim (stopped w) = IsWriter lim w
Keeps lim (waits w) = IsWriter lim w
Keeps lim panicked = ⊥

pub length-toc_entry : (k : Key) (t o s : ℕ) → length (toc_entry k t o s) ≡ file_entry_size
unfolding toc_entry
length-toc_entry k t o s = simp (length-append, length-put_word)

pub length-padded : (lim : Limits) (req : WriteReq) → length (padded lim req) ≡ alloc_of lim req
length-padded lim req = simp (length-append, length-replicate) (ground arith)

module _ (l : LocMap) (lim : Limits) (fit : IsLimits lim) where
  put_value-Keeps :
      (w : Writer l) (b : MemBlock) (req : WriteReq)
      → length b.toc ≡ w.toc_offset
      → length b.values ≡ w.mem_offset
      → All IsEmpty w.free
      → w.toc_offset + file_entry_size ≤ lim.page_size
      → w.mem_offset + alloc_of lim req ≤ lim.page_size
      → Keeps lim (put_value l lim w b req)
  unfolding put_value keep_value drop_value
  put_value-Keeps w b req ht hv fe tf vf =
      let k =
        toc_entry req.key (without_rewrite req.timestampbits) w.mem_offset (length req.value) in
      ground (
        arith,
        length-append (take w.toc_offset b.toc) k,
        length-append (take w.mem_offset b.values) (padded lim req),
        length-take w.toc_offset b.toc,
        length-take w.mem_offset b.values,
        length-toc_entry req.key (without_rewrite req.timestampbits) w.mem_offset
            (length req.value),
        length-padded lim req,
      )

  take_block-Keeps :
      (w : Writer l) (free : List MemBlock) (req : WriteReq)
      → IsWriter lim w
      → All IsEmpty free
      → alloc_of lim req ≤ lim.page_size
      → Keeps lim (take_block l lim w free req)
  unfolding take_block
  take_block-Keeps w [] req iw fe af = iw
  take_block-Keeps w (b ∷ free) req iw fe af =
      put_value-Keeps (record w { mem_block = some b; toc_offset = 0; mem_offset = 0; free = free })
        b req fe.0.0 fe.0.1 fe.1 (omega (arith, fit.entries_fit)) (omega (arith, af))

  place-Keeps :
      (w : Writer l) (o : Option MemBlock) (req : WriteReq)
      → IsWriter lim w
      → IsFilledTo o w.toc_offset w.mem_offset
      → alloc_of lim req ≤ lim.page_size
      → Keeps lim (place l lim w o req)
  unfolding place
  place-Keeps w none req iw h af = take_block-Keeps w w.free req iw iw.free_empty af
  place-Keeps w (some b) req iw h af = ground (
    arith,
    put_value-Keeps w b req h.0 h.1 iw.free_empty,
    take_block-Keeps (record w { mem_block = none; filed = w.filed ++ file b ∷ [] }) w.free req
        (record {
          filled_to = tt;
          toc_fits = iw.toc_fits;
          values_fit = iw.values_fit;
          free_empty = iw.free_empty;
        })
        iw.free_empty af,
  )

  handle_request-Keeps :
      (w : Writer l) (req : WriteReq) → IsWriter lim w → Keeps lim (handle_request l lim w req)
  unfolding handle_request
  handle_request-Keeps w req iw =
      ground
        (arith, iw, fit.values_fit, fit.allocs_fit, place-Keeps w w.mem_block req iw iw.filled_to)

  left_block-IsFilledTo :
      (o : Option MemBlock) (t m : ℕ) → IsFilledTo o t m → IsFilledTo (left_block l lim o) t m
  unfolding left_block
  left_block-IsFilledTo none t m h = h
  left_block-IsFilledTo (some b) t m h = elim (Bool-cases (ltb 0 (length b.toc))) [
    | inl e ↦ rw e tt
    | inr e ↦ rw e h
  ]

  flushed-IsWriter :
      (w : Writer l) (sent : List FileMsg)
      → IsWriter lim w
      → IsWriter lim (record w { mem_block = left_block l lim w.mem_block; filed = sent })
  unfolding left_block
  flushed-IsWriter w sent iw = record {
    filled_to = left_block-IsFilledTo w.mem_block w.toc_offset w.mem_offset iw.filled_to;
    toc_fits = iw.toc_fits;
    values_fit = iw.values_fit;
    free_empty = iw.free_empty;
  }

  -- From a well-formed writer, whatever message comes, a round of the loop reaches no slice out of
  -- range and leaves a well-formed writer, if a page has room for the longest value and an entry.
  pub turn-Keeps : (w : Writer l) (msg : WriteMsg) → IsWriter lim w → Keeps lim (turn l lim w msg)
  unfolding turn
  turn-Keeps w enable iw = record {
    filled_to = iw.filled_to;
    toc_fits = iw.toc_fits;
    values_fit = iw.values_fit;
    free_empty = iw.free_empty;
  }
  turn-Keeps w disable iw = record {
    filled_to = iw.filled_to;
    toc_fits = iw.toc_fits;
    values_fit = iw.values_fit;
    free_empty = iw.free_empty;
  }
  turn-Keeps w flush iw =
      flushed-IsWriter w (w.filed ++ (filed_block l lim w.mem_block ++ flush_file ∷ [])) iw
  turn-Keeps w shutdown iw =
      flushed-IsWriter w (w.filed ++ (filed_block l lim w.mem_block ++ shutdown_file ∷ [])) iw
  turn-Keeps w (request req) iw = handle_request-Keeps w req iw
