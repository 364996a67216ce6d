-- ===== src/MemWriter/Survival.antt =====
-- valuestore_GEN_.go, memWriter: what becomes of the current block.
use valuestore.Base.{
  ◌+◌, ◌≤◌, ◌≡◌, refl, sym, ◌⊎◌, false, not, ◌&&◌, ◌||◌, List, [], ◌∷◌, ◌++◌, Option, none, some,
  inl, inr, arith, ltb, Bool-cases, length, take, take-append_self, take_self, append-nil,
}
use mathlib.Core.Path.{subst}
use valuestore.Package.{has_bits, tsb_compaction_rewrite}
use valuestore.LocMap.{LocMap}
use valuestore.MemWriter.{
  Limits, MemBlock, WriteReq, WriteMsg, FileMsg, enable, disable, flush, shutdown, Writer, Turn,
  running, stopped, request, file, flush_file, shutdown_file, waits, panicked, toc_entry,
  file_entry_size, alloc_of, padded, without_rewrite, location_of, keep_value, drop_value,
  put_value, take_block, place, handle_request, filed_block, left_block, turn,
}
use valuestore.MemWriter.Bounds.{IsLimits, IsWriter, IsFilledTo}

-- The block grew, if it changed at all.
abbrev pub Extends : MemBlock → Option MemBlock → Type 0
Extends b none = ⊥
Extends b (some c) =
    (c.id ≡ b.id)
    × (take (length b.toc) c.toc ≡ b.toc)
    × (take (length b.values) c.values ≡ b.values)

-- It is the current block, or the first thing that the file writer gets after `sent`.
abbrev pub IsKept : {l : LocMap} → MemBlock → List FileMsg → Writer l → Type 0
IsKept b sent w =
    (Extends b w.mem_block × (rest : List FileMsg) × (w.filed ≡ sent ++ rest))
    ⊎ ((rest : List FileMsg) × (w.filed ≡ sent ++ file b ∷ rest))

abbrev pub Survives : {l : LocMap} → MemBlock → List FileMsg → Turn l → Type 0
Survives b sent (running w r) = IsKept b sent w
Survives b sent (stopped w) = IsKept b sent w
Survives b sent (waits w) = IsKept b sent w
Survives b sent panicked = ⊥

Extends-self : (b : MemBlock) (o : Option MemBlock) → o ≡ some b → Extends b o
Extends-self b o e =
    rw e (refl, take_self (length b.toc) b.toc refl, take_self (length b.values) b.values refl)

module _ (l : LocMap) (lim : Limits) (fit : IsLimits lim) where
  put_value-Survives :
      (w : Writer l) (b : MemBlock) (req : WriteReq)
      → length b.toc ≡ w.toc_offset
      → length b.values ≡ w.mem_offset
      → w.toc_offset + file_entry_size ≤ lim.page_size
      → w.mem_offset + alloc_of lim req ≤ lim.page_size
      → Survives b w.filed (put_value l lim w b req)
  unfolding put_value keep_value drop_value
  put_value-Survives w b req ht hv tf vf =
      let x = location_of b w.mem_offset req in
      let (p, map) = l.set w.map req.key x (has_bits req.timestampbits tsb_compaction_rewrite) in
      let k =
        toc_entry req.key (without_rewrite req.timestampbits) w.mem_offset (length req.value) in
      let e1 : ltb lim.page_size (w.mem_offset + alloc_of lim req) ≡ false = ground (arith, vf) in
      let e2 : ltb lim.page_size (w.toc_offset + file_entry_size) ≡ false = ground (arith, tf) in
      let toc_taken = take_self w.toc_offset b.toc ht in
      let values_taken = take_self w.mem_offset b.values hv in
      elim (Bool-cases (ltb p req.timestampbits)) [
        | inl e3 ↦
            simp (e1, e2, e3, toc_taken, values_taken)
              (inl (
                (
                  refl,
                  take-append_self (length b.toc) b.toc k refl,
                  take-append_self (length b.values) b.values (padded lim req) refl,
                ),
                [],
                sym (append-nil w.filed),
              ))
        | inr e3 ↦
            simp (e1, e3, values_taken)
              (inl (
                (
                  refl,
                  take_self (length b.toc) b.toc refl,
                  take_self (length b.values) b.values refl,
                ),
                [],
                sym (append-nil w.filed),
              ))
      ]

  -- A filed block stays filed.
  put_value-filed :
      (w : Writer l) (b c : MemBlock) (sent rest : List FileMsg) (req : WriteReq)
      → w.filed ≡ sent ++ file c ∷ rest
      → w.toc_offset + file_entry_size ≤ lim.page_size
      → w.mem_offset + alloc_of lim req ≤ lim.page_size
      → Survives c sent (put_value l lim w b req)
  unfolding put_value keep_value drop_value
  put_value-filed w b c sent rest req e tf vf =
      let x = location_of b w.mem_offset req in
      let (p, map) = l.set w.map req.key x (has_bits req.timestampbits tsb_compaction_rewrite) in
      let e1 : ltb lim.page_size (w.mem_offset + alloc_of lim req) ≡ false = ground (arith, vf) in
      let e2 : ltb lim.page_size (w.toc_offset + file_entry_size) ≡ false = ground (arith, tf) in
      elim (Bool-cases (ltb p req.timestampbits)) [
        | inl e3 ↦ simp (e1, e2, e3) (inr (rest, e))
        | inr e3 ↦ simp (e1, e3) (inr (rest, e))
      ]

  take_block-filed :
      (w : Writer l) (free : List MemBlock) (c : MemBlock) (sent : List FileMsg) (req : WriteReq)
      → w.filed ≡ sent ++ file c ∷ []
      → alloc_of lim req ≤ lim.page_size
      → Survives c sent (take_block l lim w free req)
  unfolding take_block
  take_block-filed w [] c sent req e af = inr ([], e)
  take_block-filed w (b ∷ free) c sent req e af =
      put_value-filed (record w { mem_block = some b; toc_offset = 0; mem_offset = 0; free = free })
        b c sent [] req e (omega (arith, fit.entries_fit)) (omega (arith, af))

  place-Survives :
      (w : Writer l) (b : MemBlock) (req : WriteReq)
      → IsFilledTo (some b) w.toc_offset w.mem_offset
      → alloc_of lim req ≤ lim.page_size
      → Survives b w.filed (place l lim w (some b) req)
  unfolding place
  place-Survives w b req h af =
      let fresh =
        take_block-filed (record w { mem_block = none; filed = w.filed ++ file b ∷ [] }) w.free b
          w.filed req refl af in
      elim (Bool-cases (
        ltb lim.page_size (w.toc_offset + file_entry_size)
        || ltb lim.page_size (w.mem_offset + alloc_of lim req))) [
          | inl full ↦ simp full fresh
          | inr room ↦
              simp room
                (put_value-Survives w b req h.0 h.1 (ground (arith, room)) (ground (arith, room)))
        ]

  handle_request-Survives :
      (w : Writer l) (b : MemBlock) (req : WriteReq)
      → IsWriter lim w
      → w.mem_block ≡ some b
      → Survives b w.filed (handle_request l lim w req)
  unfolding handle_request
  handle_request-Survives w b req iw e =
      let same = Extends-self b w.mem_block e in
      let held : IsFilledTo (some b) w.toc_offset w.mem_offset =
        subst (λ o. IsFilledTo o w.toc_offset w.mem_offset) e iw.filled_to in
      elim (Bool-cases (not w.enabled && not req.internal)) [
        | inl off ↦ simp off (inl (same, [], sym (append-nil w.filed)))
        | inr on ↦ elim (Bool-cases (ltb lim.value_cap (length req.value))) [
          | inl long ↦ simp (on, long) (inl (same, [], sym (append-nil w.filed)))
          | inr short ↦
              simp (on, short, e)
                (place-Survives w b req held
                  (ground (arith, fit.values_fit, fit.allocs_fit, short)))
        ]
      ]

  left-IsKept :
      (w : Writer l) (b : MemBlock) (last : FileMsg)
      → w.mem_block ≡ some b
      → IsKept b w.filed (record w {
        mem_block = left_block l lim w.mem_block;
        filed = w.filed ++ (filed_block l lim w.mem_block ++ last ∷ []);
      })
  unfolding left_block filed_block
  left-IsKept w b last e = elim (Bool-cases (ltb 0 (length b.toc))) [
    | inl some_entries ↦ simp (e, some_entries) (inr (last ∷ [], refl))
    | inr no_entry ↦ simp (e, no_entry) (inl (Extends-self b (some b) refl, last ∷ [], refl))
  ]

  -- With sizes that fit a page: whatever message a well-formed writer takes, its current block
  -- grows at the end or stays as it is, entries and values alike, or is the next thing that the
  -- file writer gets.
  pub turn-Survives :
      (w : Writer l) (b : MemBlock) (msg : WriteMsg)
      → IsWriter lim w
      → w.mem_block ≡ some b
      → Survives b w.filed (turn l lim w msg)
  unfolding turn
  turn-Survives w b enable iw e = inl (Extends-self b w.mem_block e, [], sym (append-nil w.filed))
  turn-Survives w b disable iw e = inl (Extends-self b w.mem_block e, [], sym (append-nil w.filed))
  turn-Survives w b flush iw e = left-IsKept w b flush_file e
  turn-Survives w b shutdown iw e = left-IsKept w b shutdown_file e
  turn-Survives w b (request req) iw e = handle_request-Survives w b req iw e
