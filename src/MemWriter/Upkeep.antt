-- ===== src/MemWriter/Upkeep.antt =====
-- valuestore_GEN_.go, memWriter: what a request leaves alone of the writer and its channels.
use valuestore.Base.{
  ℕ, suc, ◌+◌, ◌≤◌, ◌<◌, ◌≡◌, refl, sym, ap, ◌∙◌, Bool, true, false, not, ◌&&◌, ◌||◌, List, [], ◌∷◌,
  ◌++◌, Option, none, some, inl, inr, arith, ltb, Bool-cases, length, append-nil, All,
}
use valuestore.Package.{has_bits, tsb_compaction_rewrite}
use valuestore.LocMap.{LocMap, IsLocMap}
use valuestore.MemWriter.{
  Limits, MemBlock, WriteReq, FileMsg, Writer, Turn, running, request, file, file_entry_size,
  alloc_of, location_of, keep_value, drop_value, put_value, take_block, place, handle_request, turn,
}
use valuestore.MemWriter.Bounds.{IsLimits}
use valuestore.MemWriter.ReadBack.{HasId, IsReady}

-- The round goes on, sends its blocks behind what was sent, takes at most one of `n` free blocks,
-- and keeps the switch and the blocks' ids.
abbrev pub Tidy : {l : LocMap} → List FileMsg → Bool → ℕ → Turn l → Type 0
Tidy sent on n (running w r) =
    ((rest : List FileMsg) × (w.filed ≡ sent ++ rest))
    × (w.enabled ≡ on)
    × (n ≤ suc (length w.free))
    × HasId w.mem_block
    × All (λ b. 0 < b.id) w.free
Tidy sent on n _ = ⊥

module _ (l : LocMap) (lim : Limits) (laws : IsLocMap l) (fit : IsLimits lim) (sent : List FileMsg)
    (on : Bool) (n : ℕ) where
  put_value-Tidy :
      (w : Writer l) (b : MemBlock) (req : WriteReq) (rest : List FileMsg)
      → w.filed ≡ sent ++ rest
      → w.enabled ≡ on
      → n ≤ suc (length w.free)
      → 0 < b.id
      → All (λ c. 0 < c.id) w.free
      → w.toc_offset + file_entry_size ≤ lim.page_size
      → w.mem_offset + alloc_of lim req ≤ lim.page_size
      → Tidy sent on n (put_value l lim w b req)
  unfolding put_value keep_value drop_value
  put_value-Tidy w b req rest ef eo en id ids tf vf =
      let x = location_of b w.mem_offset req in
      let (p, map) = l.set w.map req.key x (has_bits req.timestampbits tsb_compaction_rewrite) in
      let e1 : ltb lim.page_size (w.mem_offset + alloc_of lim req) ≡ false = ground (arith, vf) in
      let e2 : ltb lim.page_size (w.toc_offset + file_entry_size) ≡ false = ground (arith, tf) in
      elim (Bool-cases (ltb p req.timestampbits)) [
        | inl e3 ↦ simp (e1, e2, e3) ((rest, ef), eo, en, id, ids)
        | inr e3 ↦ simp (e1, e3) ((rest, ef), eo, en, id, ids)
      ]

  take_block-Tidy :
      (w : Writer l) (free : List MemBlock) (req : WriteReq) (rest : List FileMsg)
      → w.filed ≡ sent ++ rest
      → w.enabled ≡ on
      → 0 < length free
      → n ≤ length free
      → All (λ c. 0 < c.id) free
      → alloc_of lim req ≤ lim.page_size
      → Tidy sent on n (take_block l lim w free req)
  unfolding take_block
  take_block-Tidy w [] req rest ef eo some_free en ids af = absurd (omega (arith, some_free))
  take_block-Tidy w (b ∷ free) req rest ef eo some_free en ids af =
      put_value-Tidy (record w { mem_block = some b; toc_offset = 0; mem_offset = 0; free = free })
        b req rest ef eo en ids.0 ids.1 (omega (arith, fit.entries_fit)) (omega (arith, af))

  place-Tidy :
      (w : Writer l) (o : Option MemBlock) (req : WriteReq)
      → w.filed ≡ sent
      → w.enabled ≡ on
      → 0 < length w.free
      → n ≤ length w.free
      → HasId o
      → All (λ c. 0 < c.id) w.free
      → alloc_of lim req ≤ lim.page_size
      → Tidy sent on n (place l lim w o req)
  unfolding place
  place-Tidy w none req ef eo some_free en id ids af =
      take_block-Tidy w w.free req [] (ef ∙ sym (append-nil sent)) eo some_free en ids af
  place-Tidy w (some b) req ef eo some_free en id ids af =
      let fresh =
        take_block-Tidy (record w { mem_block = none; filed = w.filed ++ file b ∷ [] }) w.free req
          (file b ∷ []) (ap (◌++ (file b ∷ [])) ef) eo some_free en ids af in
      elim (Bool-cases (
        ltb lim.page_size (w.toc_offset + file_entry_size)
        || ltb lim.page_size (w.mem_offset + alloc_of lim req))) [
          | inl full ↦ simp full fresh
          | inr room ↦ simp room (
              put_value-Tidy w b req [] (ef ∙ sym (append-nil sent)) eo (omega (arith, en)) id ids
                (ground (arith, room)) (ground (arith, room)))
        ]

module _ (l : LocMap) (lim : Limits) (laws : IsLocMap l) (fit : IsLimits lim) where
  pub turn-Tidy :
      (w : Writer l) (req : WriteReq)
      → IsReady l lim laws w
      → (w.enabled || req.internal) ≡ true
      → length req.value ≤ lim.value_cap
      → Tidy w.filed w.enabled (length w.free) (turn l lim w (request req))
  unfolding turn handle_request
  turn-Tidy w req ready allowed short =
      let e1 : (not w.enabled && not req.internal) ≡ false = ground (arith, allowed) in
      let e2 : ltb lim.value_cap (length req.value) ≡ false = ground (arith, short) in
      simp (e1, e2)
        (place-Tidy l lim laws fit w.filed w.enabled (length w.free) w w.mem_block req refl refl
          ready.some_free (omega arith) ready.has_id ready.have_ids
          (ground (arith, fit.values_fit, fit.allocs_fit, short)))
