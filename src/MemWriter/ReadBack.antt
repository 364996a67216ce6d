-- ===== src/MemWriter/ReadBack.antt =====
-- valuestore_GEN_.go, memWriter: what a request leaves in the block and in the location map.
use valuestore.Base.{
  ℕ, ◌+◌, ◌-◌, ◌^◌, ◌≤◌, ◌<◌, ◌≡◌, ◌≢◌, refl, sym, ◌∙◌, true, false, not, ◌&&◌, ◌||◌, List, [], ◌∷◌,
  ◌++◌, Option, none, some, inl, inr, arith, ltb, Bool-cases, length, length-append, length-take,
  take, drop, replicate, All, take-append_self, drop-append_self,
}
use valuestore.Base.Bytes.{Bytes}
use valuestore.Base.Bits.{bit_and-one, bit_and_not_one}
use valuestore.Package.{has_bits, tsb_compaction_rewrite}
use valuestore.LocMap.{Key, Location, LocMap, IsLocMap, supersedes}
use valuestore.MemWriter.{
  Limits, MemBlock, WriteReq, Writer, Turn, running, request, stored, file, file_entry_size,
  alloc_of, padded, without_rewrite, location_of, keep_value, drop_value, put_value, take_block,
  place, handle_request, turn,
}
use valuestore.MemWriter.Bounds.{IsLimits, IsWriter, IsEmpty, IsFilledTo}

-- For a 64-bit timestamp the writer keeps a value's bytes just when the location map takes its
-- location: a newer one, or a compaction's rewrite of the same.
pub ltb-supersedes :
    (p timestampbits : ℕ)
    → timestampbits < 2 ^ 64
    → ltb p timestampbits
      ≡ supersedes (has_bits timestampbits tsb_compaction_rewrite) p (without_rewrite timestampbits)
ltb-supersedes p t h = ground (arith, bit_and-one t, bit_and_not_one t h)

-- The bytes that a location stands for.
abbrev pub slice : MemBlock → Location → Bytes
slice b x = take x.size (drop x.offset b.values)

-- The map leads from the key to the block, and there to the value.
abbrev pub HoldsValue : (l : LocMap) → Option MemBlock → l.Map → WriteReq → Type 0
HoldsValue l none m req = ⊥
HoldsValue l (some b) m req =
    (0 < b.id)
    × ((l.get m req.key).block_id ≡ b.id)
    × ((l.get m req.key).timestampbits ≡ without_rewrite req.timestampbits)
    × ((l.get m req.key).size ≡ length req.value)
    × ((l.get m req.key).offset + (l.get m req.key).size ≤ length b.values)
    × (slice b (l.get m req.key) ≡ req.value)

-- The request took effect: its answer is the timestampbits that were there, the value reads back,
-- and no other key's location is touched.
abbrev pub Accepted : (l : LocMap) → l.Map → WriteReq → Turn l → Type 0
Accepted l m req (running w (some (stored p))) =
    (p ≡ (l.get m req.key).timestampbits)
    × HoldsValue l w.mem_block w.map req
    × ((j : Key) → j ≢ req.key → l.get w.map j ≡ l.get m j)
Accepted l m req _ = ⊥

abbrev pub HasId : Option MemBlock → Type 0
HasId none = Unit {0}
HasId (some b) = 0 < b.id

-- The request changes no location, and its answer is the newer timestampbits.
abbrev pub Ignored : (l : LocMap) → l.Map → WriteReq → Turn l → Type 0
Ignored l m req (running w (some (stored p))) =
    (p ≡ (l.get m req.key).timestampbits)
    × (l.get w.map req.key ≡ l.get m req.key)
    × ((j : Key) → j ≢ req.key → l.get w.map j ≡ l.get m j)
Ignored l m req _ = ⊥

slice_padded :
    (lim : Limits) (b : MemBlock) (o : ℕ) (req : WriteReq)
    → length b.values ≡ o
    → take (length req.value) (drop o (take o b.values ++ padded lim req)) ≡ req.value
slice_padded lim b o req h =
    let front : length (take o b.values) ≡ o = omega (arith, length-take o b.values) in
    rw (drop-append_self o (take o b.values) (padded lim req) front) (
      take-append_self (length req.value) req.value
        (replicate (alloc_of lim req - length req.value) 0) refl)

filled :
    (lim : Limits) (b : MemBlock) (o : ℕ) (req : WriteReq)
    → length b.values ≡ o
    → o + length req.value ≤ length (take o b.values ++ padded lim req)
filled lim b o req h = omega (
  arith,
  length-append (take o b.values) (padded lim req),
  length-append req.value (replicate (alloc_of lim req - length req.value) 0),
  length-take o b.values,
)

module _ (l : LocMap) (lim : Limits) (laws : IsLocMap l) where
  -- A well-formed writer that need not wait for a block; a block's id is not 0.
  pub record IsReady (w : Writer l) : Type 0 where
    pub well_formed : IsWriter lim w
    pub has_id : HasId w.mem_block
    pub have_ids : All (λ b. 0 < b.id) w.free
    pub some_free : 0 < length w.free

  put_value-Accepted :
      (w : Writer l) (b : MemBlock) (req : WriteReq)
      → 0 < b.id
      → length b.values ≡ w.mem_offset
      → w.toc_offset + file_entry_size ≤ lim.page_size
      → w.mem_offset + alloc_of lim req ≤ lim.page_size
      → req.timestampbits < 2 ^ 64
      → (l.get w.map req.key).timestampbits < req.timestampbits
      → Accepted l w.map req (put_value l lim w b req)
  unfolding put_value keep_value
  put_value-Accepted w b req hid hv tf vf h64 newer =
      let x = location_of b w.mem_offset req in
      let same = has_bits req.timestampbits tsb_compaction_rewrite in
      let p : (l.set w.map req.key x same).0 ≡ (l.get w.map req.key).timestampbits =
        laws.previous w.map req.key x same in
      let e0 : ltb (l.get w.map req.key).timestampbits req.timestampbits ≡ true =
        ground (arith, newer) in
      let e1 : ltb lim.page_size (w.mem_offset + alloc_of lim req) ≡ false = ground (arith, vf) in
      let e2 : ltb lim.page_size (w.toc_offset + file_entry_size) ≡ false = ground (arith, tf) in
      let s : l.get (l.set w.map req.key x same).1 req.key ≡ x =
        laws.stored w.map req.key x same
          (sym (ltb-supersedes (l.get w.map req.key).timestampbits req.timestampbits h64) ∙ e0)
          hid in
      let e3 : ltb (l.set w.map req.key x same).0 req.timestampbits ≡ true = rw p e0 in
      simp (e1, e2, e3)
        (
          p,
          (
            hid,
            simp s refl,
            simp s refl,
            simp s refl,
            simp s (filled lim b w.mem_offset req hv),
            simp s (slice_padded lim b w.mem_offset req hv),
          ),
          λ j ne. laws.elsewhere w.map req.key j x same ne,
        )

  -- An older request: the answer and every key's location are as they were.
  put_value-Ignored :
      (w : Writer l) (b : MemBlock) (req : WriteReq)
      → w.mem_offset + alloc_of lim req ≤ lim.page_size
      → req.timestampbits < 2 ^ 64
      → req.timestampbits ≤ (l.get w.map req.key).timestampbits
      → Ignored l w.map req (put_value l lim w b req)
  unfolding put_value drop_value
  put_value-Ignored w b req vf h64 older =
      let x = location_of b w.mem_offset req in
      let same = has_bits req.timestampbits tsb_compaction_rewrite in
      let p : (l.set w.map req.key x same).0 ≡ (l.get w.map req.key).timestampbits =
        laws.previous w.map req.key x same in
      let e0 : ltb (l.get w.map req.key).timestampbits req.timestampbits ≡ false =
        ground (arith, older) in
      let e1 : ltb lim.page_size (w.mem_offset + alloc_of lim req) ≡ false = ground (arith, vf) in
      let e2 : ltb (l.set w.map req.key x same).0 req.timestampbits ≡ false = rw p e0 in
      let s : l.get (l.set w.map req.key x same).1 req.key ≡ l.get w.map req.key =
        laws.kept w.map req.key x same
          (sym (ltb-supersedes (l.get w.map req.key).timestampbits req.timestampbits h64) ∙ e0) in
      simp (e1, e2) (p, s, λ j ne. laws.elsewhere w.map req.key j x same ne)

  module _ (fit : IsLimits lim) where
    -- What `put_value` does for every block with room, an admitted request does.
    module _ (m : l.Map) (req : WriteReq) (P : Turn l → Type 0)
        (put : (w : Writer l) (b : MemBlock)
          → w.map ≡ m
          → 0 < b.id
          → length b.values ≡ w.mem_offset
          → w.toc_offset + file_entry_size ≤ lim.page_size
          → w.mem_offset + alloc_of lim req ≤ lim.page_size
          → P (put_value l lim w b req)) where
      take_block-put :
          (w : Writer l) (free : List MemBlock)
          → w.map ≡ m
          → 0 < length free
          → All IsEmpty free
          → All (λ b. 0 < b.id) free
          → alloc_of lim req ≤ lim.page_size
          → P (take_block l lim w free req)
      unfolding take_block
      take_block-put w [] e some_free fe ids af = absurd (omega (arith, some_free))
      take_block-put w (b ∷ free) e some_free fe ids af =
          put (record w { mem_block = some b; toc_offset = 0; mem_offset = 0; free = free }) b e
            ids.0 fe.0.1 (omega (arith, fit.entries_fit)) (omega (arith, af))

      place-put :
          (w : Writer l) (o : Option MemBlock)
          → w.map ≡ m
          → IsWriter lim w
          → IsFilledTo o w.toc_offset w.mem_offset
          → HasId o
          → All (λ b. 0 < b.id) w.free
          → 0 < length w.free
          → alloc_of lim req ≤ lim.page_size
          → P (place l lim w o req)
      unfolding place
      place-put w none e iw h id ids some_free af =
          take_block-put w w.free e some_free iw.free_empty ids af
      place-put w (some b) e iw h id ids some_free af =
          let fresh =
            take_block-put (record w { mem_block = none; filed = w.filed ++ file b ∷ [] }) w.free e
              some_free iw.free_empty ids af in
          elim (Bool-cases (
            ltb lim.page_size (w.toc_offset + file_entry_size)
            || ltb lim.page_size (w.mem_offset + alloc_of lim req))) [
              | inl full ↦ simp full fresh
              | inr room ↦
                  simp room (put w b e id h.1 (ground (arith, room)) (ground (arith, room)))
            ]

      turn-put :
          (w : Writer l)
          → w.map ≡ m
          → IsReady w
          → (w.enabled || req.internal) ≡ true
          → length req.value ≤ lim.value_cap
          → P (turn l lim w (request req))
      unfolding turn handle_request
      turn-put w e ready allowed short =
          let e1 : (not w.enabled && not req.internal) ≡ false = ground (arith, allowed) in
          let e2 : ltb lim.value_cap (length req.value) ≡ false = ground (arith, short) in
          simp (e1, e2)
            (place-put w w.mem_block e ready.well_formed ready.well_formed.filled_to ready.has_id
              ready.have_ids ready.some_free
              (ground (arith, fit.values_fit, fit.allocs_fit, short)))

    -- With sizes that fit a page, a request that writes are enabled for (or that is internal),
    -- whose value is not too long and whose 64-bit timestamp is newer than the key's, takes
    -- effect when a free block is at hand: the answer is the timestampbits that the map had, the
    -- map's location reads the value back from the block, and no other key's location changes.
    pub turn-Accepted :
        (w : Writer l) (req : WriteReq)
        → IsReady w
        → (w.enabled || req.internal) ≡ true
        → length req.value ≤ lim.value_cap
        → req.timestampbits < 2 ^ 64
        → (l.get w.map req.key).timestampbits < req.timestampbits
        → Accepted l w.map req (turn l lim w (request req))
    turn-Accepted w req ready allowed short h64 newer =
        turn-put w.map req (Accepted l w.map req)
          (λ v b e id hv tf vf.
            simp (sym e) (put_value-Accepted v b req id hv tf vf h64 (rw e newer)))
          w refl ready allowed short

    -- With sizes that fit a page, a request that writes are enabled for (or that is internal),
    -- whose value is not too long and whose 64-bit timestamp is not newer than the key's, changes
    -- no key's location when a free block is at hand, and its answer is the timestampbits that
    -- stay.
    pub turn-Ignored :
        (w : Writer l) (req : WriteReq)
        → IsReady w
        → (w.enabled || req.internal) ≡ true
        → length req.value ≤ lim.value_cap
        → req.timestampbits < 2 ^ 64
        → req.timestampbits ≤ (l.get w.map req.key).timestampbits
        → Ignored l w.map req (turn l lim w (request req))
    turn-Ignored w req ready allowed short h64 older =
        turn-put w.map req (Ignored l w.map req)
          (λ v b e id hv tf vf. simp (sym e) (put_value-Ignored v b req vf h64 (rw e older))) w refl
          ready allowed short
