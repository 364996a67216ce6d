-- ===== src/Store/ReadBack.antt =====
-- valuestore_GEN_.go: what lookups and reads give after a Write.
use valuestore.Base.{
  ℕ, ◌+◌, ◌*◌, ◌%◌, ◌^◌, ◌≤◌, ◌<◌, ◌≡◌, ◌≢◌, refl, ap, ◌∙◌, pos, true, false, ◌||◌, ◌++◌, Option,
  none, some, arith, ltb, leb, ◌==◌, length, get_elem?, get_elem?-set,
}
use valuestore.Base.Bytes.{Bytes}
use valuestore.Base.Bits.{bit_and_two, bit_and_128, bit_and_not_one}
use valuestore.Package.{Error, has_bits, tsb_local_removal, timestampmicro_min, timestampmicro_max}
use valuestore.LocMap.{Key, LocMap, IsLocMap}
use valuestore.MemWriter.{
  MemBlock, WriteReq, Limits, Turn, running, stopped, waits, panicked, stored, refused, request,
  turn,
}
use valuestore.MemWriter.Bounds.{IsLimits}
use valuestore.MemWriter.ReadBack.{Accepted, HoldsValue, IsReady, slice, turn-Accepted}
use valuestore.Store.{
  Worker, bump, micro_of, is_gone, done, in_block, Store, Answer, answered, blocked, crashed,
  lookup, read, read_mem_block, writer_of, worker_index, count_modification, with_writer,
  write_reply, write_at, write, bound_error, bits_of, write_done, write_bounded, api_write,
}

abbrev pub block_of : Option Worker → Option MemBlock
block_of none = none
block_of (some worker) = worker.mem_block

-- A worker's current block has the value: lookups and reads of the key lead there.
abbrev pub ReadsBack : (l : LocMap) → Store l → Key → ℕ → Bytes → Type 0
ReadsBack l s k timestampbits v =
    (b : MemBlock) × (i : ℕ) × (block_of (get_elem? s.workers i) ≡ some b)
    × (lookup l s.map k ≡ (timestampbits, b.id, length v, none))
    × ((front : Bytes) → read l s.map k front ≡ in_block b.id (l.get s.map k))
    × ((front : Bytes) → read_mem_block l s.map b k front ≡ done timestampbits (front ++ v) none)

-- A location in a block, at timestampbits without a bookkeeping bit, in the words of the reads.
pub slice-reads :
    (l : LocMap) (m : l.Map) (b : MemBlock) (k : Key) (timestampbits : ℕ) (v : Bytes)
    → 0 < b.id
    → (l.get m k).block_id ≡ b.id
    → (l.get m k).timestampbits ≡ timestampbits
    → (l.get m k).size ≡ length v
    → (l.get m k).offset + (l.get m k).size ≤ length b.values
    → slice b (l.get m k) ≡ v
    → timestampbits % 256 ≡ 0
    → (lookup l m k ≡ (timestampbits, b.id, length v, none))
      × ((front : Bytes) → read l m k front ≡ in_block b.id (l.get m k))
      × ((front : Bytes) → read_mem_block l m b k front ≡ done timestampbits (front ++ v) none)
unfolding lookup read read_mem_block
slice-reads l m b k timestampbits v hid eid t esize bound held low =
    let gone : is_gone (l.get m k) ≡ false =
      rw (eid, t) (ground (arith, hid, bit_and_128 timestampbits, low)) in
    let removed : has_bits (l.get m k).timestampbits tsb_local_removal ≡ false =
      rw t (ground (arith, bit_and_two timestampbits, low)) in
    let here : ((l.get m k).block_id == b.id) ≡ true = rw eid (ground arith) in
    let inside : ltb (length b.values) ((l.get m k).offset + (l.get m k).size) ≡ false =
      ground (arith, bound) in
    (
      simp gone (λ i. (t i, eid i, esize i, none)),
      λ front. simp (gone, removed) (λ i. in_block (eid i) (l.get m k)),
      λ front. simp (gone, here, inside) (λ i. done (t i) (front ++ held i) none),
    )

HoldsValue-ReadsBack :
    (l : LocMap) (s : Store l) (i : ℕ) (o : Option MemBlock) (req : WriteReq)
    → block_of (get_elem? s.workers i) ≡ o
    → HoldsValue l o s.map req
    → req.timestampbits % 256 ≡ 0
    → req.timestampbits < 2 ^ 64
    → ReadsBack l s req.key req.timestampbits req.value
HoldsValue-ReadsBack l s i none req at held low h64 = absurd held
HoldsValue-ReadsBack l s i (some b) req at (hid, eid, ets, esize, bound, held) low h64 =
    let r =
      slice-reads l s.map b req.key req.timestampbits req.value hid eid
        (ets ∙ omega (arith, bit_and_not_one req.timestampbits h64, low)) esize bound held low in
    (b, i, at, r.0, r.1, r.2)

-- The write took effect: its answer is what the map had, the value reads back, no other key is
-- touched, and `modifications` is the one counter that moves.
abbrev pub Wrote : (l : LocMap) → Store l → Key → ℕ → Bytes → Answer l (ℕ × Option Error) → Type 0
Wrote l s k timestampbits v (answered after (p, none)) =
    (p ≡ (l.get s.map k).timestampbits)
    × ReadsBack l after k timestampbits v
    × ((j : Key) → j ≢ k → l.get after.map j ≡ l.get s.map j)
    × (after.counters ≡ record s.counters { modifications = bump s.counters.modifications })
Wrote l s k timestampbits v _ = ⊥

-- The same in micros, for the method Write and its counters.
abbrev pub WroteMicro :
    (l : LocMap) → Store l → Key → ℕ → Bytes → Answer l (ℕ × Option Error) → Type 0
WroteMicro l s k m v (answered after (p, none)) =
    (p ≡ micro_of (l.get s.map k).timestampbits)
    × ReadsBack l after k (m * 256) v
    × ((j : Key) → j ≢ k → l.get after.map j ≡ l.get s.map j)
    × (after.counters ≡ record s.counters {
      writes = bump s.counters.writes;
      modifications = bump s.counters.modifications;
    })
WroteMicro l s k m v _ = ⊥

module _ (l : LocMap) (lim : Limits) where
  write_reply-Wrote :
      (s : Store l) (i : ℕ) (old : Worker) (req : WriteReq) (t : Turn l)
      → get_elem? s.workers i ≡ some old
      → req.timestampbits % 256 ≡ 0
      → req.timestampbits < 2 ^ 64
      → (l.get s.map req.key).timestampbits < req.timestampbits
      → Accepted l s.map req t
      → Wrote l s req.key req.timestampbits req.value (write_reply l lim s i req.timestampbits t)
  unfolding write_reply
  write_reply-Wrote s i old req (running w (some (stored p))) at low h64 newer (ep, held, others) =
      let changed : ltb p req.timestampbits ≡ true = rw ep (ground (arith, newer)) in
      let here =
        get_elem?-set s.workers i old
          (record {
            enabled = w.enabled;
            mem_block = w.mem_block;
            toc_offset = w.toc_offset;
            mem_offset = w.mem_offset;
          })
          at in
      (
        ep,
        HoldsValue-ReadsBack l
            (count_modification l lim (ltb p req.timestampbits) (with_writer l lim s i w)) i
            w.mem_block req (ap block_of here) held low h64,
        others,
        simp changed refl,
      )
  write_reply-Wrote s i old req (running w (some (refused e))) at low h64 newer acc = absurd acc
  write_reply-Wrote s i old req (running w none) at low h64 newer acc = absurd acc
  write_reply-Wrote s i old req (stopped w) at low h64 newer acc = absurd acc
  write_reply-Wrote s i old req (waits w) at low h64 newer acc = absurd acc
  write_reply-Wrote s i old req panicked at low h64 newer acc = absurd acc

  -- A write that is admitted, newer than what the map has and marked by no bookkeeping bit.
  write-Wrote :
      (laws : IsLocMap l)
      → IsLimits lim
      → (s : Store l) (worker : Worker) (req : WriteReq)
      → get_elem? s.workers (worker_index l lim s req.key) ≡ some worker
      → IsReady l lim laws (writer_of l lim s worker)
      → (worker.enabled || req.internal) ≡ true
      → length req.value ≤ lim.value_cap
      → req.timestampbits % 256 ≡ 0
      → req.timestampbits < 2 ^ 64
      → (l.get s.map req.key).timestampbits < req.timestampbits
      → Wrote l s req.key req.timestampbits req.value
          (write l lim s req.key req.timestampbits req.value req.internal)
  unfolding write write_at
  write-Wrote laws fit s worker req at ready allowed short low h64 newer = simp at (
      write_reply-Wrote s (worker_index l lim s req.key) worker req
        (turn l lim (writer_of l lim s worker) (request req)) at low h64 newer
        (turn-Accepted l lim laws fit (writer_of l lim s worker) req ready allowed short h64 newer))

  write_done-WroteMicro :
      (s : Store l) (k : Key) (m : ℕ) (v : Bytes) (a : Answer l (ℕ × Option Error))
      → (l.get s.map k).timestampbits < m * 256
      → Wrote l
          (record s { counters = record s.counters { writes = bump s.counters.writes } })
          k
          (m * 256)
          v
          a
      → WroteMicro l s k m v (write_done l lim (pos m) a)
  unfolding write_done
  write_done-WroteMicro s k m v (answered after (p, none)) newer (ep, back, others, counters) =
      let e : leb m (micro_of p) ≡ false = ground (arith, newer, ep) in
      (rw ep refl, back, others, simp (e, counters) refl)
  write_done-WroteMicro s k m v (answered after (p, some e)) newer w = absurd w
  write_done-WroteMicro s k m v blocked newer w = absurd w
  write_done-WroteMicro s k m v crashed newer w = absurd w

  -- With sizes that fit a page, after a Write of a value that is not too long, at a timestamp
  -- within the bounds and newer than the key's, by a worker that writes are enabled for and that
  -- has a free block: the answer is the micros that were there, a lookup gives the new timestamp
  -- and the value's length, a read leads to a worker's block that gives the value behind any
  -- bytes the caller passed in, no other key's location changes, and only the counters `writes`
  -- and `modifications` have gone up.
  pub api_write-WroteMicro :
      (laws : IsLocMap l)
      → IsLimits lim
      → (s : Store l) (worker : Worker) (k : Key) (m : ℕ) (v : Bytes)
      → get_elem? s.workers (worker_index l lim s k) ≡ some worker
      → IsReady l lim laws (writer_of l lim s worker)
      → worker.enabled ≡ true
      → length v ≤ lim.value_cap
      → timestampmicro_min ≤ m
      → m ≤ timestampmicro_max
      → (l.get s.map k).timestampbits < m * 256
      → WroteMicro l s k m v (api_write l lim s k (pos m) v)
  unfolding api_write write_bounded
  api_write-WroteMicro laws fit s worker k m v at ready on short low high newer =
      let counted : Store l = record s {
        counters = record s.counters { writes = bump s.counters.writes };
      } in
      let req : WriteReq = record {
        key = k;
        timestampbits = m * 256;
        value = v;
        internal = false;
      } in
      let in_bounds : bound_error l lim (pos m) ≡ none = ground (arith, low, high) in
      let bits : bits_of l lim (pos m) ≡ m * 256 = omega (arith, high) in
      simp (in_bounds, bits)
        (write_done-WroteMicro s k m v (write l lim counted k (m * 256) v false) newer (
          write-Wrote laws fit counted worker req at ready (simp on refl) short (omega arith)
            (omega (arith, high)) newer))
