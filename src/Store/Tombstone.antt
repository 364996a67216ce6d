-- ===== src/Store/Tombstone.antt =====
-- valuestore_GEN_.go: deletes through the store's methods, and writes that come too late.
use valuestore.Base.{
  ℕ, ◌+◌, ◌*◌, ◌/◌, ◌%◌, ◌^◌, ◌≤◌, ◌<◌, ◌≡◌, ◌≢◌, refl, ap, ◌∙◌, pos, true, false, [], Option, none,
  some, arith, ltb, leb, bit_or, length, get_elem?,
}
use valuestore.Base.Bytes.{Bytes}
use valuestore.Base.Bits.{bit_and_128, bit_and_not_one, bit_or_128}
use valuestore.Package.{Error, not_found, tsb_deletion, timestampmicro_min, timestampmicro_max}
use valuestore.LocMap.{Key, LocMap, IsLocMap}
use valuestore.MemWriter.{
  MemBlock, WriteReq, Limits, Turn, running, stopped, waits, panicked, stored, refused, request,
  turn, without_rewrite,
}
use valuestore.MemWriter.Bounds.{IsLimits}
use valuestore.MemWriter.ReadBack.{
  Accepted, HoldsValue, Ignored, IsReady, turn-Accepted, turn-Ignored,
}
use valuestore.Store.{
  Worker, bump, micro_of, is_gone, done, Store, Answer, answered, lookup, read, read_mem_block,
  writer_of, worker_index, write_reply, write_at, write, bound_error, bits_of, write_done,
  write_bounded, api_write, delete_done, delete_bounded, api_delete,
}

-- The map has a tombstone: lookups and reads find nothing, whichever block they ask.
abbrev pub IsGone : (l : LocMap) → l.Map → Key → ℕ → Type 0
IsGone l m k timestampbits =
    ((l.get m k).timestampbits ≡ timestampbits)
    × ((lookup l m k).3 ≡ some not_found)
    × ((front : Bytes) → read l m k front ≡ done timestampbits front (some not_found))
    × ((b : MemBlock) (front : Bytes)
        → read_mem_block l m b k front ≡ done timestampbits front (some not_found))

tombstone-IsGone :
    (l : LocMap) (m : l.Map) (k : Key) (t : ℕ)
    → (l.get m k).timestampbits ≡ t
    → t / 128 % 2 ≡ 1
    → IsGone l m k t
unfolding lookup read read_mem_block
tombstone-IsGone l m k t e bit =
    let gone : is_gone (l.get m k) ≡ true = rw e (ground (arith, bit_and_128 t, bit)) in
    (
      e,
      simp gone refl,
      λ front. simp gone (ap (λ u. done u front (some not_found)) e),
      λ b front. simp gone (ap (λ u. done u front (some not_found)) e),
    )

-- The delete took effect.
abbrev pub Deleted : (l : LocMap) → Store l → Key → ℕ → Answer l (ℕ × Option Error) → Type 0
Deleted l s k m (answered after (p, none)) =
    (p ≡ micro_of (l.get s.map k).timestampbits)
    × IsGone l after.map k (m * 256 + 128)
    × ((j : Key) → j ≢ k → l.get after.map j ≡ l.get s.map j)
Deleted l s k m _ = ⊥

-- The write came too late: no location changes, the answer is the newer timestamp, which the
-- counter of overridden writes shows.
abbrev pub Overridden : (l : LocMap) → Store l → Key → Answer l (ℕ × Option Error) → Type 0
Overridden l s k (answered after (p, none)) =
    (p ≡ micro_of (l.get s.map k).timestampbits)
    × (l.get after.map k ≡ l.get s.map k)
    × ((j : Key) → j ≢ k → l.get after.map j ≡ l.get s.map j)
    × (after.counters ≡ record s.counters {
      writes = bump s.counters.writes;
      writes_overridden = bump s.counters.writes_overridden;
    })
Overridden l s k _ = ⊥

pub HoldsValue-timestampbits :
    (l : LocMap) (m : l.Map) (o : Option MemBlock) (req : WriteReq)
    → HoldsValue l o m req
    → (l.get m req.key).timestampbits ≡ without_rewrite req.timestampbits
HoldsValue-timestampbits l m none req held = absurd held
HoldsValue-timestampbits l m (some b) req held = held.2

module _ (l : LocMap) (lim : Limits) where
  delete_done-Deleted :
      (s : Store l) (i : ℕ) (req : WriteReq) (m : ℕ) (t : Turn l)
      → req.timestampbits ≡ m * 256 + 128
      → req.timestampbits < 2 ^ 64
      → Accepted l s.map req t
      → Deleted l s req.key m
          (delete_done l lim (pos m) (write_reply l lim s i req.timestampbits t))
  unfolding delete_done write_reply
  delete_done-Deleted s i req m (running w (some (stored p))) e h64 (ep, held, others) = (
    ap micro_of ep,
    tombstone-IsGone l w.map req.key (m * 256 + 128)
        (HoldsValue-timestampbits l w.map w.mem_block req held
          ∙ omega (arith, bit_and_not_one req.timestampbits h64, e))
        (omega arith),
    others,
  )
  delete_done-Deleted s i req m (running w (some (refused x))) e h64 acc = absurd acc
  delete_done-Deleted s i req m (running w none) e h64 acc = absurd acc
  delete_done-Deleted s i req m (stopped w) e h64 acc = absurd acc
  delete_done-Deleted s i req m (waits w) e h64 acc = absurd acc
  delete_done-Deleted s i req m panicked e h64 acc = absurd acc

  -- With sizes that fit a page, after a Delete at a timestamp within the bounds whose tombstone
  -- is newer than what the key has (a write of the same micro is older), by a worker with a free
  -- block, writes enabled or not: the answer is the micros that were there, lookups and reads
  -- find nothing, with the tombstone's timestamp, whichever memory block is asked, and no other
  -- key's location changes.
  pub api_delete-Deleted :
      (laws : IsLocMap l)
      → IsLimits lim
      → (s : Store l) (worker : Worker) (k : Key) (m : ℕ)
      → get_elem? s.workers (worker_index l lim s k) ≡ some worker
      → IsReady l lim laws (writer_of l lim s worker)
      → timestampmicro_min ≤ m
      → m ≤ timestampmicro_max
      → (l.get s.map k).timestampbits < m * 256 + 128
      → Deleted l s k m (api_delete l lim s k (pos m))
  unfolding api_delete delete_bounded write write_at
  api_delete-Deleted laws fit s worker k m at ready low high newer =
      let counted : Store l = record s {
        counters = record s.counters { deletes = bump s.counters.deletes };
      } in
      let req : WriteReq = record {
        key = k;
        timestampbits = m * 256 + 128;
        value = [];
        internal = true;
      } in
      let in_bounds : bound_error l lim (pos m) ≡ none = ground (arith, low, high) in
      let bits : bit_or (bits_of l lim (pos m)) tsb_deletion ≡ m * 256 + 128 =
        omega (arith, high, bit_or_128 (m * 256 % 2 ^ 64)) in
      simp (in_bounds, bits, at)
        (delete_done-Deleted counted (worker_index l lim s k) req m
          (turn l lim (writer_of l lim counted worker) (request req)) refl (omega (arith, high))
          (turn-Accepted l lim laws fit (writer_of l lim counted worker) req ready (ground arith)
            (omega arith) (omega (arith, high)) newer))

  write_done-Overridden :
      (s : Store l) (i : ℕ) (req : WriteReq) (m : ℕ) (t : Turn l)
      → req.timestampbits ≡ m * 256
      → req.timestampbits ≤ (l.get s.map req.key).timestampbits
      → Ignored l s.map req t
      → Overridden l s req.key (
          write_done l lim (pos m) (
            write_reply l lim
              (record s { counters = record s.counters { writes = bump s.counters.writes } })
              i
              req.timestampbits
              t))
  unfolding write_done write_reply
  write_done-Overridden s i req m (running w (some (stored p))) e older (ep, same, others) =
      let unchanged : ltb p req.timestampbits ≡ false = ground (arith, ep, older) in
      let late : leb m (micro_of p) ≡ true = ground (arith, ep, older, e) in
      (ap micro_of ep, same, others, simp (unchanged, late) refl)
  write_done-Overridden s i req m (running w (some (refused x))) e older acc = absurd acc
  write_done-Overridden s i req m (running w none) e older acc = absurd acc
  write_done-Overridden s i req m (stopped w) e older acc = absurd acc
  write_done-Overridden s i req m (waits w) e older acc = absurd acc
  write_done-Overridden s i req m panicked e older acc = absurd acc

  -- With sizes that fit a page, a Write at a timestamp within the bounds that is not newer than
  -- what the key has, a tombstone of the same micro included, by a worker that writes are enabled
  -- for and that has a free block: no location changes, the answer is the micros that are there,
  -- and only the counters `writes` and `writes_overridden` go up.
  pub api_write-Overridden :
      (laws : IsLocMap l)
      → IsLimits lim
      → (s : Store l) (worker : Worker) (k : Key) (m : ℕ) (v : Bytes)
      → get_elem? s.workers (worker_index l lim s k) ≡ some worker
      → IsReady l lim laws (writer_of l lim s worker)
      → worker.enabled ≡ true
      → length v ≤ lim.value_cap
      → timestampmicro_min ≤ m
      → m ≤ timestampmicro_max
      → m * 256 ≤ (l.get s.map k).timestampbits
      → Overridden l s k (api_write l lim s k (pos m) v)
  unfolding api_write write_bounded write write_at
  api_write-Overridden laws fit s worker k m v at ready on short low high older =
      let counted : Store l = record s {
        counters = record s.counters { writes = bump s.counters.writes };
      } in
      let req : WriteReq = record {
        key = k;
        timestampbits = m * 256;
        value = v;
        internal = false;
      } in
      let in_bounds : bound_error l lim (pos m) ≡ none = ground (arith, low, high) in
      let bits : bits_of l lim (pos m) ≡ m * 256 = omega (arith, high) in
      simp (in_bounds, bits, at)
        (write_done-Overridden s (worker_index l lim s k) req m
          (turn l lim (writer_of l lim counted worker) (request req)) refl older
          (turn-Ignored l lim laws fit (writer_of l lim counted worker) req ready (simp on refl)
            short (omega (arith, high)) older))
