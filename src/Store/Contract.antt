-- ===== src/Store/Contract.antt =====
-- valuestore_GEN_.go: what lookups and reads give after any calls of Write and Delete.
use valuestore.Base.{ℕ, ◌≤◌, ◌≡◌, refl, ap, Bool, List, Option, none, some, ◌++◌, length}
use valuestore.Base.Bytes.{Bytes}
use valuestore.Package.{not_found}
use valuestore.LocMap.{Key, LocMap, IsLocMap}
use valuestore.MemWriter.{MemBlock, Limits}
use valuestore.MemWriter.Bounds.{IsLimits}
use valuestore.Store.{Store, answered, lookup, read, read_mem_block, done, in_block}
use valuestore.Store.ReadBack.{slice-reads}
use valuestore.Store.Held.{InStore}
use valuestore.Store.Effects.{IsSound}
use valuestore.Store.Models.{Fits, Models}
use valuestore.Store.Calls.{Call, run_calls, spec_run}
use valuestore.Store.Refines.{run_calls-Models}

-- A key without a value is not found; a value's length is told, and a read is sent to a block of
-- the store, in work or waiting for the file writer, that gives the value.
abbrev pub Answers : {l : LocMap} → Store l → Key → ℕ × Option Bytes → Type 0
Answers {l} s k (t, none) =
    ((lookup l s.map k).0 ≡ t)
    × ((lookup l s.map k).3 ≡ some not_found)
    × ((front : Bytes) → read l s.map k front ≡ done t front (some not_found))
Answers {l} s k (t, some v) =
    (b : MemBlock) × InStore s b
    × (lookup l s.map k ≡ (t, b.id, length v, none))
    × ((front : Bytes) → read l s.map k front ≡ in_block b.id (l.get s.map k))
    × ((front : Bytes) → read_mem_block l s.map b k front ≡ done t (front ++ v) none)

Fits-Answers :
    (l : LocMap) (s : Store l) (k : Key) (e : ℕ × Option Bytes)
    → Fits s (l.get s.map k) e
    → Answers s k e
unfolding lookup read
Fits-Answers l s k (t, none) (stamp, gone) = (
  simp gone stamp,
  simp gone refl,
  λ front. simp gone (ap (λ u. done u front (some not_found)) stamp),
)
Fits-Answers l s k (t, some v) (stamp, low, (b, inside, (id, at, size, bound, held))) =
    let r = slice-reads l s.map b k t v id at stamp size bound held low in
    (b, inside, r.0, r.1, r.2)

-- Take a store of one worker or more, all of them with writes enabled (`on`) or all not, each
-- well formed, with sizes that fit a page, a location map that keeps its laws, and a map of entries
-- that every key's location and its block fit. Then calls of Write and Delete, one after another
-- and no more of them than there are free blocks, are all answered, each as that map says: with the
-- error of the bounds, the switch or the length, or with the micros of the key's entry, which a
-- newer timestamp replaces. Afterwards every lookup and read agrees with the map that the calls
-- leave: a key without a value is not found, and a value comes from a block of the store.
pub run_calls-Answers :
    (l : LocMap) (lim : Limits)
    → IsLocMap l
    → IsLimits lim
    → (on : Bool) (cs : List Call) (s : Store l) (a : Key → ℕ × Option Bytes) → Models s a
    → IsSound lim on s.workers s.free
    → length cs ≤ length s.free
    → (after : Store l) × (run_calls l lim s cs ≡ answered after (spec_run l lim on a cs).1)
      × ((k : Key) → Answers after k ((spec_run l lim on a cs).0 k))
run_calls-Answers l lim laws fit on cs s a models sound enough =
    let (after, ran, models', sound') =
      run_calls-Models l lim laws fit on cs s a models sound enough in
    (after, ran, λ k. Fits-Answers l after k ((spec_run l lim on a cs).0 k) (models' k))
