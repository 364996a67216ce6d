-- ===== src/KeyRanges.antt =====
-- valuetombstonediscard_GEN_.go, how a pass cuts the keys into ranges, one of every partition for
-- each worker, and the order in which a worker takes them. `%  2 ^ 64` is uint64's wrap-around.
pub mod Cover
pub mod Expired
mod Tests
use valuestore.Base.{
  ℕ, zero, suc, ◌+◌, ◌-◌, ◌*◌, ◌/◌, ◌%◌, ◌^◌, Bool, List, [], ◌∷◌, ◌++◌, Option, none, some, map,
  not, ◌==◌, ltb, if◌then◌else◌,
}
use valuestore.Ring.{Ring}

-- `a << s`, `a - b`, of uint64
abbrev pub shift_left : ℕ → ℕ → ℕ
shift_left a s = a * 2 ^ s % 2 ^ 64

abbrev pub sub : ℕ → ℕ → ℕ
sub a b = (a + (2 ^ 64 - b)) % 2 ^ 64

-- partitionShift, partitionMax
unfoldable pub partition_shift : Option Ring → ℕ
partition_shift none = 0
partition_shift (some ring) = 64 - ring.partition_bit_count

unfoldable pub partition_max : Option Ring → ℕ
partition_max none = 0
partition_max (some ring) = sub (shift_left 1 ring.partition_bit_count) 1

-- The range of a partition that a worker takes.
unfoldable pub range_of : ℕ → ℕ → ℕ → ℕ → ℕ → ℕ × ℕ
range_of shift most worker_max partition worker =
    let piece = shift_left 1 shift / (worker_max + 1) in
    let left = shift_left partition shift in
    (
      (left + piece * worker) % 2 ^ 64,
      if not (worker == worker_max)
          then sub (left + piece * (worker + 1)) 1
          else if not (partition == most)
          then sub (shift_left (partition + 1) shift) 1
          else 2 ^ 64 - 1,
    )

-- `n` numbers from `a` on
abbrev pub numbers : ℕ → ℕ → List ℕ
numbers a zero = []
numbers a (suc n) = a ∷ numbers (suc a) n

-- The two loops over the partitions, from the worker's own first one on.
unfoldable pub partitions_of : ℕ → ℕ → ℕ → List ℕ
partitions_of most worker_max worker =
    let first = (most + 1) / (worker_max + 1) * worker in
    numbers first (most + 1 - first) ++ numbers 0 first

-- The calls of locmap.Discard that one worker of tombstoneDiscardPassLocalRemovals makes, when no
-- notification stops it.
unfoldable pub discard_ranges : Option Ring → ℕ → ℕ → List (ℕ × ℕ)
unfolding partition_shift partition_max range_of partitions_of
discard_ranges ring worker_max worker =
    map
      (λ partition.
        range_of (partition_shift ring) (partition_max ring) worker_max partition worker)
      (partitions_of (partition_max ring) worker_max worker)

-- The loop of tombstoneDiscardPassExpiredDeletions over the partitions, on fuel: it goes round, and
-- stops where it began.
unfoldable pub partitions_round : ℕ → ℕ → ℕ → ℕ → List ℕ
partitions_round zero most first p = []
partitions_round (suc n) most first p =
    let next = (if ltb most (p + 1) then 0 else p + 1) in
    let rest = partitions_round n most first next in p ∷ (if next == first then [] else rest)

-- The ranges that one worker of that pass scans.
unfoldable pub expired_ranges : Option Ring → ℕ → ℕ → List (ℕ × ℕ)
unfolding partition_shift partition_max range_of partitions_round
expired_ranges ring worker_max worker =
    let most = partition_max ring in
    let first = (most + 1) / (worker_max + 1) * worker in
    map (λ partition. range_of (partition_shift ring) most worker_max partition worker)
      (partitions_round (most + 1) most first first)
