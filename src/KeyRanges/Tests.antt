-- ===== src/KeyRanges/Tests.antt =====
-- Three workers on the eight partitions of a ring.
use valuestore.Base.{ℕ, ◌-◌, ◌^◌, ◌≤◌, ◌≡◌, arith, some, none, true, get_elem?}
use valuestore.Ring.{Ring}
use valuestore.KeyRanges.{discard_ranges}
use valuestore.KeyRanges.Cover.{IsIn, discard_ranges-Cover}

abbrev eight_partitions : Ring
eight_partitions = record { partition_bit_count = 3; responsible = λ p. true; local_node = none }

discard_ranges-Cover_example :
    (w : ℕ) × (i : ℕ) × (r : ℕ × ℕ) × (w ≤ 2)
    × (get_elem? (discard_ranges (some eight_partitions) 2 w) i ≡ some r)
    × IsIn (2 ^ 64 - 1) r
discard_ranges-Cover_example =
    discard_ranges-Cover eight_partitions 2 (2 ^ 64 - 1) (omega arith) (omega arith) (omega arith)
