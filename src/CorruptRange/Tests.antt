-- ===== src/CorruptRange/Tests.antt =====
-- A value whose end lies in the one range.
use valuestore.Base.{◌≡◌, ◌↔◌, refl, true, false, List, [], ◌∷◌, arith}
use valuestore.CorruptRange.{CorruptRange, in_corrupt_range}
use valuestore.CorruptRange.Overlap.{Overlaps, in_corrupt_range-Overlaps}

abbrev one_range : List CorruptRange
one_range = record { start = 100; stop = 199 } ∷ []

in_corrupt_range-Overlaps_example :
    (in_corrupt_range 90 20 one_range ≡ true) ↔ Overlaps 90 109 one_range
in_corrupt_range-Overlaps_example =
    in_corrupt_range-Overlaps 90 20 one_range (omega arith) (omega arith) (omega arith)
      (omega arith, tt) (omega arith, tt)

-- A value that spans the range whole is not found.
spanning_value : in_corrupt_range 90 200 one_range ≡ false
unfolding in_corrupt_range
spanning_value = refl
