-- ===== src/CorruptRange.antt =====
-- valuestorefile_GEN_.go, valueInCorruptRange: whether a value lies in one of the ranges of a file
-- whose checksums are wrong.
pub mod Overlap
mod Tests
use valuestore.Base.{
  ℕ, ◌+◌, ◌-◌, ◌%◌, ◌^◌, Bool, true, false, ◌&&◌, ◌||◌, List, [], ◌∷◌, leb, ◌==◌, if◌then◌else◌,
}

-- valueCorruptRange
pub record CorruptRange : Type 0 where
  pub start : ℕ
  pub stop : ℕ

abbrev pub is_within : ℕ → CorruptRange → Bool
is_within at r = leb r.start at && leb at r.stop

-- The loop over the ranges, for the first and the last byte of the value.
unfoldable pub some_within : ℕ → ℕ → List CorruptRange → Bool
some_within offset last [] = false
some_within offset last (r ∷ rs) =
    let rest = some_within offset last rs in
    if is_within offset r then true else if is_within last r then true else rest

-- valueInCorruptRange; `offset + length - 1` is a uint32
unfoldable pub in_corrupt_range : ℕ → ℕ → List CorruptRange → Bool
unfolding some_within
in_corrupt_range offset size rs =
    if (offset == 0) || (size == 0)
    then false
    else some_within offset ((offset + size + (2 ^ 32 - 1)) % 2 ^ 32) rs
