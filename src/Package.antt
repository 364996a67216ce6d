-- ===== src/Package.antt =====
-- package.go: the bookkeeping bits of a timestamp, its bounds, and the errors.
use valuestore.Base.{ℕ, ◌-◌, ◌/◌, ◌^◌, Bool, true, false, not, Option, none, some, bit_and, ◌==◌}

abbrev pub tsb_util_bits : ℕ
tsb_util_bits = 8

abbrev pub tsb_inactive : ℕ
tsb_inactive = 0xfe

abbrev pub tsb_deletion : ℕ
tsb_deletion = 0x80

abbrev pub tsb_compaction_rewrite : ℕ
tsb_compaction_rewrite = 0x01

abbrev pub tsb_local_removal : ℕ
tsb_local_removal = 0x02

abbrev pub timestampmicro_min : ℕ
timestampmicro_min = 2 ^ 8

abbrev pub timestampmicro_max : ℕ
timestampmicro_max = (2 ^ 64 - 1) / 2 ^ 8

abbrev pub max_uint64 : ℕ
max_uint64 = 2 ^ 64 - 1

-- `timestampbits & mask != 0`
abbrev pub has_bits : ℕ → ℕ → Bool
has_bits timestampbits mask = not (bit_and timestampbits mask == 0)

-- The errors that the package makes. `other` stands for an error that some other code returned.
pub data Error : Type 0 where
  not_found disabled : Error
  timestamp_too_small timestamp_too_large : Error
  value_too_long : Error
  too_many_loc_blocks : Error
  other : ℕ → Error

abbrev pub is_not_found : Option Error → Bool
is_not_found none = false
is_not_found (some not_found) = true
is_not_found (some _) = false

abbrev pub is_disabled : Option Error → Bool
is_disabled none = false
is_disabled (some disabled) = true
is_disabled (some _) = false
