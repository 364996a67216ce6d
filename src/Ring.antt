-- ===== src/Ring.antt =====
-- The ring of github.com/gholt/ring, as far as the store asks it. It is not part of the repository.
use valuestore.Base.{ℕ, ◌-◌, ◌/◌, ◌%◌, ◌^◌, Bool, Option}

-- `ring.PartitionBitCount()`, `ring.Responsible(partition)`; `r.LocalNode()` and its `ID()`.
pub record Ring : Type 0 where
  pub partition_bit_count : ℕ
  pub responsible : ℕ → Bool
  pub local_node : Option ℕ

-- `uint32(keyA >> (64 - ring.PartitionBitCount()))`
abbrev pub partition_of : Ring → ℕ → ℕ
partition_of ring key_a = key_a / 2 ^ (64 - ring.partition_bit_count) % 2 ^ 32
