-- ===== src/BulkSetAck/Tests.antt =====
-- Runs of the acknowledgements, and their theorem at a concrete input.
use valuestore.Base.{ℕ, ◌^◌, ◌≡◌, refl, List, [], ◌∷◌, ◌++◌, none, some, arith, ◌==◌}
use valuestore.Ring.{Ring}
use valuestore.BulkSetAck.{AckEntry, Worker, StoreWrite, count_write, in_bulk_set_ack}
use valuestore.BulkSetAck.Entries.{encode, remove_all, in_bulk_set_ack-encode}

-- A store that keeps the timestamps of its writes, the latest first.
abbrev record_write : StoreWrite (List ℕ)
record_write s a b t v internal = ((0, none), t ∷ s)

abbrev ring : Ring
ring = record { partition_bit_count = 1; responsible = λ p. p == 1; local_node = some 7 }

abbrev worker : Worker (List ℕ)
worker = record { store = []; writes = 0; write_errors = 0; writes_overridden = 0 }

abbrev own : AckEntry
own = record { key_a = 2 ^ 63; key_b = 2; timestampbits = 0x300 }

abbrev away : AckEntry
away = record { key_a = 3; key_b = 4; timestampbits = 0x400 }

-- Of the two entries only the one that is not the node's own is marked for removal.
removes_away :
    remove_all record_write (some ring) (own ∷ away ∷ []) worker
    ≡ record worker { store = 0x402 ∷ []; writes = 1 }
unfolding count_write
removes_away = refl

in_bulk_set_ack-encode_example :
    in_bulk_set_ack record_write
      (some ring)
      (record { body = encode (own ∷ away ∷ []) ++ 1 ∷ 2 ∷ []; body_cap = 100 })
      worker
    ≡ remove_all record_write (some ring) (own ∷ away ∷ []) worker
in_bulk_set_ack-encode_example =
    in_bulk_set_ack-encode record_write (some ring) (own ∷ away ∷ []) (1 ∷ 2 ∷ []) 100 worker
      (omega arith) (omega arith)
