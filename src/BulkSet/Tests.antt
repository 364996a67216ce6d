-- ===== src/BulkSet/Tests.antt =====
-- Runs of the bulk-set messages, and their theorems at concrete inputs.
use valuestore.Base.{ℕ, ◌≡◌, ◌≢◌, refl, List, [], ◌∷◌, ◌++◌, none, some, arith, ◌==◌, replicate}
use valuestore.Base.Bytes.{Bytes, put_word, get_word}
use valuestore.Ring.{Ring}
use valuestore.Reader.Supply.{bytes_reader, bytes_reader-IsReader}
use valuestore.BulkSetAck.{StoreWrite, AckMsg}
use valuestore.BulkSetAck.Entries as Acks
use valuestore.BulkSet.{
  Msg, Entry, Worker, done, panicked, out_of_fuel, in_bulk_set, new_in, Inbox, write_entry,
  count_answer, ack, first_acks,
}
use valuestore.BulkSet.Entries.{encode, write_all}
use valuestore.BulkSet.Delivery.{
  in_bulk_set_writes, in_bulk_set_loses_last, in_bulk_set-ne-out_of_fuel, in_bulk_set_overlong,
  acked, bsam-write_all,
}
use valuestore.BulkSet.Incoming.{Accounts, Delivers, new_in-Accounts, new_in-Delivers}

-- A store that keeps the keys of its writes, the latest first.
abbrev pub record_write : StoreWrite (List ℕ)
record_write s a b t v internal = ((0, none), a ∷ s)

abbrev ring : Ring
ring = record { partition_bit_count = 1; responsible = λ p. p == 0; local_node = some 7 }

abbrev pub free_ack : AckMsg
free_ack = record { body = 9 ∷ []; body_cap = 100 }

abbrev pub worker : Worker (List ℕ)
worker = record { store = []; bsam = none; writes = 0; write_errors = 0; writes_overridden = 0 }

abbrev written : Entry
written = record { key_a = 1; key_b = 2; timestampbits = 0x300; value = 65 ∷ [] }

abbrev deleted : Entry
deleted = record { key_a = 3; key_b = 4; timestampbits = 0x380; value = [] }

abbrev message : List Entry → Msg
message es = record { header = put_word 8 5; body = encode es; spare = [] }

in_bulk_set_loses_last_example :
    in_bulk_set record_write none free_ack (message (written ∷ deleted ∷ [])) worker
    ≡ done (record worker { store = 1 ∷ []; writes = 1 })
unfolding write_entry count_answer ack
in_bulk_set_loses_last_example =
    in_bulk_set_loses_last record_write none free_ack (message (written ∷ deleted ∷ [])) worker
      (written ∷ []) deleted (omega arith) refl refl

in_bulk_set_writes_example :
    in_bulk_set record_write (some ring) free_ack (message (deleted ∷ written ∷ [])) worker
    ≡ done (
        write_all record_write (some ring) (deleted ∷ written ∷ []) (record worker {
          bsam = first_acks (some ring) free_ack (message (deleted ∷ written ∷ []));
        }))
in_bulk_set_writes_example =
    in_bulk_set_writes record_write (some ring) free_ack (message (deleted ∷ written ∷ [])) worker
      (deleted ∷ []) written (omega arith) (omega arith) refl

abbrev bad : Bytes
bad = put_word 8 1 ++ (put_word 8 2 ++ (put_word 8 3 ++ (put_word 4 100 ++ 0 ∷ [])))

abbrev overlong : Msg
overlong = record { header = put_word 8 5; body = encode (written ∷ []) ++ bad; spare = [] }

in_bulk_set_overlong_example :
    in_bulk_set record_write none free_ack overlong worker
    ≡ panicked (record worker { store = 1 ∷ []; writes = 2 })
unfolding put_word get_word write_entry count_answer ack
in_bulk_set_overlong_example =
    in_bulk_set_overlong record_write none free_ack overlong worker (written ∷ []) bad
      (omega arith, tt) refl (omega arith) (omega arith)

in_bulk_set-ne-out_of_fuel_example :
    in_bulk_set record_write none free_ack overlong worker ≢ out_of_fuel
in_bulk_set-ne-out_of_fuel_example =
    in_bulk_set-ne-out_of_fuel record_write none free_ack overlong worker

abbrev acking : Worker (List ℕ)
acking = record worker { bsam = some (record { body = []; body_cap = 100 }) }

bsam-write_all_example :
    (write_all record_write (some ring) (written ∷ deleted ∷ []) acking).bsam
    ≡ some (record {
      body = [] ++ Acks.encode (acked record_write ring (written ∷ deleted ∷ []) acking);
      body_cap = 100;
    })
bsam-write_all_example =
    bsam-write_all record_write ring (written ∷ deleted ∷ []) acking
      (record { body = []; body_cap = 100 }) refl (omega arith)

abbrev inbox : Inbox
inbox = record { free = message [] ∷ []; pending = []; drops = 0; invalids = 0; received = 0 }

new_in-Accounts_example :
    Accounts bytes_reader 1000 40
      (1 ∷ 2 ∷ 3 ∷ [])
      inbox
      (new_in bytes_reader 1000 40 (1 ∷ 2 ∷ 3 ∷ []) inbox)
new_in-Accounts_example =
    new_in-Accounts bytes_reader 1000 bytes_reader-IsReader 40 (1 ∷ 2 ∷ 3 ∷ []) inbox

new_in-Delivers_example :
    Delivers bytes_reader 1000 40
      (replicate 50 7)
      inbox
      (new_in bytes_reader 1000 40 (replicate 50 7) inbox)
new_in-Delivers_example =
    new_in-Delivers bytes_reader 1000 bytes_reader-IsReader 40 (replicate 50 7) inbox (message [])
      [] refl (omega arith)
