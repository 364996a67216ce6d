-- ===== src/PushReplication/Tests.antt =====
-- A pass of push replication with one worker, on a ring of two partitions of which the node has the
-- first.
use valuestore.Base.{
  ℕ, ◌%◌, ◌^◌, ◌≡◌, refl, arith, List, ◌==◌, true, [], ◌∷◌, none, some, get_elem?, replicate, All,
}
use valuestore.Base.Bytes.{put_word}
use valuestore.Ring.{Ring}
use valuestore.LocMap.{Key}
use valuestore.BulkSet
use valuestore.BulkSet.{in_bulk_set, done, first_acks}
use valuestore.BulkSet.Entries.{encode, reached, write_all}
use valuestore.KeyRanges.{partition_max}
use valuestore.BulkSet.Tests.{record_write, free_ack, worker}
use valuestore.PushReplication.{Around, work, push_worker, gather, push_key}
use valuestore.PushReplication.Delivery.{Pushed, work_delivers}
use valuestore.PushReplication.Rounds.{IsOwed, push_worker-IsOwed}

abbrev key : Key
key = record { key_a = 2 ^ 63; key_b = 2 }

abbrev ring : Ring
ring = record { partition_bit_count = 1; responsible = λ p. p == 0; local_node = some 7 }

abbrev env : Around
env = record {
  ring = ring;
  worker_max = 0;
  scan = λ start stop cutoff. record { key = key; timestampbits = 256000; size = 2 } ∷ [];
  read = λ k. (256000, (5 ∷ 6 ∷ [], none));
  now = λ p. 512000;
  ignore_recent = 100;
  tombstone_age = 1000;
  msg_cap = 64;
  still = λ p. true;
  still_then = λ p. true;
  free = λ p. record { header = replicate 8 0; body = replicate 64 0; spare = [] };
}

push_worker-IsOwed_example :
    All (IsOwed env 0) (push_worker env 0)
    × (bsm : BulkSet.Msg) × (work env 0 1 ≡ some bsm)
    × (j : ℕ) × (get_elem? (push_worker env 0) j ≡ some (1 % 2 ^ 32, bsm))
unfolding partition_max
push_worker-IsOwed_example =
    push_worker-IsOwed env 0 1 (omega arith) (omega arith) refl (λ q. refl) refl (omega arith)

abbrev entry : BulkSet.Entry
entry = record { key_a = 2 ^ 63; key_b = 2; timestampbits = 256000; value = 5 ∷ 6 ∷ [] }

abbrev pushed : BulkSet.Msg
pushed = record { header = put_word 8 7; body = encode (entry ∷ []); spare = replicate 34 0 }

work-pushed : work env 0 1 ≡ some pushed
unfolding work gather push_key BulkSet.add BulkSet.new_out put_word
work-pushed = refl

work_delivers_example :
    (taken : List BulkSet.Entry) × Pushed env 0 1 pushed taken
    × (in_bulk_set record_write none free_ack pushed worker
        ≡ done (
            write_all record_write none
              (reached taken)
              (record worker { bsam = first_acks none free_ack pushed })))
work_delivers_example =
    work_delivers env 0 1 record_write none free_ack pushed pushed worker (omega arith, tt)
      work-pushed refl
