-- ===== src/PullReplication/Tests.antt =====
-- Runs of the pull-replication messages, and their theorems at concrete inputs.
use valuestore.Base.{
  zero, suc, Option, ap, ◌≡◌, refl, pos, true, [], ◌∷◌, none, some, arith, replicate, ◌==◌,
}
use valuestore.Base.Bytes.{put_word, word}
use valuestore.Ring.{Ring}
use valuestore.Reader.Supply.{bytes_reader, bytes_reader-IsReader}
use valuestore.Bloom.{Filter, Msg, add, add_rounds, set_bits, set_bit}
use valuestore.Bloom.Message.{IsMade}
use valuestore.Bloom.Answers.{add_all}
use valuestore.Bloom.Tests.{a_sizing, a_filter, one_key, two_entries}
use valuestore.BulkSet
use valuestore.PullReplication.Sending.{AnswersNews, in_pull-AnswersNews}
use valuestore.PullReplication.{
  Item, in_pull, Around, Picked, new_out, cutoff, range_start, range_stop, picked, is_fresh,
  scan_ranges,
}
use valuestore.PullReplication.Message.{new_out_fields}
use valuestore.PullReplication.Cover.{times, scan_ranges-times}
use valuestore.PullReplication.Answer.{KeysOf, ScannedIn, IsUnsent, picked-IsUnsent}
use valuestore.PullReplication.Receive.{Inbox, new_in}
use valuestore.PullReplication.Receive.Delivery.{Receives, new_in-Receives}

abbrev ring : Ring
ring = record { partition_bit_count = 1; responsible = λ p. p == 0; local_node = some 7 }

abbrev free_msg : Msg
free_msg = record { header = replicate 64 0; body = 0 ∷ 0 ∷ [] }

a_filter-IsMade : IsMade a_sizing a_filter
a_filter-IsMade = record {
  n_word = omega arith;
  p_word = omega arith;
  salt_word = omega arith;
  salt_high = refl;
  m_sized = refl;
  k_sized = refl;
}

scan_ranges-times_example : times 5 (scan_ranges 0 8 3 (pos 1)) ≡ 1
scan_ranges-times_example =
    scan_ranges-times 0 8 3 (pos 1) (omega arith) (omega arith) (omega arith) 5

abbrev inbox : Inbox
inbox = record {
  free = record { msg = free_msg; spare = [] } ∷ [];
  pending = [];
  drops = 0;
  invalids = 0;
  received = 0;
}

new_in-Receives_example :
    Receives bytes_reader 66
      (replicate 70 1)
      inbox
      []
      (new_in bytes_reader 1000 66 (replicate 70 1) inbox)
new_in-Receives_example =
    new_in-Receives bytes_reader bytes_reader-IsReader 1000 66 (replicate 70 1) inbox
      (record { msg = free_msg; spare = [] }) [] refl refl (omega arith) (omega arith) (omega arith)

-- The filter with both entries, and a node that has one of them and one other.
abbrev filled : Filter
filled = record a_filter { bits = 9 ∷ 16 ∷ [] }

filled-IsMade : IsMade a_sizing filled
filled-IsMade = record {
  n_word = omega arith;
  p_word = omega arith;
  salt_word = omega arith;
  salt_high = refl;
  m_sized = refl;
  k_sized = refl;
}

abbrev question : Msg
question = new_out (some ring) free_msg 2 1 3000 0 100 filled

abbrev remote : Around
remote = record {
  scan = λ start stop cut.
      record { key = one_key; timestampbits = 300; size = 2 }
      ∷ record { key = one_key; timestampbits = 0x505; size = 2 }
      ∷ [];
  replicas = 2;
  responsible_replica = λ p. pos 1;
  partition_bit_count = 1;
  read = λ k. (0x505, (1 ∷ 2 ∷ [], none));
  msg_cap = 1000;
  tombstone_cutoff = 200;
}

two_entries_added : add_all a_sizing two_entries a_filter ≡ some filled
unfolding add_all add add_rounds set_bits set_bit put_word word
two_entries_added = refl

picked-IsUnsent_example :
    (p : Picked) × (picked a_sizing remote question ≡ some p)
    × KeysOf
        (λ x.
          ScannedIn remote
            (cutoff question)
            (scan_ranges (range_start question) (range_stop question) 2 (pos 1))
            x
          × (is_fresh 200 x.timestampbits ≡ true)
          × IsUnsent two_entries x)
        p.keys
picked-IsUnsent_example =
    picked-IsUnsent a_sizing remote a_filter filled two_entries question (omega arith, omega arith)
      two_entries_added
      (new_out_fields a_sizing ring free_msg 7 2 1 3000 0 100 filled refl (omega arith)
        (omega arith) (omega arith) (omega arith) (omega arith) (omega arith) filled-IsMade refl
        refl).6

-- The same with a scan that comes to the second item only, whose timestamp the read gives.
abbrev steady : Around
steady = record remote {
  scan = λ start stop cut. record { key = one_key; timestampbits = 0x505; size = 2 } ∷ [];
}

steady_read :
    (x : Item)
    → ScannedIn steady
        (cutoff question)
        (scan_ranges (range_start question) (range_stop question) 2 (pos 1))
        x
    → (steady.read x.key).0 ≡ x.timestampbits
steady_read x (r, i, zero, at, found) =
    let same : record { key = one_key; timestampbits = 0x505; size = 2 } ≡ x = cc in
    ap (λ (y : Item). y.timestampbits) same
steady_read x (r, i, suc j, at, found) = absurd cc

in_pull-AnswersNews_example :
    (answer : Option BulkSet.Msg) × (in_pull a_sizing steady
        (some ring)
        (record { header = []; body = replicate 64 0; spare = [] })
        question
      ≡ some answer)
    × AnswersNews steady question two_entries answer
in_pull-AnswersNews_example =
    in_pull-AnswersNews a_sizing steady a_filter filled two_entries (some ring)
      (record { header = []; body = replicate 64 0; spare = [] }) question
      (omega arith, omega arith) two_entries_added
      (new_out_fields a_sizing ring free_msg 7 2 1 3000 0 100 filled refl (omega arith)
        (omega arith) (omega arith) (omega arith) (omega arith) (omega arith) filled-IsMade refl
        refl).6
      steady_read
