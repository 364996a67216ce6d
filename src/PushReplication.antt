-- ===== src/PushReplication.antt =====
-- valuepushreplication_GEN_.go: pushReplicationPass, in which a worker goes through the partitions
-- that the node is not responsible for, and sends of each what it has to those who are. The
-- location map's ScanCallback, store.read, the ring and the clock are parameters; the launcher and
-- its timing are not modelled.
pub mod Packing
pub mod Delivery
pub mod Rounds
mod Tests
use valuestore.Base.{
  ℕ, ◌+◌, ◌-◌, ◌*◌, ◌/◌, ◌%◌, ◌^◌, Bool, true, false, not, ◌&&◌, ◌||◌, List, [], ◌∷◌, ◌++◌, Option,
  none, some, ltb, ◌==◌, if◌then◌else◌, length,
}
use valuestore.Base.Bytes.{Bytes}
use valuestore.Package.{Error, has_bits, is_not_found, tsb_local_removal}
use valuestore.Ring.{Ring}
use valuestore.LocMap.{Key}
use valuestore.KeyRanges.{sub, partition_shift, partition_max, range_of, partitions_round}
use valuestore.PullReplication.{Item, is_fresh}
use valuestore.BulkSet
use valuestore.BulkSet.{entry_header_length}

-- What a worker has around it: the items that a scan from, to and before a cutoff comes to, the
-- values that store.read gives, the time of a partition's turn, and the settings. `still` and
-- `still_then` say whether, at the turn and after the scan of a partition, nothing has aborted the
-- pass and the ring has its version still; `free` is the message that newOutBulkSetMsg takes.
pub record Around : Type 0 where
  pub ring : Ring
  pub worker_max : ℕ
  pub scan : ℕ → ℕ → ℕ → List Item
  pub read : Key → ℕ × (Bytes × Option Error)
  pub now : ℕ → ℕ
  pub ignore_recent : ℕ
  pub tombstone_age : ℕ
  pub msg_cap : ℕ
  pub still : ℕ → Bool
  pub still_then : ℕ → Bool
  pub free : ℕ → BulkSet.Msg

-- The scan's callback, over the items: the keys to send, as long as an item of the last one's length
-- has room.
unfoldable pub gather : ℕ → List Item → ℕ → List Key
gather tombstone_cutoff [] available = []
gather tombstone_cutoff (x ∷ items) available =
    let msg_length = entry_header_length + x.size in
    let fresh = is_fresh tombstone_cutoff x.timestampbits in
    let more =
      gather tombstone_cutoff items (if fresh then available - msg_length else available) in
    if fresh then x.key ∷ (if ltb (available - msg_length) msg_length then [] else more) else more

-- A key that was not found has its tombstone to send, if it has one.
abbrev pub is_readable : ℕ → Option Error → Bool
is_readable t none = true
is_readable t (some e) = is_not_found (some e) && not (t == 0)

abbrev pub is_due : ℕ → ℕ → ℕ → Bool
is_due cutoff tombstone_cutoff t =
    not (has_bits t tsb_local_removal) && (ltb t cutoff && is_fresh tombstone_cutoff t)

module _ (env : Around) where
  abbrev pub cutoff : ℕ → ℕ
  cutoff partition = sub (env.now partition) env.ignore_recent

  abbrev pub tombstone_cutoff : ℕ → ℕ
  tombstone_cutoff partition = sub (env.now partition) env.tombstone_age

  abbrev pub entry_of : Key → BulkSet.Entry
  entry_of k = record {
    key_a = k.key_a;
    key_b = k.key_b;
    timestampbits = (env.read k).0;
    value = (env.read k).1.0;
  }

  abbrev pub is_wanted : ℕ → Key → Bool
  is_wanted partition k =
      is_readable (env.read k).0 (env.read k).1.1
      && is_due (cutoff partition) (tombstone_cutoff partition) (env.read k).0

  -- one key: the message, the count of outBulkSetPushValues, and whether the loop goes on
  unfoldable pub push_key : ℕ → Key → BulkSet.Msg × ℕ → (BulkSet.Msg × ℕ) × Bool
  push_key partition k (bsm, n) =
      let put = BulkSet.add bsm (entry_of k) in
      if is_wanted partition k
      then if put.1 then ((put.0, (n + 1) % 2 ^ 32), true) else ((bsm, n), false)
      else ((bsm, n), true)

  unfoldable pub push_keys : ℕ → List Key → BulkSet.Msg × ℕ → BulkSet.Msg × ℕ
  push_keys partition [] out = out
  push_keys partition (k ∷ keys) out =
      let (next, on) = push_key partition k out in
      let all = push_keys partition keys next in if on then all else next

  unfoldable pub gathered : ℕ → ℕ → List Key
  gathered worker partition =
      let range =
        range_of (partition_shift (some env.ring)) (partition_max (some env.ring)) env.worker_max
          partition worker in
      gather (tombstone_cutoff partition) (env.scan range.0 range.1 (cutoff partition)) env.msg_cap

  -- the message for the other replicas of the partition, if there is one
  unfoldable pub work : ℕ → ℕ → Option BulkSet.Msg
  unfolding gathered push_keys
  work worker partition =
      let keys = gathered worker partition in
      if length keys == 0 || not (env.still_then partition)
      then none
      else some
          (push_keys partition keys (BulkSet.new_out (some env.ring) (env.free partition), 0)).0

  -- what one turn of the loop over the partitions sends, and to which
  abbrev pub sent : ℕ → ℕ → List (ℕ × BulkSet.Msg)
  sent worker partition =
      if env.ring.responsible (partition % 2 ^ 32)
      then []
      else elim (work worker partition) [ none ↦ [] | some bsm ↦ (partition % 2 ^ 32, bsm) ∷ [] ]

  unfoldable pub push_partitions : ℕ → List ℕ → List (ℕ × BulkSet.Msg)
  push_partitions worker [] = []
  push_partitions worker (partition ∷ partitions) =
      let rest = push_partitions worker partitions in
      if env.still partition then sent worker partition ++ rest else []

  -- one worker of pushReplicationPass, whose partitions are in the order of its loop
  unfoldable pub push_worker : ℕ → List (ℕ × BulkSet.Msg)
  push_worker worker =
      let most = partition_max (some env.ring) in
      let first = (most + 1) / (env.worker_max + 1) * worker in
      push_partitions worker (partitions_round (most + 1) most first first)
