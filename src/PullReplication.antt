-- ===== src/PullReplication.antt =====
-- valuepullreplication_GEN_.go: the message that asks the other replicas for what a Bloom filter
-- does not have, and the worker that answers it. The location map's ScanCallback, the ring and
-- the clock are parameters; launchers, timers and channels' blocking are not modelled.
pub mod Message
pub mod Receive
pub mod Answer
pub mod Sending
pub mod Cover
mod Tests
use valuestore.Base.{
  ℕ, zero, suc, ◌+◌, ◌-◌, ◌*◌, ◌/◌, ◌%◌, ◌^◌, ℤ, pos, negsuc, Bool, true, false, not, ◌&&◌, ◌||◌,
  List, [], ◌∷◌, ◌++◌, Option, none, some, leb, ltb, ◌==◌, if◌then◌else◌, length, drop,
}
use valuestore.Base.Bytes.{Bytes, put_word, get_word}
use valuestore.Base.Overwrite.{overwrite}
use valuestore.Package.{Error, has_bits, is_not_found, tsb_deletion, tsb_local_removal}
use valuestore.Ring.{Ring}
use valuestore.KeyRanges.{sub}
use valuestore.LocMap.{Key}
use valuestore.Bloom.{Sizing, Filter, Msg, may_have, from_msg, to_msg}
use valuestore.BulkSet
use valuestore.BulkSet.{entry_header_length}

abbrev pub pull_header_bytes : ℕ
pull_header_bytes = 44

-- newOutPullReplicationMsg, on the message that the channel hands out; the header keeps its first
-- eight bytes without a ring or a local node
unfoldable pub new_out : Option Ring → Msg → ℕ → ℕ → ℕ → ℕ → ℕ → Filter → Msg
new_out ring prm version partition cutoff range_start range_stop ktbf =
    let header : Bytes = elim ring [
      | none ↦ prm.header
      | some r ↦ elim (r.local_node) [
        | none ↦ prm.header
        | some id ↦ overwrite 0 (put_word 8 id) prm.header
      ]
    ] in
    to_msg ktbf
      (record prm {
        header = overwrite 36 (put_word 8 range_stop) (
            overwrite 28 (put_word 8 range_start) (
              overwrite 20 (put_word 8 cutoff)
                (overwrite 16 (put_word 4 partition) (overwrite 8 (put_word 8 version) header))));
      })
      pull_header_bytes

unfoldable pub msg_length : Msg → ℕ
msg_length prm = (length prm.header + length prm.body) % 2 ^ 64

unfoldable pub node_id : Msg → ℕ
node_id prm = get_word 8 0 prm.header

-- `int64` of the eight bytes, as the word it stands for
unfoldable pub ring_version : Msg → ℕ
ring_version prm = get_word 8 8 prm.header

unfoldable pub partition : Msg → ℕ
partition prm = get_word 4 16 prm.header

unfoldable pub cutoff : Msg → ℕ
cutoff prm = get_word 8 20 prm.header

unfoldable pub range_start : Msg → ℕ
range_start prm = get_word 8 28 prm.header

unfoldable pub range_stop : Msg → ℕ
range_stop prm = get_word 8 36 prm.header

unfoldable pub kt_bloom_filter : Sizing → Msg → Filter
kt_bloom_filter sz prm = from_msg sz prm pull_header_bytes

-- What ScanCallback hands to its callback.
pub record Item : Type 0 where
  pub key : Key
  pub timestampbits : ℕ
  pub size : ℕ

-- `k` and `l` of inPullReplication: the keys to answer with, and the bytes left, of which it asks
-- only whether there are any.
pub record Picked : Type 0 where
  pub keys : List Key
  pub left : ℕ

-- `timestampbits&_TSB_DELETION == 0 || timestampbits >= tombstoneCutoff`
abbrev pub is_fresh : ℕ → ℕ → Bool
is_fresh tombstone_cutoff timestampbits =
    not (has_bits timestampbits tsb_deletion) || leb tombstone_cutoff timestampbits

module _ (sz : Sizing) where
  -- the callback: what it leaves, and whether the scan goes on; `none` is a panic of the filter
  unfoldable pub pick : ℕ → Filter → Item → Picked → Option (Picked × Bool)
  pick tombstone_cutoff ktbf x p =
      if is_fresh tombstone_cutoff x.timestampbits
      then elim (may_have sz ktbf x.key x.timestampbits) [
        | none ↦ none
        | some true ↦ some (p, true)
        | some false ↦
            let left : ℕ = p.left - (entry_header_length + x.size) in
            some (record { keys = p.keys ++ x.key ∷ []; left = left }, not (left == 0))
      ]
      else some (p, true)

  -- ScanCallback with that callback, over the items that it comes to
  unfoldable pub pick_all : ℕ → Filter → List Item → Picked → Option Picked
  pick_all tombstone_cutoff ktbf [] p = some p
  pick_all tombstone_cutoff ktbf (x ∷ items) p = elim (pick tombstone_cutoff ktbf x p) [
    | none ↦ none
    | some (q, false) ↦ some q
    | some (q, true) ↦ pick_all tombstone_cutoff ktbf items q
  ]

-- `responsibleReplica`, 0 where the ring says that the node is none
abbrev pub replica_index : ℤ → ℕ
replica_index (negsuc n) = 0
replica_index (pos i) = i

-- `scanStart`; the ring's replicas are not zero
unfoldable pub scan_start : ℕ → ℕ → ℕ → ℤ → ℕ
scan_start start stop replicas responsible =
    (start + sub stop start / replicas * replica_index responsible) % 2 ^ 64

-- The ranges that are scanned, the second unless the first begins the whole.
unfoldable pub scan_ranges : ℕ → ℕ → ℕ → ℤ → List (ℕ × ℕ)
scan_ranges start stop replicas responsible =
    let from = scan_start start stop replicas responsible in
    (from, stop) ∷ (if from == start then [] else (start, sub from 1) ∷ [])

-- What the worker has around it: the items that a scan from, to and since a cutoff comes to, the
-- ring's answers, the values that store.read gives, and the bound on a bulk-set message.
pub record Around : Type 0 where
  pub scan : ℕ → ℕ → ℕ → List Item
  pub replicas : ℕ
  pub responsible_replica : ℕ → ℤ
  pub partition_bit_count : ℕ
  pub read : Key → ℕ × (Bytes × Option Error)
  pub msg_cap : ℕ
  pub tombstone_cutoff : ℕ

module _ (sz : Sizing) (env : Around) where
  -- the scans of the ranges, as long as bytes are left
  unfoldable pub pick_ranges : ℕ → Filter → List (ℕ × ℕ) → Picked → Option Picked
  pick_ranges cut ktbf [] p = some p
  pick_ranges cut ktbf ((start, stop) ∷ ranges) p =
      elim (pick_all sz env.tombstone_cutoff ktbf (env.scan start stop cut) p) [
        | none ↦ none
        | some q ↦ if q.left == 0 then some q else pick_ranges cut ktbf ranges q
      ]

  -- inPullReplication up to the keys of its answer
  unfoldable pub picked : Msg → Option Picked
  picked prm =
      pick_ranges (cutoff prm) (kt_bloom_filter sz prm)
        (scan_ranges (range_start prm) (range_stop prm) env.replicas
          (env.responsible_replica (range_start prm / 2 ^ (64 - env.partition_bit_count) % 2 ^ 32)))
        (record { keys = []; left = env.msg_cap })

  -- the loop that reads the keys and adds their values to the answer; the count is of
  -- outBulkSetValues
  unfoldable pub answer_loop : List Key → BulkSet.Msg × ℕ → BulkSet.Msg × ℕ
  answer_loop [] (bsm, n) = (bsm, n)
  answer_loop (k ∷ keys) (bsm, n) =
      let t : ℕ = (env.read k).0 in
      let v : Bytes = (env.read k).1.0 in
      let err : Option Error = (env.read k).1.1 in
      let put =
        BulkSet.add bsm
          (record { key_a = k.key_a; key_b = k.key_b; timestampbits = t; value = v }) in
      let skip = answer_loop keys (bsm, n) in
      let next = answer_loop keys (put.0, (n + 1) % 2 ^ 32) in
      let fine : BulkSet.Msg × ℕ =
        if has_bits t tsb_local_removal then skip else if put.1 then next else (bsm, n) in
      elim err [
        | none ↦ fine
        | some e ↦ if is_not_found (some e) then (if t == 0 then skip else fine) else skip
      ]

  -- inPullReplication on one message with a ring there: the answer that is sent to `node_id prm`,
  -- if there is one; `free` is the message of newOutBulkSetMsg
  unfoldable pub in_pull : Option Ring → BulkSet.Msg → Msg → Option (Option BulkSet.Msg)
  in_pull ring free prm = elim (picked prm) [
    | none ↦ none
    | some p ↦
        let bsm = BulkSet.new_out ring free in
        let out : BulkSet.Msg =
          (answer_loop p.keys
            (record bsm { header = overwrite 0 (put_word 8 0) bsm.header }, 0)).0 in
        some (if length p.keys == 0 || length out.body == 0 then none else some out)
  ]
