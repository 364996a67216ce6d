-- ===== src/PushReplication/Delivery.antt =====
-- valuepushreplication_GEN_.go: what the message of a partition has in it, and what becomes of it
-- at the other end.
use mathlib.Core.Path.{subst}
use valuestore.Base.{
  ℕ, ◌+◌, ◌≤◌, ◌≡◌, ◌⊎◌, ap, ◌∙◌, not, ◌||◌, List, [], ◌∷◌, ◌++◌, Option, none, some, inl, inr,
  arith, ◌==◌, if◌then◌else◌, Bool-cases, length, length-append, All, All-split,
}
use valuestore.Ring.{Ring}
use valuestore.BulkSetAck.{StoreWrite, AckMsg}
use valuestore.BulkSet
use valuestore.BulkSet.{body_cap, entry_header_length, in_bulk_set, done, first_acks, Worker}
use valuestore.BulkSet.Entries.{IsWordEntry, encode, reached, write_all}
use valuestore.BulkSet.Delivery.{in_bulk_set-encode}
use valuestore.PullReplication.{Item}
use valuestore.KeyRanges.{partition_shift, partition_max, range_of}
use valuestore.PushReplication.{
  Around, entry_of, push_keys, gathered, work, cutoff, tombstone_cutoff,
}
use valuestore.PushReplication.Packing.{
  wanted, gather-Gathered, fresh_items, keys_of, Stops, HasRoom, push_keys-Packed,
  IsWordEntry-fresh_items, IsWordEntry-keys_of, IsWordEntry-wanted,
}

-- What the scan of a worker's part of a partition comes to.
abbrev pub items_of : Around → ℕ → ℕ → List Item
items_of env worker p =
    let range =
      range_of (partition_shift (some env.ring)) (partition_max (some env.ring)) env.worker_max p
        worker in
    env.scan range.0 range.1 (cutoff env p)

-- A message's entries: those wanted of the first items that are no old tombstones, as many as
-- `msg_cap` has room for, and of those entries as many as the message has room for.
pub record Pushed (env : Around) (worker p : ℕ) (bsm : BulkSet.Msg) (taken : List BulkSet.Entry)
    : Type 0 where
  pub items : List Item
  pub other_items : List Item
  pub of_scan : fresh_items (tombstone_cutoff env p) (items_of env worker p) ≡ items ++ other_items
  pub stops : Stops env.msg_cap items other_items
  pub room : HasRoom env.msg_cap items
  pub later : List BulkSet.Entry
  pub split : wanted env p (keys_of items) ≡ taken ++ later
  pub body : bsm.body ≡ encode taken
  pub cap : body_cap bsm ≡ body_cap (env.free p)
  pub full :
      (later ≡ [])
      ⊎ ((e : BulkSet.Entry) × (es : List BulkSet.Entry) × (later ≡ e ∷ es)
          × (body_cap bsm ≤ length bsm.body + entry_header_length + length e.value))

module _ (env : Around) (worker p : ℕ) where
  new_out_cap : body_cap (BulkSet.new_out (some env.ring) (env.free p)) ≡ body_cap (env.free p)
  unfolding BulkSet.new_out
  new_out_cap = omega (arith, length-append (env.free p).body (env.free p).spare)

  work-some :
      (bsm : BulkSet.Msg)
      → work env worker p ≡ some bsm
      → (push_keys env p
          (gathered env worker p)
          (BulkSet.new_out (some env.ring) (env.free p), 0)).0
        ≡ bsm
  unfolding work
  work-some bsm e =
      let out =
        (push_keys env p (gathered env worker p)
          (BulkSet.new_out (some env.ring) (env.free p), 0)).0 in
      elim (Bool-cases ((length (gathered env worker p) == 0) || not (env.still_then p))) [
        | inl idle ↦
            let nothing : work env worker p ≡ none = ap (λ b. if b then none else some out) idle in
            absurd cc
        | inr busy ↦
            let gave : work env worker p ≡ some out = ap (λ b. if b then none else some out) busy in
            cc
      ]

  work-Pushed :
      (bsm : BulkSet.Msg)
      → work env worker p ≡ some bsm
      → (taken : List BulkSet.Entry) × Pushed env worker p bsm taken
  unfolding gathered BulkSet.new_out
  work-Pushed bsm e =
      let g = gather-Gathered (tombstone_cutoff env p) (items_of env worker p) env.msg_cap in
      let r =
        push_keys-Packed env p (gathered env worker p)
          (BulkSet.new_out (some env.ring) (env.free p)) 0 in
      subst (λ (m : BulkSet.Msg). (taken : List BulkSet.Entry) × Pushed env worker p m taken)
        (work-some bsm e)
        (
          r.taken,
          record {
            items = g.first;
            other_items = g.others;
            of_scan = g.of_scan;
            stops = g.stops;
            room = g.room;
            later = r.later;
            split = ap (wanted env p) g.kept ∙ r.split;
            body = r.body;
            cap = r.cap ∙ new_out_cap;
            full = r.full;
          },
        )

  Pushed-IsWordEntry :
      (bsm : BulkSet.Msg) (taken : List BulkSet.Entry)
      → All (λ x. IsWordEntry (entry_of env x.key)) (items_of env worker p)
      → Pushed env worker p bsm taken
      → All IsWordEntry taken
  Pushed-IsWordEntry bsm taken words r =
      let fresh =
        IsWordEntry-fresh_items env (tombstone_cutoff env p) (items_of env worker p) words in
      let first =
        (All-split (λ x. IsWordEntry (entry_of env x.key)) r.items r.other_items
          (subst (λ xs. All (λ x. IsWordEntry (entry_of env x.key)) xs) r.of_scan fresh)).0 in
      (All-split IsWordEntry taken r.later (
        subst (λ es. All IsWordEntry es) r.split
          (IsWordEntry-wanted env p (keys_of r.items) (IsWordEntry-keys_of env r.items first)))).0

  -- What a worker sends of its part of a partition, where the scan comes to keys whose values and
  -- timestamps fit their words. It gathers the first items of the scan that are no old tombstones:
  -- all of them, or so many that what is left of `msg_cap` behind them is less than the length of
  -- the last, while behind each one before there was room for another of its length. The message has the entries of those that can be read, are no local removals, old
  -- enough and no old tombstones when they are read, in order: all of them, or up to one that its
  -- buffer has no room for. And whoever gets a message with the same body writes all of those
  -- entries, in order, but for a last one with an empty value.
  pub work_delivers :
      {S : Type 0} (write : StoreWrite S) (ring : Option Ring) (free_ack : AckMsg)
      (bsm got : BulkSet.Msg) (w : Worker S)
      → All (λ x. IsWordEntry (entry_of env x.key)) (items_of env worker p)
      → work env worker p ≡ some bsm
      → got.body ≡ bsm.body
      → (taken : List BulkSet.Entry) × Pushed env worker p bsm taken
        × (in_bulk_set write ring free_ack got w
            ≡ done (
                write_all write ring
                  (reached taken)
                  (record w { bsam = first_acks ring free_ack got })))
  work_delivers write ring free_ack bsm got w words e same =
      let (taken, r) = work-Pushed bsm e in
      (
        taken,
        r,
        in_bulk_set-encode write ring free_ack got w taken (Pushed-IsWordEntry bsm taken words r)
            (same ∙ r.body),
      )
