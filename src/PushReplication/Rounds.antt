-- ===== src/PushReplication/Rounds.antt =====
-- valuepushreplication_GEN_.go: the loop of a worker over the partitions.
use valuestore.Base.{
  ℕ, zero, suc, ◌+◌, ◌*◌, ◌/◌, ◌%◌, ◌^◌, ◌≤◌, ◌<◌, ◌≡◌, refl, ap, ◌∙◌, true, false, not, ◌||◌, List,
  [], ◌∷◌, ◌++◌, Option, none, some, inl, inr, arith, ◌==◌, if◌then◌else◌, Bool-cases, length,
  get_elem?, map, All, All-append,
}
use valuestore.BulkSet
use valuestore.KeyRanges.{partition_max, partitions_of, partitions_round}
use valuestore.KeyRanges.Cover.{partitions_of-reaches}
use valuestore.KeyRanges.Expired.{partitions_round-partitions_of}
use valuestore.PushReplication.{
  Around, gathered, push_keys, work, sent, push_partitions, push_worker, tombstone_cutoff,
}
use valuestore.PushReplication.Packing.{fresh_keys, gather_some}
use valuestore.PushReplication.Delivery.{items_of}

-- A message is for a partition that the node is not responsible for, and has what that has.
abbrev pub IsOwed : Around → ℕ → ℕ × BulkSet.Msg → Type 0
IsOwed env worker m =
    (q : ℕ) × (m.0 ≡ q % 2 ^ 32)
    × (env.ring.responsible m.0 ≡ false)
    × (work env worker q ≡ some m.1)

get_elem?-behind :
    {A : Type 0} (xs ys : List A) (j : ℕ) → get_elem? (xs ++ ys) (length xs + j) ≡ get_elem? ys j
get_elem?-behind [] ys j = let same : 0 + j ≡ j = omega arith in ap (get_elem? ys) same
get_elem?-behind (x ∷ xs) ys j =
    let next : suc (length xs) + j ≡ suc (length xs + j) = omega arith in
    ap (get_elem? (x ∷ (xs ++ ys))) next ∙ get_elem?-behind xs ys j

module _ (env : Around) (worker : ℕ) where
  work_gives :
      (p : ℕ)
      → env.still_then p ≡ true
      → 0 < length (fresh_keys (tombstone_cutoff env p) (items_of env worker p))
      → (bsm : BulkSet.Msg) × (work env worker p ≡ some bsm)
  unfolding work gathered
  work_gives p going some_fresh =
      let out =
        (push_keys env p (gathered env worker p)
          (BulkSet.new_out (some env.ring) (env.free p), 0)).0 in
      let found = gather_some (tombstone_cutoff env p) (items_of env worker p) env.msg_cap in
      let busy : ((length (gathered env worker p) == 0) || not (env.still_then p)) ≡ false =
        ground (arith, found, going, some_fresh) in
      (out, ap (λ b. if b then none else some out) busy)

  gave-IsOwed :
      (p : ℕ) (out : Option BulkSet.Msg)
      → env.ring.responsible (p % 2 ^ 32) ≡ false
      → work env worker p ≡ out
      → All (IsOwed env worker) (elim out [ none ↦ [] | some bsm ↦ (p % 2 ^ 32, bsm) ∷ [] ])
  gave-IsOwed p none other e = tt
  gave-IsOwed p (some bsm) other e = ((p, refl, other, e), tt)

  sent-IsOwed : (p : ℕ) → All (IsOwed env worker) (sent env worker p)
  sent-IsOwed p = elim (Bool-cases (env.ring.responsible (p % 2 ^ 32))) [
    | inl own ↦ simp own tt
    | inr other ↦ simp other (gave-IsOwed p (work env worker p) other refl)
  ]

  push_partitions-IsOwed : (ps : List ℕ) → All (IsOwed env worker) (push_partitions env worker ps)
  unfolding push_partitions
  push_partitions-IsOwed [] = tt
  push_partitions-IsOwed (p ∷ ps) = elim (Bool-cases (env.still p)) [
    | inr over ↦ simp over tt
    | inl going ↦ simp going (
        All-append (IsOwed env worker) (sent env worker p) (push_partitions env worker ps)
          (sent-IsOwed p) (push_partitions-IsOwed ps))
  ]

  sent_some :
      (p : ℕ) (bsm : BulkSet.Msg)
      → env.ring.responsible (p % 2 ^ 32) ≡ false
      → work env worker p ≡ some bsm
      → sent env worker p ≡ (p % 2 ^ 32, bsm) ∷ []
  sent_some p bsm other e = simp (other, e) refl

  push_partitions-reaches :
      (ps : List ℕ) (i p : ℕ) (bsm : BulkSet.Msg)
      → ((q : ℕ) → env.still q ≡ true)
      → get_elem? (map (λ q. q) ps) i ≡ some p
      → sent env worker p ≡ (p % 2 ^ 32, bsm) ∷ []
      → (j : ℕ) × (get_elem? (push_partitions env worker ps) j ≡ some (p % 2 ^ 32, bsm))
  unfolding push_partitions
  push_partitions-reaches [] i p bsm on at e = absurd cc
  push_partitions-reaches (q ∷ ps) zero p bsm on at e =
      let same : q ≡ p = cc in
      (
        0,
        simp (on q) (
            ap (λ x. get_elem? (sent env worker x ++ push_partitions env worker ps) 0) same
            ∙ simp e refl),
      )
  push_partitions-reaches (q ∷ ps) (suc i) p bsm on at e =
      let (j, found) = push_partitions-reaches ps i p bsm on at e in
      (
        length (sent env worker q) + j,
        simp (on q)
            (get_elem?-behind (sent env worker q) (push_partitions env worker ps) j ∙ found),
      )

  -- A worker's round over the partitions, with the ring as it was and nothing that aborts it: each
  -- message is for a partition that the node is not responsible for, and is what there is to send
  -- of it; and each such partition of which a scan comes to a key that is no old tombstone gets
  -- its message.
  pub push_worker-IsOwed :
      (p : ℕ)
      → worker ≤ env.worker_max
      → p ≤ partition_max (some env.ring)
      → env.ring.responsible (p % 2 ^ 32) ≡ false
      → ((q : ℕ) → env.still q ≡ true)
      → env.still_then p ≡ true
      → 0 < length (fresh_keys (tombstone_cutoff env p) (items_of env worker p))
      → All (IsOwed env worker) (push_worker env worker)
        × (bsm : BulkSet.Msg) × (work env worker p ≡ some bsm)
        × (j : ℕ) × (get_elem? (push_worker env worker) j ≡ some (p % 2 ^ 32, bsm))
  unfolding push_worker
  push_worker-IsOwed p a_worker inside other on going some_fresh =
      let most = partition_max (some env.ring) in
      let first = (most + 1) / (env.worker_max + 1) * worker in
      let (bsm, e) = work_gives p going some_fresh in
      let (i, at) = partitions_of-reaches (λ q. q) most env.worker_max worker p inside in
      let order = partitions_round-partitions_of most env.worker_max worker a_worker in
      let (j, found) =
        push_partitions-reaches (partitions_of most env.worker_max worker) i p bsm on at
          (sent_some p bsm other e) in
      (
        push_partitions-IsOwed (partitions_round (most + 1) most first first),
        bsm,
        e,
        j,
        ap (λ ps. get_elem? (push_partitions env worker ps) j) order ∙ found,
      )
