-- ===== src/PullReplication/Answer.antt =====
-- valuepullreplication_GEN_.go: which keys inPullReplication answers with.
use valuestore.Base.{
  ℕ, suc, ◌+◌, ◌-◌, ◌%◌, ◌/◌, ◌^◌, ◌≡◌, refl, sym, ap, ◌∙◌, Bool, true, false, not, List, [], ◌∷◌,
  ◌++◌, some, inl, inr, Bool-cases, get_elem?, All, ◌==◌,
}
use valuestore.LocMap.{Key}
use valuestore.Bloom.{Sizing, Filter, Msg, may_have}
use valuestore.Bloom.Rounds.{Fits}
use valuestore.Bloom.Answers.{Entry, add_all, add_all-may_have, may_have_total}
use valuestore.BulkSet.{entry_header_length}
use valuestore.PullReplication.{
  Item, Picked, is_fresh, pick, pick_all, Around, scan_ranges, pick_ranges, picked, cutoff,
  kt_bloom_filter, range_start, range_stop,
}

-- The item is one that a scan of one of the ranges comes to.
abbrev pub ScannedIn : Around → ℕ → List (ℕ × ℕ) → Item → Type 0
ScannedIn env cut ranges x =
    (r : ℕ × ℕ) × (i : ℕ) × (j : ℕ) × (get_elem? ranges i ≡ some r)
    × (get_elem? (env.scan r.0 r.1 cut) j ≡ some x)

-- Every key is one of an item of that kind.
abbrev pub KeysOf : (Item → Type 0) → List Key → Type 0
KeysOf Good = All (λ k. (x : Item) × (x.key ≡ k) × Good x)

KeysOf-snoc :
    (Good : Item → Type 0) (keys : List Key) (x : Item)
    → KeysOf Good keys
    → Good x
    → KeysOf Good (keys ++ x.key ∷ [])
KeysOf-snoc Good [] x h g = ((x, refl, g), tt)
KeysOf-snoc Good (k ∷ keys) x (own, h) g = (own, KeysOf-snoc Good keys x h g)

KeysOf-map :
    (A B : Item → Type 0) (keys : List Key)
    → ((x : Item) → A x → B x)
    → KeysOf A keys
    → KeysOf B keys
KeysOf-map A B [] f h = tt
KeysOf-map A B (k ∷ keys) f ((x, e, a), h) = ((x, e, f x a), KeysOf-map A B keys f h)

module _ (sz : Sizing) (tombstone_cutoff : ℕ) (ktbf : Filter) (fits : Fits ktbf.m ktbf.bits) where
  -- An item that the callback keeps: no old tombstone, and not in the filter.
  abbrev IsMissing : Item → Type 0
  IsMissing x =
      (is_fresh tombstone_cutoff x.timestampbits ≡ true)
      × (may_have sz ktbf x.key x.timestampbits ≡ some false)

  pick_keys :
      (Here : Item → Type 0) (x : Item) (p : Picked)
      → Here x
      → KeysOf (λ y. Here y × IsMissing y) p.keys
      → (q : Picked) × (on : Bool) × (pick sz tombstone_cutoff ktbf x p ≡ some (q, on))
        × KeysOf (λ y. Here y × IsMissing y) q.keys
  unfolding pick
  pick_keys Here x p here h = elim (Bool-cases (is_fresh tombstone_cutoff x.timestampbits)) [
    | inr old ↦ (p, true, simp old refl, h)
    | inl fresh ↦
        let (b, e) = may_have_total sz ktbf x.key x.timestampbits fits in
        elim (Bool-cases b) [
          | inl has ↦ (p, true, simp (fresh, e, has) refl, h)
          | inr lacks ↦
              let left = p.left - (entry_header_length + x.size) in
              (
                record { keys = p.keys ++ x.key ∷ []; left = left },
                not (left == 0),
                simp (fresh, e, lacks) refl,
                KeysOf-snoc _ p.keys x h (here, (fresh, e ∙ ap some lacks)),
              )
        ]
  ]

  pick_all_keys :
      (Here : Item → Type 0) (items : List Item) (p : Picked)
      → ((j : ℕ) (x : Item) → get_elem? items j ≡ some x → Here x)
      → KeysOf (λ y. Here y × IsMissing y) p.keys
      → (q : Picked) × (pick_all sz tombstone_cutoff ktbf items p ≡ some q)
        × KeysOf (λ y. Here y × IsMissing y) q.keys
  unfolding pick_all
  pick_all_keys Here [] p here h = (p, refl, h)
  pick_all_keys Here (x ∷ items) p here h =
      let (q, on, e, hq) = pick_keys Here x p (here 0 x refl) h in
      let (q', e', hq') = pick_all_keys Here items q (λ j y at. here (suc j) y at) hq in
      elim (Bool-cases on) [
        | inl go ↦ (q', simp (pick_all, e, go, e') refl, hq')
        | inr stop ↦ (q, simp (pick_all, e, stop) refl, hq)
      ]

module _ (sz : Sizing) (env : Around) (ktbf : Filter) (fits : Fits ktbf.m ktbf.bits) where
  pick_ranges_keys :
      (cut : ℕ) (Here : Item → Type 0) (ranges : List (ℕ × ℕ)) (p : Picked)
      → ((x : Item) → ScannedIn env cut ranges x → Here x)
      → KeysOf (λ y. Here y × IsMissing sz env.tombstone_cutoff ktbf fits y) p.keys
      → (q : Picked) × (pick_ranges sz env cut ktbf ranges p ≡ some q)
        × KeysOf (λ y. Here y × IsMissing sz env.tombstone_cutoff ktbf fits y) q.keys
  unfolding pick_ranges
  pick_ranges_keys cut Here [] p here h = (p, refl, h)
  pick_ranges_keys cut Here ((start, stop) ∷ ranges) p here h =
      let (q, e, hq) =
        pick_all_keys sz env.tombstone_cutoff ktbf fits Here (env.scan start stop cut) p
          (λ j x at. here x ((start, stop), 0, j, refl, at)) h in
      let (q', e', hq') =
        pick_ranges_keys cut Here ranges q (λ x (r, i, j, a, b). here x (r, suc i, j, a, b)) hq in
      elim (Bool-cases (q.left == 0)) [
        | inl over ↦ (q, simp (pick_ranges, e, over) refl, hq)
        | inr more ↦ (q', simp (pick_ranges, e, more, e') refl, hq')
      ]

-- The filter was given none of the entries with the item's key and timestamp.
abbrev pub IsUnsent : List Entry → Item → Type 0
IsUnsent entries x = All (λ e. ¬ (e ≡ (x.key, x.timestampbits))) entries

All-IsUnsent :
    (sz : Sizing) (g : Filter) (entries : List Entry) (x : Item)
    → may_have sz g x.key x.timestampbits ≡ some false
    → All (λ e. may_have sz g e.0 e.1 ≡ some true) entries
    → IsUnsent entries x
All-IsUnsent sz g [] x lacks h = tt
All-IsUnsent sz g (e ∷ entries) x lacks (has, h) = (
  λ same.
      let both : some true ≡ some false =
        sym has ∙ ap (λ (y : Entry). may_have sz g y.0 y.1) same ∙ lacks in
      absurd (cc),
  All-IsUnsent sz g entries x lacks h,
)

-- The keys that are picked for the answer to a message whose filter was given the sender's entries,
-- and has room for its bits: no panic, and every key that is picked is that of an item which a scan
-- of the message's ranges came to, which is no tombstone older than the cutoff for tombstones, and
-- whose timestamp at the scan the sender did not put into the filter with that key.
pub picked-IsUnsent :
    (sz : Sizing) (env : Around) (f g : Filter) (entries : List Entry) (prm : Msg)
    → Fits f.m f.bits
    → add_all sz entries f ≡ some g
    → kt_bloom_filter sz prm ≡ g
    → (p : Picked) × (picked sz env prm ≡ some p)
      × KeysOf
          (λ x.
            ScannedIn env
              (cutoff prm)
              (scan_ranges (range_start prm) (range_stop prm) env.replicas (
                env.responsible_replica
                  (range_start prm / 2 ^ (64 - env.partition_bit_count) % 2 ^ 32)))
              x
            × (is_fresh env.tombstone_cutoff x.timestampbits ≡ true)
            × IsUnsent entries x)
          p.keys
unfolding picked
picked-IsUnsent sz env f g entries prm fits added same =
    let (g', e, roomy, has) = add_all-may_have sz f entries fits in
    let one : g' ≡ g = cc in
    let ktbf = kt_bloom_filter sz prm in
    let there : ktbf ≡ g' = same ∙ sym one in
    let room : Fits ktbf.m ktbf.bits = rw there roomy in
    let (p, done, keys) =
      pick_ranges_keys sz env ktbf room (cutoff prm)
        (ScannedIn env (cutoff prm) (
          scan_ranges (range_start prm) (range_stop prm) env.replicas (
            env.responsible_replica
              (range_start prm / 2 ^ (64 - env.partition_bit_count) % 2 ^ 32))))
        (scan_ranges (range_start prm) (range_stop prm) env.replicas
          (env.responsible_replica (range_start prm / 2 ^ (64 - env.partition_bit_count) % 2 ^ 32)))
        (record { keys = []; left = env.msg_cap }) (λ x s. s) tt in
    (
      p,
      done,
      KeysOf-map _ _ p.keys
          (λ x (at, (fresh, lacks)). (
            at,
            fresh,
            All-IsUnsent sz g' entries x
                (ap (λ y. may_have sz y x.key x.timestampbits) (sym there) ∙ lacks) has,
          ))
          keys,
    )
