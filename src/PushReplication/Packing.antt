-- ===== src/PushReplication/Packing.antt =====
-- valuepushreplication_GEN_.go: the keys that a scan gathers, and the entries that a message takes.
use mathlib.Core.Path.{subst}
use valuestore.Base.{
  ℕ, ◌+◌, ◌-◌, ◌%◌, ◌^◌, ◌≤◌, ◌<◌, ◌≡◌, ◌⊎◌, refl, sym, ap, ◌∙◌, true, false, List, [], ◌∷◌, ◌++◌,
  inl, inr, arith, ltb, leb, ◌==◌, if◌then◌else◌, Bool-cases, length, All, append_assoc, append-nil,
}
use valuestore.Base.Bytes.{Bytes}
use valuestore.LocMap.{Key}
use valuestore.BulkSet
use valuestore.BulkSet.{body_cap, entry_header_length, in_bulk_set, done, first_acks, Worker}
use valuestore.BulkSet.Entries.{IsWordEntry, encode, before, add-entry_bytes}
use valuestore.PullReplication.{Item, is_fresh}
use valuestore.PushReplication.{Around, gather, entry_of, is_wanted, push_key, push_keys}

-- The keys of the items that are no old tombstones.
abbrev pub fresh_keys : ℕ → List Item → List Key
fresh_keys cut [] = []
fresh_keys cut (x ∷ items) =
    let rest = fresh_keys cut items in if is_fresh cut x.timestampbits then x.key ∷ rest else rest

-- The entries of the keys that are to be sent.
abbrev pub wanted : Around → ℕ → List Key → List BulkSet.Entry
wanted env p [] = []
wanted env p (k ∷ keys) =
    let rest = wanted env p keys in if is_wanted env p k then entry_of env k ∷ rest else rest

-- The items that are no old tombstones, and their keys.
abbrev pub fresh_items : ℕ → List Item → List Item
fresh_items cut [] = []
fresh_items cut (x ∷ items) =
    let rest = fresh_items cut items in if is_fresh cut x.timestampbits then x ∷ rest else rest

abbrev pub keys_of : List Item → List Key
keys_of [] = []
keys_of (x ∷ items) = x.key ∷ keys_of items

-- The bytes of the items' entries.
abbrev pub size_of : Item → ℕ
size_of x = entry_header_length + x.size

abbrev pub total : List Item → ℕ
total [] = 0
total (x ∷ items) = size_of x + total items

-- Nothing is left over, or behind the first items there is less room than for the last of them.
abbrev pub Stops : ℕ → List Item → List Item → Type 0
Stops available items others =
    (others ≡ [])
    ⊎ ((front : List Item) × (x : Item) × (items ≡ front ++ x ∷ [])
        × (available < total items + size_of x))

-- Behind each item but the last there is room for another of its length.
abbrev pub HasRoom : ℕ → List Item → Type 0
HasRoom available [] = Unit {0}
HasRoom available (x ∷ []) = Unit {0}
HasRoom available (x ∷ y ∷ items) =
    (size_of x + size_of x ≤ available) × HasRoom (available - size_of x) (y ∷ items)

HasRoom-cons :
    (x : Item) (available : ℕ) (items : List Item)
    → size_of x + size_of x ≤ available
    → HasRoom (available - size_of x) items
    → HasRoom available (x ∷ items)
HasRoom-cons x available [] room h = tt
HasRoom-cons x available (y ∷ items) room h = (room, h)

Stops-cons :
    (x : Item) (available : ℕ) (items others : List Item)
    → size_of x ≤ available
    → Stops (available - size_of x) items others
    → Stops available (x ∷ items) others
Stops-cons x available items others room (inl none_left) = inl none_left
Stops-cons x available items others room (inr (front, y, e, full)) =
    inr (x ∷ front, y, ap (λ xs. x ∷ xs) e, omega (arith, full, room))

-- What the callback keeps of a scan: the first items that are no old tombstones.
pub record Gathered (cut : ℕ) (items : List Item) (available : ℕ) : Type 0 where
  pub first : List Item
  pub others : List Item
  pub of_scan : fresh_items cut items ≡ first ++ others
  pub kept : keys_of first ≡ gather cut items available
  pub stops : Stops available first others
  pub room : HasRoom available first

pub gather-Gathered : (cut : ℕ) (items : List Item) (available : ℕ) → Gathered cut items available
unfolding gather
gather-Gathered cut [] available = record {
  first = [];
  others = [];
  of_scan = refl;
  kept = refl;
  stops = inl refl;
  room = tt;
}
gather-Gathered cut (x ∷ items) available = elim (Bool-cases (is_fresh cut x.timestampbits)) [
  | inr old ↦
      let g = gather-Gathered cut items available in
      record {
        first = g.first;
        others = g.others;
        of_scan = simp old g.of_scan;
        kept = simp old g.kept;
        stops = g.stops;
        room = g.room;
      }
  | inl fresh ↦ elim (Bool-cases (ltb (available - size_of x) (size_of x))) [
    | inl full ↦ record {
      first = x ∷ [];
      others = fresh_items cut items;
      of_scan = simp fresh refl;
      kept = simp (fresh, full) refl;
      stops = inr ([], x, refl, ground (arith, full));
      room = tt;
    }
    | inr more ↦
        let g = gather-Gathered cut items (available - size_of x) in
        record {
          first = x ∷ g.first;
          others = g.others;
          of_scan = simp fresh (ap (λ xs. x ∷ xs) g.of_scan);
          kept = simp (fresh, more) (ap (λ ks. x.key ∷ ks) g.kept);
          stops = Stops-cons x available g.first g.others (ground (arith, more)) g.stops;
          room = HasRoom-cons x available g.first (ground (arith, more)) g.room;
        }
  ]
]

some_length : (k : Key) (keys : List Key) → (length (k ∷ keys) == 0) ≡ false
some_length k keys = ground arith

pub gather_some :
    (cut : ℕ) (items : List Item) (available : ℕ)
    → (length (gather cut items available) == 0) ≡ (length (fresh_keys cut items) == 0)
unfolding gather
gather_some cut [] available = refl
gather_some cut (x ∷ items) available = elim (Bool-cases (is_fresh cut x.timestampbits)) [
  | inr old ↦ simp old (gather_some cut items available)
  | inl fresh ↦ simp fresh (some_length x.key _ ∙ sym (some_length x.key _))
]

before-append :
    (front : Bytes) (e : BulkSet.Entry) (rest : Bytes)
    → (front ++ before e []) ++ rest ≡ front ++ before e rest
before-append front e rest = simp append_assoc

-- The entries that a message took, and those that it had no room for.
pub record Packed (env : Around) (p : ℕ) (keys : List Key) (bsm : BulkSet.Msg) (out : BulkSet.Msg)
    : Type 0 where
  pub taken : List BulkSet.Entry
  pub later : List BulkSet.Entry
  pub split : wanted env p keys ≡ taken ++ later
  pub body : out.body ≡ bsm.body ++ encode taken
  pub cap : body_cap out ≡ body_cap bsm
  pub full :
      (later ≡ [])
      ⊎ ((e : BulkSet.Entry) × (es : List BulkSet.Entry) × (later ≡ e ∷ es)
          × (body_cap out ≤ length out.body + entry_header_length + length e.value))

module _ (env : Around) (p : ℕ) (k : Key) (keys : List Key) (bsm : BulkSet.Msg) (n : ℕ) where
  push_keys_other :
      is_wanted env p k ≡ false
      → push_keys env p (k ∷ keys) (bsm, n) ≡ push_keys env p keys (bsm, n)
  unfolding push_keys push_key
  push_keys_other other = simp other refl

  push_keys_tight :
      is_wanted env p k ≡ true
      → BulkSet.add bsm (entry_of env k) ≡ (bsm, false)
      → push_keys env p (k ∷ keys) (bsm, n) ≡ (bsm, n)
  unfolding push_keys push_key
  push_keys_tight due kept = simp due (simp kept refl)

  push_keys_put :
      is_wanted env p k ≡ true
      → (BulkSet.add bsm (entry_of env k)).1 ≡ true
      → push_keys env p (k ∷ keys) (bsm, n)
        ≡ push_keys env p keys ((BulkSet.add bsm (entry_of env k)).0, (n + 1) % 2 ^ 32)
  unfolding push_keys push_key
  push_keys_put due put = simp due (simp put refl)

module _ (env : Around) (p : ℕ) where
  pub push_keys-Packed :
      (keys : List Key) (bsm : BulkSet.Msg) (n : ℕ)
      → Packed env p keys bsm (push_keys env p keys (bsm, n)).0
  unfolding push_keys
  push_keys-Packed [] bsm n = record {
    taken = [];
    later = [];
    split = refl;
    body = sym (append-nil bsm.body);
    cap = refl;
    full = inl refl;
  }
  push_keys-Packed (k ∷ keys) bsm n =
      let e = entry_of env k in
      let rest = wanted env p keys in
      elim (Bool-cases (is_wanted env p k)) [
        | inr other ↦
            let r = push_keys-Packed keys bsm n in
            subst (λ (o : BulkSet.Msg × ℕ). Packed env p (k ∷ keys) bsm o.0)
              (sym (push_keys_other env p k keys bsm n other))
              (record {
                taken = r.taken;
                later = r.later;
                split = ap (λ b. if b then e ∷ rest else rest) other ∙ r.split;
                body = r.body;
                cap = r.cap;
                full = r.full;
              })
        | inl due ↦
            elim (Bool-cases
              (leb (body_cap bsm) (length bsm.body + entry_header_length + length e.value))) [
                | inl tight ↦
                    let kept = (add-entry_bytes bsm e).0 tight in
                    subst (λ (o : BulkSet.Msg × ℕ). Packed env p (k ∷ keys) bsm o.0)
                      (sym (push_keys_tight env p k keys bsm n due kept))
                      (record {
                        taken = [];
                        later = e ∷ rest;
                        split = ap (λ b. if b then e ∷ rest else rest) due;
                        body = sym (append-nil bsm.body);
                        cap = refl;
                        full = inr (e, rest, refl, ground (arith, tight));
                      })
                | inr room ↦
                    let (put, bytes, cap) = (add-entry_bytes bsm e).1 room in
                    let r = push_keys-Packed keys (BulkSet.add bsm e).0 ((n + 1) % 2 ^ 32) in
                    subst (λ (o : BulkSet.Msg × ℕ). Packed env p (k ∷ keys) bsm o.0)
                      (sym (push_keys_put env p k keys bsm n due put))
                      (record {
                        taken = e ∷ r.taken;
                        later = r.later;
                        split =
                            ap (λ b. if b then e ∷ rest else rest) due ∙ ap (λ es. e ∷ es) r.split;
                        body =
                            r.body
                            ∙ ap (λ b. b ++ encode r.taken) bytes
                            ∙ before-append bsm.body e (encode r.taken);
                        cap = r.cap ∙ cap;
                        full = r.full;
                      })
              ]
      ]

pub IsWordEntry-fresh_items :
    (env : Around) (cut : ℕ) (items : List Item)
    → All (λ x. IsWordEntry (entry_of env x.key)) items
    → All (λ x. IsWordEntry (entry_of env x.key)) (fresh_items cut items)
IsWordEntry-fresh_items env cut [] h = tt
IsWordEntry-fresh_items env cut (x ∷ items) (own, h) =
    let rest = IsWordEntry-fresh_items env cut items h in
    elim (Bool-cases (is_fresh cut x.timestampbits)) [
      | inr old ↦ simp old rest
      | inl fresh ↦ simp fresh (own, rest)
    ]

pub IsWordEntry-keys_of :
    (env : Around) (items : List Item)
    → All (λ x. IsWordEntry (entry_of env x.key)) items
    → All (λ k. IsWordEntry (entry_of env k)) (keys_of items)
IsWordEntry-keys_of env [] h = tt
IsWordEntry-keys_of env (x ∷ items) (own, h) = (own, IsWordEntry-keys_of env items h)

pub IsWordEntry-wanted :
    (env : Around) (p : ℕ) (keys : List Key)
    → All (λ k. IsWordEntry (entry_of env k)) keys
    → All IsWordEntry (wanted env p keys)
IsWordEntry-wanted env p [] h = tt
IsWordEntry-wanted env p (k ∷ keys) (own, h) =
    let rest = IsWordEntry-wanted env p keys h in
    elim (Bool-cases (is_wanted env p k)) [
      | inr other ↦ simp other rest
      | inl due ↦ simp due (own, rest)
    ]
