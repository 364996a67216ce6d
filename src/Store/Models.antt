-- ===== src/Store/Models.antt =====
-- valuestore_GEN_.go: a store, and what was promised of its keys.
use mathlib.Core.Path.{subst}
use valuestore.Base.{
  ℕ, suc, ◌/◌, ◌%◌, ◌^◌, ◌≤◌, ◌<◌, ◌≡◌, ◌≢◌, sym, ◌∙◌, Bool, true, false, ◌||◌, Option, none, some,
  inl, inr, arith, ltb, Bool-cases, length,
}
use valuestore.Base.Bytes.{Bytes}
use valuestore.Base.Bits.{bit_and_128, bit_and_not_one}
use valuestore.LocMap.{Key, Location, LocMap, IsLocMap}
use valuestore.LocMap.Functions.{same_key, same_key_sound, same_key_self}
use valuestore.MemWriter.{Limits, WriteReq, without_rewrite}
use valuestore.MemWriter.Bounds.{IsLimits}
use valuestore.Store.{Store, answered, is_gone, write}
use valuestore.Store.Held.{HeldAt}
use valuestore.Store.Effects.{IsSound, Effect, TookIn, write-Effect}
use valuestore.Store.Calls.{Spec, offer}

-- The location of a key whose newest entry is the given one.
abbrev pub Fits : {l : LocMap} → Store l → Location → ℕ × Option Bytes → Type 0
Fits s x (t, none) = (x.timestampbits ≡ t) × (is_gone x ≡ true)
Fits s x (t, some v) = (x.timestampbits ≡ t) × (t % 256 ≡ 0) × HeldAt s x v

abbrev pub Models : {l : LocMap} → Store l → Spec → Type 0
Models {l} s a = (k : Key) → Fits s (l.get s.map k) (a k)

-- An entry that a request puts there.
abbrev pub IsEntryOf : WriteReq → Option Bytes → Type 0
IsEntryOf req none = (req.timestampbits % 2 ≡ 0) × (req.timestampbits / 128 % 2 ≡ 1)
IsEntryOf req (some v) = (req.timestampbits % 256 ≡ 0) × (v ≡ req.value)

pub Fits-stamp :
    {l : LocMap} (s : Store l) (x : Location) (e : ℕ × Option Bytes)
    → Fits s x e
    → x.timestampbits ≡ e.0
Fits-stamp s x (t, none) h = h.0
Fits-stamp s x (t, some v) h = h.0

Fits-carried :
    {l : LocMap} (s z : Store l) (x : Location) (e : ℕ × Option Bytes)
    → ((v : Bytes) → HeldAt s x v → HeldAt z x v)
    → Fits s x e
    → Fits z x e
Fits-carried s z x (t, none) carry h = h
Fits-carried s z x (t, some v) carry (stamp, low, held) = (stamp, low, carry v held)

-- A location that a request has put there.
new-Fits :
    {l : LocMap} (s : Store l) (x : Location) (req : WriteReq) (e : Option Bytes)
    → req.timestampbits < 2 ^ 64
    → IsEntryOf req e
    → x.timestampbits ≡ without_rewrite req.timestampbits
    → HeldAt s x req.value
    → Fits s x (req.timestampbits, e)
new-Fits s x req none h64 (even, marked) bits held =
    let stamp : x.timestampbits ≡ req.timestampbits =
      bits ∙ omega (arith, bit_and_not_one req.timestampbits h64, even) in
    let gone : is_gone x ≡ true =
      rw stamp (ground (arith, bit_and_128 req.timestampbits, marked)) in
    (stamp, gone)
new-Fits s x req (some v) h64 (low, ev) bits held =
    let stamp : x.timestampbits ≡ req.timestampbits =
      bits ∙ omega (arith, bit_and_not_one req.timestampbits h64, low) in
    (stamp, low, subst (λ u. HeldAt s x u) (sym ev) held)

module _ {l : LocMap} (lim : Limits) (s : Store l) (a : Spec) (on : Bool) (models : Models s a)
    (req : WriteReq) (h64 : req.timestampbits < 2 ^ 64) (e : Option Bytes) (entry : IsEntryOf req e)
    (t : Effect lim on s req) where
  unchanged-Fits :
      (j : Key) → l.get t.after.map j ≡ l.get s.map j → Fits t.after (l.get t.after.map j) (a j)
  unchanged-Fits j same =
      subst (λ x. Fits t.after x (a j)) (sym same)
        (Fits-carried s t.after (l.get s.map j) (a j) (t.carried (l.get s.map j)) (models j))

  own-Fits :
      TookIn s req t.after
      → Fits t.after
          (l.get t.after.map req.key)
          ((offer a req.key (req.timestampbits, e)).0 req.key)
  own-Fits (inl (newer, bits, held)) =
      let up : ltb (a req.key).0 req.timestampbits ≡ true =
        ground (arith, newer, Fits-stamp s (l.get s.map req.key) (a req.key) (models req.key)) in
      simp (up, same_key_self req.key)
        (new-Fits t.after (l.get t.after.map req.key) req e h64 entry bits held)
  own-Fits (inr (older, same)) =
      let up : ltb (a req.key).0 req.timestampbits ≡ false =
        ground (arith, older, Fits-stamp s (l.get s.map req.key) (a req.key) (models req.key)) in
      simp up (unchanged-Fits req.key same)

  pub next-Models : Models t.after (offer a req.key (req.timestampbits, e)).0
  next-Models j = elim (Bool-cases (same_key j req.key)) [
    | inl eq ↦
        subst
          (λ k. Fits t.after (l.get t.after.map k) ((offer a req.key (req.timestampbits, e)).0 k))
          (sym (same_key_sound j req.key eq)) (own-Fits t.took)
    | inr ne ↦
        let other : j ≢ req.key = λ eq.
          let bad : same_key j req.key ≡ true =
            subst (λ k. same_key k req.key ≡ true) (sym eq) (same_key_self req.key) in
          cc in
        elim (Bool-cases (ltb (a req.key).0 req.timestampbits)) [
          | inl up ↦ simp (up, ne) (unchanged-Fits j (t.others j other))
          | inr same ↦ simp same (unchanged-Fits j (t.others j other))
        ]
  ]

module _ (l : LocMap) (lim : Limits) (laws : IsLocMap l) (fit : IsLimits lim) (s : Store l)
    (a : Spec) (on : Bool) (models : Models s a) (sound : IsSound lim on s.workers s.free)
    (some_free : 0 < length s.free) (req : WriteReq) (h64 : req.timestampbits < 2 ^ 64)
    (allowed : (on || req.internal) ≡ true) (short : length req.value ≤ lim.value_cap)
    (e : Option Bytes) (entry : IsEntryOf req e) where
  -- A write that is admitted does what is promised of it, newer or not.
  pub write-Models :
      (after : Store l) × (p : ℕ) × (write l lim s req.key req.timestampbits req.value req.internal
        ≡ answered after (p, none))
      × (p ≡ (a req.key).0)
      × Models after (offer a req.key (req.timestampbits, e)).0
      × IsSound lim on after.workers after.free
      × (length s.free ≤ suc (length after.free))
  write-Models =
      let t = write-Effect l lim laws fit s on sound some_free req h64 allowed short in
      (
        t.after,
        t.previous,
        t.ran,
        t.was ∙ Fits-stamp s (l.get s.map req.key) (a req.key) (models req.key),
        next-Models lim s a on models req h64 e entry t,
        t.sound,
        t.fewer,
      )
