-- ===== src/Compaction/Runs.antt =====
-- valuecompaction_GEN_.go, compactFile: entries one after another.
use mathlib.Core.Path.{subst}
use valuestore.Base.{
  ℕ, ◌+◌, ◌≤◌, ◌≡◌, ◌≢◌, refl, sym, ap, ◌∙◌, Bool, List, [], ◌∷◌, ◌++◌, Option, inl, inr, arith,
  length, length-append, All, All-append, All-split,
}
use valuestore.Base.Bytes.{Bytes}
use valuestore.LocMap.{Key, Location, LocMap}
use valuestore.LocMap.Functions.{key_cases}
use valuestore.MemWriter.{Limits}
use valuestore.Toc.{Entry}
use valuestore.Store.{Store, FileReader}
use valuestore.Store.Held.{HeldAt}
use valuestore.Store.Effects.{IsSound}
use valuestore.Compaction.{Counts}
use valuestore.Compaction.Entries.{Fate, old, broken, moved, Meets, add_broken, Turned}

abbrev pub Claimed : {l : LocMap} → Store l → Key → ℕ → Bytes → Type 0
Claimed {l} s k t v = ((l.get s.map k).timestampbits ≡ t) × HeldAt s (l.get s.map k) v

-- What is claimed of an entry in the end: its value, if it could be moved, is in a memory block.
abbrev pub IsSafe : {l : LocMap} → Store l → Entry × Fate → Type 0
IsSafe s (e, old) = Unit {0}
IsSafe s (e, broken) = Unit {0}
IsSafe s (e, moved v) = Claimed s e.key e.timestampbits v

abbrev pub IsMoved : Fate → Type 0
IsMoved old = ⊥
IsMoved broken = ⊥
IsMoved (moved v) = Unit {0}

-- Two entries of one key have different timestampbits.
abbrev pub Differ : Entry × Fate → Entry × Fate → Type 0
Differ p q = q.0.key ≡ p.0.key → q.0.timestampbits ≢ p.0.timestampbits

abbrev pub AllDiffer : List (Entry × Fate) → Type 0
AllDiffer [] = Unit {0}
AllDiffer (p ∷ ps) = All (Differ p) ps × AllDiffer ps

abbrev pub all_broken : List (Entry × Fate) → ℕ → ℕ
all_broken [] n = n
all_broken (p ∷ ps) n = all_broken ps (add_broken p.1 n)

Claimed-same :
    {l : LocMap} (s z : Store l) (k : Key) (t : ℕ) (v : Bytes)
    → l.get z.map k ≡ l.get s.map k
    → ((x : Location) (u : Bytes) → HeldAt s x u → HeldAt z x u)
    → Claimed s k t v
    → Claimed z k t v
Claimed-same {l} s z k t v same carry (stamp, held) =
    subst (λ (x : Location). (x.timestampbits ≡ t) × HeldAt z x v) (sym same)
      (stamp, carry (l.get s.map k) v held)

-- Entries that were gone through, from one store to another.
pub record Ran {l : LocMap} (lim : Limits) (files : ℕ → Option FileReader) (on : Bool) (s : Store l)
    (ps : List (Entry × Fate)) (c : Counts) (z : Store l) (d : Counts) : Type 0 where
  pub safe : All (IsSafe z) ps
  pub stays :
      (k : Key) (t : ℕ) (v : Bytes)
      → Claimed s k t v
      → All (λ q. q.0.key ≡ k → q.0.timestampbits ≢ t) ps
      → Claimed z k t v
  pub untouched :
      (j : Key) → All (λ p. IsMoved p.1 → j ≢ p.0.key) ps → l.get z.map j ≡ l.get s.map j
  pub still_meets :
      (q : Entry × Fate)
      → All (λ p. Differ p q) ps
      → Meets files lim.value_cap (l.get s.map q.0.key) q
      → Meets files lim.value_cap (l.get z.map q.0.key) q
  pub sound : IsSound lim on z.workers z.free
  pub fewer : length s.free ≤ length ps + length z.free
  pub no_write_error : d.write_errors ≡ c.write_errors
  pub read_errors : d.read_errors ≡ all_broken ps c.read_errors

all_broken-append :
    (ps qs : List (Entry × Fate)) (n : ℕ)
    → all_broken (ps ++ qs) n ≡ all_broken qs (all_broken ps n)
all_broken-append [] qs n = refl
all_broken-append (p ∷ ps) qs n = all_broken-append ps qs (add_broken p.1 n)

pub AllDiffer-split :
    (ps qs : List (Entry × Fate))
    → AllDiffer (ps ++ qs)
    → All (λ p. All (Differ p) qs) ps × AllDiffer ps × AllDiffer qs
AllDiffer-split [] qs h = (tt, tt, h)
AllDiffer-split (p ∷ ps) qs (first, rest) =
    let (near, far) = All-split (Differ p) ps qs first in
    let (cross, apart, others) = AllDiffer-split ps qs rest in ((far, cross), (near, apart), others)

module _ {l : LocMap} (lim : Limits) (files : ℕ → Option FileReader) (on : Bool) where
  IsSafe-stays :
      (ps qs : List (Entry × Fate)) (y z : Store l) (c d : Counts)
      → Ran lim files on y qs c z d
      → All (λ p. All (Differ p) qs) ps
      → All (IsSafe y) ps
      → All (IsSafe z) ps
  IsSafe-stays [] qs y z c d r cross safe = tt
  IsSafe-stays ((e, old) ∷ ps) qs y z c d r (first, cross) (h, safe) =
      (tt, IsSafe-stays ps qs y z c d r cross safe)
  IsSafe-stays ((e, broken) ∷ ps) qs y z c d r (first, cross) (h, safe) =
      (tt, IsSafe-stays ps qs y z c d r cross safe)
  IsSafe-stays ((e, moved v) ∷ ps) qs y z c d r (first, cross) (h, safe) =
      (r.stays e.key e.timestampbits v h first, IsSafe-stays ps qs y z c d r cross safe)

  pub Ran-append :
      (s y z : Store l) (ps qs : List (Entry × Fate)) (b c d : Counts)
      → All (λ p. All (Differ p) qs) ps
      → Ran lim files on s ps b y c
      → Ran lim files on y qs c z d
      → Ran lim files on s (ps ++ qs) b z d
  Ran-append s y z ps qs b c d cross r t = record {
    safe = All-append (IsSafe z) ps qs (IsSafe-stays ps qs y z c d t cross r.safe) t.safe;
    stays = λ k u v claimed apart.
        let (near, far) = All-split (λ q. q.0.key ≡ k → q.0.timestampbits ≢ u) ps qs apart in
        t.stays k u v (r.stays k u v claimed near) far;
    untouched = λ j apart.
        let (near, far) = All-split (λ p. IsMoved p.1 → j ≢ p.0.key) ps qs apart in
        t.untouched j far ∙ r.untouched j near;
    still_meets = λ q apart meets.
        let (near, far) = All-split (λ p. Differ p q) ps qs apart in
        t.still_meets q far (r.still_meets q near meets);
    sound = t.sound;
    fewer = omega (arith, r.fewer, t.fewer, length-append ps qs);
    no_write_error = t.no_write_error ∙ r.no_write_error;
    read_errors =
        t.read_errors
        ∙ ap (all_broken qs) r.read_errors
        ∙ sym (all_broken-append ps qs b.read_errors);
  }

  -- One entry.
  module _ (s : Store l) (e : Entry) (c : Counts) where
    -- its key has the location as before
    still_Ran :
        (f : Fate) (t : Turned lim files on s (e, f) c)
        → IsSafe t.after (e, f)
        → l.get t.after.map e.key ≡ l.get s.map e.key
        → Ran lim files on s ((e, f) ∷ []) c t.after t.counts
    still_Ran f t safe same =
        let all : (j : Key) → l.get t.after.map j ≡ l.get s.map j = λ j. elim (key_cases j e.key) [
          | inl eq ↦ ap (l.get t.after.map) eq ∙ same ∙ ap (l.get s.map) (sym eq)
          | inr ne ↦ t.others j ne
        ] in
        record {
          safe = (safe, tt);
          stays = λ k u v claimed apart. Claimed-same s t.after k u v (all k) t.carried claimed;
          untouched = λ j apart. all j;
          still_meets =
              λ q apart meets. subst (λ x. Meets files lim.value_cap x q) (sym (all q.0.key)) meets;
          sound = t.sound;
          fewer = omega (arith, t.fewer);
          no_write_error = t.no_write_error;
          read_errors = t.read_errors;
        }

    moved-Meets :
        (x y : Location) (v : Bytes) (q : Entry × Fate)
        → Meets files lim.value_cap x (e, moved v)
        → y.timestampbits ≡ e.timestampbits
        → q.0.timestampbits ≢ e.timestampbits
        → Meets files lim.value_cap x q
        → Meets files lim.value_cap y q
    moved-Meets x y v (q, old) (short, own) stamp other (inl newer) =
        inl (omega (arith, newer, own.0, stamp))
    moved-Meets x y v (q, old) (short, own) stamp other (inr empty) = absurd (cc (own.2))
    moved-Meets x y v (q, broken) (short, own) stamp other (u, err, real, own') =
        absurd (other (sym own'.0 ∙ own.0))
    moved-Meets x y v (q, moved u) (short, own) stamp other (short', own') =
        absurd (other (sym own'.0 ∙ own.0))

    moved_Ran :
        (v : Bytes)
        → Meets files lim.value_cap (l.get s.map e.key) (e, moved v)
        → (t : Turned lim files on s (e, moved v) c)
        → Ran lim files on s ((e, moved v) ∷ []) c t.after t.counts
    moved_Ran v meets t = record {
      safe = (t.own, tt);
      stays = λ k u w claimed apart. elim (key_cases k e.key) [
        | inl eq ↦ absurd (
            apart.0 (sym eq)
              (sym meets.1.0 ∙ ap (λ j. (l.get s.map j).timestampbits) (sym eq) ∙ claimed.0))
        | inr ne ↦ Claimed-same s t.after k u w (t.others k ne) t.carried claimed
      ];
      untouched = λ j apart. t.others j (apart.0 tt);
      still_meets = λ q apart before. elim (key_cases q.0.key e.key) [
        | inl eq ↦
            moved-Meets (l.get s.map q.0.key) (l.get t.after.map q.0.key) v q
              (subst (λ k. Meets files lim.value_cap (l.get s.map k) (e, moved v)) (sym eq) meets)
              (ap (λ k. (l.get t.after.map k).timestampbits) eq ∙ t.own.0) (apart.0 eq) before
        | inr ne ↦ subst (λ x. Meets files lim.value_cap x q) (sym (t.others q.0.key ne)) before
      ];
      sound = t.sound;
      fewer = omega (arith, t.fewer);
      no_write_error = t.no_write_error;
      read_errors = t.read_errors;
    }

    pub entry_Ran :
        (f : Fate)
        → Meets files lim.value_cap (l.get s.map e.key) (e, f)
        → (t : Turned lim files on s (e, f) c) → Ran lim files on s ((e, f) ∷ []) c t.after t.counts
    entry_Ran old meets t = still_Ran old t tt t.own
    entry_Ran broken meets t = still_Ran broken t tt t.own
    entry_Ran (moved v) meets t = moved_Ran v meets t
