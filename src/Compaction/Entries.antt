-- ===== src/Compaction/Entries.antt =====
-- valuecompaction_GEN_.go, compactFile: an entry of the table.
use valuestore.Base.{
  ℕ, suc, ◌+◌, ◌%◌, ◌^◌, ◌≤◌, ◌<◌, ◌≡◌, ◌≢◌, ◌⊎◌, refl, ap, ◌∙◌, Bool, true, false, ◌||◌, [],
  Option, none, some, inl, inr, arith, bit_or, ltb, ◌==◌, if◌then◌else◌, Bool-cases, length,
}
use valuestore.Base.Bytes.{Bytes}
use valuestore.Base.Bits.{bit_or-one, bit_and_not_one}
use valuestore.Package.{
  Error, is_not_found, has_bits, tsb_deletion, tsb_local_removal, tsb_compaction_rewrite, not_found,
}
use valuestore.LocMap.{Key, Location, LocMap, IsLocMap}
use valuestore.MemWriter.{Limits, WriteReq}
use valuestore.MemWriter.Bounds.{IsLimits}
use valuestore.Toc.{Entry}
use valuestore.Store.{Store, answered, FileReader, is_gone, lookup, read, read_file, done, in_block}
use valuestore.Store.Held.{HeldAt}
use valuestore.Store.Effects.{IsSound, TookIn, write-Effect}
use valuestore.Compaction.{
  Counts, up, gave, read_in, reading, Verdict, outdated, unreadable, rewrite, verdict_read, verdict,
  follow, rewritten, compact_entry,
}

-- What there is to an entry: it is old, its value can be moved, or cannot be read.
pub data Fate : Type 0 where
  old broken : Fate
  moved : Bytes → Fate

-- Nothing to read: no block, a tombstone or a local removal.
abbrev pub is_nothing : Location → Bool
is_nothing x = is_gone x || has_bits x.timestampbits tsb_local_removal

-- The location is the entry's own, in a file whose reader gives so much.
abbrev pub IsOwn : (ℕ → Option FileReader) → Location → Entry → Bytes → Option Error → Type 0
IsOwn files x e v err =
    (x.timestampbits ≡ e.timestampbits)
    × (0 < e.timestampbits)
    × (is_nothing x ≡ false)
    × (fp : FileReader) × (files x.block_id ≡ some fp)
    × (fp x.offset x.size ≡ (v, err))

abbrev pub Meets : (ℕ → Option FileReader) → ℕ → Location → Entry × Fate → Type 0
Meets files cap x (e, old) = (e.timestampbits < x.timestampbits) ⊎ (is_nothing x ≡ true)
Meets files cap x (e, broken) =
    (v : Bytes) × (err : Error) × (is_not_found (some err) ≡ false) × IsOwn files x e v (some err)
Meets files cap x (e, moved v) = (length v ≤ cap) × IsOwn files x e v none

module _ (l : LocMap) (lim : Limits) (files : ℕ → Option FileReader) (s : Store l) where
  abbrev at : Key → Location
  at k = l.get s.map k

  lookup_stamp : (k : Key) → (lookup l s.map k).0 ≡ (at k).timestampbits
  unfolding lookup
  lookup_stamp k = elim (Bool-cases (is_gone (at k))) [ inl e ↦ simp e refl | inr e ↦ simp e refl ]

  verdict_lem :
      (e : Entry)
      → verdict l lim files s e ≡ (
          if ltb e.timestampbits (at e.key).timestampbits
          then outdated
          else if (at e.key).timestampbits == 0
          then outdated
          else verdict_read l lim files e.timestampbits (reading l lim files s e.key))
  unfolding verdict
  verdict_lem e =
      ap
        (λ (t : ℕ).
          if ltb e.timestampbits t
          then outdated
          else if t == 0
          then outdated
          else verdict_read l lim files e.timestampbits (reading l lim files s e.key))
        (lookup_stamp e.key)

  reading_nothing :
      (k : Key)
      → is_nothing (at k) ≡ true
      → reading l lim files s k ≡ gave (at k).timestampbits [] (some not_found)
  unfolding reading read
  reading_nothing k e =
      ap
        (λ b. read_in l lim files s k (
          if b
          then done (at k).timestampbits [] (some not_found)
          else in_block (at k).block_id (at k)))
        e

  reading_own :
      (k : Key) (v : Bytes) (err : Option Error) (fp : FileReader)
      → is_nothing (at k) ≡ false
      → files (at k).block_id ≡ some fp
      → fp (at k).offset (at k).size ≡ (v, err)
      → reading l lim files s k ≡ gave (at k).timestampbits v err
  unfolding reading read read_in read_file
  reading_own k v err fp real is_file gives =
      let kept : has_bits (at k).timestampbits tsb_deletion ≡ false = ground (arith, real) in
      ap
        (λ b. read_in l lim files s k (
          if b
          then done (at k).timestampbits [] (some not_found)
          else in_block (at k).block_id (at k)))
        real
      ∙ simp (read_in, is_file) (simp (kept, gives) refl)

  verdict_old :
      (e : Entry)
      → Meets files lim.value_cap (at e.key) (e, old)
      → verdict l lim files s e ≡ outdated
  verdict_old e (inl newer) =
      let late : ltb e.timestampbits (at e.key).timestampbits ≡ true = ground (arith, newer) in
      verdict_lem e ∙ simp late refl
  verdict_old e (inr empty) =
      verdict_lem e ∙ elim (Bool-cases (ltb e.timestampbits (at e.key).timestampbits)) [
        | inl late ↦ simp late refl
        | inr early ↦ elim (Bool-cases ((at e.key).timestampbits == 0)) [
          | inl zeroed ↦ simp (early, zeroed) refl
          | inr some_stamp ↦ simp (early, some_stamp, reading_nothing e.key empty) refl
        ]
      ]

  verdict_own :
      (e : Entry) (v : Bytes) (err : Option Error)
      → IsOwn files (at e.key) e v err
      → verdict l lim files s e
        ≡ verdict_read l lim files e.timestampbits (gave (at e.key).timestampbits v err)
  verdict_own e v err (stamp, some_stamp, real, fp, is_file, gives) =
      let early : ltb e.timestampbits (at e.key).timestampbits ≡ false = ground (arith, stamp) in
      let nonzero : ((at e.key).timestampbits == 0) ≡ false = ground (arith, stamp, some_stamp) in
      verdict_lem e ∙ simp (early, nonzero, reading_own e.key v err fp real is_file gives) refl

-- Timestampbits of 64 bits without the mark of a compaction's rewrite.
abbrev pub IsPlain : Entry → Type 0
IsPlain e = (e.timestampbits % 2 ≡ 0) × (e.timestampbits < 2 ^ 64)

-- Where the entry's key is after its turn.
abbrev pub Own : {l : LocMap} → Store l → Store l → Entry × Fate → Type 0
Own {l} s z (e, old) = l.get z.map e.key ≡ l.get s.map e.key
Own {l} s z (e, broken) = l.get z.map e.key ≡ l.get s.map e.key
Own {l} s z (e, moved v) =
    ((l.get z.map e.key).timestampbits ≡ e.timestampbits) × HeldAt z (l.get z.map e.key) v

abbrev pub add_broken : Fate → ℕ → ℕ
add_broken broken n = up n
add_broken old n = n
add_broken (moved v) n = n

-- What a turn does, and leaves alone.
pub record Turned {l : LocMap} (lim : Limits) (files : ℕ → Option FileReader) (on : Bool)
    (s : Store l) (p : Entry × Fate) (c : Counts) : Type 0 where
  pub after : Store l
  pub counts : Counts
  pub ran : compact_entry l lim files s p.0 c ≡ answered after (counts, true)
  pub own : Own s after p
  pub others : (j : Key) → j ≢ p.0.key → l.get after.map j ≡ l.get s.map j
  pub carried : (x : Location) (v : Bytes) → HeldAt s x v → HeldAt after x v
  pub sound : IsSound lim on after.workers after.free
  pub fewer : length s.free ≤ suc (length after.free)
  pub no_write_error : counts.write_errors ≡ c.write_errors
  pub read_errors : counts.read_errors ≡ add_broken p.1 c.read_errors

module _ (l : LocMap) (lim : Limits) (laws : IsLocMap l) (fit : IsLimits lim)
    (files : ℕ → Option FileReader) (on : Bool) where
  passed :
      (s : Store l) (e : Entry) (f : Fate) (c d : Counts) (v : Verdict l lim files)
      → verdict l lim files s e ≡ v
      → follow l lim files v s e (record c { count = up c.count }) ≡ answered s (d, true)
      → Own s s (e, f)
      → IsSound lim on s.workers s.free
      → d.write_errors ≡ c.write_errors
      → d.read_errors ≡ add_broken f c.read_errors
      → Turned lim files on s (e, f) c
  unfolding compact_entry
  passed s e f c d v judged went own sound writes reads = record {
    after = s;
    counts = d;
    ran = ap (λ u. follow l lim files u s e (record c { count = up c.count })) judged ∙ went;
    own = own;
    others = λ j ne. refl;
    carried = λ x u held. held;
    sound = sound;
    fewer = omega arith;
    no_write_error = writes;
    read_errors = reads;
  }

  moved_own :
      (s : Store l) (e : Entry) (v : Bytes) (t : ℕ)
      → t ≡ e.timestampbits + 1
      → IsPlain e
      → (l.get s.map e.key).timestampbits ≡ e.timestampbits
      → let req : WriteReq = record {
        key = e.key;
        timestampbits = t;
        value = v;
        internal = true;
      } in
        (z : Store l) → TookIn s req z → Own s z (e, moved v)
  moved_own s e v t marked (even, h64) stamp z (inl (newer, bits, held)) = (
    bits ∙ omega (arith, bit_and_not_one t (omega (arith, marked, even, h64)), marked, even),
    held,
  )
  moved_own s e v t marked (even, h64) stamp z (inr (older, same)) =
      absurd (omega (arith, older, stamp, marked))

  pub entry-Turned :
      (s : Store l) (e : Entry) (f : Fate) (c : Counts)
      → IsPlain e
      → Meets files lim.value_cap (l.get s.map e.key) (e, f)
      → IsSound lim on s.workers s.free
      → 0 < length s.free
      → Turned lim files on s (e, f) c
  unfolding compact_entry
  entry-Turned s e old c plain meets sound some_free =
      passed s e old c _ outdated (verdict_old l lim files s e meets) refl refl sound refl refl
  entry-Turned s e broken c plain (v, err, real_error, own) sound some_free =
      passed s e broken c _ unreadable
        (verdict_own l lim files s e v (some err) own ∙ simp real_error refl) refl refl sound refl
        refl
  entry-Turned s e (moved v) c plain (short, own) sound some_free =
      let t = bit_or e.timestampbits tsb_compaction_rewrite in
      let marked : t ≡ e.timestampbits + 1 = omega (arith, bit_or-one e.timestampbits, plain) in
      let req : WriteReq = record { key = e.key; timestampbits = t; value = v; internal = true } in
      let w =
        write-Effect l lim laws fit s on sound some_free req (omega (arith, marked, plain))
          (ground arith) short in
      let counted : Counts = record c { count = up c.count } in
      let level : ltb e.timestampbits (l.get s.map e.key).timestampbits ≡ false =
        ground (arith, own) in
      let judged : verdict l lim files s e ≡ rewrite v =
        verdict_own l lim files s e v none own ∙ simp level refl in
      record {
        after = w.after;
        counts = record counted { rewrote = up c.rewrote };
        ran =
            ap (λ u. follow l lim files u s e counted) judged
            ∙ ap (rewritten l lim files counted) w.ran;
        own = moved_own s e v t marked plain own.0 w.after w.took;
        others = w.others;
        carried = w.carried;
        sound = w.sound;
        fewer = w.fewer;
        no_write_error = refl;
        read_errors = refl;
      }
