-- ===== src/Store/Refines.antt =====
-- valuestore_GEN_.go: calls of Write and Delete do what is promised of them.
use mathlib.Core.Path.{subst}
use native.Mathlib.Nat.{mod-lt}
use valuestore.Base.{
  ℕ, suc, ◌/◌, ◌≤◌, ◌<◌, ◌≡◌, refl, sym, ap, ◌∙◌, ℤ, pos, negsuc, Bool, true, false, not, ◌||◌,
  List, [], ◌∷◌, Option, none, some, inl, inr, arith, bit_or, ltb, if◌then◌else◌, Option-cases,
  length, All-get_elem?,
}
use valuestore.Base.Bytes.{Bytes}
use valuestore.Base.Bits.{bit_or_128}
use valuestore.Package.{Error, disabled, value_too_long, timestamp_too_small, tsb_deletion}
use valuestore.LocMap.{Key, LocMap, IsLocMap}
use valuestore.MemWriter.{Limits, WriteReq}
use valuestore.MemWriter.Bounds.{IsLimits}
use valuestore.Store.{
  Store, Answer, answered, blocked, crashed, bump, micro_of, at_most, worker_index, count_write,
  count_delete, bound_error, bits_of, write_done, write_bounded, api_write, delete_done,
  delete_bounded, api_delete,
}
use valuestore.Store.Switches.{Refused, write_error, api_write-Refused, first_error}
use valuestore.Store.Effects.{IsAble, IsSound, some_worker}
use valuestore.Store.Models.{Models, write-Models}
use valuestore.Store.Calls.{
  Call, or_fault, offer, writing, deleting, Told, was, error, told, Spec, call, and_told, run_calls,
  fault, offered, spec_call, spec_run,
}

module _ (l : LocMap) (lim : Limits) (laws : IsLocMap l) (fit : IsLimits lim) (on : Bool) where
  -- The call is answered as promised, and what is promised of the store goes on to hold.
  abbrev Steps : Store l → Spec → Call → Type 0
  Steps s a c =
      (after : Store l) × (r : ℕ × Option Error) × (call l lim s c ≡ answered after r)
      × (told r ≡ (spec_call l lim on a c).1)
      × Models after (spec_call l lim on a c).0
      × IsSound lim on after.workers after.free
      × (length s.free ≤ suc (length after.free))

  Refused-Steps :
      (s : Store l) (a : Spec) (c : Call) (e : Error) (r : Answer l (ℕ × Option Error))
      → Models s a
      → IsSound lim on s.workers s.free
      → fault l lim on c ≡ some e
      → call l lim s c ≡ r
      → Refused l s e r
      → Steps s a c
  unfolding spec_call
  Refused-Steps s a c e (answered z (p, some x)) models sound bad ran (same, kept) =
      let back : (o : Option Error) → o ≡ some e → or_fault o a (offered l lim a c) ≡ (a, error e) =
        λ o eq. ap (λ q. or_fault q a (offered l lim a c)) eq in
      let promised = back (fault l lim on c) bad in
      (
        z,
        (p, some x),
        ran,
        ap error same ∙ ap (λ (q : Spec × Told). q.1) (sym promised),
        subst (λ (q : Spec × Told). Models z q.0) (sym promised)
            (subst (λ y. Models y a) (sym kept) models),
        subst (λ (y : Store l). IsSound lim on y.workers y.free) (sym kept) sound,
        omega (arith, ap (λ (y : Store l). length y.free) kept),
      )
  Refused-Steps s a c e (answered z (p, none)) models sound bad ran h = absurd h
  Refused-Steps s a c e blocked models sound bad ran h = absurd h
  Refused-Steps s a c e crashed models sound bad ran h = absurd h

  admitted :
      (k : Key) (m : ℕ) (v : Bytes)
      → fault l lim on (writing k (pos m) v) ≡ none
      → (bound_error l lim (pos m) ≡ none) × (on ≡ true) × (length v ≤ lim.value_cap)
  admitted k m v good = ground arith

  writing-Steps :
      (s : Store l) (a : Spec) (k : Key) (m : ℕ) (v : Bytes)
      → Models s a
      → IsSound lim on s.workers s.free
      → 0 < length s.free
      → fault l lim on (writing k (pos m) v) ≡ none
      → Steps s a (writing k (pos m) v)
  unfolding call spec_call api_write write_bounded write_done
  writing-Steps s a k m v models sound some_free good =
      let counted : Store l = record s {
        counters = record s.counters { writes = bump s.counters.writes };
      } in
      let (in_bounds, allowed, short) = admitted k m v good in
      let bits = bits_of l lim (pos m) in
      let req : WriteReq = record { key = k; timestampbits = bits; value = v; internal = false } in
      let w =
        write-Models l lim laws fit counted a on models sound some_free req (omega arith)
          (ap (◌|| false) allowed) short (some v) (omega arith, refl) in
      let (z, p, ran, told_p, models', sound', fewer) = w in
      let promised : spec_call l lim on a (writing k (pos m) v) ≡ offer a k (bits, some v) =
        ap (λ o. or_fault o a (offer a k (bits, some v))) good in
      (
        count_write l lim false (at_most l lim (pos m) (micro_of p)) z,
        (micro_of p, none),
        ap (λ o. write_bounded l lim o counted k (pos m) v) in_bounds
            ∙ ap (write_done l lim (pos m)) ran,
        ap (λ q. was (micro_of q)) told_p ∙ ap (λ (q : Spec × Told). q.1) (sym promised),
        subst (λ (q : Spec × Told). Models z q.0) (sym promised) models',
        sound',
        fewer,
      )

  deleting-Steps :
      (s : Store l) (a : Spec) (k : Key) (m : ℕ)
      → Models s a
      → IsSound lim on s.workers s.free
      → 0 < length s.free
      → bound_error l lim (pos m) ≡ none
      → Steps s a (deleting k (pos m))
  unfolding call spec_call api_delete delete_bounded delete_done
  deleting-Steps s a k m models sound some_free good =
      let counted : Store l = record s {
        counters = record s.counters { deletes = bump s.counters.deletes };
      } in
      let bits = bit_or (bits_of l lim (pos m)) tsb_deletion in
      let req : WriteReq = record { key = k; timestampbits = bits; value = []; internal = true } in
      let wide = bit_or_128 (bits_of l lim (pos m)) in
      let w =
        write-Models l lim laws fit counted a on models sound some_free req (omega (arith, wide))
          (ground arith) (omega arith) none (omega (arith, wide), omega (arith, wide)) in
      let (z, p, ran, told_p, models', sound', fewer) = w in
      let promised : spec_call l lim on a (deleting k (pos m)) ≡ offer a k (bits, none) =
        ap (λ o. or_fault o a (offer a k (bits, none))) good in
      (
        count_delete l lim false (at_most l lim (pos m) (micro_of p)) z,
        (micro_of p, none),
        ap (λ o. delete_bounded l lim o counted k (pos m)) good
            ∙ ap (delete_done l lim (pos m)) ran,
        ap (λ q. was (micro_of q)) told_p ∙ ap (λ (q : Spec × Told). q.1) (sym promised),
        subst (λ (q : Spec × Told). Models z q.0) (sym promised) models',
        sound',
        fewer,
      )

  deleting_refused-Steps :
      (s : Store l) (a : Spec) (k : Key) (micro : ℤ) (e : Error)
      → Models s a
      → IsSound lim on s.workers s.free
      → bound_error l lim micro ≡ some e
      → Steps s a (deleting k micro)
  unfolding call spec_call api_delete delete_bounded
  deleting_refused-Steps s a k micro e models sound bad =
      let counted : Store l = record s {
        counters = record s.counters { deletes = bump s.counters.deletes };
      } in
      let promised : spec_call l lim on a (deleting k micro) ≡ (a, error e) =
        ap (λ o. or_fault o a (offered l lim a (deleting k micro))) bad in
      (
        count_delete l lim true false counted,
        (0, some e),
        ap (λ o. delete_bounded l lim o counted k micro) bad,
        ap (λ (q : Spec × Told). q.1) (sym promised),
        subst (λ (q : Spec × Told). Models s q.0) (sym promised) models,
        sound,
        omega arith,
      )

  writing_refused-Steps :
      (s : Store l) (a : Spec) (k : Key) (micro : ℤ) (v : Bytes) (e : Error)
      → Models s a
      → IsSound lim on s.workers s.free
      → fault l lim on (writing k micro v) ≡ some e
      → Steps s a (writing k micro v)
  unfolding call
  writing_refused-Steps s a k micro v e models sound bad =
      let (worker, at) =
        some_worker s.workers (worker_index l lim s k) (mod-lt (k.key_a / 2) sound.0) in
      let able =
        All-get_elem? (IsAble lim on) s.workers (worker_index l lim s k) worker sound.1 at in
      let met : write_error l lim worker micro v ≡ some e =
        subst
          (λ b.
            first_error (bound_error l lim micro) (
              if not b
              then some disabled
              else if ltb lim.value_cap (length v)
              then some value_too_long
              else none)
            ≡ some e)
          (sym able.4) bad in
      Refused-Steps s a (writing k micro v) e (api_write l lim s k micro v) models sound bad refl
        (api_write-Refused l lim s worker k micro v e at met)

  call-Steps :
      (s : Store l) (a : Spec) (c : Call)
      → Models s a
      → IsSound lim on s.workers s.free
      → 0 < length s.free
      → Steps s a c
  call-Steps s a (writing k (negsuc n) v) models sound some_free =
      writing_refused-Steps s a k (negsuc n) v timestamp_too_small models sound refl
  call-Steps s a (writing k (pos m) v) models sound some_free =
      elim (Option-cases (fault l lim on (writing k (pos m) v))) [
        | inl good ↦ writing-Steps s a k m v models sound some_free good
        | inr (e, bad) ↦ writing_refused-Steps s a k (pos m) v e models sound bad
      ]
  call-Steps s a (deleting k (negsuc n)) models sound some_free =
      deleting_refused-Steps s a k (negsuc n) timestamp_too_small models sound refl
  call-Steps s a (deleting k (pos m)) models sound some_free =
      elim (Option-cases (bound_error l lim (pos m))) [
        | inl good ↦ deleting-Steps s a k m models sound some_free good
        | inr (e, bad) ↦ deleting_refused-Steps s a k (pos m) e models sound bad
      ]

  -- Any calls, for which there are enough free blocks.
  pub run_calls-Models :
      (cs : List Call) (s : Store l) (a : Spec)
      → Models s a
      → IsSound lim on s.workers s.free
      → length cs ≤ length s.free
      → (after : Store l) × (run_calls l lim s cs ≡ answered after (spec_run l lim on a cs).1)
        × Models after (spec_run l lim on a cs).0
        × IsSound lim on after.workers after.free
  unfolding run_calls spec_run
  run_calls-Models [] s a models sound enough = (s, refl, models, sound)
  run_calls-Models (c ∷ cs) s a models sound enough =
      let (z, r, ran, said, models', sound', fewer) =
        call-Steps s a c models sound (omega (arith, enough)) in
      let (after, rest, models'', sound'') =
        run_calls-Models cs z (spec_call l lim on a c).0 models' sound'
          (omega (arith, enough, fewer)) in
      (
        after,
        ap
              (λ (q : Answer l (ℕ × Option Error)). elim q [
                | answered y u ↦ and_told l lim u (run_calls l lim y cs)
                | blocked ↦ blocked
                | crashed ↦ crashed
              ])
              ran
            ∙ ap (and_told l lim r) rest
            ∙ ap (λ u. answered after (u ∷ (spec_run l lim on (spec_call l lim on a c).0 cs).1))
                said,
        models'',
        sound'',
      )
