-- ===== src/Store/Calls.antt =====
-- valuestore_GEN_.go: calls of Write and Delete, one after another, and what the store promises of
-- them: for each key the newest timestamp that was accepted, and its value if it is no tombstone.
use valuestore.Base.{
  ℕ, ℤ, Bool, not, List, [], ◌∷◌, Option, none, some, bit_or, ltb, if◌then◌else◌, length,
}
use valuestore.Base.Bytes.{Bytes}
use valuestore.Package.{Error, disabled, value_too_long, tsb_deletion}
use valuestore.LocMap.{Key, LocMap}
use valuestore.LocMap.Functions.{same_key}
use valuestore.MemWriter.{Limits}
use valuestore.Store.{
  Store, Answer, answered, blocked, crashed, micro_of, bound_error, bits_of, api_write, api_delete,
}
use valuestore.Store.Switches.{first_error}

pub data Call : Type 0 where
  writing : Key → ℤ → Bytes → Call
  deleting : Key → ℤ → Call

-- What a caller is told: the micros that were there, or an error.
pub data Told : Type 0 where
  was : ℕ → Told
  error : Error → Told

abbrev pub told : ℕ × Option Error → Told
told (p, none) = was p
told (p, some e) = error e

-- Timestampbits, and a value or a tombstone; a key that was never written has 0 and no value.
abbrev pub Spec : Type 0
Spec = Key → ℕ × Option Bytes

abbrev pub update : Spec → Key → ℕ × Option Bytes → Spec
update a k x j = if same_key j k then x else a j

-- A newer entry takes the key, and the caller is told what was there.
abbrev pub offer : Spec → Key → ℕ × Option Bytes → Spec × Told
offer a k x = (if ltb (a k).0 x.0 then update a k x else a, was (micro_of (a k).0))

abbrev pub or_fault : Option Error → Spec → Spec × Told → Spec × Told
or_fault none a done = done
or_fault (some e) a done = (a, error e)

module _ (l : LocMap) (lim : Limits) where
  unfoldable pub call : Store l → Call → Answer l (ℕ × Option Error)
  call s (writing k micro v) = api_write l lim s k micro v
  call s (deleting k micro) = api_delete l lim s k micro

  abbrev pub and_told : ℕ × Option Error → Answer l (List Told) → Answer l (List Told)
  and_told r (answered s rs) = answered s (told r ∷ rs)
  and_told r blocked = blocked
  and_told r crashed = crashed

  unfoldable pub run_calls : Store l → List Call → Answer l (List Told)
  run_calls s [] = answered s []
  run_calls s (c ∷ cs) = elim (call s c) [
    | answered after r ↦ and_told r (run_calls after cs)
    | blocked ↦ blocked
    | crashed ↦ crashed
  ]

  -- The error that a call meets where writes are enabled (`on`) or not.
  abbrev pub fault : Bool → Call → Option Error
  fault on (writing k micro v) = first_error (bound_error l lim micro) (
      if not on
      then some disabled
      else if ltb lim.value_cap (length v)
      then some value_too_long
      else none)
  fault on (deleting k micro) = bound_error l lim micro

  abbrev pub offered : Spec → Call → Spec × Told
  offered a (writing k micro v) = offer a k (bits_of l lim micro, some v)
  offered a (deleting k micro) = offer a k (bit_or (bits_of l lim micro) tsb_deletion, none)

  unfoldable pub spec_call : Bool → Spec → Call → Spec × Told
  spec_call on a c = or_fault (fault on c) a (offered a c)

  unfoldable pub spec_run : Bool → Spec → List Call → Spec × List Told
  spec_run on a [] = (a, [])
  spec_run on a (c ∷ cs) =
      let (b, t) = spec_call on a c in let (z, ts) = spec_run on b cs in (z, t ∷ ts)
