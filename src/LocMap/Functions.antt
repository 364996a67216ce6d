-- ===== src/LocMap/Functions.antt =====
-- A location map that is a function of the key, an instance of `IsLocMap`.
use mathlib.Core.Path.{subst}
use valuestore.Base.{
  ◌≡◌, ◌<◌, ◌≢◌, ◌⊎◌, refl, sym, Bool, true, false, ◌&&◌, inl, inr, ◌==◌, if◌then◌else◌, Bool-cases,
  arith,
}
use valuestore.LocMap.{Key, Location, LocMap, IsLocMap, supersedes}

abbrev pub nowhere : Location
nowhere = record { timestampbits = 0; block_id = 0; offset = 0; size = 0 }

abbrev pub same_key : Key → Key → Bool
same_key j k = (j.key_a == k.key_a) && (j.key_b == k.key_b)

abbrev pub put : (Key → Location) → Key → Location → Key → Location
put m k x j = if same_key j k then (if x.block_id == 0 then nowhere else x) else m j

abbrev pub functions : LocMap
functions = record {
  Map = Key → Location;
  get = λ m k. m k;
  set = λ m k x same. (
    (m k).timestampbits,
    if supersedes same (m k).timestampbits x.timestampbits then put m k x else m,
  );
}

key_ext : (j k : Key) → j.key_a ≡ k.key_a → j.key_b ≡ k.key_b → j ≡ k
key_ext j k p q = λ i. record { key_a = p i; key_b = q i }

-- The test of two keys.
pub same_key_sound : (j k : Key) → same_key j k ≡ true → j ≡ k
same_key_sound j k e = key_ext j k (ground (arith, e)) (ground (arith, e))

same_key-differs : (j k : Key) → j ≢ k → same_key j k ≡ false
same_key-differs j k ne = elim (Bool-cases (same_key j k)) [
  | inl e ↦ absurd (ne (same_key_sound j k e))
  | inr e ↦ e
]

pub same_key_self : (k : Key) → same_key k k ≡ true
same_key_self k = ground arith

pub key_cases : (j k : Key) → (j ≡ k) ⊎ (j ≢ k)
key_cases j k = elim (Bool-cases (same_key j k)) [
  | inl e ↦ inl (same_key_sound j k e)
  | inr e ↦ inr (λ eq.
      let same : same_key j k ≡ true =
        subst (λ i. same_key i k ≡ true) (sym eq) (same_key_self k) in
      cc)
]

put_self : (m : Key → Location) (k : Key) (x : Location) → 0 < x.block_id → put m k x k ≡ x
put_self m k x h =
    let e : (x.block_id == 0) ≡ false = ground (arith, h) in simp (same_key_self k, e) refl

pub functions-IsLocMap : IsLocMap functions
functions-IsLocMap = record {
  previous = λ m k x same. refl;
  elsewhere = λ m k j x same ne.
      elim (Bool-cases (supersedes same (m k).timestampbits x.timestampbits)) [
        | inl e ↦ simp (e, same_key-differs j k ne) refl
        | inr e ↦ simp e refl
      ];
  kept = λ m k x same e. simp e refl;
  stored = λ m k x same e h. simp e (put_self m k x h);
}
