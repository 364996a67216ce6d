-- ===== src/LocMap.antt =====
-- The location map of github.com/gholt/locmap, which is not part of the repository: where a key's
-- latest value lies. The store relies on the laws of `IsLocMap`, which its documentation states.
pub mod Functions
use valuestore.Base.{ℕ, ◌<◌, ◌≡◌, ◌≢◌, Bool, true, false, ◌&&◌, ◌||◌, ltb, ◌==◌}

pub record Key : Type 0 where
  pub key_a : ℕ
  pub key_b : ℕ

-- A missing key has the location of four zeroes.
pub record Location : Type 0 where
  pub timestampbits : ℕ
  pub block_id : ℕ
  pub offset : ℕ
  pub size : ℕ

-- `Set` gives the timestampbits of the location that it met.
pub record LocMap : Type 1 where
  pub Map : Type 0
  pub get : Map → Key → Location
  pub set : Map → Key → Location → Bool → ℕ × Map

-- A newer location takes the place of an older; of two with one timestamp the later only if
-- `evenIfSameTimestamp`.
abbrev pub supersedes : Bool → ℕ → ℕ → Bool
supersedes even_if_same old new = ltb old new || (even_if_same && (old == new))

pub record IsLocMap (l : LocMap) : Type 0 where
  pub previous :
      (m : l.Map) (k : Key) (x : Location) (same : Bool)
      → (l.set m k x same).0 ≡ (l.get m k).timestampbits
  pub elsewhere :
      (m : l.Map) (k j : Key) (x : Location) (same : Bool)
      → j ≢ k
      → l.get (l.set m k x same).1 j ≡ l.get m j
  pub kept :
      (m : l.Map) (k : Key) (x : Location) (same : Bool)
      → supersedes same (l.get m k).timestampbits x.timestampbits ≡ false
      → l.get (l.set m k x same).1 k ≡ l.get m k
  pub stored :
      (m : l.Map) (k : Key) (x : Location) (same : Bool)
      → supersedes same (l.get m k).timestampbits x.timestampbits ≡ true
      → 0 < x.block_id
      → l.get (l.set m k x same).1 k ≡ x
