-- ===== src/Reader.antt =====
-- `io.Reader` as the message handlers use it, and their two reading loops. The loops stand in
-- valuebulkset_GEN_.go and valuebulksetack_GEN_.go; the reader itself is the message ring's.
pub mod Loops
pub mod Supply
use valuestore.Base.{
  ℕ, zero, suc, ◌+◌, ◌-◌, ◌≤◌, ◌<◌, ◌≡◌, Bool, List, [], ◌++◌, Option, none, some, ◌⊎◌, ◌≢◌, leb,
  ltb, ◌==◌, if◌then◌else◌, length,
}
use valuestore.Base.Bytes.{Bytes}

-- One call of `Read` on a slice of a given length: the bytes read, the error or `none`, and the
-- reader behind them. `rest` is what the reader has still to deliver.
pub record Reader : Type 1 where
  pub R : Type 0
  pub read : R → ℕ → (Bytes × Option ℕ) × R
  pub rest : R → Bytes

-- What `io.Reader` documents, with its advice never to return no byte and no error.
pub record IsReader (io : Reader) : Type 0 where
  pub within : (r : io.R) (n : ℕ) → length (io.read r n).0.0 ≤ n
  pub progress :
      (r : io.R) (n : ℕ) → 0 < n → (io.read r n).0.1 ≡ none → 0 < length (io.read r n).0.0
  pub in_order : (r : io.R) (n : ℕ) → (io.read r n).0.0 ++ io.rest (io.read r n).1 ≡ io.rest r

-- How a reading loop ends. `stuck` is no Go value: the loop ran out of fuel.
pub data Filled (R : Type 0) : Type 0 where
  filled : Bytes → R → Filled R
  failed : Bytes → ℕ → R → Filled R
  stuck : Filled R

pub data Discarded (R : Type 0) : Type 0 where
  discarded : R → Discarded R
  broken : ℕ → ℕ → R → Discarded R
  endless : Discarded R

module _ (io : Reader) where
  -- `for n != len(buf) { sn, err = r.Read(buf[n:]); n += sn; if err != nil { … return } }`;
  -- `acc` is `buf[:n]`
  unfoldable pub fill : ℕ → ℕ → Bytes → io.R → Filled io.R
  fill zero want acc r = if length acc == want then filled acc r else stuck
  fill (suc fuel) want acc r =
      let sn = io.read r (want - length acc) in
      let more = fill fuel want (acc ++ sn.0.0) sn.1 in
      let next : Filled io.R = elim (sn.0.1) [
        | none ↦ more
        | some e ↦ failed (acc ++ sn.0.0) e sn.1
      ] in
      if length acc == want then filled acc r else next

  -- `for left > 0 { … r.Read(toss[:left]) … left -= uint64(sn); if err != nil { … } }`
  unfoldable pub discard : ℕ → ℕ → io.R → Discarded io.R
  discard zero left r = if left == 0 then discarded r else endless
  discard (suc fuel) left r =
      let sn = io.read r (if ltb left 65536 then left else 65536) in
      let more = discard fuel (left - length sn.0.0) sn.1 in
      let next : Discarded io.R = elim (sn.0.1) [
        | none ↦ more
        | some e ↦ broken (left - length sn.0.0) e sn.1
      ] in
      if left == 0 then discarded r else next
