-- ===== src/MemWriter/Taken.antt =====
-- valuestore_GEN_.go, memWriter: all that a request which is admitted does, newer or not.
use valuestore.Base.{
  ℕ, ◌≤◌, ◌<◌, ◌^◌, ◌≡◌, ◌≢◌, ◌⊎◌, refl, true, ◌||◌, none, some, inl, inr, arith, ltb, Bool-cases,
  length,
}
use valuestore.LocMap.{Key, LocMap, IsLocMap}
use valuestore.MemWriter.{
  Limits, MemBlock, WriteReq, Writer, Turn, running, stopped, waits, panicked, stored, refused,
  request, turn,
}
use valuestore.MemWriter.Bounds.{IsLimits, IsWriter, Keeps, turn-Keeps}
use valuestore.MemWriter.ReadBack.{
  Accepted, HoldsValue, Ignored, IsReady, turn-Accepted, turn-Ignored,
}
use valuestore.MemWriter.Survival.{IsKept, Survives, turn-Survives}
use valuestore.MemWriter.Upkeep.{Tidy, turn-Tidy}

-- A newer value is where the map says; an older one changes no location of the key.
abbrev pub Took : {l : LocMap} → Writer l → WriteReq → Writer l → Type 0
Took {l} w req after =
    (((l.get w.map req.key).timestampbits < req.timestampbits)
      × HoldsValue l after.mem_block after.map req)
    ⊎ ((req.timestampbits ≤ (l.get w.map req.key).timestampbits)
        × (l.get after.map req.key ≡ l.get w.map req.key))

pub record Taken {l : LocMap} (lim : Limits) (w : Writer l) (req : WriteReq) : Type 0 where
  pub after : Writer l
  pub previous : ℕ
  pub ran : turn l lim w (request req) ≡ running after (some (stored previous))
  pub was : previous ≡ (l.get w.map req.key).timestampbits
  pub took : Took w req after
  pub others : (j : Key) → j ≢ req.key → l.get after.map j ≡ l.get w.map j
  pub tidy : Tidy w.filed w.enabled (length w.free) (running after (some (stored previous)))
  pub well_formed : IsWriter lim after
  pub kept : (b : MemBlock) → w.mem_block ≡ some b → IsKept b w.filed after

module _ (l : LocMap) (lim : Limits) (laws : IsLocMap l) (fit : IsLimits lim) where
  taken_of :
      (w : Writer l) (req : WriteReq) (t : Turn l)
      → turn l lim w (request req) ≡ t
      → ((((l.get w.map req.key).timestampbits < req.timestampbits) × Accepted l w.map req t)
          ⊎ ((req.timestampbits ≤ (l.get w.map req.key).timestampbits) × Ignored l w.map req t))
      → Tidy w.filed w.enabled (length w.free) t
      → Keeps lim t
      → ((b : MemBlock) → w.mem_block ≡ some b → Survives b w.filed t)
      → Taken lim w req
  taken_of w req (running v (some (stored p))) e (inl (newer, (ep, held, others))) tidy iw kept =
      record {
        after = v;
        previous = p;
        ran = e;
        was = ep;
        took = inl (newer, held);
        others = others;
        tidy = tidy;
        well_formed = iw;
        kept = kept;
      }
  taken_of w req (running v (some (stored p))) e (inr (older, (ep, same, others))) tidy iw kept =
      record {
        after = v;
        previous = p;
        ran = e;
        was = ep;
        took = inr (older, same);
        others = others;
        tidy = tidy;
        well_formed = iw;
        kept = kept;
      }
  taken_of w req (running v (some (refused x))) e (inl (newer, acc)) tidy iw kept = absurd acc
  taken_of w req (running v (some (refused x))) e (inr (older, acc)) tidy iw kept = absurd acc
  taken_of w req (running v none) e (inl (newer, acc)) tidy iw kept = absurd acc
  taken_of w req (running v none) e (inr (older, acc)) tidy iw kept = absurd acc
  taken_of w req (stopped v) e effect tidy iw kept = absurd tidy
  taken_of w req (waits v) e effect tidy iw kept = absurd tidy
  taken_of w req panicked e effect tidy iw kept = absurd tidy

  pub turn-Taken :
      (w : Writer l) (req : WriteReq)
      → IsReady l lim laws w
      → (w.enabled || req.internal) ≡ true
      → length req.value ≤ lim.value_cap
      → req.timestampbits < 2 ^ 64
      → Taken lim w req
  turn-Taken w req ready allowed short h64 =
      let t = turn l lim w (request req) in
      let effect : (((l.get w.map req.key).timestampbits < req.timestampbits)
            × Accepted l w.map req t)
          ⊎ ((req.timestampbits ≤ (l.get w.map req.key).timestampbits) × Ignored l w.map req t) =
        elim (Bool-cases (ltb (l.get w.map req.key).timestampbits req.timestampbits)) [
          | inl e ↦
              let newer : (l.get w.map req.key).timestampbits < req.timestampbits =
                ground (arith, e) in
              inl (newer, turn-Accepted l lim laws fit w req ready allowed short h64 newer)
          | inr e ↦
              let older : req.timestampbits ≤ (l.get w.map req.key).timestampbits =
                ground (arith, e) in
              inr (older, turn-Ignored l lim laws fit w req ready allowed short h64 older)
        ] in
      taken_of w req t refl effect (turn-Tidy l lim laws fit w req ready allowed short)
        (turn-Keeps l lim fit w (request req) ready.well_formed)
        (λ b e. turn-Survives l lim fit w b (request req) ready.well_formed e)
