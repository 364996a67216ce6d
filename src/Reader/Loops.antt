-- ===== src/Reader/Loops.antt =====
-- The reading loops of the message handlers: their ends and what they deliver.
use valuestore.Base.{
  ℕ, zero, suc, ◌+◌, ◌-◌, ◌≤◌, ◌<◌, ◌≡◌, refl, sym, ◌∙◌, ap, ◌++◌, none, some, inl, inr, Bool-cases,
  Option-cases, append_assoc, arith, ltb, ◌==◌, if◌then◌else◌, length, length-append,
}
use valuestore.Base.Bytes.{Bytes}
use valuestore.Reader.{
  Reader, IsReader, Filled, filled, failed, stuck, Discarded, discarded, broken, endless, fill,
  discard,
}

-- A full buffer holds what was read before and the reader's next bytes; a failed one holds what
-- came, in order, and no more than fits.
abbrev pub FillsFrom : (io : Reader) → ℕ → Bytes → Filled io.R → Type 0
FillsFrom io want all (filled b r) = (length b ≡ want) × (b ++ io.rest r ≡ all)
FillsFrom io want all (failed b e r) = (length b ≤ want) × (b ++ io.rest r ≡ all)
FillsFrom io want all stuck = ⊥

abbrev pub Discards : (io : Reader) → ℕ → io.R → Discarded io.R → Type 0
Discards io left r (discarded r') = length (io.rest r') + left ≡ length (io.rest r)
Discards io left r (broken left' e r') =
    (left' ≤ left) × (length (io.rest r') + (left - left') ≡ length (io.rest r))
Discards io left r endless = ⊥

module _ (io : Reader) (doc : IsReader io) where
  -- One more `Read` puts its bytes between those read before and those still to come.
  in_order_append :
      (acc : Bytes) (r : io.R) (n : ℕ)
      → (acc ++ (io.read r n).0.0) ++ io.rest (io.read r n).1 ≡ acc ++ io.rest r
  in_order_append acc r n = append_assoc acc _ _ ∙ ap (λ b. acc ++ b) (doc.in_order r n)

  grown : (acc : Bytes) (r : io.R) (n : ℕ) → length (acc ++ (io.read r n).0.0) ≤ length acc + n
  grown acc r n = omega (arith, length-append acc (io.read r n).0.0, doc.within r n)

  -- With one round of fuel for each byte that is missing, `fill` ends.
  pub fill_total :
      (fuel want : ℕ) (acc : Bytes) (r : io.R)
      → length acc ≤ want
      → want - length acc ≤ fuel
      → FillsFrom io want (acc ++ io.rest r) (fill io fuel want acc r)
  unfolding fill
  fill_total zero want acc r short h = ground arith
  fill_total (suc fuel) want acc r short h = elim (Bool-cases (length acc == want)) [
    | inl full ↦ rw full (ground arith, refl)
    | inr more ↦ rw more (elim (Option-cases ((io.read r (want - length acc)).0.1)) [
      | inl fine ↦ rw fine (
          rw (in_order_append acc r (want - length acc)) at (
            fill_total fuel want (acc ++ (io.read r (want - length acc)).0.0)
              (io.read r (want - length acc)).1 (omega (arith, grown acc r (want - length acc)))
              (ground (
                arith,
                length-append acc (io.read r (want - length acc)).0.0,
                doc.progress r (want - length acc),
              ))))
      | inr (e, bad) ↦ rw bad (
        omega (arith, grown acc r (want - length acc)),
        in_order_append acc r (want - length acc),
      )
    ])
  ]

  delivered :
      (r : io.R) (n : ℕ)
      → length (io.read r n).0.0 + length (io.rest (io.read r n).1) ≡ length (io.rest r)
  delivered r n = sym (length-append _ _) ∙ ap length (doc.in_order r n)

  Discards-later :
      (k left : ℕ) (r r' : io.R) (d : Discarded io.R)
      → k ≤ left
      → k + length (io.rest r') ≡ length (io.rest r)
      → Discards io (left - k) r' d
      → Discards io left r d
  Discards-later k left r r' (discarded s) h e p = omega arith
  Discards-later k left r r' (broken l x s) h e p = omega arith
  Discards-later k left r r' endless h e p = p

  -- With one round of fuel for each byte, `discard` ends, and drops no byte beyond those asked.
  pub discard_total :
      (fuel left : ℕ) (r : io.R) → left ≤ fuel → Discards io left r (discard io fuel left r)
  unfolding discard
  discard_total zero left r h = ground arith
  discard_total (suc fuel) left r h = elim (Bool-cases (left == 0)) [
    | inl done ↦ rw done (ground arith)
    | inr more ↦ rw more (
        round (discard_total fuel) (if ltb left 65536 then left else 65536) (ground arith)
          (ground arith))
  ]
    where
      round :
          ((l : ℕ) (t : io.R) → l ≤ fuel → Discards io l t (discard io fuel l t))
          → (n : ℕ) → 0 < n
          → n ≤ left
          → Discards io left r (elim ((io.read r n).0.1) as (λ x. Discarded io.R) [
            | none ↦ discard io fuel (left - length (io.read r n).0.0) (io.read r n).1
            | some e ↦ broken (left - length (io.read r n).0.0) e (io.read r n).1
          ])
      round later n pos fits = elim (Option-cases ((io.read r n).0.1)) [
        | inl fine ↦ rw fine (
            Discards-later (length (io.read r n).0.0) left r (io.read r n).1 _
              (omega (arith, doc.within r n)) (delivered r n)
              (later _ _ (omega (arith, doc.progress r n pos fine))))
        | inr (e, bad) ↦ rw bad (omega (arith, delivered r n, doc.within r n))
      ]
