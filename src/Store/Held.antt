-- ===== src/Store/Held.antt =====
-- valuestore_GEN_.go: the values that the blocks of a store hold, those in work and those that
-- wait for the file writer.
use mathlib.Core.Path.{subst}
use native.Mathlib.Decide.{ℕ_discrete}
use valuestore.Base.{
  ℕ, ◌+◌, ◌≤◌, ◌<◌, ◌≡◌, ◌⊎◌, refl, sym, ap, ◌∙◌, List, ◌∷◌, ◌++◌, Option, none, some, inl, inr,
  arith, length, length-take, take, drop, get_elem?, get_elem?-set, get_elem?-set_ne, append_assoc,
  take-drop-take,
}
use valuestore.Base.Bytes.{Bytes}
use valuestore.LocMap.{Location, LocMap}
use valuestore.MemWriter.{MemBlock, FileMsg, file, Writer, WriteReq, Limits}
use valuestore.MemWriter.ReadBack.{HoldsValue, slice}
use valuestore.MemWriter.Survival.{Extends, IsKept}
use valuestore.Store.{Store, Worker, with_writer}
use valuestore.Store.ReadBack.{block_of}

-- A worker works on the block, or it was sent to the file writer.
abbrev pub InStore : {l : LocMap} → Store l → MemBlock → Type 0
InStore s b =
    ((i : ℕ) × (block_of (get_elem? s.workers i) ≡ some b))
    ⊎ ((front : List FileMsg) × (rest : List FileMsg) × (s.filed ≡ front ++ file b ∷ rest))

abbrev pub Holds : MemBlock → Location → Bytes → Type 0
Holds b x v =
    (0 < b.id)
    × (x.block_id ≡ b.id)
    × (x.size ≡ length v)
    × (x.offset + x.size ≤ length b.values)
    × (slice b x ≡ v)

-- A block of the store has the value at the location.
abbrev pub HeldAt : {l : LocMap} → Store l → Location → Bytes → Type 0
HeldAt s x v = (b : MemBlock) × InStore s b × Holds b x v

Extends-Holds :
    (b c : MemBlock) (x : Location) (v : Bytes) → Extends b (some c) → Holds b x v → Holds c x v
Extends-Holds b c x v (id, toc, values) (some_id, at, size, inside, held) =
    let longer : length b.values ≤ length c.values =
      omega (arith, length-take (length b.values) c.values, ap (length {0}) values) in
    (
      omega (arith, some_id, id),
      at ∙ sym id,
      size,
      omega (arith, inside, longer),
      sym (take-drop-take x.size x.offset (length b.values) c.values inside)
          ∙ ap (λ (vs : Bytes). take x.size (drop x.offset vs)) values
          ∙ held,
    )

module _ (l : LocMap) (lim : Limits) (s : Store l) (i : ℕ) (old : Worker) (w : Writer l)
    (at : get_elem? s.workers i ≡ some old) where
  worker_at : block_of (get_elem? (with_writer l lim s i w).workers i) ≡ w.mem_block
  worker_at = ap block_of (
      get_elem?-set s.workers i old
        (record {
          enabled = w.enabled;
          mem_block = w.mem_block;
          toc_offset = w.toc_offset;
          mem_offset = w.mem_offset;
        })
        at)

  kept-HeldAt :
      (o : Option MemBlock) (b : MemBlock) (x : Location) (v : Bytes)
      → w.mem_block ≡ o
      → Extends b o
      → Holds b x v
      → HeldAt (with_writer l lim s i w) x v
  kept-HeldAt none b x v e ext held = absurd ext
  kept-HeldAt (some c) b x v e ext held =
      (c, inl (i, worker_at ∙ e), Extends-Holds b c x v ext held)

  -- What a block held before the round of a worker, a block holds after it.
  pub with_writer-HeldAt :
      (rest : List FileMsg) (x : Location) (v : Bytes)
      → w.filed ≡ s.filed ++ rest
      → ((b : MemBlock) → old.mem_block ≡ some b → IsKept b s.filed w)
      → HeldAt s x v
      → HeldAt (with_writer l lim s i w) x v
  with_writer-HeldAt rest x v sent kept (b, inr (front, back, e), held) = (
    b,
    inr (front, back ++ rest, sent ∙ ap (◌++ rest) e ∙ append_assoc front (file b ∷ back) rest),
    held,
  )
  with_writer-HeldAt rest x v sent kept (b, inl (j, e), held) = elim (ℕ_discrete j i) [
    | no other ↦ (
      b,
      inl (
        j,
        ap block_of (
              get_elem?-set_ne s.workers i j
                (record {
                  enabled = w.enabled;
                  mem_block = w.mem_block;
                  toc_offset = w.toc_offset;
                  mem_offset = w.mem_offset;
                })
                other)
            ∙ e,
      ),
      held,
    )
    | yes same ↦
        let mine : old.mem_block ≡ some b =
          sym (ap block_of (subst (λ n. get_elem? s.workers n ≡ some old) (sym same) at)) ∙ e in
        elim (kept b mine) [
          | inl (ext, more, sent') ↦ kept-HeldAt w.mem_block b x v refl ext held
          | inr (more, e') ↦ (b, inr (s.filed, more, e'), held)
        ]
  ]

  -- A request's value is in the worker's block.
  pub HoldsValue-HeldAt :
      (o : Option MemBlock) (req : WriteReq)
      → w.mem_block ≡ o
      → HoldsValue l o w.map req
      → HeldAt (with_writer l lim s i w) (l.get w.map req.key) req.value
  HoldsValue-HeldAt none req e held = absurd held
  HoldsValue-HeldAt (some b) req e (id, at_block, stamp, size, inside, held) =
      (b, inl (i, worker_at ∙ e), (id, at_block, size, inside, held))
