-- ===== src/Store/Effects.antt =====
-- valuestore_GEN_.go, write: all that it does to a store when it is not refused.
use native.Mathlib.Nat.{mod-lt}
use valuestore.Base.{
  ℕ, suc, ◌/◌, ◌^◌, ◌≤◌, ◌<◌, ◌≡◌, ◌≢◌, ◌⊎◌, refl, ap, ◌∙◌, Bool, true, false, ◌||◌, List, Option,
  none, some, inl, inr, arith, ltb, length, get_elem?, get_or, get_elem?-get_or, length-set, All,
  All-get_elem?, All-set,
}
use valuestore.Base.Bytes.{Bytes}
use valuestore.LocMap.{Key, Location, LocMap, IsLocMap}
use valuestore.MemWriter.{Limits, MemBlock, WriteReq, Turn, without_rewrite}
use valuestore.MemWriter.Bounds.{IsLimits, IsFilledTo, IsEmpty}
use valuestore.MemWriter.ReadBack.{HasId, IsReady}
use valuestore.MemWriter.Taken.{Taken, Took, turn-Taken}
use valuestore.Store.{
  Store, Worker, answered, writer_of, with_writer, worker_index, count_modification, write,
  write_at, write_reply,
}
use valuestore.Store.Held.{HeldAt, with_writer-HeldAt, HoldsValue-HeldAt}
use valuestore.Store.Tombstone.{HoldsValue-timestampbits}

abbrev pub IsAble : Limits → Bool → Worker → Type 0
IsAble lim on w =
    IsFilledTo w.mem_block w.toc_offset w.mem_offset
    × (w.toc_offset ≤ lim.page_size)
    × (w.mem_offset ≤ lim.page_size)
    × HasId w.mem_block
    × (w.enabled ≡ on)

-- There are workers, each of them is well formed and takes writes or not as all do, and the free
-- blocks are empty.
abbrev pub IsSound : Limits → Bool → List Worker → List MemBlock → Type 0
IsSound lim on workers free =
    (0 < length workers)
    × All (IsAble lim on) workers
    × All IsEmpty free
    × All (λ (b : MemBlock). 0 < b.id) free

pub some_worker :
    (xs : List Worker) (i : ℕ) → i < length xs → (w : Worker) × (get_elem? xs i ≡ some w)
some_worker xs i h =
    let d : Worker = record { enabled = false; mem_block = none; toc_offset = 0; mem_offset = 0 } in
    (get_or xs i d, get_elem?-get_or xs i d h)

-- A newer value is in a block of the store, where the map says; an older one moves nothing.
abbrev pub TookIn : {l : LocMap} → Store l → WriteReq → Store l → Type 0
TookIn {l} s req after =
    (((l.get s.map req.key).timestampbits < req.timestampbits)
      × ((l.get after.map req.key).timestampbits ≡ without_rewrite req.timestampbits)
      × HeldAt after (l.get after.map req.key) req.value)
    ⊎ ((req.timestampbits ≤ (l.get s.map req.key).timestampbits)
        × (l.get after.map req.key ≡ l.get s.map req.key))

pub record Effect {l : LocMap} (lim : Limits) (on : Bool) (s : Store l) (req : WriteReq)
    : Type 0 where
  pub after : Store l
  pub previous : ℕ
  pub ran :
      write l lim s req.key req.timestampbits req.value req.internal
      ≡ answered after (previous, none)
  pub was : previous ≡ (l.get s.map req.key).timestampbits
  pub took : TookIn s req after
  pub others : (j : Key) → j ≢ req.key → l.get after.map j ≡ l.get s.map j
  pub carried : (x : Location) (v : Bytes) → HeldAt s x v → HeldAt after x v
  pub sound : IsSound lim on after.workers after.free
  pub fewer : length s.free ≤ suc (length after.free)

module _ (l : LocMap) (lim : Limits) (laws : IsLocMap l) (fit : IsLimits lim) (s : Store l)
    (on : Bool) (sound : IsSound lim on s.workers s.free) (some_free : 0 < length s.free)
    (req : WriteReq) (h64 : req.timestampbits < 2 ^ 64) (allowed : (on || req.internal) ≡ true)
    (short : length req.value ≤ lim.value_cap) where
  abbrev own_index : ℕ
  own_index = worker_index l lim s req.key

  module _ (worker : Worker) (at : get_elem? s.workers own_index ≡ some worker)
      (t : Taken lim (writer_of l lim s worker) req) where
    abbrev next : Store l
    next = with_writer l lim s own_index t.after

    took_in : Took (writer_of l lim s worker) req t.after → TookIn s req next
    took_in (inl (newer, holds)) = inl (
      newer,
      HoldsValue-timestampbits l t.after.map t.after.mem_block req holds,
      HoldsValue-HeldAt l lim s own_index worker t.after at t.after.mem_block req refl holds,
    )
    took_in (inr older) = inr older

    next-IsSound : worker.enabled ≡ on → IsSound lim on next.workers next.free
    next-IsSound able =
        let w = t.after in
        let kept : Worker = record {
          enabled = w.enabled;
          mem_block = w.mem_block;
          toc_offset = w.toc_offset;
          mem_offset = w.mem_offset;
        } in
        (
          omega (arith, sound.0, length-set s.workers own_index kept),
          All-set (IsAble lim on) s.workers own_index kept sound.1 (
            t.well_formed.filled_to,
            t.well_formed.toc_fits,
            t.well_formed.values_fit,
            t.tidy.3,
            t.tidy.1 ∙ able,
          ),
          t.well_formed.free_empty,
          t.tidy.4,
        )

    ran-write :
        write l lim s req.key req.timestampbits req.value req.internal
        ≡ answered
            (count_modification l lim (ltb t.previous req.timestampbits) next)
            (t.previous, none)
    unfolding write write_at write_reply
    ran-write =
        ap
          (λ (o : Option Worker).
            write_at l lim o s own_index req.key req.timestampbits req.value req.internal)
          at
        ∙ ap (λ (u : Turn l). write_reply l lim s own_index req.timestampbits u) t.ran

    Effect-of : worker.enabled ≡ on → Effect lim on s req
    Effect-of able = record {
      after = count_modification l lim (ltb t.previous req.timestampbits) next;
      previous = t.previous;
      ran = ran-write;
      was = t.was;
      took = took_in t.took;
      others = t.others;
      carried = λ x v held.
          with_writer-HeldAt l lim s own_index worker t.after at t.tidy.0.0 x v t.tidy.0.1 t.kept
            held;
      sound = next-IsSound able;
      fewer = t.tidy.2;
    }

  pub write-Effect : Effect lim on s req
  write-Effect =
      let (worker, at) = some_worker s.workers own_index (mod-lt (req.key.key_a / 2) sound.0) in
      let able = All-get_elem? (IsAble lim on) s.workers own_index worker sound.1 at in
      let ready : IsReady l lim laws (writer_of l lim s worker) = record {
        well_formed = record {
          filled_to = able.0;
          toc_fits = able.1;
          values_fit = able.2;
          free_empty = sound.2;
        };
        has_id = able.3;
        have_ids = sound.3;
        some_free = some_free;
      } in
      Effect-of worker at
        (turn-Taken l lim laws fit (writer_of l lim s worker) req ready
          (ap (◌|| req.internal) able.4 ∙ allowed) short h64)
        able.4
