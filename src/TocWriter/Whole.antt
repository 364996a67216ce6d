-- ===== src/TocWriter/Whole.antt =====
-- valuestore_GEN_.go, tocWriter: all blocks up to a flush.
use valuestore.Base.{
  ℕ, zero, suc, ◌+◌, ◌-◌, ◌≡◌, refl, sym, ap, ◌∙◌, Bool, true, false, List, [], ◌∷◌, ◌++◌, none,
  arith, ltb, map, All, replicate,
}
use valuestore.Base.Bytes.{Bytes}
use valuestore.MemClearer.{TocMsg, flush_toc, toc_block}
use valuestore.TocWriter.{
  TocWriter, TocTurn, running, stopped, panicked, seal, seal_all, toc_turn, run_toc, fresh,
}
use valuestore.TocWriter.Files.{modify-append_front, modify-append_over, modify-append_last}
use valuestore.TocWriter.Tables.{
  Table, Tables, idle, one, two, take_in, close_all, closed, IsNew, Rest, state_of, writer_of,
  sealed, Becomes, take_idle, take_one, take_two, map-snoc,
}
use valuestore.TocWriter.Order.{
  parts, IsStamped, bytes_of, take_ins, bytes_of-take_ins, IsTimely, AreApart, AreApart-take_ins,
}

module _ (interval clearers : ℕ) (fails : ℕ → Bool) (fine : (n : ℕ) → fails n ≡ false) where
  take_block-Becomes :
      (tables : Tables) (x : Rest) (t : Bytes)
      → IsStamped t
      → IsNew (parts t).0 (closed tables)
      → Becomes interval
          (toc_turn interval clearers fails (toc_block t) (writer_of interval tables x))
          (take_in (parts t) tables)
          x
  unfolding toc_turn
  take_block-Becomes (idle c) x t (long, stamped) new =
      take_idle interval clearers fails fine c x t long stamped new
  take_block-Becomes (one c a) x t (long, stamped) new =
      take_one interval clearers fails fine c a x t long stamped new
  take_block-Becomes (two c b a) x t (long, stamped) new =
      take_two interval clearers fails fine c b a x t long stamped new

  run_toc-running :
      (m : TocMsg) (ms : List TocMsg) (w x : TocWriter)
      → toc_turn interval clearers fails m w ≡ running x
      → run_toc interval clearers fails (m ∷ ms) w ≡ run_toc interval clearers fails ms x
  unfolding run_toc
  run_toc-running m ms w x e =
      ap
        (λ (r : TocTurn). elim r [
          | running y ↦ run_toc interval clearers fails ms y
          | stopped y ↦ stopped y
          | panicked ↦ panicked
        ])
        e

  take_blocks :
      (ts : List Bytes) (more : List TocMsg) (tables : Tables) (x : Rest)
      → All IsStamped ts
      → IsTimely ts tables
      → (y : Rest) × (run_toc interval clearers fails
            (map toc_block ts ++ more)
            (writer_of interval tables x)
          ≡ run_toc interval clearers fails more (writer_of interval (take_ins ts tables) y))
        × (y.flush_left ≡ x.flush_left)
        × (y.flushed ≡ x.flushed)
  unfolding run_toc
  take_blocks [] more tables x all timely = (x, refl, refl, refl)
  take_blocks (t ∷ ts) more tables x (stamped, all) (new, timely) =
      let (y, e, left, count) = take_block-Becomes tables x t stamped new in
      let (z, f, left', count') = take_blocks ts more (take_in (parts t) tables) y all timely in
      (
        z,
        run_toc-running (toc_block t) (map toc_block ts ++ more) (writer_of interval tables x)
              (writer_of interval (take_in (parts t) tables) y) e
            ∙ f,
        left' ∙ left,
        count' ∙ count,
      )

  flush_turns :
      (m : ℕ) (w : TocWriter)
      → w.flush_left ≡ suc m
      → run_toc interval clearers fails (replicate (suc m) flush_toc) w
        ≡ run_toc interval clearers fails (flush_toc ∷ []) (record w { flush_left = 1 })
  unfolding run_toc toc_turn
  flush_turns zero w e =
      λ i. run_toc interval clearers fails (flush_toc ∷ []) (record w { flush_left = e i })
  flush_turns (suc m) w e =
      let many : ltb 0 (suc m) ≡ true = ground arith in
      let less : w.flush_left - 1 ≡ suc m = omega (arith, e) in
      let rest = flush_turns m (record w { flush_left = suc m }) refl in
      run_toc-running flush_toc (replicate (suc m) flush_toc) w (record w { flush_left = suc m })
        (simp (less, many) refl)
      ∙ rest

  seal_all-writer_of :
      (tables : Tables) (x : Rest)
      → (y : Rest) × (seal_all interval clearers fails true (writer_of interval tables x)
          ≡ running (writer_of interval (idle (close_all tables)) y))
        × (y.flushed ≡ x.flushed + 1)
  unfolding seal_all seal
  seal_all-writer_of (idle c) x =
      (record x { flush_left = clearers; flushed = x.flushed + 1 }, refl, refl)
  seal_all-writer_of (one c a) x = (
    record x { flush_left = clearers; flushed = x.flushed + 1; offset_a = 0 },
    simp (seal_all, seal, fine 3, fine 4) (simp modify-append_over (simp map-snoc refl)),
    refl,
  )
  seal_all-writer_of (two c b a) x =
      let y : Rest = record x {
        flush_left = clearers;
        flushed = x.flushed + 1;
        offset_a = 0;
        offset_b = 0;
      } in
      let files : (map (sealed interval) c ++ sealed interval b ∷ []) ++ sealed interval a ∷ []
          ≡ map (sealed interval) ((c ++ b ∷ []) ++ a ∷ []) =
        sym (
          map-snoc interval (c ++ b ∷ []) a
          ∙ ap (◌++ (sealed interval a ∷ [])) (map-snoc interval c b)) in
      (
        y,
        simp (seal_all, seal, fine 1, fine 2, fine 3, fine 4)
            (simp (modify-append_front, modify-append_last)
              (ap (λ fs. running (state_of interval fs none none 0 0 y)) files)),
        refl,
      )

  flush_left-writer_of :
      (tables : Tables) (x : Rest) → (writer_of interval tables x).flush_left ≡ x.flush_left
  flush_left-writer_of (idle c) x = refl
  flush_left-writer_of (one c a) x = refl
  flush_left-writer_of (two c b a) x = refl

  with_left :
      (tables : Tables) (x : Rest) (n : ℕ)
      → record (writer_of interval tables x) { flush_left = n }
        ≡ writer_of interval tables (record x { flush_left = n })
  with_left (idle c) x n = refl
  with_left (one c a) x n = refl
  with_left (two c b a) x n = refl

  flush_all :
      (m : ℕ) (tables : Tables) (x : Rest)
      → x.flush_left ≡ suc m
      → (y : Rest) × (run_toc interval clearers fails
            (replicate (suc m) flush_toc)
            (writer_of interval tables x)
          ≡ running (writer_of interval (idle (close_all tables)) y))
        × (y.flushed ≡ x.flushed + 1)
  unfolding run_toc toc_turn
  flush_all m tables x e =
      let w = writer_of interval tables x in
      let (y, closed, up) = seal_all-writer_of tables (record x { flush_left = 0 }) in
      (
        y,
        flush_turns m w (flush_left-writer_of tables x ∙ e)
            ∙ run_toc-running flush_toc [] (record w { flush_left = 1 })
                (writer_of interval (idle (close_all tables)) y)
                (ap (seal_all interval clearers fails true) (with_left tables x 0) ∙ closed),
        up,
      )

  pub run_whole :
      (m : ℕ) (ts : List Bytes)
      → clearers ≡ suc m
      → All IsStamped ts
      → IsTimely ts (idle [])
      → (y : Rest) × (run_toc interval clearers fails
            (map toc_block ts ++ replicate clearers flush_toc)
            (fresh clearers)
          ≡ running (writer_of interval (idle (close_all (take_ins ts (idle [])))) y))
        × (y.flushed ≡ 1)
  run_whole m ts e all timely =
      let start : Rest = record {
        offset_a = 0;
        offset_b = 0;
        flush_left = clearers;
        shutdown_left = clearers;
        freed = [];
        flushed = 0;
      } in
      let tables = take_ins ts (idle []) in
      let (x, ran, left, count) =
        take_blocks ts (replicate clearers flush_toc) (idle []) start all timely in
      let (y, closed, up) = flush_all m tables x (left ∙ e) in
      (
        y,
        ran
            ∙ ap
                (λ n.
                  run_toc interval clearers fails (replicate n flush_toc)
                    (writer_of interval tables x))
                e
            ∙ closed,
        up ∙ ap (◌+ 1) count,
      )

  -- If no step fails, and blocks longer than 8 bytes whose timestamps are not 0 arrive before a
  -- flush of every memory clearer, of which there is at least one, none of them with the timestamp
  -- of a table that is closed by then, which is one that tables of two other timestamps were begun
  -- behind, then the loop runs on, has signalled one flush, and the files are all closed, each of
  -- them a header, the entries of a table and a terminator, no two of one timestamp, such that the
  -- entries of a timestamp's file are those of its blocks in the order of their arrival.
  pub toc_whole :
      (m : ℕ) (ts : List Bytes)
      → clearers ≡ suc m
      → All IsStamped ts
      → IsTimely ts (idle [])
      → (w : TocWriter) × (tables : List Table) × (run_toc interval clearers fails
            (map toc_block ts ++ replicate clearers flush_toc)
            (fresh clearers)
          ≡ running w)
        × (w.files ≡ map (sealed interval) tables)
        × (w.flushed ≡ 1)
        × AreApart tables
        × ((s : ℕ) → bytes_of s tables ≡ bytes_of s (map parts ts))
  toc_whole m ts e all timely =
      let tables = close_all (take_ins ts (idle [])) in
      let (y, ran, up) = run_whole m ts e all timely in
      (
        writer_of interval (idle tables) y,
        tables,
        ran,
        refl,
        up,
        AreApart-take_ins ts (idle []) timely tt,
        λ s. bytes_of-take_ins s ts (idle []),
      )
