-- ===== src/FileWriter/Whole.antt =====
-- valuestore_GEN_.go, fileWriter: all blocks up to a flush.
use valuestore.Base.{
  ℕ, zero, suc, ◌+◌, ◌-◌, ◌^◌, ◌≤◌, ◌<◌, ◌≡◌, refl, sym, ap, ◌∙◌, true, List, [], ◌∷◌, ◌++◌, Option,
  none, some, arith, ltb, length, append_assoc, append-nil, map, All, replicate,
}
use valuestore.Base.Bytes.{Bytes}
use valuestore.Package.{Error}
use valuestore.MemWriter.{MemBlock, FileMsg, flush_file, file}
use valuestore.MemClearer.{flush_clear}
use valuestore.FileWriter.{
  FileWriter, FileTurn, running, stopped, panicked, endless, to_each, file_turn, run_files, fresh,
}
use valuestore.FileWriter.Layout.{bodies, values_of, IsFinished}
use valuestore.FileWriter.Rounds.{IsGood, total, block-Takes, close_current-IsGood}

module _ (sum32 : Bytes → ℕ) (disk_write : Bytes → Option Error) (disk_close : ℕ → Option Error)
    (written : (b : Bytes) → disk_write b ≡ none) (make : ℕ → Option ℕ)
    (makes : (n : ℕ) → (id : ℕ) × (make n ≡ some id))
    (interval file_cap writers clearers page most : ℕ) (wide : 32 < interval)
    (caps : file_cap ≤ most) (pages : 32 + page ≤ most) (small : most < 2 ^ 32) where
  abbrev turn_of : FileMsg → FileWriter → FileTurn
  turn_of = file_turn sum32 disk_write disk_close make interval file_cap writers clearers

  abbrev run_of : List FileMsg → FileWriter → FileTurn
  run_of = run_files sum32 disk_write disk_close make interval file_cap writers clearers

  abbrev Good : FileWriter → Type 0
  Good =
      IsGood sum32 disk_write disk_close written make makes interval file_cap writers clearers page
        most wide caps pages small

  abbrev all_of : FileWriter → Bytes
  all_of =
      total sum32 disk_write disk_close written make makes interval file_cap writers clearers page
        most wide caps pages small

  run_files-running :
      (m : FileMsg) (ms : List FileMsg) (w x : FileWriter)
      → turn_of m w ≡ running x
      → run_of (m ∷ ms) w ≡ run_of ms x
  unfolding run_files
  run_files-running m ms w x e =
      ap
        (λ (r : FileTurn). elim r [
          | running y ↦ run_of ms y
          | stopped y ↦ stopped y
          | panicked ↦ panicked
          | endless ↦ endless
        ])
        e

  take_blocks :
      (bs : List MemBlock) (more : List FileMsg) (w : FileWriter)
      → All (λ (b : MemBlock). length b.values ≤ page) bs
      → Good w
      → (x : FileWriter) × (run_of (map file bs ++ more) w ≡ run_of more x)
        × Good x
        × (all_of x ≡ all_of w ++ values_of bs)
        × (x.flush_left ≡ w.flush_left)
        × (x.clearing ≡ w.clearing)
  unfolding run_files
  take_blocks [] more w fits good = (w, refl, good, sym (append-nil (all_of w)), refl, refl)
  take_blocks (b ∷ bs) more w (fit, fits) good =
      let (x, e, good', all, (left, clearing)) =
        block-Takes sum32 disk_write disk_close written make makes interval file_cap writers
          clearers page most wide caps pages small b w fit good in
      let (y, ran, good'', all', left', clearing') = take_blocks bs more x fits good' in
      (
        y,
        run_files-running (file b) (map file bs ++ more) w x e ∙ ran,
        good'',
        all' ∙ ap (◌++ values_of bs) all ∙ append_assoc (all_of w) b.values (values_of bs),
        left' ∙ left,
        clearing' ∙ clearing,
      )

  -- The marks of all but the last memory writer only count.
  flush_turns :
      (m : ℕ) (w : FileWriter)
      → w.flush_left ≡ suc m
      → run_of (replicate (suc m) flush_file) w
        ≡ run_of (flush_file ∷ []) (record w { flush_left = 1 })
  unfolding run_files file_turn
  flush_turns zero w e = λ i. run_of (flush_file ∷ []) (record w { flush_left = e i })
  flush_turns (suc m) w e =
      let many : ltb 0 (suc m) ≡ true = ground arith in
      let less : w.flush_left - 1 ≡ suc m = omega (arith, e) in
      run_files-running flush_file (replicate (suc m) flush_file) w
        (record w { flush_left = suc m }) (simp (less, many) refl)
      ∙ flush_turns m (record w { flush_left = suc m }) refl

  -- If no write to the disk fails and every file can be made, the checksum interval is more than 32,
  -- and the file cap, or a header and a page, is `most` bytes at most, fewer than 2 ^ 32, then after
  -- blocks that fit a page and a flush of every memory writer, of which there is at least one, the
  -- loop runs on and no file is open. Behind their headers the files, in the order of their making,
  -- have the values of the blocks in the order of their arrival; each file has `most` bytes at most
  -- and was closed with its last values in full blocks of the interval with their checksums, the
  -- terminator behind them; and every memory clearer has been sent one flush.
  pub run_files_whole :
      (m : ℕ) (bs : List MemBlock)
      → writers ≡ suc m
      → All (λ (b : MemBlock). length b.values ≤ page) bs
      → (w : FileWriter) × (run_of (map file bs ++ replicate writers flush_file) (fresh writers)
          ≡ running w)
        × (w.current ≡ none)
        × (bodies w.finished ≡ values_of bs)
        × All (IsFinished sum32 disk_close interval most) w.finished
        × (w.clearing ≡ to_each flush_clear 0 clearers)
  unfolding run_files file_turn
  run_files_whole m bs e fits =
      let (x, ran, good, all, left, clearing) =
        take_blocks bs (replicate writers flush_file) (fresh writers) fits (tt, tt, refl) in
      let last : FileWriter = record x { flush_left = 0 } in
      let (y, closed, none_left, good', all', (left', clearing')) =
        close_current-IsGood sum32 disk_write disk_close written make makes interval file_cap
          writers clearers page most wide caps pages small last last.current refl good in
      let end : FileWriter = record y {
        clearing = y.clearing ++ to_each flush_clear 0 clearers;
        flush_left = writers;
      } in
      (
        end,
        ran
            ∙ ap (λ n. run_of (replicate n flush_file) x) e
            ∙ flush_turns m x (left ∙ e)
            ∙ run_files-running flush_file [] (record x { flush_left = 1 }) end
                (ap
                  (λ (v : FileWriter). running (record v {
                    clearing = v.clearing ++ to_each flush_clear 0 clearers;
                    flush_left = writers;
                  }))
                  closed),
        none_left,
        all' ∙ all,
        good'.1,
        ap (◌++ to_each flush_clear 0 clearers) (clearing' ∙ clearing),
      )
