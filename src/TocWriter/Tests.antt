-- ===== src/TocWriter/Tests.antt =====
-- Blocks of three timestamps.
use valuestore.Base.{
  ℕ, suc, length, ◌≡◌, refl, Bool, true, false, List, [], ◌∷◌, ◌++◌, some, arith, map, replicate,
  ◌==◌,
}
use valuestore.Base.Bytes.{Bytes, get_word, put_word}
use valuestore.MemClearer.{flush_toc, toc_block}
use valuestore.Toc.{Entry, read_toc}
use valuestore.Toc.Batches.{of_worker, entries_of}
use valuestore.Toc.Frames.{head, term}
use valuestore.Toc.Loop.{framed}
use valuestore.Toc.RoundTrip.{kept}
use valuestore.Toc.Tests.{a_sum, a_sum_small, one_entry, removal}
use valuestore.TocWriter.{
  TocFile, TocWriter, running, seal, seal_all, take_block, toc_turn, run_toc, fresh,
}
use valuestore.TocWriter.Readable.{block_of, toc_whole-read_toc}
use valuestore.TocWriter.Tables.{Table, sealed}
use valuestore.TocWriter.Order.{parts, bytes_of, AreApart}
use valuestore.TocWriter.Whole.{toc_whole}

abbrev stamped : ℕ → ℕ → Bytes
stamped s b = replicate 7 0 ++ s ∷ b ∷ []

abbrev three : List Bytes
three = stamped 1 10 ∷ stamped 2 20 ∷ stamped 1 11 ∷ stamped 3 30 ∷ []

abbrev never : ℕ → Bool
never n = false

toc_whole_example :
    (w : TocWriter) × (tables : List Table) × (run_toc 16 2 never
        (map toc_block three ++ replicate 2 flush_toc)
        (fresh 2)
      ≡ running w)
    × (w.files ≡ map (sealed 16) tables)
    × (w.flushed ≡ 1)
    × AreApart tables
    × ((s : ℕ) → bytes_of s tables ≡ bytes_of s (map parts three))
unfolding get_word
toc_whole_example =
    toc_whole 16 2 never (λ n. refl) 1 three refl
      (
        (omega arith, omega arith),
        (
          (omega arith, omega arith),
          ((omega arith, omega arith), ((omega arith, omega arith), tt)),
        ),
      )
      (tt, (tt, (tt, (tt, tt))))

-- A block that comes for a table that is closed makes a file in the place of that table's.
back_again :
    run_toc 16 2 never
      (toc_block (stamped 2 20)
        ∷ toc_block (stamped 3 30)
        ∷ toc_block (stamped 4 40)
        ∷ toc_block (stamped 2 21)
        ∷ [])
      (fresh 2)
    ≡ running (record (fresh 2) {
      files =
          record { stamp = 2; content = []; closed = true }
          ∷ record { stamp = 3; content = head 16 ++ (30 ∷ term 16); closed = true }
          ∷ record { stamp = 4; content = head 16 ++ 40 ∷ []; closed = false }
          ∷ record { stamp = 2; content = head 16 ++ 21 ∷ []; closed = false }
          ∷ [];
      writer_a = some 3;
      writer_b = some 2;
      active_a = 2;
      active_b = 4;
      offset_a = 33;
      offset_b = 33;
      freed = stamped 2 20 ∷ stamped 3 30 ∷ stamped 4 40 ∷ stamped 2 21 ∷ [];
    })
unfolding run_toc toc_turn take_block seal get_word put_word
back_again = refl

-- The third timestamp closes the file of the first.
third_closes_first :
    run_toc 16 2 never (map toc_block three) (fresh 2)
    ≡ running (record (fresh 2) {
      files =
          record { stamp = 1; content = head 16 ++ (10 ∷ 11 ∷ term 16); closed = true }
          ∷ record { stamp = 2; content = head 16 ++ 20 ∷ []; closed = false }
          ∷ record { stamp = 3; content = head 16 ++ 30 ∷ []; closed = false }
          ∷ [];
      writer_a = some 2;
      writer_b = some 1;
      active_a = 3;
      active_b = 2;
      offset_a = 33;
      offset_b = 33;
      freed = three;
    })
unfolding run_toc toc_turn take_block seal get_word put_word
third_closes_first = refl

-- If the terminator of a flush cannot be written, no flush is signalled and the file stays open.
flush_unsignalled :
    run_toc 16 1 (λ n. n == 3) (toc_block (stamped 1 10) ∷ flush_toc ∷ []) (fresh 1)
    ≡ running (record (fresh 1) {
      files = record { stamp = 1; content = head 16 ++ 10 ∷ []; closed = false } ∷ [];
      writer_a = some 0;
      active_a = 1;
      offset_a = 33;
      flush_left = 0;
      disabled = true;
      freed = stamped 1 10 ∷ [];
    })
unfolding run_toc toc_turn take_block seal seal_all get_word
flush_unsignalled = refl

-- Two blocks of one entry each, of which the second is at offset 0.
toc_whole-read_toc_example :
    (w : TocWriter) × (f : TocFile) × (batches : List (ℕ × List Entry)) × (run_toc 40 2 never
        (map toc_block (map (block_of 9) ((one_entry ∷ []) ∷ (removal ∷ []) ∷ []))
          ++ replicate 2 flush_toc)
        (fresh 2)
      ≡ running w)
    × (w.files ≡ f ∷ [])
    × (f.closed ≡ true)
    × (read_toc a_sum 7 2 2
          (record { ahead = framed a_sum 40 (suc (length f.content)) f.content; broken = false })
        ≡ some (length (kept 7 (one_entry ∷ removal ∷ [])), ([], batches)))
    × ((k : ℕ) → of_worker k batches ≡ entries_of 2 k (kept 7 (one_entry ∷ removal ∷ [])))
toc_whole-read_toc_example =
    toc_whole-read_toc a_sum 40 2 never (λ n. refl) 7 2 2 1 9 (one_entry ∷ []) ((removal ∷ []) ∷ [])
      (omega arith) (omega arith) (omega arith) a_sum_small (omega arith) refl (omega arith)
      (omega arith) (omega arith, (omega arith, tt))
      (
        (omega arith, omega arith, omega arith, omega arith, omega arith),
        ((omega arith, omega arith, omega arith, omega arith, omega arith), tt),
      )
