-- ===== src/FileWriter/Tests.antt =====
-- Blocks of ten bytes, in files of one or two of them.
use valuestore.Base.{
  ℕ, ◌+◌, ◌≡◌, refl, List, [], ◌∷◌, ◌++◌, Option, none, some, arith, map, All, replicate, length,
  if◌then◌else◌, ◌==◌,
}
use valuestore.Base.Bytes.{Bytes}
use valuestore.Package.{Error, disabled}
use valuestore.MemWriter.{MemBlock, flush_file, file}
use valuestore.MemClearer.{flush_clear}
use valuestore.FileWriter.{
  FileWriter, running, panicked, to_each, write_block, open_file, take_block, file_turn, run_files,
  fresh,
}
use valuestore.FileWriter.Layout.{bodies, values_of, IsFinished}
use valuestore.FileWriter.Whole.{run_files_whole}

abbrev a_sum : Bytes → ℕ
a_sum b = length b

abbrev on_disk : Bytes → Option Error
on_disk b = none

-- The first file's Close fails.
abbrev at_close : ℕ → Option Error
at_close id = if id == 1 then some disabled else none

abbrev numbered : ℕ → Option ℕ
numbered n = some (n + 1)

abbrev ten_bytes : ℕ → MemBlock
ten_bytes v = record { id = v; file_id = 0; file_offset = 0; toc = []; values = replicate 10 v }

abbrev three_blocks : List MemBlock
three_blocks = ten_bytes 1 ∷ ten_bytes 2 ∷ ten_bytes 3 ∷ []

run_files_whole_example :
    (w : FileWriter) × (run_files a_sum on_disk at_close numbered 40 52 1 2
        (map file three_blocks ++ replicate 1 flush_file)
        (fresh 1)
      ≡ running w)
    × (w.current ≡ none)
    × (bodies w.finished ≡ values_of three_blocks)
    × All (IsFinished a_sum at_close 40 52) w.finished
    × (w.clearing ≡ to_each flush_clear 0 2)
run_files_whole_example =
    run_files_whole a_sum on_disk at_close (λ b. refl) numbered (λ n. (n + 1, refl)) 40 52 1 2 20 52
      (omega arith) (omega arith) (omega arith) (omega arith) 0 three_blocks refl
      (omega arith, (omega arith, (omega arith, tt)))

-- When no file can be made, the block is written to a file that is not there.
no_file_panics :
    run_files a_sum on_disk at_close (λ n. none) 40 52 1 2 (file (ten_bytes 1) ∷ []) (fresh 1)
    ≡ panicked
unfolding run_files file_turn take_block open_file write_block
no_file_panics = refl
