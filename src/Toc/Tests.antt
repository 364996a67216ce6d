-- ===== src/Toc/Tests.antt =====
-- Tables of contents of two entries, and tables that are read wrongly.
use native.Mathlib.Nat.{mod-lt}
use valuestore.Base.{
  ℕ, ◌%◌, ◌^◌, ◌<◌, ◌≡◌, refl, false, List, [], ◌∷◌, ◌++◌, some, none, arith, length, replicate,
}
use valuestore.Base.Bytes.{Bytes, word, put_word, get_word}
use valuestore.MemClearer.{MemEntry}
use valuestore.Toc.{
  Entry, read_toc, no_terminator, read_header, header_interval, toc_loop, take_entries, put_entry,
  last_round, last_piece,
}
use valuestore.Toc.Frames.{head}
use valuestore.Toc.RoundTrip.{kept, file_of}
use valuestore.Toc.Batches.{of_worker, entries_of}
use valuestore.Toc.Whole.{read_toc_whole}

-- A checksum of the last bytes.
abbrev pub a_sum : Bytes → ℕ
a_sum b = word b % 2 ^ 32

pub a_sum_small : (b : Bytes) → a_sum b < 2 ^ 32
a_sum_small b = mod-lt (word b) (omega arith)

abbrev pub one_entry : MemEntry
one_entry = record {
  key = record { key_a = 1; key_b = 2 };
  timestampbits = 0x300;
  offset = 32;
  size = 5;
}

abbrev pub removal : MemEntry
removal = record {
  key = record { key_a = 3; key_b = 5 };
  timestampbits = 0x402;
  offset = 0;
  size = 0;
}

read_toc_whole_example :
    (batches : List (ℕ × List Entry)) × (read_toc a_sum 7 2 2
        (record { ahead = file_of a_sum 7 2 40 (one_entry ∷ removal ∷ []); broken = false })
      ≡ some (length (kept 7 (one_entry ∷ removal ∷ [])), ([], batches)))
    × ((k : ℕ) → of_worker k batches ≡ entries_of 2 k (kept 7 (one_entry ∷ removal ∷ [])))
read_toc_whole_example =
    read_toc_whole a_sum 7 2 40 2 (one_entry ∷ removal ∷ []) (omega arith) (omega arith)
      (omega arith) a_sum_small (omega arith)
      (
        (omega arith, omega arith, omega arith, omega arith, omega arith),
        ((omega arith, omega arith, omega arith, omega arith, omega arith), tt),
      )

-- With an interval of 32 the terminator ends a block: it is read as an entry of key and timestamp
-- zero, and the end of the file as one without a terminator.
phantom_entry :
    read_toc (λ b. 0) 7 9 1 (record { ahead = file_of (λ b. 0) 7 9 32 []; broken = false })
    ≡ some (
      1,
      (
        no_terminator ∷ [],
        (
          0,
          record {
            key = record { key_a = 0; key_b = 0 };
            timestampbits = 0;
            block_id = 7;
            offset = 0x5445524d;
            size = 0x20763020;
          }
              ∷ [],
        )
            ∷ [],
      ),
    )
unfolding read_toc read_header header_interval toc_loop take_entries put_entry last_round last_piece
    put_word get_word word
phantom_entry = refl

-- After a checksum error in the last whole block, a file that ends within the entry that is
-- skipped is a slice out of range: reading it panics.
broken_table : Bytes
broken_table = head 40 ++ (replicate 12 0 ++ (replicate 40 0 ++ (0 ∷ 0 ∷ 0 ∷ 1 ∷ 1 ∷ 2 ∷ 3 ∷ [])))

broken_table_panics :
    read_toc (λ b. 0) 7 9 1 (record { ahead = broken_table; broken = false }) ≡ none
unfolding broken_table read_toc read_header header_interval toc_loop take_entries put_entry
    last_round last_piece put_word get_word word
broken_table_panics = refl
