-- ===== src/Verify/Tests.antt =====
-- A value file of two blocks, the second of them with a wrong checksum.
use valuestore.Base.{
  ℕ, ◌≤◌, ◌≡◌, refl, false, List, [], ◌∷◌, ◌++◌, some, arith, none, length, replicate,
}
use valuestore.Base.Bytes.{put_word, word, get_word}
use valuestore.StoreFile.{magic}
use valuestore.CorruptRange.{CorruptRange, some_within}
use valuestore.Toc.{read_error, read_header, header_interval}
use valuestore.Verify.{checksum_verify, max_uint32}
use valuestore.Verify.Blocks.{Block, bytes_of, is_bad, checksum_verify-is_bad}

abbrev first : Block
first = (magic ++ put_word 4 34 ++ 5 ∷ 6 ∷ [], 9)

abbrev second : Block
second = (replicate 34 0, 7)

header_of :
    read_header false (record { ahead = bytes_of (first ∷ second ∷ []) ++ 1 ∷ []; broken = false })
    ≡ (34, none)
unfolding read_header header_interval put_word get_word word
header_of = refl

first_whole : length (magic ++ put_word 4 34 ++ 5 ∷ 6 ∷ []) ≡ 34
unfolding put_word
first_whole = refl

checksum_verify-is_bad_example :
    (ranges : List CorruptRange) × (checksum_verify
        (λ b. 9)
        (record { ahead = bytes_of (first ∷ second ∷ []) ++ 1 ∷ []; broken = false })
      ≡ some (ranges, read_error ∷ []))
    × ((o : ℕ)
        → o ≤ max_uint32
        → some_within o o ranges ≡ is_bad (λ b. 9) 34 o (first ∷ second ∷ []))
checksum_verify-is_bad_example =
    checksum_verify-is_bad (λ b. 9) 34 first (second ∷ []) (1 ∷ []) (first_whole, omega arith)
      ((refl, omega arith), tt) (omega arith) (omega arith) (omega arith) header_of
