-- ===== src/Verify.antt =====
-- valuestorefile_GEN_.go, valueChecksumVerify: a value file is read through, and the ranges whose
-- checksums are wrong are collected. `% 2 ^ 32` is uint32's wrap-around.
pub mod Blocks
mod Tests
use valuestore.Base.{
  ℕ, zero, suc, ◌+◌, ◌-◌, ◌%◌, ◌^◌, Bool, false, List, [], ◌∷◌, ◌++◌, Option, none, some, ◌==◌,
  if◌then◌else◌, length, take, drop,
}
use valuestore.Base.Bytes.{Bytes, get_word}
use valuestore.StoreFile.{header_size}
use valuestore.CorruptRange.{CorruptRange}
use valuestore.Toc.{
  TocError, read_error, Source, ReadFull, whole, short, failing, read_full, read_header,
}

abbrev pub max_uint32 : ℕ
max_uint32 = 2 ^ 32 - 1

-- The corrupt ranges and the errors; `none` is a loop without enough fuel.
abbrev pub Verified : Type 0
Verified = Option (List CorruptRange × List TocError)

abbrev pub with_own : List CorruptRange → Verified → Verified
with_own own none = none
with_own own (some (ranges, errs)) = some (own ++ ranges, errs)

abbrev pub from_on : ℕ → CorruptRange
from_on start = record { start = start; stop = max_uint32 }

module _ (sum32 : Bytes → ℕ) where
  -- The loop; `buf` is what was read last, and `src` what is ahead of it.
  unfoldable pub verify_loop : ℕ → ℕ → ℕ → ℕ → Bytes → Source → Verified
  verify_loop zero interval start stop buf src = none
  verify_loop (suc fuel) interval start stop buf src =
      let own : List CorruptRange =
        if sum32 (take interval buf) == get_word 4 0 (drop interval buf)
        then []
        else record { start = start; stop = stop } ∷ [] in
      let start' = (stop + 1) % 2 ^ 32 in
      let more =
        verify_loop fuel interval start' ((stop + interval) % 2 ^ 32)
          (take (interval + 4) src.ahead) (record src { ahead = drop (interval + 4) src.ahead }) in
      with_own own (elim (read_full (interval + 4) src) [
        | whole piece ↦ more
        | short piece ↦ some (from_on start' ∷ [], read_error ∷ [])
        | failing ↦ some (from_on start' ∷ [], read_error ∷ [])
      ])

  -- the rest of the first block, behind the header that was read
  unfoldable pub verify_first : ℕ → Source → Verified
  verify_first interval src =
      let behind : Source = record src { ahead = drop header_size src.ahead } in
      let n = interval + 4 - header_size in
      elim (read_full n behind) [
        | whole piece ↦
            verify_loop (suc (length src.ahead)) interval 0 (interval - 1)
              (take header_size src.ahead ++ piece) (record src { ahead = drop n behind.ahead })
        | short piece ↦ some (from_on 0 ∷ [], read_error ∷ [])
        | failing ↦ some (from_on 0 ∷ [], read_error ∷ [])
      ]

  -- valueChecksumVerify
  unfoldable pub checksum_verify : Source → Verified
  checksum_verify src = elim ((read_header false src).1) [
    | some e ↦ some (from_on 0 ∷ [], e ∷ [])
    | none ↦ verify_first (read_header false src).0 src
  ]
