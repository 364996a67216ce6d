-- ===== src/Verify/Blocks.antt =====
-- valuestorefile_GEN_.go, valueChecksumVerify: the ranges that it finds, block by block.
use valuestore.Base.{
  ℕ, zero, suc, ◌+◌, ◌-◌, ◌*◌, ◌%◌, ◌^◌, ◌≤◌, ◌<◌, ◌≡◌, refl, sym, ap, ◌∙◌, Bool, true, false, not,
  List, [], ◌∷◌, ◌++◌, none, some, inl, inr, arith, append_assoc, Bool-cases, leb, ltb, ◌==◌,
  if◌then◌else◌, length, length-append, take, drop, take-append_self, drop-append_self, length-drop,
  drop-drop, All,
}
use valuestore.Base.Bytes.{Bytes, get_word, put_word, length-put_word}
use valuestore.CorruptRange.{CorruptRange, some_within}
use valuestore.Toc.{read_error, read_header}
use valuestore.Toc.Loop.{last_word}
use valuestore.Verify.{max_uint32, from_on, verify_loop, verify_first, checksum_verify}

-- A block of a file, and the checksum that stands behind it.
abbrev pub Block : Type 0
Block = Bytes × ℕ

abbrev pub bytes_of : List Block → Bytes
bytes_of [] = []
bytes_of ((b, s) ∷ blocks) = (b ++ put_word 4 s) ++ bytes_of blocks

abbrev pub IsBlock : ℕ → Block → Type 0
IsBlock interval (b, s) = (length b ≡ interval) × (s < 2 ^ 32)

module _ (sum32 : Bytes → ℕ) (interval : ℕ) where
  -- Whether the byte at an offset is in a block with a wrong checksum, or behind the whole blocks.
  abbrev pub is_bad : ℕ → List Block → Bool
  is_bad o [] = true
  is_bad o ((b, s) ∷ blocks) =
      if ltb o interval then not (sum32 b == s) else is_bad (o - interval) blocks

  abbrev own_range : ℕ → Block → List CorruptRange
  own_range start (b, s) =
      if sum32 b == s then [] else record { start = start; stop = start + (interval - 1) } ∷ []

  abbrev ranges_from : ℕ → List Block → List CorruptRange
  ranges_from start [] = from_on start ∷ []
  ranges_from start (x ∷ blocks) = own_range start x ++ ranges_from (start + interval) blocks

  within_earlier :
      (start o : ℕ) (blocks : List Block)
      → o < start
      → some_within o o (ranges_from start blocks) ≡ false
  unfolding some_within
  within_earlier start o [] h = ground (arith, h)
  within_earlier start o ((b, s) ∷ blocks) h = elim (Bool-cases (sum32 b == s)) [
    | inl fine ↦ simp fine (within_earlier (start + interval) o blocks (omega arith))
    | inr wrong ↦
        let before : leb start o ≡ false = ground (arith, h) in
        simp (wrong, before) (within_earlier (start + interval) o blocks (omega arith))
  ]

  within-is_bad :
      (start o : ℕ) (blocks : List Block)
      → 0 < interval
      → start ≤ o
      → o ≤ max_uint32
      → some_within o o (ranges_from start blocks) ≡ is_bad (o - start) blocks
  unfolding some_within
  within-is_bad start o [] pos h top = ground (arith, h, top)
  within-is_bad start o ((b, s) ∷ blocks) pos h top =
      let low : leb start o ≡ true = ground (arith, h) in
      elim (Bool-cases (ltb (o - start) interval)) [
        | inl here ↦
            let high : leb o (start + (interval - 1)) ≡ true = ground (arith, here, h) in
            elim (Bool-cases (sum32 b == s)) [
              | inl fine ↦
                  simp (here, fine)
                    (within_earlier (start + interval) o blocks (ground (arith, here, h)))
              | inr wrong ↦ simp (here, wrong, low, high) refl
            ]
        | inr there ↦
            let high : leb o (start + (interval - 1)) ≡ false = ground (arith, there, h, pos) in
            let minus : o - start - interval ≡ o - (start + interval) = omega arith in
            let rest =
              within-is_bad (start + interval) o blocks pos (ground (arith, there, h)) top in
            elim (Bool-cases (sum32 b == s)) [
              | inl fine ↦ simp (there, fine, minus) rest
              | inr wrong ↦ simp (there, wrong, low, high, minus) rest
            ]
      ]

  length-bytes : (x : Block) → IsBlock interval x → length (x.0 ++ put_word 4 x.1) ≡ interval + 4
  length-bytes (b, s) (size, small) =
      omega (arith, length-append b (put_word 4 s), length-put_word 4 s, size)

  -- The block in the buffer: its sum, as computed and as it stands.
  sums_of :
      (x : Block)
      → IsBlock interval x
      → (take interval (x.0 ++ put_word 4 x.1) ≡ x.0)
        × (get_word 4 0 (drop interval (x.0 ++ put_word 4 x.1)) ≡ x.1)
  sums_of (b, s) (size, small) = (
    take-append_self interval b (put_word 4 s) size,
    ap (get_word 4 0) (drop-append_self interval b (put_word 4 s) size) ∙ last_word s small,
  )

  -- What is ahead: the next block, or too little for one.
  next_block :
      (x : Block) (blocks : List Block) (rest : Bytes)
      → IsBlock interval x
      → let ahead = bytes_of (x ∷ blocks) ++ rest in
        (leb (interval + 4) (length ahead) ≡ true)
        × (take (interval + 4) ahead ≡ x.0 ++ put_word 4 x.1)
        × (drop (interval + 4) ahead ≡ bytes_of blocks ++ rest)
  next_block (b, s) blocks rest ok =
      let w = b ++ put_word 4 s in
      let size = length-bytes (b, s) ok in
      let joined : bytes_of ((b, s) ∷ blocks) ++ rest ≡ w ++ (bytes_of blocks ++ rest) =
        append_assoc w (bytes_of blocks) rest in
      (
        ground (arith, ap length joined, length-append w (bytes_of blocks ++ rest), size),
        ap (take (interval + 4)) joined
            ∙ take-append_self (interval + 4) w (bytes_of blocks ++ rest) size,
        ap (drop (interval + 4)) joined
            ∙ drop-append_self (interval + 4) w (bytes_of blocks ++ rest) size,
      )

  loop_ranges :
      (fuel start : ℕ) (x : Block) (blocks : List Block) (rest : Bytes)
      → IsBlock interval x
      → All (IsBlock interval) blocks
      → length rest < interval + 4
      → 0 < interval
      → start + (interval + length blocks * interval) < 2 ^ 32
      → length blocks < fuel
      → verify_loop sum32 fuel interval start
          (start + (interval - 1))
          (x.0 ++ put_word 4 x.1)
          (record { ahead = bytes_of blocks ++ rest; broken = false })
        ≡ some (ranges_from start (x ∷ blocks), read_error ∷ [])
  unfolding verify_loop
  loop_ranges zero start x blocks rest ok oks few pos top more = absurd (omega arith)
  loop_ranges (suc fuel) start x [] rest ok oks few pos top more =
      let (front, sum) = sums_of x ok in
      let over : leb (interval + 4) (length rest) ≡ false = ground (arith, few) in
      let next : (start + (interval - 1) + 1) % 2 ^ 32 ≡ start + interval = omega arith in
      elim (Bool-cases (sum32 x.0 == x.1)) [
        | inl fine ↦ simp (verify_loop, front, sum, over, fine, next) refl
        | inr wrong ↦ simp (verify_loop, front, sum, over, wrong, next) refl
      ]
  loop_ranges (suc fuel) start x (y ∷ blocks) rest ok (ok', oks) few pos top more =
      let (front, sum) = sums_of x ok in
      let (enough, block, ahead) = next_block y blocks rest ok' in
      let next : (start + (interval - 1) + 1) % 2 ^ 32 ≡ start + interval = omega arith in
      let stop : (start + (interval - 1) + interval) % 2 ^ 32 ≡ start + interval + (interval - 1) =
        omega arith in
      let more_ranges =
        loop_ranges fuel (start + interval) y blocks rest ok' oks few pos (omega arith)
          (omega arith) in
      elim (Bool-cases (sum32 x.0 == x.1)) [
        | inl fine ↦
            simp (verify_loop, front, sum, enough, fine, block, ahead, next, stop, more_ranges) refl
        | inr wrong ↦
            simp (verify_loop, front, sum, enough, wrong, block, ahead, next, stop, more_ranges)
              refl
      ]

length-blocks : (blocks : List Block) → length blocks ≤ length (bytes_of blocks)
length-blocks [] = omega arith
length-blocks ((b, s) ∷ blocks) = omega (
  arith,
  length-append (b ++ put_word 4 s) (bytes_of blocks),
  length-append b (put_word 4 s),
  length-put_word 4 s,
  length-blocks blocks,
)

take-take-drop : (m n p : ℕ) (xs : Bytes) → m + n ≡ p → take m xs ++ take n (drop m xs) ≡ take p xs
take-take-drop zero n p xs h = let e : n ≡ p = omega arith in ap (λ k. take k xs) e
take-take-drop (suc m) n zero xs h = absurd (omega arith)
take-take-drop (suc m) zero (suc p) [] h = refl
take-take-drop (suc m) (suc n) (suc p) [] h = refl
take-take-drop (suc m) n (suc p) (x ∷ xs) h = ap (◌∷◌ x) (take-take-drop m n p xs (omega arith))

-- A value file of whole blocks, each with four bytes of checksum behind it, of fewer than 2 ^ 32
-- bytes of data, and of a rest too short for another block; its header names the blocks' length,
-- of at least 32. Verifying it ends with the error of the end of the file, and the ranges it finds
-- have the byte at an offset below 2 ^ 32 exactly when the block that the offset falls into has a
-- checksum that is not its own, or the offset is behind all whole blocks.
pub checksum_verify-is_bad :
    (sum32 : Bytes → ℕ) (interval : ℕ) (x : Block) (blocks : List Block) (rest : Bytes)
    → IsBlock interval x
    → All (IsBlock interval) blocks
    → length rest < interval + 4
    → 32 ≤ interval
    → interval + length blocks * interval < 2 ^ 32
    → read_header false (record { ahead = bytes_of (x ∷ blocks) ++ rest; broken = false })
      ≡ (interval, none)
    → (ranges : List CorruptRange) × (checksum_verify sum32
          (record { ahead = bytes_of (x ∷ blocks) ++ rest; broken = false })
        ≡ some (ranges, read_error ∷ []))
      × ((o : ℕ) → o ≤ max_uint32 → some_within o o ranges ≡ is_bad sum32 interval o (x ∷ blocks))
unfolding checksum_verify verify_first
checksum_verify-is_bad sum32 interval x blocks rest ok oks few wide top header =
    let ahead = bytes_of (x ∷ blocks) ++ rest in
    let n = interval + 4 - 32 in
    let (enough, block, behind) = next_block sum32 interval x blocks rest ok in
    let there : leb n (length (drop 32 ahead)) ≡ true =
      ground (arith, length-drop 32 ahead, enough, wide) in
    let buf = take-take-drop 32 n (interval + 4) ahead (omega arith) ∙ block in
    let left = drop-drop (interval + 4) 32 n ahead (omega arith) ∙ behind in
    let looped =
      loop_ranges sum32 interval (suc (length ahead)) 0 x blocks rest ok oks few (omega arith)
        (omega arith)
        (omega (
          arith,
          length-append (bytes_of (x ∷ blocks)) rest,
          length-append (x.0 ++ put_word 4 x.1) (bytes_of blocks),
          length-blocks blocks,
        )) in
    let whole_start : 0 + (interval - 1) ≡ interval - 1 = omega arith in
    (
      ranges_from sum32 interval 0 (x ∷ blocks),
      simp (checksum_verify, header)
          (simp (verify_first, there)
            (simp (buf, left)
              (ap
                  (λ stop.
                    verify_loop sum32 (suc (length ahead)) interval 0 stop (x.0 ++ put_word 4 x.1)
                      (record { ahead = bytes_of blocks ++ rest; broken = false }))
                  (sym whole_start)
                ∙ looped))),
      λ o high.
          let whole_offset : o - 0 ≡ o = omega arith in
          within-is_bad sum32 interval 0 o (x ∷ blocks) (omega arith) (omega arith) high
          ∙ ap (λ k. is_bad sum32 interval k (x ∷ blocks)) whole_offset,
    )
