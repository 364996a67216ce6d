-- ===== src/StoreFile/Closing.antt =====
-- valuestorefile_GEN_.go, closeWriting: what it writes.
use valuestore.Base.{
  ℕ, zero, suc, ◌+◌, ◌-◌, ◌≤◌, ◌<◌, ◌≡◌, refl, ap, true, List, [], ◌∷◌, ◌++◌, Option, none, some,
  append_assoc, append-nil, map, arith, ltb, All, length, length-append, length-take, length-drop,
  length-replicate, take, drop, take-append-drop, replicate,
}
use valuestore.Base.Bytes.{Bytes, put_word}
use valuestore.Package.{Error}
use valuestore.StoreFile.{
  StoreFile, Closed, checksummed, close_loop, closed_with, close_writing, trailer, wrote,
}
use valuestore.StoreFile.Content.{IsOpen}

abbrev pub flat : List Bytes → Bytes
flat [] = []
flat (b ∷ bs) = b ++ flat bs

abbrev pub terminator : ℕ → Bytes
terminator interval = replicate (interval - 8) 0 ++ trailer

-- Full blocks with their checksums, and a tail: the values that the buffer held are all in the
-- full blocks, and the terminator is behind them.
abbrev pub Sealed : (sum32 : Bytes → ℕ) → ℕ → Bytes → Option Error → Option Closed → Type 0
Sealed sum32 interval buf err none = ⊥
Sealed sum32 interval buf err (some c) =
    (c.error ≡ err)
    × (heads : List Bytes) × (tail : Bytes) × (c.written
        ≡ map (λ b. b ++ put_word 4 (sum32 b)) heads ++ tail ∷ [])
    × (flat heads ++ tail ≡ buf ++ terminator interval)
    × (length buf ≤ length (flat heads))
    × All (λ b. length b ≡ interval) heads

length-terminator : (interval : ℕ) → 32 ≤ interval → length (terminator interval) ≡ interval
length-terminator interval wide = omega (
  arith,
  length-append (replicate (interval - 8) 0) trailer,
  length-replicate {A = ℕ} (interval - 8) 0,
  wide,
)

pub drop_all : (n : ℕ) (xs : Bytes) → length xs ≤ n → drop n xs ≡ []
drop_all zero [] h = refl
drop_all zero (x ∷ xs) h = absurd (omega (arith, h))
drop_all (suc n) [] h = refl
drop_all (suc n) (x ∷ xs) h = drop_all n xs (omega (arith, h))

take_all : (n : ℕ) (xs : Bytes) → length xs ≤ n → take n xs ≡ xs
take_all zero [] h = refl
take_all zero (x ∷ xs) h = absurd (omega (arith, h))
take_all (suc n) [] h = refl
take_all (suc n) (x ∷ xs) h = ap (◌∷◌ x) (take_all n xs (omega (arith, h)))

module _ (sum32 : Bytes → ℕ) (disk_write : Bytes → Option Error)
    (written : (b : Bytes) → disk_write b ≡ none) where
  -- What fits into the buffer is the last write.
  close_loop-last :
      (n interval : ℕ) (buf term : Bytes)
      → 0 < length term
      → length buf + length term ≤ interval
      → close_loop sum32 disk_write (suc n) interval buf term
        ≡ some (record { written = (buf ++ term) ∷ []; error = none })
  unfolding close_loop
  close_loop-last n interval buf [] some_left fits = absurd (omega (arith, some_left))
  close_loop-last n interval buf (x ∷ term) some_left fits =
      let room = interval - length buf in
      let d = drop_all room (x ∷ term) (omega (arith, fits)) in
      let t = take_all room (x ∷ term) (omega (arith, fits)) in simp (d, t, written) refl

  -- What does not fit is a full block with its checksum, and the loop goes on.
  close_loop-full :
      (n interval : ℕ) (buf term : Bytes)
      → interval < length buf + length term
      → length buf < interval
      → close_loop sum32 disk_write (suc n) interval buf term
        ≡ wrote sum32 disk_write
            (checksummed sum32 disk_write (buf ++ take (interval - length buf) term))
            none
            (close_loop sum32 disk_write n interval [] (drop (interval - length buf) term))
  unfolding close_loop
  close_loop-full n interval buf [] more is_room = absurd (omega (arith, more, is_room))
  close_loop-full n interval buf (x ∷ term) more is_room =
      let left = length-drop (interval - length buf) (x ∷ term) in
      let some_left : ltb 0 (length (drop (interval - length buf) (x ∷ term))) ≡ true =
        ground (arith, left, more) in
      simp (some_left, written) refl

  close_loop-Sealed :
      (n interval : ℕ) (buf : Bytes)
      → 32 ≤ interval
      → length buf < interval
      → Sealed sum32 interval buf none
          (close_loop sum32 disk_write (suc (suc n)) interval buf (terminator interval))
  close_loop-Sealed n interval [] wide is_room =
      let e =
        close_loop-last (suc n) interval [] (terminator interval)
          (omega (arith, length-terminator interval wide, wide))
          (omega (arith, length-terminator interval wide)) in
      simp e (refl, [], terminator interval, refl, refl, omega arith, tt)
  close_loop-Sealed n interval (x ∷ buf) wide is_room =
      let term = terminator interval in
      let room = interval - length (x ∷ buf) in
      let whole = length-terminator interval wide in
      let left = length-drop room term in
      let first = close_loop-full (suc n) interval (x ∷ buf) term (omega (arith, whole)) is_room in
      let last =
        close_loop-last n interval [] (drop room term) (omega (arith, left, whole, is_room))
          (omega (arith, left, whole)) in
      let part_length = length-append (x ∷ buf) (take room term) in
      let taken = length-take room term in
      simp (first, last)
        (
          refl,
          (x ∷ (buf ++ take room term)) ∷ [],
          drop room term,
          refl,
          simp (append-nil, append_assoc, take-append-drop) refl,
          simp append-nil (omega (arith, part_length)),
          (omega (arith, part_length, taken, whole, is_room), tt),
        )

  close_loop-enough :
      (fuel interval : ℕ) (buf : Bytes)
      → 2 ≤ fuel
      → 32 ≤ interval
      → length buf < interval
      → Sealed sum32 interval buf none
          (close_loop sum32 disk_write fuel interval buf (terminator interval))
  close_loop-enough zero interval buf enough wide is_room = absurd (omega (arith, enough))
  close_loop-enough (suc zero) interval buf enough wide is_room = absurd (omega (arith, enough))
  close_loop-enough (suc (suc n)) interval buf enough wide is_room =
      close_loop-Sealed n interval buf wide is_room

  closed_with-Sealed :
      (interval : ℕ) (buf : Bytes) (err : Option Error) (c : Option Closed)
      → Sealed sum32 interval buf none c
      → Sealed sum32 interval buf err (closed_with sum32 disk_write err c)
  closed_with-Sealed interval buf err none h = h
  closed_with-Sealed interval buf err (some c)
        (fine, heads, tail, wrote_all, content, inside, whole) =
      (
        ap (λ (e : Option Error). elim e [ some x ↦ some x | none ↦ err ]) fine,
        heads,
        tail,
        wrote_all,
        content,
        inside,
        whole,
      )

  -- Closing an open file whose writes to the disk succeed, with an interval of at least 32 bytes,
  -- ends with the error of its Close, or without one if that has none: it writes full blocks, each
  -- with its checksum, and a tail, which together hold what the buffer held and the terminator, and
  -- what the buffer held is all in the blocks with a checksum.
  pub close_writing-Sealed :
      (err : Option Error) (f : StoreFile)
      → 32 ≤ f.checksum_interval
      → IsOpen f
      → Sealed sum32 f.checksum_interval f.current.buf err (close_writing sum32 disk_write err f)
  unfolding close_writing
  close_writing-Sealed err f wide is = closed_with-Sealed f.checksum_interval f.current.buf err _ (
      close_loop-enough f.checksum_interval f.checksum_interval f.current.buf (omega (arith, wide))
        wide is.has_room)
