-- ===== src/Toc/Entries.antt =====
-- valuestorefile_GEN_.go: the loop that takes the entries of a piece, over pieces put together.
use valuestore.Base.{
  ℕ, zero, suc, ◌+◌, ◌-◌, ◌%◌, ◌≤◌, ◌<◌, ◌≡◌, refl, sym, ap, ◌∙◌, true, false, [], ◌∷◌, ◌++◌, inl,
  inr, arith, Bool-cases, leb, ◌==◌, if◌then◌else◌, length, length-append, length-drop, take, drop,
  drop-drop,
}
use valuestore.Base.Bytes.{Bytes, get_word, word}
use valuestore.Toc.{Entry, Batching, put_entry, entry_at, take_entries}

-- A field of a piece is the same with more bytes behind the piece.
take-take_longer : (n : ℕ) (xs ys : Bytes) → n ≤ length xs → take n (xs ++ ys) ≡ take n xs
take-take_longer zero xs ys h = refl
take-take_longer (suc n) [] ys h = absurd (omega arith)
take-take_longer (suc n) (x ∷ xs) ys h = ap (◌∷◌ x) (take-take_longer n xs ys (omega arith))

pub drop-append_shorter :
    (n : ℕ) (xs ys : Bytes) → n ≤ length xs → drop n (xs ++ ys) ≡ drop n xs ++ ys
drop-append_shorter zero xs ys h = refl
drop-append_shorter (suc n) [] ys h = absurd (omega arith)
drop-append_shorter (suc n) (x ∷ xs) ys h = drop-append_shorter n xs ys (omega arith)

pub get_word-append_longer :
    (n o : ℕ) (xs ys : Bytes) → o + n ≤ length xs → get_word n o (xs ++ ys) ≡ get_word n o xs
unfolding get_word
get_word-append_longer n o xs ys h =
    rw (drop-append_shorter o xs ys (omega arith))
      (ap word (take-take_longer n (drop o xs) ys (omega (arith, length-drop o xs))))

module _ (sum32 : Bytes → ℕ) (block_id batch_size : ℕ) where
  entry_at-append :
      (xs ys : Bytes) → 32 ≤ length xs → entry_at block_id (xs ++ ys) ≡ entry_at block_id xs
  entry_at-append xs ys h = λ i. record {
    key = record {
      key_a = get_word-append_longer 8 0 xs ys (omega arith) i;
      key_b = get_word-append_longer 8 8 xs ys (omega arith) i;
    };
    timestampbits = get_word-append_longer 8 16 xs ys (omega arith) i;
    block_id = block_id;
    offset = get_word-append_longer 4 24 xs ys (omega arith) i;
    size = get_word-append_longer 4 28 xs ys (omega arith) i;
  }

  -- What one entry of a piece does to the batches.
  abbrev pub put_at : Bytes → Batching → Batching
  put_at rbuf out =
      if (entry_at block_id rbuf).offset == 0
      then out
      else put_entry batch_size (entry_at block_id rbuf) out

  abbrev pub taken : Bytes → Batching → Bytes × Batching
  taken rbuf out = take_entries sum32 block_id batch_size (length rbuf) rbuf out

  entries_end :
      (fuel : ℕ) (rbuf : Bytes) (out : Batching)
      → length rbuf < 32
      → take_entries sum32 block_id batch_size fuel rbuf out ≡ (rbuf, out)
  unfolding take_entries
  entries_end zero rbuf out h = refl
  entries_end (suc fuel) rbuf out h =
      let e : leb 32 (length rbuf) ≡ false = ground (arith, h) in simp e refl

  entries_next :
      (fuel : ℕ) (rbuf : Bytes) (out : Batching)
      → 32 ≤ length rbuf
      → take_entries sum32 block_id batch_size (suc fuel) rbuf out
        ≡ take_entries sum32 block_id batch_size fuel (drop 32 rbuf) (put_at rbuf out)
  unfolding take_entries
  entries_next fuel rbuf out h =
      let e : leb 32 (length rbuf) ≡ true = ground (arith, h) in simp e refl

  -- One round of fuel for each byte is as good as more.
  entries_enough :
      (n m : ℕ) (rbuf : Bytes) (out : Batching)
      → length rbuf ≤ n
      → length rbuf ≤ m
      → take_entries sum32 block_id batch_size n rbuf out
        ≡ take_entries sum32 block_id batch_size m rbuf out
  entries_enough zero m rbuf out hn hm =
      entries_end zero rbuf out (omega arith) ∙ sym (entries_end m rbuf out (omega arith))
  entries_enough (suc n) zero rbuf out hn hm =
      entries_end (suc n) rbuf out (omega arith) ∙ sym (entries_end zero rbuf out (omega arith))
  entries_enough (suc n) (suc m) rbuf out hn hm = elim (Bool-cases (leb 32 (length rbuf))) [
    | inr few ↦
        entries_end (suc n) rbuf out (ground (arith, few))
        ∙ sym (entries_end (suc m) rbuf out (ground (arith, few)))
    | inl many ↦
        entries_next n rbuf out (ground (arith, many))
        ∙ entries_enough n m (drop 32 rbuf) (put_at rbuf out) (omega (arith, length-drop 32 rbuf))
            (omega (arith, length-drop 32 rbuf))
        ∙ sym (entries_next m rbuf out (ground (arith, many)))
  ]

  pub taken_end : (rbuf : Bytes) (out : Batching) → length rbuf < 32 → taken rbuf out ≡ (rbuf, out)
  taken_end rbuf out h = entries_end (length rbuf) rbuf out h

  pub taken_next :
      (rbuf : Bytes) (out : Batching)
      → 32 ≤ length rbuf
      → taken rbuf out ≡ taken (drop 32 rbuf) (put_at rbuf out)
  taken_next rbuf out h =
      entries_enough (length rbuf) (suc (length rbuf)) rbuf out (omega arith) (omega arith)
      ∙ entries_next (length rbuf) rbuf out h
      ∙ entries_enough (length rbuf) (length (drop 32 rbuf)) (drop 32 rbuf) (put_at rbuf out)
          (omega (arith, length-drop 32 rbuf)) (omega arith)

  put_at-append :
      (xs ys : Bytes) (out : Batching) → 32 ≤ length xs → put_at (xs ++ ys) out ≡ put_at xs out
  put_at-append xs ys out h =
      ap (λ (e : Entry). if e.offset == 0 then out else put_entry batch_size e out)
        (entry_at-append xs ys h)

  append_step :
      (xs ys : Bytes) (out : Batching)
      → 32 ≤ length xs
      → taken (drop 32 xs ++ ys) (put_at xs out)
        ≡ taken
            ((taken (drop 32 xs) (put_at xs out)).0 ++ ys)
            (taken (drop 32 xs) (put_at xs out)).1
      → taken (xs ++ ys) out ≡ taken ((taken xs out).0 ++ ys) (taken xs out).1
  append_step xs ys out many later =
      taken_next (xs ++ ys) out (omega (arith, length-append xs ys))
      ∙ ap (λ d. taken d (put_at (xs ++ ys) out)) (drop-append_shorter 32 xs ys many)
      ∙ ap (λ o. taken (drop 32 xs ++ ys) o) (put_at-append xs ys out many)
      ∙ later
      ∙ ap (λ (t : Bytes × Batching). taken (t.0 ++ ys) t.1) (sym (taken_next xs out many))

  append_short :
      (xs ys : Bytes) (out : Batching)
      → length xs < 32
      → taken (xs ++ ys) out ≡ taken ((taken xs out).0 ++ ys) (taken xs out).1
  append_short xs ys out few =
      ap (λ (t : Bytes × Batching). taken (t.0 ++ ys) t.1) (sym (taken_end xs out few))

  append_below :
      (n : ℕ) (xs ys : Bytes) (out : Batching)
      → length xs ≤ n
      → taken (xs ++ ys) out ≡ taken ((taken xs out).0 ++ ys) (taken xs out).1
  append_below zero xs ys out h = append_short xs ys out (omega arith)
  append_below (suc n) xs ys out h = elim (Bool-cases (leb 32 (length xs))) [
    | inr few ↦ append_short xs ys out (ground (arith, few))
    | inl many ↦
        append_step xs ys out (ground (arith, many))
          (append_below n (drop 32 xs) ys (put_at xs out) (ground (arith, many, length-drop 32 xs)))
  ]

  -- A piece behind another: the second begins with what the first left over.
  pub taken-append :
      (xs ys : Bytes) (out : Batching)
      → taken (xs ++ ys) out ≡ taken ((taken xs out).0 ++ ys) (taken xs out).1
  taken-append xs ys out = append_below (length xs) xs ys out (omega arith)

  left_below :
      (n : ℕ) (xs : Bytes) (out : Batching)
      → length xs ≤ n
      → length (taken xs out).0 ≡ length xs % 32
  left_below zero xs out h =
      ap (λ (t : Bytes × Batching). length t.0) (taken_end xs out (omega arith)) ∙ omega arith
  left_below (suc n) xs out h = elim (Bool-cases (leb 32 (length xs))) [
    | inr few ↦
        ap (λ (t : Bytes × Batching). length t.0) (taken_end xs out (ground (arith, few)))
        ∙ ground (arith, few)
    | inl many ↦
        ap (λ (t : Bytes × Batching). length t.0) (taken_next xs out (ground (arith, many)))
        ∙ left_below n (drop 32 xs) (put_at xs out) (ground (arith, many, length-drop 32 xs))
        ∙ ground (arith, many, length-drop 32 xs)
  ]

  -- What is left over is less than an entry.
  pub length-taken : (xs : Bytes) (out : Batching) → length (taken xs out).0 ≡ length xs % 32
  length-taken xs out = left_below (length xs) xs out (omega arith)

  -- Eight bytes at the end that no entry reaches into are taken for none.
  pub taken_strip :
      (xs ys : Bytes) (out : Batching)
      → length ys ≡ 8
      → 8 ≤ length (xs ++ ys) % 32
      → (taken (xs ++ ys) out).1 ≡ (taken xs out).1
  taken_strip xs ys out eight apart =
      ap (λ (t : Bytes × Batching). t.1)
        (taken-append xs ys out
          ∙ taken_end ((taken xs out).0 ++ ys) (taken xs out).1 (
              omega (
                arith,
                length-append (taken xs out).0 ys,
                length-append xs ys,
                length-taken xs out,
              )))

  suffix_short :
      (xs : Bytes) (out : Batching)
      → length xs < 32
      → (taken xs out).0 ≡ drop (length xs - length xs % 32) xs
  suffix_short xs out few =
      let none_gone : length xs - length xs % 32 ≡ 0 = omega arith in
      ap (λ (t : Bytes × Batching). t.0) (taken_end xs out few)
      ∙ ap (λ k. drop k xs) (sym none_gone)

  suffix_below :
      (n : ℕ) (xs : Bytes) (out : Batching)
      → length xs ≤ n
      → (taken xs out).0 ≡ drop (length xs - length xs % 32) xs
  suffix_below zero xs out h = suffix_short xs out (omega arith)
  suffix_below (suc n) xs out h = elim (Bool-cases (leb 32 (length xs))) [
    | inr few ↦ suffix_short xs out (ground (arith, few))
    | inl many ↦
        let later = drop 32 xs in
        ap (λ (t : Bytes × Batching). t.0) (taken_next xs out (ground (arith, many)))
        ∙ suffix_below n later (put_at xs out) (ground (arith, many, length-drop 32 xs))
        ∙ drop-drop (length xs - length xs % 32) 32 (length later - length later % 32) xs
            (ground (arith, many, length-drop 32 xs))
  ]

  -- What is left over are the last bytes.
  pub taken_left :
      (xs : Bytes) (out : Batching) → (taken xs out).0 ≡ drop (length xs - length xs % 32) xs
  taken_left xs out = suffix_below (length xs) xs out (omega arith)
