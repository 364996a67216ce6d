-- ===== src/Toc/Frames.antt =====
-- valuestorefile_GEN_.go: the bytes of a table of contents, as the table's writer puts them
-- together, and what the entries' loop takes of them.
use valuestore.Base.{
  ℕ, zero, suc, ◌+◌, ◌-◌, ◌%◌, ◌≤◌, ◌≡◌, refl, ap, ◌∙◌, List, [], ◌∷◌, ◌++◌, inl, inr, arith,
  Bool-cases, append_assoc, leb, ◌==◌, if◌then◌else◌, length-append, length-replicate,
  drop-append_self, replicate, All,
}
use valuestore.Base.Bytes.{Bytes, get_word, word, put_word}
use valuestore.MemWriter.{toc_entry}
use valuestore.MemWriter.Bounds.{length-toc_entry}
use valuestore.MemClearer
use valuestore.MemClearer.{MemEntry}
use valuestore.MemClearer.Entries.{IsEntry, encode, entry_at-toc_entry}
use valuestore.StoreFile.{trailer}
use valuestore.Toc.{Entry, Batching, put_entry, entry_at, toc_magic}
use valuestore.Toc.Entries.{
  taken, taken_next, taken_end, taken_strip, put_at, get_word-append_longer,
}

-- An entry as a table has it, and as it is read for the value file `block_id`.
abbrev pub bytes_of : MemEntry → Bytes
bytes_of e = toc_entry e.key e.timestampbits e.offset e.size

abbrev pub read_as : ℕ → MemEntry → Entry
read_as block_id e = record {
  key = e.key;
  timestampbits = e.timestampbits;
  block_id = block_id;
  offset = e.offset;
  size = e.size;
}

-- The head, the entries, and the block of zeroes that ends in the terminator.
abbrev pub head : ℕ → Bytes
head interval = toc_magic ++ put_word 4 interval

abbrev pub term : ℕ → Bytes
term interval = replicate (interval - 8) 0 ++ trailer

abbrev pub stream : ℕ → List MemEntry → Bytes
stream interval es = head interval ++ (encode es ++ term interval)

entry_at-bytes_of :
    (block_id : ℕ) (e : MemEntry) (rest : Bytes)
    → IsEntry e
    → entry_at block_id (bytes_of e ++ rest) ≡ read_as block_id e
unfolding MemClearer.entry_at
entry_at-bytes_of block_id e rest ok = ap (read_as block_id) (entry_at-toc_entry e rest ok)

replicate_split : (n a b : ℕ) → a + b ≡ n → replicate {A = ℕ} n 0 ≡ replicate a 0 ++ replicate b 0
replicate_split n zero b h = let e : n ≡ b = omega arith in ap (λ x. replicate x 0) e
replicate_split zero (suc a) b h = absurd (omega arith)
replicate_split (suc n) (suc a) b h = ap (◌∷◌ 0) (replicate_split n a b (omega arith))

zero_offset : get_word 4 24 (replicate 32 0) ≡ 0
unfolding get_word word
zero_offset = refl

module _ (sum32 : Bytes → ℕ) (block_id batch_size : ℕ) where
  -- The entries put into the batches in order, those at offset 0 passed over.
  abbrev pub put_entries : List MemEntry → Batching → Batching
  put_entries [] out = out
  put_entries (e ∷ es) out =
      put_entries es (if e.offset == 0 then out else put_entry batch_size (read_as block_id e) out)

  taken-encode :
      (es : List MemEntry) (rest : Bytes) (out : Batching)
      → All IsEntry es
      → taken sum32 block_id batch_size (encode es ++ rest) out
        ≡ taken sum32 block_id batch_size rest (put_entries es out)
  taken-encode [] rest out ok = refl
  taken-encode (e ∷ es) rest out (one, ok) =
      let size = length-toc_entry e.key e.timestampbits e.offset e.size in
      let whole = append_assoc (bytes_of e) (encode es) rest in
      ap (λ b. taken sum32 block_id batch_size b out) whole
      ∙ taken_next sum32 block_id batch_size (bytes_of e ++ (encode es ++ rest)) out
          (omega (arith, length-append (bytes_of e) (encode es ++ rest), size))
      ∙ ap
          (λ b.
            taken sum32 block_id batch_size b
              (put_at sum32 block_id batch_size (bytes_of e ++ (encode es ++ rest)) out))
          (drop-append_self 32 (bytes_of e) (encode es ++ rest) size)
      ∙ ap
          (λ (x : Entry).
            taken sum32 block_id batch_size (encode es ++ rest)
              (if x.offset == 0 then out else put_entry batch_size x out))
          (entry_at-bytes_of block_id e (encode es ++ rest) one)
      ∙ taken-encode es rest _ ok

  zeroes_next :
      (rest : Bytes) (out : Batching)
      → taken sum32 block_id batch_size (replicate 32 0 ++ rest) out
        ≡ taken sum32 block_id batch_size rest out
  zeroes_next rest out =
      taken_next sum32 block_id batch_size (replicate 32 0 ++ rest) out
        (omega (arith, length-append (replicate 32 0) rest, length-replicate {A = ℕ} 32 0))
      ∙ ap
          (λ z. taken sum32 block_id batch_size rest (
            if z == 0
            then out
            else put_entry batch_size (entry_at block_id (replicate 32 0 ++ rest)) out))
          (get_word-append_longer 4 24 (replicate 32 0) rest
              (omega (arith, length-replicate {A = ℕ} 32 0))
            ∙ zero_offset)

  zeroes_below :
      (fuel n : ℕ) (out : Batching)
      → n ≤ fuel
      → (taken sum32 block_id batch_size (replicate n 0) out).1 ≡ out
  zeroes_below zero n out h =
      ap (λ (t : Bytes × Batching). t.1)
        (taken_end sum32 block_id batch_size (replicate n 0) out
          (omega (arith, length-replicate {A = ℕ} n 0)))
  zeroes_below (suc fuel) n out h = elim (Bool-cases (leb 32 n)) [
    | inr few ↦
        ap (λ (t : Bytes × Batching). t.1)
          (taken_end sum32 block_id batch_size (replicate n 0) out
            (ground (arith, few, length-replicate {A = ℕ} n 0)))
    | inl many ↦
        ap (λ x. (taken sum32 block_id batch_size x out).1)
          (replicate_split n 32 (n - 32) (ground (arith, many)))
        ∙ ap (λ (t : Bytes × Batching). t.1) (zeroes_next (replicate (n - 32) 0) out)
        ∙ zeroes_below fuel (n - 32) out (ground (arith, many))
  ]

  -- What the entries' loop takes of the bytes behind the head, when they are taken as one piece.
  pub taken-stream :
      (interval : ℕ) (es : List MemEntry) (out : Batching)
      → All IsEntry es
      → 8 ≤ interval
      → 8 ≤ interval % 32
      → (taken sum32 block_id batch_size (encode es ++ term interval) out).1 ≡ put_entries es out
  taken-stream interval es out ok long apart =
      ap (λ (t : Bytes × Batching). t.1) (taken-encode es (term interval) out ok)
      ∙ taken_strip sum32 block_id batch_size (replicate (interval - 8) 0) trailer
          (put_entries es out) refl
          (omega (
            arith,
            length-append (replicate (interval - 8) 0) trailer,
            length-replicate {A = ℕ} (interval - 8) 0,
          ))
      ∙ zeroes_below (interval - 8) (interval - 8) (put_entries es out) (omega arith)
