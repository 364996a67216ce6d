-- ===== src/Toc/Whole.antt =====
-- valuestorefile_GEN_.go: valueReadTOCEntriesBatched of a whole table of contents.
use valuestore.Base.{
  ℕ, zero, suc, ◌+◌, ◌-◌, ◌%◌, ◌^◌, ◌≤◌, ◌<◌, ◌≡◌, refl, sym, ap, ◌∙◌, true, false, List, [], ◌∷◌,
  ◌++◌, Option, none, some, inl, inr, arith, Bool-cases, append_assoc, append-nil, ◌==◌, length,
  length-replicate, All,
}
use valuestore.Base.Bytes.{Bytes}
use valuestore.MemClearer.{MemEntry}
use valuestore.MemClearer.Entries.{IsEntry}
use valuestore.Toc.{
  Entry, Batching, Scan, flush_batches, first_batches, put_entry, read_toc, read_header,
}
use valuestore.Toc.Frames.{read_as, put_entries, taken-stream}
use valuestore.Toc.RoundTrip.{
  kept, file_of, length-file_of, take-file_of, first_step, header_read, length-stream,
}
use valuestore.Toc.Batches.{
  of_worker, entries_of, all_of, put_entry-count, put_entry-all_of, of_worker-all_of,
  batch_at_first,
}

entries_of-append :
    (workers k : ℕ) (e : Entry) (es : List Entry)
    → entries_of workers k (e ∷ []) ++ entries_of workers k es ≡ entries_of workers k (e ∷ es)
entries_of-append workers k e es = elim (Bool-cases (e.key.key_b % workers == k)) [
  | inl own ↦ simp own refl
  | inr other ↦ simp other refl
]

module _ (sum32 : Bytes → ℕ) (block_id batch_size : ℕ) where
  put_entries-count :
      (es : List MemEntry) (b : Batching)
      → ((put_entries sum32 block_id batch_size es b).count ≡ b.count + length (kept block_id es))
        × (length (put_entries sum32 block_id batch_size es b).batches ≡ length b.batches)
  put_entries-count [] b = (omega arith, refl)
  put_entries-count (e ∷ es) b = elim (Bool-cases (e.offset == 0)) [
    | inl filler ↦ simp filler (put_entries-count es b)
    | inr real ↦
        let one = put_entry-count batch_size (read_as block_id e) b in
        let rest = put_entries-count es (put_entry batch_size (read_as block_id e) b) in
        simp real (omega (arith, one, rest), rest.1 ∙ one.1)
  ]

  put_entries-all_of :
      (es : List MemEntry) (b : Batching) (k : ℕ)
      → 0 < length b.batches
      → all_of k (put_entries sum32 block_id batch_size es b)
        ≡ all_of k b ++ entries_of (length b.batches) k (kept block_id es)
  put_entries-all_of [] b k some_worker = sym (append-nil (all_of k b))
  put_entries-all_of (e ∷ es) b k some_worker = elim (Bool-cases (e.offset == 0)) [
    | inl filler ↦ simp filler (put_entries-all_of es b k some_worker)
    | inr real ↦
        let x = read_as block_id e in
        let same = (put_entry-count batch_size x b).1 in
        simp real (
          put_entries-all_of es (put_entry batch_size x b) k (omega (arith, same))
          ∙ ap (λ n. all_of k (put_entry batch_size x b) ++ entries_of n k (kept block_id es)) same
          ∙ ap (λ a. a ++ entries_of (length b.batches) k (kept block_id es))
              (put_entry-all_of batch_size x b k some_worker)
          ∙ append_assoc (all_of k b) (entries_of (length b.batches) k (x ∷ [])) _
          ∙ ap (λ a. all_of k b ++ a) (entries_of-append (length b.batches) k x (kept block_id es)))
  ]

abbrev start : ℕ → Batching
start workers = record { batches = first_batches workers; sent = []; count = 0 }

start-all_of : (workers k : ℕ) → all_of k (start workers) ≡ []
start-all_of workers zero = refl
start-all_of workers (suc k) = batch_at_first (workers - 1) k

-- A table of contents of a value file, as tocWriter puts it together: the head with its checksum
-- interval, the entries, and a block of zeroes that ends in the terminator, all of it in blocks of
-- the interval with a checksum behind each. When the interval is at least 32, fits its four bytes,
-- and leaves a rest of 8 or more by 32, as the default of 65532 does, and there is a worker, the
-- table is read without an error: the count is of the entries at an offset that is not zero, and
-- each worker is sent, in order, those of them whose key falls to it.
pub read_toc_whole :
    (sum32 : Bytes → ℕ) (block_id batch_size interval workers : ℕ) (es : List MemEntry)
    → 32 ≤ interval
    → interval < 2 ^ 32
    → 8 ≤ interval % 32
    → ((b : Bytes) → sum32 b < 2 ^ 32)
    → 0 < workers
    → All IsEntry es
    → (batches : List (ℕ × List Entry)) × (read_toc sum32 block_id batch_size workers
          (record { ahead = file_of sum32 block_id batch_size interval es; broken = false })
        ≡ some (length (kept block_id es), ([], batches)))
      × ((k : ℕ) → of_worker k batches ≡ entries_of workers k (kept block_id es))
unfolding read_toc
read_toc_whole sum32 block_id batch_size interval workers es wide small apart sums some_worker ok =
    let ahead = file_of sum32 block_id batch_size interval es in
    let out = put_entries sum32 block_id batch_size es (start workers) in
    let batches = out.sent ++ flush_batches 0 out.batches in
    let st : Scan = record { left = []; skip_next = 32; bad = 0; errs = []; out = start workers } in
    let size : length (first_batches workers) ≡ workers =
      omega (arith, length-replicate {A = Option (List Entry)} (workers - 1) none) in
    let counts = put_entries-count sum32 block_id batch_size es (start workers) in
    let header : read_header true (record { ahead = ahead; broken = false }) ≡ (interval, none) =
      header_read sum32 block_id batch_size interval ahead
        (take-file_of sum32 block_id batch_size interval es wide)
        (omega (
          arith,
          length-file_of sum32 block_id batch_size interval es wide,
          length-stream sum32 block_id batch_size interval es (omega arith),
        ))
        wide small in
    let all =
      taken-stream sum32 block_id batch_size interval es (start workers) ok (omega arith) apart in
    let (left, e) =
      first_step sum32 block_id batch_size interval es (length ahead) st wide sums apart refl
        (length-file_of sum32 block_id batch_size interval es wide) in
    (
      batches,
      simp (read_toc, header)
          (rw e (
            ap (λ (o : Batching). some (o.count, ([], o.sent ++ flush_batches 0 o.batches))) all
            ∙ ap (λ n. some (n, ([], batches))) (omega (arith, counts)))),
      λ k.
          of_worker-all_of k out
          ∙ put_entries-all_of sum32 block_id batch_size es (start workers) k (omega (arith, size))
          ∙ ap (λ a. a ++ entries_of (length (first_batches workers)) k (kept block_id es))
              (start-all_of workers k)
          ∙ ap (λ n. entries_of n k (kept block_id es)) size,
    )
