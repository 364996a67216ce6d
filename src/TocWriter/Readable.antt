-- ===== src/TocWriter/Readable.antt =====
-- valuestore_GEN_.go, tocWriter, and valuestorefile_GEN_.go, valueReadTOCEntriesBatched: what the
-- one writes, the other reads.
use mathlib.Core.Path.{subst}
use valuestore.Base.{
  ℕ, suc, ◌%◌, ◌^◌, ◌≤◌, ◌<◌, ◌≡◌, refl, sym, ap, ◌∙◌, Bool, true, false, List, [], ◌∷◌, ◌++◌, some,
  arith, append_assoc, append-nil, ◌==◌, length, length-append, drop, map, All, replicate,
}
use valuestore.Base.Bytes.{
  Bytes, get_word, put_word, length-put_word, get_word-put_word, drop-put_word_over,
}
use valuestore.MemClearer.{flush_toc, toc_block}
use valuestore.MemWriter.{toc_entry}
use valuestore.MemWriter.Bounds.{length-toc_entry}
use valuestore.MemClearer.{MemEntry}
use valuestore.MemClearer.Entries.{IsEntry, encode}
use valuestore.Toc.{Entry, read_toc}
use valuestore.Toc.Frames.{head, term}
use valuestore.Toc.Loop.{framed}
use valuestore.Toc.RoundTrip.{kept}
use valuestore.Toc.Batches.{of_worker, entries_of}
use valuestore.Toc.Whole.{read_toc_whole}
use valuestore.TocWriter.{TocFile, TocWriter, running, run_toc, fresh}
use valuestore.TocWriter.Tables.{idle, one, take_in, close_all, writer_of, sealed}
use valuestore.TocWriter.Order.{parts, IsStamped, IsTimely, take_ins}
use valuestore.TocWriter.Whole.{run_whole}

-- A block as a memory clearer begins and fills it.
abbrev pub block_of : ℕ → List MemEntry → Bytes
block_of s es = put_word 8 s ++ encode es

abbrev pub joined : List (List MemEntry) → List MemEntry
joined [] = []
joined (es ∷ ess) = es ++ joined ess

encode-append : (xs ys : List MemEntry) → encode (xs ++ ys) ≡ encode xs ++ encode ys
encode-append [] ys = refl
encode-append (e ∷ xs) ys =
    let x = toc_entry e.key e.timestampbits e.offset e.size in
    ap (x ++◌) (encode-append xs ys) ∙ sym (append_assoc x (encode xs) (encode ys))

parts-block_of : (s : ℕ) (es : List MemEntry) → s < 2 ^ 64 → parts (block_of s es) ≡ (s, encode es)
parts-block_of s es small =
    let stamp : get_word 8 0 (block_of s es) ≡ s = get_word-put_word 8 s (encode es) small in
    let body : drop 8 (block_of s es) ≡ encode es = drop-put_word_over 8 0 8 s (encode es) refl in
    λ i. (stamp i, body i)

take_in-same :
    (s : ℕ) (x : Bytes) (es : List MemEntry)
    → s < 2 ^ 64
    → take_in (parts (block_of s es)) (one [] (s, x)) ≡ one [] (s, x ++ encode es)
take_in-same s x es small =
    let own : (s == s) ≡ true = ground arith in
    ap (λ p. take_in p (one [] (s, x))) (parts-block_of s es small) ∙ simp own refl

-- Blocks of one timestamp are all of the table that is open.
IsTimely-same :
    (s : ℕ) (x : Bytes) (ess : List (List MemEntry))
    → s < 2 ^ 64
    → IsTimely (map (block_of s) ess) (one [] (s, x))
IsTimely-same s x [] small = tt
IsTimely-same s x (es ∷ ess) small = (
  tt,
  subst (IsTimely (map (block_of s) ess)) (sym (take_in-same s x es small))
      (IsTimely-same s (x ++ encode es) ess small),
)

take_ins-same :
    (s : ℕ) (x : Bytes) (ess : List (List MemEntry))
    → s < 2 ^ 64
    → take_ins (map (block_of s) ess) (one [] (s, x)) ≡ one [] (s, x ++ encode (joined ess))
take_ins-same s x [] small = ap (λ (b : Bytes). one [] (s, b)) (sym (append-nil x))
take_ins-same s x (es ∷ ess) small =
    ap (take_ins (map (block_of s) ess)) (take_in-same s x es small)
    ∙ take_ins-same s (x ++ encode es) ess small
    ∙ ap (λ (b : Bytes). one [] (s, b))
        (append_assoc x (encode es) (encode (joined ess))
          ∙ ap (x ++◌) (sym (encode-append es (joined ess))))

block_of-IsStamped :
    (s : ℕ) (es : List MemEntry) → 0 < s → s < 2 ^ 64 → 0 < length es → IsStamped (block_of s es)
block_of-IsStamped s [] some_stamp small none = absurd (omega arith)
block_of-IsStamped s (e ∷ es) some_stamp small many =
    let entry = toc_entry e.key e.timestampbits e.offset e.size in
    let stamp : get_word 8 0 (block_of s (e ∷ es)) ≡ s =
      get_word-put_word 8 s (encode (e ∷ es)) small in
    (
      omega (
        arith,
        length-append (put_word 8 s) (encode (e ∷ es)),
        length-put_word 8 s,
        length-append entry (encode es),
        length-toc_entry e.key e.timestampbits e.offset e.size,
      ),
      λ zeroed. omega (arith, stamp, zeroed, some_stamp),
    )

module _ (sum32 : Bytes → ℕ) (interval clearers : ℕ) (fails : ℕ → Bool)
    (fine : (n : ℕ) → fails n ≡ false) where
  IsStamped-map :
      (s : ℕ) (ess : List (List MemEntry))
      → 0 < s
      → s < 2 ^ 64
      → All (λ es. 0 < length es) ess
      → All IsStamped (map (block_of s) ess)
  IsStamped-map s [] some_stamp small many = tt
  IsStamped-map s (es ∷ ess) some_stamp small (many, all) =
      (block_of-IsStamped s es some_stamp small many, IsStamped-map s ess some_stamp small all)

  -- The tables of blocks that all have one timestamp.
  one_table :
      (s : ℕ) (es : List MemEntry) (ess : List (List MemEntry))
      → s < 2 ^ 64
      → take_ins (map (block_of s) (es ∷ ess)) (idle []) ≡ one [] (s, encode (joined (es ∷ ess)))
  one_table s es ess small =
      ap (λ p. take_ins (map (block_of s) ess) (one [] p)) (parts-block_of s es small)
      ∙ take_ins-same s (encode es) ess small
      ∙ ap (λ (b : Bytes). one [] (s, b)) (sym (encode-append es (joined ess)))

  -- If no step fails, and the memory clearers, of which there is at least one, send blocks of the
  -- same timestamp, which is not 0 and fits 64 bits, each with an entry at least, and then flush,
  -- then tocWriter has made one file and closed it; and when the checksum interval is at least 32,
  -- fits four bytes and leaves a rest of 8 or more by 32, and there is a worker, that file, in
  -- blocks of the interval with a checksum behind each, is read without an error: the count is of
  -- the entries of all blocks at an offset that is not 0, and each worker is sent, in order, those
  -- of them whose key falls to it.
  pub toc_whole-read_toc :
      (block_id batch_size workers m s : ℕ) (es : List MemEntry) (ess : List (List MemEntry))
      → 32 ≤ interval
      → interval < 2 ^ 32
      → 8 ≤ interval % 32
      → ((b : Bytes) → sum32 b < 2 ^ 32)
      → 0 < workers
      → clearers ≡ suc m
      → 0 < s
      → s < 2 ^ 64
      → All (λ (xs : List MemEntry). 0 < length xs) (es ∷ ess)
      → All IsEntry (joined (es ∷ ess))
      → (w : TocWriter) × (f : TocFile) × (batches : List (ℕ × List Entry)) × (run_toc interval
            clearers fails
            (map toc_block (map (block_of s) (es ∷ ess)) ++ replicate clearers flush_toc)
            (fresh clearers)
          ≡ running w)
        × (w.files ≡ f ∷ [])
        × (f.closed ≡ true)
        × (read_toc sum32 block_id batch_size workers (record {
          ahead = framed sum32 interval (suc (length f.content)) f.content;
          broken = false;
        })
            ≡ some (length (kept block_id (joined (es ∷ ess))), ([], batches)))
        × ((k : ℕ) → of_worker k batches ≡ entries_of workers k (kept block_id (joined (es ∷ ess))))
  toc_whole-read_toc block_id batch_size workers m s es ess wide narrow apart sums some_worker e
        some_stamp small many ok =
      let ts = map (block_of s) (es ∷ ess) in
      let all = joined (es ∷ ess) in
      let (y, ran, up) =
        run_whole interval clearers fails fine m ts e
          (IsStamped-map s (es ∷ ess) some_stamp small many)
          (
            tt,
            subst (λ p. IsTimely (map (block_of s) ess) (one [] p))
                (sym (parts-block_of s es small)) (IsTimely-same s (encode es) ess small),
          ) in
      let (batches, read, shares) =
        read_toc_whole sum32 block_id batch_size interval workers all wide narrow apart sums
          some_worker ok in
      (
        writer_of interval (idle ((s, encode all) ∷ [])) y,
        sealed interval (s, encode all),
        batches,
        ran
            ∙ ap (λ tables. running (writer_of interval (idle (close_all tables)) y))
                (one_table s es ess small),
        refl,
        refl,
        subst
            (λ (c : Bytes).
              read_toc sum32 block_id batch_size workers
                (record { ahead = framed sum32 interval (suc (length c)) c; broken = false })
              ≡ some (length (kept block_id all), ([], batches)))
            (sym (append_assoc (head interval) (encode all) (term interval))) read,
        shares,
      )
