-- ===== src/Toc/RoundTrip.antt =====
-- valuestorefile_GEN_.go: a whole table of contents, as the table's writer leaves it, is read.
use valuestore.Base.{
  ℕ, zero, suc, ◌+◌, ◌-◌, ◌*◌, ◌%◌, ◌^◌, ◌≤◌, ◌<◌, ◌≡◌, refl, sym, ap, ◌∙◌, true, false, List, [],
  ◌∷◌, ◌++◌, none, some, inl, inr, arith, Bool-cases, append_assoc, leb, ltb, ◌==◌, if◌then◌else◌,
  length, length-append, length-drop, length-take, length-replicate, take, drop, take-append-drop,
  drop-append_self, take-append_self, replicate,
}
use valuestore.Base.Bytes.{Bytes, get_word, put_word, length-put_word, get_word-append}
use valuestore.Base.Overwrite.{take-take_front}
use valuestore.MemWriter.Bounds.{length-toc_entry}
use valuestore.MemClearer.{MemEntry}
use valuestore.MemClearer.Entries.{encode}
use valuestore.StoreFile.{trailer}
use valuestore.Toc.{Entry, Scan, toc_magic, header_interval, read_header, take_piece, toc_loop}
use valuestore.Toc.Entries.{drop-append_shorter}
use valuestore.Toc.Frames.{head, term, stream, bytes_of, read_as}
use valuestore.Toc.Loop.{
  framed, Finished, IsEnded, whole_step, loop_frames, Finished-piece, IsEnded-later, last_word,
}

-- The entries that are read: those at offset 0 are passed over.
abbrev pub kept : ℕ → List MemEntry → List Entry
kept block_id [] = []
kept block_id (e ∷ es) =
    if e.offset == 0 then kept block_id es else read_as block_id e ∷ kept block_id es

length-encode : (es : List MemEntry) → length (encode es) ≡ length es * 32
length-encode [] = refl
length-encode (e ∷ es) = omega (
  arith,
  length-append (bytes_of e) (encode es),
  length-toc_entry e.key e.timestampbits e.offset e.size,
  length-encode es,
)

length-term : (interval : ℕ) → 8 ≤ interval → length (term interval) ≡ interval
length-term interval h = omega (
  arith,
  length-append (replicate (interval - 8) 0) trailer,
  length-replicate {A = ℕ} (interval - 8) 0,
)

module _ (sum32 : Bytes → ℕ) (block_id batch_size interval : ℕ) where
  pub length-framed : (n : ℕ) (s : Bytes) → length s ≤ length (framed sum32 interval n s)
  length-framed zero s = omega arith
  length-framed (suc n) s = elim (Bool-cases (ltb (length s) interval)) [
    | inl few ↦ simp few (omega arith)
    | inr many ↦
        let rest = framed sum32 interval n (drop interval s) in
        let sum = put_word 4 (sum32 (take interval s)) in
        simp many (
          omega (
            arith,
            length-framed n (drop interval s),
            length-append (take interval s) (sum ++ rest),
            length-append sum rest,
            length-take interval s,
            length-drop interval s,
          ))
  ]

  pub header_read :
      (ahead : Bytes)
      → take 32 ahead ≡ head interval
      → 32 ≤ length ahead
      → 32 ≤ interval
      → interval < 2 ^ 32
      → read_header true (record { ahead = ahead; broken = false }) ≡ (interval, none)
  unfolding read_header header_interval
  header_read ahead front long wide small =
      let enough : leb 32 (length ahead) ≡ true = ground (arith, long) in
      let word : get_word 4 28 (head interval) ≡ interval =
        get_word-append 4 28 0 toc_magic (put_word 4 interval) refl ∙ last_word interval small in
      let fine : ltb interval 32 ≡ false = ground (arith, wide) in
      simp (read_header, enough, front) (simp (header_interval, word, fine) refl)

  -- The bytes behind the head.
  abbrev pub body : List MemEntry → Bytes
  body es = encode es ++ term interval

  pub length-stream :
      (es : List MemEntry)
      → 8 ≤ interval
      → length (stream interval es) ≡ 32 + (length es * 32 + interval)
  length-stream es h = omega (
    arith,
    length-append (head interval) (body es),
    length-append toc_magic (put_word 4 interval),
    length-put_word 4 interval,
    length-append (encode es) (term interval),
    length-encode es,
    length-term interval h,
  )

  body-IsEnded :
      (es : List MemEntry)
      → 8 ≤ interval
      → 8 ≤ interval % 32
      → IsEnded sum32 block_id batch_size interval (body es)
  body-IsEnded es h apart =
      let size : length (body es) ≡ length es * 32 + interval = omega (
        arith,
        length-append (encode es) (term interval),
        length-encode es,
        length-term interval h,
      ) in
      let zeroes : Bytes = replicate (interval - 8) 0 in
      (
        omega (arith, size),
        ap (drop (length (body es) - 8)) (sym (append_assoc (encode es) zeroes trailer))
            ∙ drop-append_self (length (body es) - 8) (encode es ++ zeroes) trailer (
                omega (
                  arith,
                  size,
                  length-append (encode es) zeroes,
                  length-encode es,
                  length-replicate {A = ℕ} (interval - 8) 0,
                )),
      )

  -- The first block, behind the head, with all that follows.
  behind_head :
      (es : List MemEntry)
      → 32 ≤ interval
      → drop 32 (take interval (stream interval es)) ++ drop interval (stream interval es) ≡ body es
  behind_head es wide =
      let s = stream interval es in
      let size : length (take interval s) ≡ interval =
        omega (arith, length-take interval s, length-stream es (omega arith)) in
      sym (drop-append_shorter 32 (take interval s) (drop interval s) (omega (arith, size)))
      ∙ ap (drop 32) (take-append-drop interval s)
      ∙ drop-append_self 32 (head interval) (body es)
          (omega (arith, length-append toc_magic (put_word 4 interval), length-put_word 4 interval))

  abbrev pub file_of : List MemEntry → Bytes
  file_of es = framed sum32 interval (suc (length (stream interval es))) (stream interval es)

  pub first_step :
      (es : List MemEntry) (fuel : ℕ) (st : Scan)
      → 32 ≤ interval
      → ((b : Bytes) → sum32 b < 2 ^ 32)
      → 8 ≤ interval % 32
      → st.skip_next ≡ 32
      → length (stream interval es) < fuel
      → Finished sum32 block_id batch_size interval (body es) st (
          toc_loop sum32 block_id batch_size
            (suc fuel)
            interval
            (record { ahead = file_of es; broken = false })
            st)
  first_step es fuel st wide small apart skip more =
      let s = stream interval es in
      let b = take interval s in
      let d = drop interval s in
      let r = drop 32 b in
      let long = length-stream es (omega arith) in
      let many : ltb (length s) interval ≡ false = ground (arith, long) in
      let size : length b ≡ interval = omega (arith, length-take interval s, long) in
      let skipped : (st.skip_next == 0) ≡ false = ground (arith, skip) in
      let inside : ltb (length b) st.skip_next ≡ false = ground (arith, size, skip, wide) in
      let step =
        whole_step sum32 block_id batch_size interval fuel b (framed sum32 interval (length s) d) r
          st size (small b) (simp (skipped, inside) (ap (λ k. some (drop k b)) skip)) in
      let joined = behind_head es wide in
      let rest =
        loop_frames sum32 block_id batch_size interval (length s) fuel d
          (take_piece sum32 block_id batch_size r st) wide small refl
          (omega (arith, length-drop interval s)) more
          (IsEnded-later sum32 block_id batch_size interval r d st.out
            (rw joined (body-IsEnded es (omega arith) apart))) in
      let all = Finished-piece sum32 block_id batch_size interval r d st _ rest in
      simp (framed, many) (rw step (rw joined at all))

  file_split :
      (es : List MemEntry)
      → 32 ≤ interval
      → let s = stream interval es in
        file_of es
        ≡ take interval s
          ++ (put_word 4 (sum32 (take interval s))
              ++ framed sum32 interval (length s) (drop interval s))
  file_split es wide =
      let many : ltb (length (stream interval es)) interval ≡ false =
        ground (arith, length-stream es (omega arith)) in
      simp (framed, many) refl

  pub length-file_of :
      (es : List MemEntry) → 32 ≤ interval → length (stream interval es) < length (file_of es)
  length-file_of es wide =
      let s = stream interval es in
      let sum = put_word 4 (sum32 (take interval s)) in
      let rest = framed sum32 interval (length s) (drop interval s) in
      omega (
        arith,
        ap length (file_split es wide),
        length-append (take interval s) (sum ++ rest),
        length-append sum rest,
        length-put_word 4 (sum32 (take interval s)),
        length-take interval s,
        length-drop interval s,
        length-framed (length s) (drop interval s),
        length-stream es (omega arith),
      )

  pub take-file_of : (es : List MemEntry) → 32 ≤ interval → take 32 (file_of es) ≡ head interval
  take-file_of es wide =
      let s = stream interval es in
      ap (take 32) (file_split es wide)
      ∙ take-take_front 32 interval s _ wide (omega (arith, length-stream es (omega arith)))
      ∙ take-append_self 32 (head interval) (body es)
          (omega (arith, length-append toc_magic (put_word 4 interval), length-put_word 4 interval))
