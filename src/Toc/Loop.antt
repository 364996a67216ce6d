-- ===== src/Toc/Loop.antt =====
-- valuestorefile_GEN_.go: the loop over a table of contents, with its checksums.
use valuestore.Base.{
  ℕ, zero, suc, ◌+◌, ◌-◌, ◌%◌, ◌^◌, ◌≤◌, ◌<◌, ◌≡◌, refl, sym, ap, ◌∙◌, true, false, [], ◌++◌, some,
  inl, inr, arith, Bool-cases, append-nil, append_assoc, leb, ltb, ◌==◌, if◌then◌else◌, length,
  length-append, length-drop, length-take, take, drop, take-append-drop, drop-append_self,
  take-append_self, drop-drop,
}
use valuestore.Base.Bytes.{
  Bytes, get_word, put_word, length-put_word, get_word-append, get_word-put_word, drop-append_over,
}
use valuestore.StoreFile.{trailer}
use valuestore.Toc.{
  Batching, Scan, Scanned, scanned, take_piece, next_rbuf, last_piece, last_round, toc_loop,
  eq_bytes,
}
use valuestore.Toc.Entries.{taken, taken-append, taken_strip, taken_left, drop-append_shorter}

-- A stream in blocks of `interval` bytes with a checksum behind each, the rest without.
abbrev pub framed : (Bytes → ℕ) → ℕ → ℕ → Bytes → Bytes
framed sum32 interval zero s = s
framed sum32 interval (suc n) s =
    let rest = framed sum32 interval n (drop interval s) in
    if ltb (length s) interval
    then s
    else take interval s ++ (put_word 4 (sum32 (take interval s)) ++ rest)

pub last_word : (v : ℕ) → v < 2 ^ 32 → get_word 4 0 (put_word 4 v) ≡ v
last_word v h =
    ap (get_word 4 0) (sym (append-nil (put_word 4 v))) ∙ get_word-put_word 4 v [] (omega arith)

module _ (sum32 : Bytes → ℕ) (block_id batch_size interval : ℕ) where
  -- One block and its checksum.
  pub whole_step :
      (fuel : ℕ) (b rest r : Bytes) (st : Scan)
      → length b ≡ interval
      → sum32 b < 2 ^ 32
      → next_rbuf sum32 block_id batch_size b st ≡ some r
      → toc_loop sum32 block_id batch_size
          (suc fuel)
          interval
          (record { ahead = b ++ (put_word 4 (sum32 b) ++ rest); broken = false })
          st
        ≡ toc_loop sum32 block_id batch_size fuel interval
            (record { ahead = rest; broken = false })
            (take_piece sum32 block_id batch_size r st)
  unfolding toc_loop
  whole_step fuel b rest r st size small next =
      let ahead = b ++ (put_word 4 (sum32 b) ++ rest) in
      let enough : leb (interval + 4) (length ahead) ≡ true = ground (
        arith,
        length-append b (put_word 4 (sum32 b) ++ rest),
        length-append (put_word 4 (sum32 b)) rest,
        length-put_word 4 (sum32 b),
      ) in
      let front : take interval ahead ≡ b =
        take-append_self interval b (put_word 4 (sum32 b) ++ rest) size in
      let behind : drop (interval + 4) ahead ≡ rest =
        drop-append_over (interval + 4) 4 b (put_word 4 (sum32 b) ++ rest) (omega (arith, size))
        ∙ drop-append_self 4 (put_word 4 (sum32 b)) rest (length-put_word 4 (sum32 b)) in
      let sum : get_word 4 interval (take (interval + 4) ahead) ≡ sum32 b =
        ap (get_word 4 interval) (
          ap (take (interval + 4)) (sym (append_assoc b (put_word 4 (sum32 b)) rest))
          ∙ take-append_self (interval + 4) (b ++ put_word 4 (sum32 b)) rest (
              omega
                (arith, length-append b (put_word 4 (sum32 b)), length-put_word 4 (sum32 b), size)))
        ∙ get_word-append 4 interval 0 b (put_word 4 (sum32 b)) (omega (arith, size))
        ∙ last_word (sum32 b) small in
      let good : (sum32 b == sum32 b) ≡ true = ground arith in
      simp (toc_loop, enough, front, behind, sum, good, next) refl

  -- What the bytes left over and those still to come are at the end of the loop.
  abbrev pub Finished : Bytes → Scan → Scanned → Type 0
  Finished z st s =
      (left : Bytes) × (s
        ≡ scanned (record st {
          left = left;
          skip_next = 0;
          out = (taken sum32 block_id batch_size z st.out).1;
        }))

  -- The terminator stands where no entry reaches.
  abbrev pub IsEnded : Bytes → Type 0
  IsEnded z = (8 ≤ length z % 32) × (drop (length z - 8) z ≡ trailer)

  last_step :
      (fuel : ℕ) (s : Bytes) (st : Scan)
      → st.skip_next ≡ 0
      → length s < interval
      → IsEnded (st.left ++ s)
      → Finished (st.left ++ s) st (
          toc_loop sum32 block_id batch_size
            (suc fuel)
            interval
            (record { ahead = s; broken = false })
            st)
  unfolding toc_loop last_round last_piece
  last_step fuel s st skip few (apart, ends) =
      let z = st.left ++ s in
      let front = length z - 8 in
      let part : leb (interval + 4) (length s) ≡ false = ground (arith, few) in
      let no_skip : (st.skip_next == 0) ≡ true = ground (arith, skip) in
      let room : leb 8 (length z) ≡ true = ground (arith, apart) in
      let found : eq_bytes (drop front z) trailer ≡ true = rw ends refl in
      let stripped : (taken sum32 block_id batch_size (take front z) st.out).1
          ≡ (taken sum32 block_id batch_size z st.out).1 =
        sym (
          taken_strip sum32 block_id batch_size (take front z) (drop front z) st.out (rw ends refl)
            (rw (take-append-drop front z) apart))
        ∙ ap (λ x. (taken sum32 block_id batch_size x st.out).1) (take-append-drop front z) in
      (
        (taken sum32 block_id batch_size (take front z) st.out).0,
        simp (toc_loop, part)
            (simp (last_round, no_skip)
              (simp (last_piece, room, found)
                (ap
                  (λ o. scanned (record st {
                    left = (taken sum32 block_id batch_size (take front z) st.out).0;
                    skip_next = 0;
                    out = o;
                  }))
                  stripped))),
      )

  -- The end of the stream is behind what an entry took, as before it.
  pub IsEnded-later :
      (w d : Bytes) (out : Batching)
      → IsEnded (w ++ d)
      → IsEnded ((taken sum32 block_id batch_size w out).0 ++ d)
  IsEnded-later w d out (apart, ends) =
      let c = length w - length w % 32 in
      let left = taken_left sum32 block_id batch_size w out in
      let suffix : (taken sum32 block_id batch_size w out).0 ++ d ≡ drop c (w ++ d) =
        ap (λ x. x ++ d) left ∙ sym (drop-append_shorter c w d (omega arith)) in
      let size : length (drop c (w ++ d)) ≡ length (w ++ d) - c = length-drop c (w ++ d) in
      let all : length (w ++ d) ≡ length w + length d = length-append w d in
      rw suffix (
        omega (arith, size, all),
        drop-drop (length (w ++ d) - 8) c (length (drop c (w ++ d)) - 8) (w ++ d)
              (omega (arith, size, all))
            ∙ ends,
      )

  -- What is at the end when a piece is taken first is there when all is taken at once.
  pub Finished-piece :
      (r d : Bytes) (st : Scan) (x : Scanned)
      → Finished
          ((taken sum32 block_id batch_size r st.out).0 ++ d)
          (take_piece sum32 block_id batch_size r st)
          x
      → Finished (r ++ d) st x
  Finished-piece r d st x (left, e) = (
    left,
    e
        ∙ ap
            (λ (t : Bytes × Batching).
              scanned (record st { left = left; skip_next = 0; out = t.1 }))
            (sym (taken-append sum32 block_id batch_size r d st.out)),
  )

  pub loop_frames :
      (n fuel : ℕ) (s : Bytes) (st : Scan)
      → 32 ≤ interval
      → ((b : Bytes) → sum32 b < 2 ^ 32)
      → st.skip_next ≡ 0
      → length s ≤ n
      → n < fuel
      → IsEnded (st.left ++ s)
      → Finished (st.left ++ s) st (
          toc_loop sum32 block_id batch_size fuel interval
            (record { ahead = framed sum32 interval n s; broken = false })
            st)
  loop_frames n zero s st wide small skip fits more ended = absurd (omega arith)
  loop_frames zero (suc fuel) s st wide small skip fits more ended =
      last_step fuel s st skip (omega arith) ended
  loop_frames (suc n) (suc fuel) s st wide small skip fits more ended =
      elim (Bool-cases (ltb (length s) interval)) [
        | inl few ↦ simp (framed, few) (last_step fuel s st skip (ground (arith, few)) ended)
        | inr many ↦
            let b = take interval s in
            let d = drop interval s in
            let r = st.left ++ b in
            let no_skip : (st.skip_next == 0) ≡ true = ground (arith, skip) in
            let joined : r ++ d ≡ st.left ++ s =
              append_assoc st.left b d ∙ ap (λ x. st.left ++ x) (take-append-drop interval s) in
            let size : length b ≡ interval = ground (arith, length-take interval s, many) in
            let step =
              whole_step fuel b (framed sum32 interval n d) r st size (small b)
                (simp no_skip refl) in
            let rest =
              loop_frames n fuel d (take_piece sum32 block_id batch_size r st) wide small refl
                (omega (arith, length-drop interval s)) (omega arith)
                (IsEnded-later r d st.out (rw joined ended)) in
            let all = Finished-piece r d st _ rest in
            simp (framed, many) (rw step (rw joined at all))
      ]
