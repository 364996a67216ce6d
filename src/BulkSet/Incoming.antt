-- ===== src/BulkSet/Incoming.antt =====
-- newInBulkSetMsg over a reader that keeps io.Reader's promises.
use valuestore.Base.{
  ℕ, ◌+◌, ◌-◌, ◌≤◌, ◌^◌, ◌%◌, ◌≡◌, refl, ap, ◌∙◌, false, ◌&&◌, ◌<◌, List, [], ◌∷◌, ◌++◌, none, some,
  arith, Bool-cases, inl, inr, append-nil, drop, drop-take_self, length, length-append, ltb,
}
use mathlib.Core.Path.{subst}
use valuestore.Base.Bytes.{Bytes}
use valuestore.Reader.{
  Reader, IsReader, Filled, filled, failed, stuck, Discarded, discarded, broken, endless, fill,
  discard,
}
use valuestore.Reader.Loops.{FillsFrom, Discards, fill_total, discard_total}
use valuestore.BulkSet.{
  Msg, Inbox, Taken, taken, panics, hangs, header_length, min_entry_length, new_in, toss_all,
  fill_body, read_body, body_cap, read_header, take_free, resized, invalid,
}

-- The count against what the reader gave, and the messages free and pending before and after; or a
-- body too long to be made.
abbrev pub Accounts : (io : Reader) → ℕ → ℕ → io.R → Inbox → Taken io.R → Type 0
Accounts io max_alloc l r box hangs = ⊥
Accounts io max_alloc l r box panics = header_length + max_alloc < l
Accounts io max_alloc l r box (taken n e r' box') =
    (n ≤ l)
    × (n + length (io.rest r') ≡ length (io.rest r))
    × (length box'.free + length box'.pending ≡ length box.free + length box.pending)

module _ (io : Reader) (max_alloc : ℕ) (doc : IsReader io) where
  toss_all-Accounts :
      (l : ℕ) (r : io.R) (box kept failing : Inbox)
      → length kept.free + length kept.pending ≡ length box.free + length box.pending
      → length failing.free + length failing.pending ≡ length box.free + length box.pending
      → Accounts io max_alloc l r box (toss_all io max_alloc l r kept failing)
  unfolding toss_all
  toss_all-Accounts l r box kept failing hk hf =
      go (discard io l l r) (discard_total io doc l l r (omega arith))
    where
      go :
          (d : Discarded io.R)
          → Discards io l r d
          → Accounts io max_alloc l r box (elim d [
            | discarded r' ↦ taken l none r' kept
            | broken left e r' ↦ taken (l - left) (some e) r' failing
            | endless ↦ hangs
          ])
      go (discarded r') h = omega arith
      go (broken left e r') h = omega arith
      go endless h = h

  fill_body-Accounts :
      (l : ℕ) (r0 r : io.R) (box now : Inbox) (bsm : Msg) (header : Bytes)
      → header_length + length (io.rest r) ≡ length (io.rest r0)
      → length now.free + length now.pending + 1 ≡ length box.free + length box.pending
      → Accounts io max_alloc (header_length + l) r0 box (fill_body io max_alloc now bsm l header r)
  unfolding fill_body invalid
  fill_body-Accounts l r0 r box now bsm header hr hb =
      go (fill io l l [] r) (fill_total io doc l l [] r (omega arith) (omega arith))
    where
      go :
          (f : Filled io.R)
          → FillsFrom io l (io.rest r) f
          → Accounts io max_alloc (header_length + l) r0 box (elim f [
            | filled body r' ↦ taken (header_length + l) none r' (record now {
              pending =
                  now.pending
                  ++ (resized io max_alloc (record bsm { header = header }) l body) ∷ [];
              received = (now.received + 1) % 2 ^ 32;
            })
            | failed body e r' ↦ taken (header_length + length body) (some e) r' (
                invalid io max_alloc (record now {
                  free =
                      now.free
                      ++ (resized io max_alloc (record bsm { header = header }) l body) ∷ [];
                }))
            | stuck ↦ hangs
          ])
      go (filled body r') h = omega (
        arith,
        length-append body (io.rest r'),
        ap length h.1,
        length-append now.pending
            (resized io max_alloc (record bsm { header = header }) l body ∷ []),
      )
      go (failed body e r') h = omega (
        arith,
        length-append body (io.rest r'),
        ap length h.1,
        length-append now.free (resized io max_alloc (record bsm { header = header }) l body ∷ []),
      )
      go stuck h = h

  read_body-Accounts :
      (l : ℕ) (r0 r : io.R) (box now : Inbox) (bsm : Msg) (header : Bytes)
      → header_length + length (io.rest r) ≡ length (io.rest r0)
      → length now.free + length now.pending + 1 ≡ length box.free + length box.pending
      → Accounts io max_alloc (header_length + l) r0 box (read_body io max_alloc now bsm l header r)
  unfolding read_body
  read_body-Accounts l r0 r box now bsm header hr hb =
      elim (Bool-cases (ltb (body_cap bsm) l && ltb max_alloc l)) [
        | inl refused ↦ simp refused (ground (arith, refused))
        | inr made ↦ simp made (fill_body-Accounts l r0 r box now bsm header hr hb)
      ]

  read_header-Accounts :
      (l : ℕ) (r : io.R) (box now : Inbox) (bsm : Msg)
      → header_length ≤ l
      → length now.free + length now.pending + 1 ≡ length box.free + length box.pending
      → Accounts io max_alloc l r box (read_header io max_alloc now bsm l r)
  unfolding read_header invalid
  read_header-Accounts l r box now bsm long hb =
      go (fill io header_length header_length [] r)
        (fill_total io doc header_length header_length [] r (omega arith) (omega arith))
    where
      go :
          (f : Filled io.R)
          → FillsFrom io header_length (io.rest r) f
          → Accounts io max_alloc l r box (elim f [
            | filled header r' ↦ read_body io max_alloc now bsm (l - header_length) header r'
            | failed header e r' ↦ taken (length header) (some e) r' (
                invalid io max_alloc (record now {
                  free =
                      now.free
                      ++ (record bsm { header = header ++ drop (length header) bsm.header }) ∷ [];
                }))
            | stuck ↦ hangs
          ])
      go (filled header r') h =
          let whole : header_length + (l - header_length) ≡ l = omega arith in
          subst
            (λ k.
              Accounts io max_alloc k r box
                (read_body io max_alloc now bsm (l - header_length) header r'))
            whole
            (read_body-Accounts (l - header_length) r r' box now bsm header
              (omega (arith, length-append header (io.rest r'), ap length h.1)) hb)
      go (failed header e r') h = omega (
        arith,
        length-append header (io.rest r'),
        ap length h.1,
        length-append now.free
            (record bsm { header = header ++ drop (length header) bsm.header } ∷ []),
      )
      go stuck h = h

  take_free-Accounts :
      (l : ℕ) (r : io.R) (box : Inbox) (free : List Msg)
      → length free ≡ length box.free
      → Accounts io max_alloc l r box (take_free io max_alloc l r box free)
  unfolding take_free invalid
  take_free-Accounts l r box [] h = toss_all-Accounts l r box _ _ refl refl
  take_free-Accounts l r box (bsm ∷ free) h =
      elim (Bool-cases (ltb l (header_length + min_entry_length))) [
        | inl short ↦ rw short (
            toss_all-Accounts l r box _ _ (omega (arith, length-append free (bsm ∷ [])))
              (omega (arith, length-append free (bsm ∷ []))))
        | inr long ↦ rw long (read_header-Accounts l r box _ bsm (ground arith) (omega arith))
      ]

  -- Over a reader that keeps io.Reader's promises, every call of newInBulkSetMsg ends. It ends in a
  -- panic only where the length announced, without the header, is more than the longest slice that
  -- can be made; else the count that it returns is what the reader gave, at most the length
  -- announced, and no message is lost: the free and the pending ones are together as many as
  -- before.
  pub new_in-Accounts :
      (l : ℕ) (r : io.R) (box : Inbox) → Accounts io max_alloc l r box (new_in io max_alloc l r box)
  unfolding new_in
  new_in-Accounts l r box = take_free-Accounts l r box box.free refl

-- The queue behind a call: with one message more, of the reader's next `l` bytes, or as it was.
abbrev pub Delivers : (io : Reader) → ℕ → ℕ → io.R → Inbox → Taken io.R → Type 0
Delivers io max_alloc l r box hangs = ⊥
Delivers io max_alloc l r box panics = header_length + max_alloc < l
Delivers io max_alloc l r box (taken n (some e) r' box') = box'.pending ≡ box.pending
Delivers io max_alloc l r box (taken n none r' box') =
    (n ≡ l)
    × (m : Msg) × (box'.pending ≡ box.pending ++ m ∷ [])
    × (length m.header ≡ header_length)
    × (length m.header + length m.body ≡ l)
    × (m.header ++ (m.body ++ io.rest r') ≡ io.rest r)

module _ (io : Reader) (max_alloc : ℕ) (doc : IsReader io) where
  resized_exact :
      (bsm : Msg) (l : ℕ) (body : Bytes)
      → length body ≡ l
      → (resized io max_alloc bsm l body).body ≡ body
  unfolding resized
  resized_exact bsm l body h = rw (h, drop-take_self) (append-nil body)

  fill_body-Delivers :
      (l : ℕ) (r0 r : io.R) (box now : Inbox) (bsm : Msg) (header : Bytes)
      → length header ≡ header_length
      → header ++ io.rest r ≡ io.rest r0
      → now.pending ≡ box.pending
      → Delivers io max_alloc (header_length + l) r0 box (fill_body io max_alloc now bsm l header r)
  unfolding fill_body invalid
  fill_body-Delivers l r0 r box now bsm header hl hr hb =
      go (fill io l l [] r) (fill_total io doc l l [] r (omega arith) (omega arith))
    where
      go :
          (f : Filled io.R)
          → FillsFrom io l (io.rest r) f
          → Delivers io max_alloc (header_length + l) r0 box (elim f [
            | filled body r' ↦ taken (header_length + l) none r' (record now {
              pending =
                  now.pending
                  ++ (resized io max_alloc (record bsm { header = header }) l body) ∷ [];
              received = (now.received + 1) % 2 ^ 32;
            })
            | failed body e r' ↦ taken (header_length + length body) (some e) r' (
                invalid io max_alloc (record now {
                  free =
                      now.free
                      ++ (resized io max_alloc (record bsm { header = header }) l body) ∷ [];
                }))
            | stuck ↦ hangs
          ])
      go (filled body r') h =
          let m = resized io max_alloc (record bsm { header = header }) l body in
          (
            refl,
            m,
            ap (λ p. p ++ m ∷ []) hb,
            unfold resized in hl,
            unfold resized in
                rw (resized_exact (record bsm { header = header }) l body h.0) (omega arith),
            unfold resized in
                rw (resized_exact (record bsm { header = header }) l body h.0)
                  (ap (λ b. header ++ b) h.1 ∙ hr),
          )
      go (failed body e r') h = hb
      go stuck h = h

  read_body-Delivers :
      (l : ℕ) (r0 r : io.R) (box now : Inbox) (bsm : Msg) (header : Bytes)
      → length header ≡ header_length
      → header ++ io.rest r ≡ io.rest r0
      → now.pending ≡ box.pending
      → Delivers io max_alloc (header_length + l) r0 box (read_body io max_alloc now bsm l header r)
  unfolding read_body
  read_body-Delivers l r0 r box now bsm header hl hr hb =
      elim (Bool-cases (ltb (body_cap bsm) l && ltb max_alloc l)) [
        | inl refused ↦ simp refused (ground (arith, refused))
        | inr made ↦ simp made (fill_body-Delivers l r0 r box now bsm header hl hr hb)
      ]

  read_header-Delivers :
      (l : ℕ) (r : io.R) (box now : Inbox) (bsm : Msg)
      → header_length ≤ l
      → now.pending ≡ box.pending
      → Delivers io max_alloc l r box (read_header io max_alloc now bsm l r)
  unfolding read_header invalid
  read_header-Delivers l r box now bsm long hb =
      go (fill io header_length header_length [] r)
        (fill_total io doc header_length header_length [] r (omega arith) (omega arith))
    where
      go :
          (f : Filled io.R)
          → FillsFrom io header_length (io.rest r) f
          → Delivers io max_alloc l r box (elim f [
            | filled header r' ↦ read_body io max_alloc now bsm (l - header_length) header r'
            | failed header e r' ↦ taken (length header) (some e) r' (
                invalid io max_alloc (record now {
                  free =
                      now.free
                      ++ (record bsm { header = header ++ drop (length header) bsm.header }) ∷ [];
                }))
            | stuck ↦ hangs
          ])
      go (filled header r') h =
          let whole : header_length + (l - header_length) ≡ l = omega arith in
          subst
            (λ k.
              Delivers io max_alloc k r box
                (read_body io max_alloc now bsm (l - header_length) header r'))
            whole (read_body-Delivers (l - header_length) r r' box now bsm header h.0 h.1 hb)
      go (failed header e r') h = hb
      go stuck h = h

  -- Over a reader that keeps io.Reader's promises, with a free message at hand, an announced length
  -- that is long enough either ends without an error and queues one message whose header and body
  -- are the reader's next bytes, as many as announced, or ends with the reader's error and leaves
  -- the queue as it was, or ends in a panic, and that only where the length, without the header, is
  -- more than the longest slice that can be made.
  pub new_in-Delivers :
      (l : ℕ) (r : io.R) (box : Inbox) (bsm : Msg) (free : List Msg)
      → box.free ≡ bsm ∷ free
      → header_length + min_entry_length ≤ l
      → Delivers io max_alloc l r box (new_in io max_alloc l r box)
  unfolding new_in take_free
  new_in-Delivers l r box bsm free h long =
      let enough : ltb l (header_length + min_entry_length) ≡ false = ground arith in
      rw (h, enough) (read_header-Delivers l r box _ bsm (omega arith) refl)
