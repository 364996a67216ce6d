-- ===== src/PullReplication/Receive/Delivery.antt =====
-- newInPullReplicationMsg over a reader that keeps io.Reader's promises.
use valuestore.Base.{
  ℕ, zero, suc, ◌+◌, ◌-◌, ◌≤◌, ◌<◌, ◌^◌, ◌%◌, ◌≡◌, refl, ap, ◌∙◌, true, false, ◌&&◌, List, [], ◌∷◌,
  ◌++◌, Option, none, some, arith, Bool-cases, inl, inr, append-nil, append_assoc, drop, take,
  drop-take_self, length, length-append, replicate, ltb, ◌==◌, if◌then◌else◌,
}
use valuestore.Base.Bytes.{Bytes}
use valuestore.Reader.{Reader, IsReader}
use valuestore.PullReplication.Receive.{
  InMsg, Inbox, Late, full, broke, stuck, Taken, taken, panics, hangs, body_length, body_cap,
  fill_late, resized, with_header, read_body, read_header, take_free, new_in,
}

-- A full buffer holds what was read before and the reader's next bytes; a broken one holds what
-- came, in order, and no more than fits.
abbrev LateFrom : (io : Reader) → ℕ → Bytes → Late io.R → Type 0
LateFrom io want all (full b err r) = (length b ≡ want) × (b ++ io.rest r ≡ all)
LateFrom io want all (broke b e r) = (length b ≤ want) × (b ++ io.rest r ≡ all)
LateFrom io want all stuck = ⊥

-- What the call does with one free message: it is handed on with the reader's next bytes in its
-- header and its body, or given back, counted as invalid, with the bytes read accounted for.
abbrev pub Receives : (io : Reader) → ℕ → io.R → Inbox → List InMsg → Taken io.R → Type 0
Receives io l r box free (taken n none r' box') =
    (n ≡ l)
    × (prm : InMsg) × (box'.pending ≡ box.pending ++ prm ∷ [])
    × (box'.free ≡ free)
    × (prm.msg.header ++ (prm.msg.body ++ io.rest r') ≡ io.rest r)
    × (length prm.msg.header + length prm.msg.body ≡ l)
    × (box'.invalids ≡ box.invalids)
Receives io l r box free (taken n (some e) r' box') =
    (n ≤ l)
    × (n + length (io.rest r') ≡ length (io.rest r))
    × (box'.pending ≡ box.pending)
    × (length box'.free ≡ suc (length free))
    × (box'.invalids ≡ (box.invalids + 1) % 2 ^ 32)
Receives io l r box free panics = ⊥
Receives io l r box free hangs = ⊥

module _ (io : Reader) (doc : IsReader io) where
  fill_late_total :
      (fuel want : ℕ) (acc : Bytes) (err : Option ℕ) (r : io.R)
      → length acc ≤ want
      → (err ≡ none → want - length acc ≤ fuel)
      → LateFrom io want (acc ++ io.rest r) (fill_late io fuel want acc err r)
  unfolding fill_late
  fill_late_total zero want acc none r short h =
      let whole : (length acc == want) ≡ true = ground (arith, h refl) in
      rw whole (ground arith, refl)
  fill_late_total zero want acc (some e) r short h = elim (Bool-cases (length acc == want)) [
    | inl whole ↦ rw whole (ground arith, refl)
    | inr part ↦ rw part (short, refl)
  ]
  fill_late_total (suc fuel) want acc (some e) r short h = elim (Bool-cases (length acc == want)) [
    | inl whole ↦ rw whole (ground arith, refl)
    | inr part ↦ rw part (short, refl)
  ]
  fill_late_total (suc fuel) want acc none r short h = elim (Bool-cases (length acc == want)) [
    | inl whole ↦ rw whole (ground arith, refl)
    | inr part ↦
        let sn = io.read r (want - length acc) in
        rw part (
          rw (append_assoc acc sn.0.0 (io.rest sn.1) ∙ ap (λ b. acc ++ b) (doc.in_order r _)) at (
            fill_late_total fuel want (acc ++ sn.0.0) sn.0.1 sn.1
              (omega (arith, length-append acc sn.0.0, doc.within r (want - length acc)))
              (λ fine. ground (
                arith,
                length-append acc sn.0.0,
                doc.progress r (want - length acc),
                fine,
                h refl,
              ))))
  ]

  -- A whole body in a message of that length.
  resized_whole :
      (prm : InMsg) (bl : ℕ) (body : Bytes)
      → length body ≡ bl
      → (resized io prm bl body).msg.body ≡ body
  unfolding resized
  resized_whole prm bl body h =
      let room = if ltb (body_cap prm) bl then replicate bl 0 else prm.msg.body ++ prm.spare in
      let over : drop (length body) (take bl room) ≡ [] = rw h (drop-take_self bl room) in
      ap (λ x. body ++ x) over ∙ append-nil body

  read_body-Receives :
      (l bl : ℕ) (r0 r : io.R) (now : Inbox) (prm : InMsg) (header : Bytes) (b : Late io.R)
      → length header + bl ≡ l
      → header ++ io.rest r ≡ io.rest r0
      → LateFrom io bl (io.rest r) b
      → Receives io l r0 now now.free (read_body io l now prm bl header b)
  unfolding read_body resized
  read_body-Receives l bl r0 r now prm header (full body err r') fits front (whole, came) =
      let same = resized_whole (with_header io prm header) bl body whole in
      (
        refl,
        resized io (with_header io prm header) bl body,
        refl,
        refl,
        rw same (rw came front),
        rw same (omega (arith, whole)),
        refl,
      )
  read_body-Receives l bl r0 r now prm header (broke body e r') fits front (short, came) = (
    omega arith,
    omega (
      arith,
      ap length front,
      length-append header (io.rest r),
      ap length came,
      length-append body (io.rest r'),
    ),
    refl,
    omega (arith, length-append now.free ((resized io (with_header io prm header) bl body) ∷ [])),
    refl,
  )
  read_body-Receives l bl r0 r now prm header stuck fits front h = h

  read_header-Receives :
      (l bl : ℕ) (r : io.R) (now : Inbox) (prm : InMsg) (h : Late io.R)
      → length prm.msg.header + bl ≡ l
      → LateFrom io (length prm.msg.header) (io.rest r) h
      → Receives io l r now now.free (read_header io l now prm bl h)
  unfolding read_header
  read_header-Receives l bl r now prm (full header err r') fits (whole, came) =
      read_body-Receives l bl r r' now prm header (fill_late io bl bl [] err r')
        (omega (arith, whole)) came
        (fill_late_total bl bl [] err r' (omega arith) (λ e. omega arith))
  read_header-Receives l bl r now prm (broke header e r') fits (short, came) = (
    omega arith,
    omega (arith, ap length came, length-append header (io.rest r')),
    refl,
    omega (arith, length-append now.free (_ ∷ [])),
    refl,
  )
  read_header-Receives l bl r now prm stuck fits h = h

  -- A message whose length is at least its header's and a uint64, with a body that fits the free
  -- message or can be allocated, and a free message, made by the store with 64 bytes of header,
  -- there: the call returns. It returns the whole length, having handed that message on with the
  -- reader's next bytes in header and body, or a reader's error with the count of the bytes read,
  -- having given the message back and counted it as invalid.
  pub new_in-Receives :
      (max_alloc l : ℕ) (r : io.R) (box : Inbox) (prm : InMsg) (free : List InMsg)
      → box.free ≡ prm ∷ free
      → length prm.msg.header ≡ 64
      → 64 ≤ l
      → l < 2 ^ 64
      → l - 64 ≤ max_alloc
      → Receives io l r box free (new_in io max_alloc l r box)
  unfolding new_in take_free
  new_in-Receives max_alloc l r box prm free here made low high fits =
      let bl : body_length l ≡ l - 64 = omega arith in
      let room : (ltb (body_cap prm) (body_length l) && ltb max_alloc (body_length l)) ≡ false =
        ground (arith, bl) in
      rw here (
        simp room (
          read_header-Receives l (body_length l) r (record box { free = free }) prm _
            (omega (arith, bl, made))
            (fill_late_total (length prm.msg.header) (length prm.msg.header) [] none r (omega arith)
              (λ e. omega arith))))
