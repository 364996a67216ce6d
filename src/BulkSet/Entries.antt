-- ===== src/BulkSet/Entries.antt =====
-- What a worker reads out of a message that `add` built, and what it does with any other message.
use valuestore.Base.{
  ℕ, zero, suc, ◌+◌, ◌-◌, ◌%◌, ◌^◌, ◌≤◌, ◌<◌, ◌≡◌, ◌≢◌, refl, sym, ap, ◌∙◌, true, false, List, [],
  ◌∷◌, ◌++◌, Option, inl, inr, Bool-cases, ◌||◌, append_assoc, append-nil, arith, leb, ltb,
  if◌then◌else◌, length, length-append, take, drop, take-append_self, drop-append_self, drop-drop,
  All, length-drop,
}
use valuestore.Base.Bytes.{
  Bytes, put_word, get_word, length-put_word, get_word-put_word, get_word-put_word_over,
  drop-put_word_over,
}
use valuestore.Ring.{Ring}
use valuestore.BulkSetAck.{StoreWrite}
use valuestore.BulkSet.{
  Msg, body_cap, Entry, entry_bytes, entry_header_length, add, Worker, done, panicked, out_of_fuel,
  write_entry, entries_loop, stop_of, entry_at,
}

-- The fields fit their words, and the entry's length its 32-bit sum with the header.
abbrev pub IsWordEntry : Entry → Type 0
IsWordEntry e =
    (e.key_a < 2 ^ 64)
    × (e.key_b < 2 ^ 64)
    × (e.timestampbits < 2 ^ 64)
    × (length e.value + entry_header_length < 2 ^ 32)

-- An entry's bytes with `rest` behind them.
abbrev pub before : Entry → Bytes → Bytes
before e rest =
    put_word 8 e.key_a
    ++ (put_word 8 e.key_b
        ++ (put_word 8 e.timestampbits ++ (put_word 4 (length e.value) ++ (e.value ++ rest))))

abbrev pub encode : List Entry → Bytes
encode [] = []
encode (e ∷ es) = before e (encode es)

-- The entries that the loop reaches: all but a last one with an empty value.
abbrev pub reached : List Entry → List Entry
reached [] = []
reached (e ∷ []) = if leb (length e.value) 0 then [] else e ∷ []
reached (e ∷ f ∷ es) = e ∷ reached (f ∷ es)

module _ (e : Entry) (rest : Bytes) where
  before-entry_bytes : entry_bytes e ++ rest ≡ before e rest
  before-entry_bytes = simp append_assoc

  pub length-before : length (before e rest) ≡ entry_header_length + length e.value + length rest
  length-before = simp (length-append, length-put_word) (omega arith)

  module _ (h : IsWordEntry e) where
    key_a-before : get_word 8 0 (before e rest) ≡ e.key_a
    key_a-before = get_word-put_word 8 e.key_a _ h.0

    key_b-before : get_word 8 8 (before e rest) ≡ e.key_b
    key_b-before = get_word-put_word_over 8 8 0 8 e.key_a _ refl ∙ get_word-put_word 8 e.key_b _ h.1

    timestampbits-before : get_word 8 16 (before e rest) ≡ e.timestampbits
    timestampbits-before =
        get_word-put_word_over 8 16 8 8 e.key_a _ refl
        ∙ get_word-put_word_over 8 8 0 8 e.key_b _ refl
        ∙ get_word-put_word 8 e.timestampbits _ h.2

    length-field : get_word 4 24 (before e rest) ≡ length e.value
    length-field =
        get_word-put_word_over 4 24 16 8 e.key_a _ refl
        ∙ get_word-put_word_over 4 16 8 8 e.key_b _ refl
        ∙ get_word-put_word_over 4 8 0 8 e.timestampbits _ refl
        ∙ get_word-put_word 4 (length e.value) _ (omega (arith, h.3))

  drop-header : drop entry_header_length (before e rest) ≡ e.value ++ rest
  drop-header =
      drop-put_word_over 28 20 8 e.key_a _ refl
      ∙ drop-put_word_over 20 12 8 e.key_b _ refl
      ∙ drop-put_word_over 12 4 8 e.timestampbits _ refl
      ∙ drop-put_word_over 4 0 4 (length e.value) _ refl

-- `add` refuses exactly when the entry would reach the capacity, and then changes nothing;
-- otherwise it appends the entry's bytes and keeps the capacity.
pub add-entry_bytes :
    (bsm : Msg) (e : Entry)
    → (leb (body_cap bsm) (length bsm.body + entry_header_length + length e.value) ≡ true
        → add bsm e ≡ (bsm, false))
      × (leb (body_cap bsm) (length bsm.body + entry_header_length + length e.value) ≡ false
          → ((add bsm e).1 ≡ true)
            × ((add bsm e).0.body ≡ bsm.body ++ before e [])
            × (body_cap (add bsm e).0 ≡ body_cap bsm))
unfolding add
add-entry_bytes bsm e = (
  λ full. rw full,
  λ fits. rw fits (
    refl,
    ap (λ b. bsm.body ++ b) (sym (append-nil _) ∙ before-entry_bytes e []),
    omega (
      arith,
      length-append bsm.body (entry_bytes e),
      length-before e [],
      ap length (append-nil (entry_bytes e)),
      ap length (before-entry_bytes e []),
      length-drop (entry_header_length + length e.value) bsm.spare,
      ground_room fits,
    ),
  ),
)
  where
    ground_room :
        leb (body_cap bsm) (length bsm.body + entry_header_length + length e.value) ≡ false
        → entry_header_length + length e.value ≤ length bsm.spare
    ground_room fits = ground arith

-- One write more is counted.
abbrev pub one_more : {S : Type 0} → Worker S → Worker S
one_more w = record w { writes = (w.writes + 1) % 2 ^ 32 }

module _ {S : Type 0} (write : StoreWrite S) (ring : Option Ring) where
  -- one round of the loop over a body that reads as `e` and then `rest`
  entries_loop_round :
      (fuel : ℕ) (body spare rest : Bytes) (e : Entry) (w : Worker S)
      → get_word 8 0 body ≡ e.key_a
      → get_word 8 8 body ≡ e.key_b
      → get_word 8 16 body ≡ e.timestampbits
      → (entry_header_length + get_word 4 24 body) % 2 ^ 32 ≡ entry_header_length + length e.value
      → take
          (entry_header_length + length e.value - entry_header_length)
          (drop entry_header_length (body ++ spare))
        ≡ e.value
      → drop (entry_header_length + length e.value) body ≡ rest
      → length body ≡ entry_header_length + length e.value + length rest
      → entries_loop write (suc fuel) ring body spare w ≡ (
          if leb (length body) entry_header_length
          then done w
          else entries_loop write fuel ring rest spare (write_entry write ring e w))
  unfolding entries_loop
  entries_loop_round fuel body spare rest e w ha hb ht hl hv hd size =
      rw (ha, hb, ht, hl, hv, hd, inside, not_short) refl
    where
      not_short :
          (ltb (entry_header_length + length e.value) entry_header_length
            || ltb (length body + length spare) (entry_header_length + length e.value))
          ≡ false
      not_short = ground arith

      inside : ltb (length body) (entry_header_length + length e.value) ≡ false
      inside = ground arith

  -- The round, on the bytes of a word entry.
  entries_loop-before :
      (fuel : ℕ) (spare rest : Bytes) (e : Entry) (w : Worker S)
      → IsWordEntry e
      → entries_loop write (suc fuel) ring (before e rest) spare w ≡ (
          if leb (entry_header_length + length e.value + length rest) entry_header_length
          then done w
          else entries_loop write fuel ring rest spare (write_entry write ring e w))
  entries_loop-before fuel spare rest e w h = rw (length-before e rest) at (
      entries_loop_round fuel (before e rest) spare rest e w (key_a-before e rest h)
        (key_b-before e rest h) (timestampbits-before e rest h) stop value
        (drop-before (length e.value) refl) (length-before e rest))
    where
      stop :
          (entry_header_length + get_word 4 24 (before e rest)) % 2 ^ 32
          ≡ entry_header_length + length e.value
      stop = rw (length-field e rest h) (omega (arith, h.3))

      drop-before :
          (n : ℕ) → length e.value ≡ n → drop (entry_header_length + n) (before e rest) ≡ rest
      drop-before n p =
          sym (drop-drop (entry_header_length + n) entry_header_length n (before e rest) refl)
          ∙ rw (drop-header e rest) (drop-append_self n e.value rest p)

      value :
          take
            (entry_header_length + length e.value - entry_header_length)
            (drop entry_header_length (before e rest ++ spare))
          ≡ e.value
      value =
          let n : entry_header_length + length e.value - entry_header_length ≡ length e.value =
            omega arith in
          let whole : before e rest ++ spare ≡ before e (rest ++ spare) = simp append_assoc in
          rw (n, whole, drop-header e (rest ++ spare))
            (take-append_self (length e.value) e.value (rest ++ spare) refl)

  abbrev pub write_all : List Entry → Worker S → Worker S
  write_all [] w = w
  write_all (e ∷ es) w = write_all es (write_entry write ring e w)

  entries_loop_end :
      (fuel : ℕ) (spare : Bytes) (w : Worker S)
      → 0 < fuel
      → entries_loop write fuel ring [] spare w ≡ done w
  unfolding entries_loop
  entries_loop_end zero spare w h = absurd (omega arith)
  entries_loop_end (suc fuel) spare w h = refl

  -- The loop over the bytes of word entries ends, and writes the entries that it reaches, in order.
  pub entries_loop-encode :
      (fuel : ℕ) (es : List Entry) (spare : Bytes) (w : Worker S)
      → All IsWordEntry es
      → length (encode es) < fuel
      → entries_loop write fuel ring (encode es) spare w ≡ done (write_all (reached es) w)
  entries_loop-encode zero es spare w h f = absurd (omega arith)
  entries_loop-encode (suc fuel) [] spare w h f = unfold entries_loop in refl
  entries_loop-encode (suc fuel) (e ∷ []) spare w h f =
      entries_loop-before fuel spare [] e w h.0 ∙ elim (Bool-cases (leb (length e.value) 0)) [
        | inl bare ↦ rw (bare, at_header bare)
        | inr full ↦
            rw (full, past_header full)
              (entries_loop_end fuel spare (write_entry write ring e w)
                (omega (arith, length-before e [])))
      ]
    where
      at_header :
          leb (length e.value) 0 ≡ true
          → leb (entry_header_length + length e.value + 0) entry_header_length ≡ true
      at_header bare = ground arith

      past_header :
          leb (length e.value) 0 ≡ false
          → leb (entry_header_length + length e.value + 0) entry_header_length ≡ false
      past_header full = ground arith
  entries_loop-encode (suc fuel) (e ∷ d ∷ es) spare w h f =
      entries_loop-before fuel spare (encode (d ∷ es)) e w h.0
      ∙ rw long (
          entries_loop-encode fuel (d ∷ es) spare (write_entry write ring e w) h.1
            (omega (arith, length-before e (encode (d ∷ es)))))
    where
      long :
          leb (entry_header_length + length e.value + length (encode (d ∷ es))) entry_header_length
          ≡ false
      long = ground (arith, length-before d (encode es))

  -- The bytes of word entries, and then an entry that claims too much.
  pub entries_loop_overlong :
      (fuel : ℕ) (es : List Entry) (bad spare : Bytes) (w : Worker S)
      → All IsWordEntry es
      → length (encode es ++ bad) < fuel
      → entry_header_length < length bad
      → length bad + length spare < stop_of bad
      → entries_loop write fuel ring (encode es ++ bad) spare w
        ≡ panicked (one_more (write_all es w))
  entries_loop_overlong zero es bad spare w h f long over = absurd (omega (arith, f))
  entries_loop_overlong (suc fuel) [] bad spare w h f long over =
      unfold entries_loop in ground (arith, long, over)
  entries_loop_overlong (suc fuel) (e ∷ es) bad spare w h f long over =
      let front : encode (e ∷ es) ++ bad ≡ before e (encode es ++ bad) = simp append_assoc refl in
      let whole = length-before e (encode es ++ bad) in
      let same = ap (length {0}) front in
      let behind = length-append (encode es) bad in
      let more : leb (entry_header_length + length e.value + length (encode es ++ bad))
            entry_header_length
          ≡ false =
        ground (arith, behind, long) in
      ap (λ b. entries_loop write (suc fuel) ring b spare w) front
      ∙ entries_loop-before fuel spare (encode es ++ bad) e w h.0
      ∙ simp more (
          entries_loop_overlong fuel es bad spare (write_entry write ring e w) h.1
            (omega (arith, f, whole, same)) long over)

  -- A round that does not end takes at least a header off the body.
  pub entries_loop-ne-out_of_fuel :
      (fuel : ℕ) (body spare : Bytes) (w : Worker S)
      → length body < fuel
      → entries_loop write fuel ring body spare w ≢ out_of_fuel
  unfolding entries_loop
  entries_loop-ne-out_of_fuel zero body spare w f = absurd (omega arith)
  entries_loop-ne-out_of_fuel (suc fuel) body spare w f = ground (
    arith,
    length-drop (stop_of body) body,
    entries_loop-ne-out_of_fuel fuel (drop (stop_of body) body) spare
        (write_entry write ring (entry_at body spare) w),
  )
