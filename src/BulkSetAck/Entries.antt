-- ===== src/BulkSetAck/Entries.antt =====
-- What a worker reads out of a message that `add` built.
use valuestore.Base.{
  ℕ, suc, ◌+◌, ◌*◌, ◌/◌, ◌%◌, ◌^◌, ◌<◌, ◌≡◌, refl, ◌∙◌, true, false, List, [], ◌∷◌, ◌++◌, Option,
  none, some, bit_or, append_assoc, append-nil, arith, leb, if◌then◌else◌, length, length-append,
  drop, All,
}
use mathlib.Core.Path.{ap₂}
use valuestore.Base.Bytes.{
  Bytes, put_word, length-put_word, get_word-put_word, get_word-put_word_over, drop-put_word_over,
}
use valuestore.Package.{tsb_local_removal}
use valuestore.Ring.{Ring, partition_of}
use valuestore.BulkSetAck.{
  AckMsg, AckEntry, entry_length, add, Worker, StoreWrite, count_write, handle_entry, entries_loop,
  in_bulk_set_ack,
}

abbrev pub IsWordEntry : AckEntry → Type 0
IsWordEntry e = (e.key_a < 2 ^ 64) × (e.key_b < 2 ^ 64) × (e.timestampbits < 2 ^ 64)

-- The bytes of the entries, each as `add` writes it.
abbrev pub encode : List AckEntry → Bytes
encode [] = []
encode (e ∷ es) =
    put_word 8 e.key_a ++ (put_word 8 e.key_b ++ (put_word 8 e.timestampbits ++ encode es))

pub encode-cons :
    (e : AckEntry) (es : List AckEntry) → encode (e ∷ es) ≡ encode (e ∷ []) ++ encode es
encode-cons e es = simp append_assoc

pub length-encode : (es : List AckEntry) → length (encode es) ≡ length es * entry_length
length-encode [] = refl
length-encode (e ∷ es) = simp (length-append, length-put_word) (omega (arith, length-encode es))

-- `add` refuses exactly when the entry would reach the capacity, and then changes nothing;
-- otherwise it appends the entry's bytes.
pub add-encode :
    (bsam : AckMsg) (e : AckEntry)
    → add bsam e ≡ (
        if leb bsam.body_cap (length bsam.body + entry_length)
        then (bsam, false)
        else (record bsam { body = bsam.body ++ encode (e ∷ []) }, true))
unfolding add
add-encode bsam e = simp append-nil

module _ {S : Type 0} (write : StoreWrite S) where
  -- What the worker owes for one entry: where a ring is known and the local node is not
  -- responsible for the key, one internal write of the entry with the local removal bit.
  abbrev pub remove_unowned : Option Ring → AckEntry → Worker S → Worker S
  remove_unowned none e w = w
  remove_unowned (some ring) e w =
      let removal = bit_or e.timestampbits tsb_local_removal in
      if ring.responsible (partition_of ring e.key_a)
      then w
      else count_write write removal (write w.store e.key_a e.key_b removal [] true)
          (record w { writes = (w.writes + 1) % 2 ^ 32 })

  abbrev pub remove_all : Option Ring → List AckEntry → Worker S → Worker S
  remove_all ring [] w = w
  remove_all ring (e ∷ es) w = remove_all ring es (remove_unowned ring e w)

  handle_entry-encode :
      (ring : Option Ring) (e : AckEntry) (rest : Bytes) (w : Worker S)
      → IsWordEntry e
      → handle_entry write ring
          (put_word 8 e.key_a ++ (put_word 8 e.key_b ++ (put_word 8 e.timestampbits ++ rest)))
          w
        ≡ remove_unowned ring e w
  unfolding handle_entry
  handle_entry-encode none e rest w h = refl
  handle_entry-encode (some ring) e rest w h = rw (
    get_word-put_word 8 e.key_a (put_word 8 e.key_b ++ (put_word 8 e.timestampbits ++ rest)) h.0,
    get_word-put_word_over 8 8 0 8 e.key_a
        (put_word 8 e.key_b ++ (put_word 8 e.timestampbits ++ rest)) refl,
    get_word-put_word 8 e.key_b (put_word 8 e.timestampbits ++ rest) h.1,
    get_word-put_word_over 8 16 8 8 e.key_a
        (put_word 8 e.key_b ++ (put_word 8 e.timestampbits ++ rest)) refl,
    get_word-put_word_over 8 8 0 8 e.key_b (put_word 8 e.timestampbits ++ rest) refl,
    get_word-put_word 8 e.timestampbits rest h.2,
  )

  -- What is left behind the first entry.
  drop-entry :
      (e : AckEntry) (rest : Bytes)
      → drop entry_length
          (put_word 8 e.key_a ++ (put_word 8 e.key_b ++ (put_word 8 e.timestampbits ++ rest)))
        ≡ rest
  drop-entry e rest =
      drop-put_word_over 24 16 8 e.key_a
        (put_word 8 e.key_b ++ (put_word 8 e.timestampbits ++ rest)) refl
      ∙ drop-put_word_over 16 8 8 e.key_b (put_word 8 e.timestampbits ++ rest) refl
      ∙ drop-put_word_over 8 0 8 e.timestampbits rest refl

  entries_loop_cons :
      (n : ℕ) (ring : Option Ring) (e : AckEntry) (rest : Bytes) (w : Worker S)
      → IsWordEntry e
      → entries_loop write
          (suc n)
          ring
          (put_word 8 e.key_a ++ (put_word 8 e.key_b ++ (put_word 8 e.timestampbits ++ rest)))
          w
        ≡ entries_loop write n ring rest (remove_unowned ring e w)
  unfolding entries_loop
  entries_loop_cons n ring e rest w h =
      ap₂ (λ b x. entries_loop write n ring b x) (drop-entry e rest)
        (handle_entry-encode ring e rest w h)

  entries_loop-encode :
      (ring : Option Ring) (es : List AckEntry) (tail : Bytes) (w : Worker S)
      → All IsWordEntry es
      → entries_loop write (length es) ring (encode es ++ tail) w ≡ remove_all ring es w
  entries_loop-encode ring [] tail w h = unfold entries_loop in refl
  entries_loop-encode ring (e ∷ es) tail w h = simp append_assoc (
      entries_loop_cons (length es) ring e (encode es ++ tail) w h.0
      ∙ entries_loop-encode ring es tail (remove_unowned ring e w) h.1)

  -- From a message of whole entries with fewer than 24 bytes behind them, the worker goes through
  -- exactly those entries, in order, and does for each what it owes: where a ring is known and the
  -- local node is not responsible for the entry's key, one internal write of the entry with the
  -- local removal bit, which is counted, and nothing else.
  pub in_bulk_set_ack-encode :
      (ring : Option Ring) (es : List AckEntry) (tail : Bytes) (cap : ℕ) (w : Worker S)
      → All IsWordEntry es
      → length tail < entry_length
      → in_bulk_set_ack write ring (record { body = encode es ++ tail; body_cap = cap }) w
        ≡ remove_all ring es w
  unfolding in_bulk_set_ack
  in_bulk_set_ack-encode ring es tail cap w h short =
      let rounds : length (encode es ++ tail) / entry_length ≡ length es =
        omega (arith, length-append (encode es) tail, length-encode es) in
      rw rounds (entries_loop-encode ring es tail w h)
