-- ===== src/BulkSet/Delivery.antt =====
-- inBulkSet on whole messages.
use valuestore.Base.{
  ℕ, suc, ◌+◌, ◌<◌, ◌≤◌, ◌^◌, ◌%◌, ◌≡◌, ◌≢◌, ap, ◌∙◌, Bool, true, false, List, [], ◌∷◌, ◌++◌,
  Option, none, some, arith, leb, if◌then◌else◌, Bool-cases, inl, inr, append-nil, append_assoc,
  ◌*◌, length, length-append, All,
}
use valuestore.Base.Bytes.{Bytes}
use valuestore.Package.{Error, has_bits, tsb_deletion}
use valuestore.Ring.{Ring, partition_of}
use valuestore.BulkSetAck.Entries as Acks
use valuestore.BulkSetAck.{StoreWrite, AckMsg, AckEntry, entry_length}
use valuestore.BulkSet.{
  Msg, Entry, Worker, done, panicked, out_of_fuel, entry_header_length, stop_of, ack, count_answer,
  write_entry, in_bulk_set, first_acks,
}
use valuestore.BulkSet.Entries.{
  IsWordEntry, encode, reached, write_all, entries_loop-encode, entries_loop-ne-out_of_fuel,
  one_more, entries_loop_overlong,
}

-- A last entry with an empty value is not reached.
reached-append_bare : (es : List Entry) (t : Entry) → t.value ≡ [] → reached (es ++ t ∷ []) ≡ es
reached-append_bare [] t bare = rw bare
reached-append_bare (e ∷ []) t bare = ap (◌∷◌ e) (reached-append_bare [] t bare)
reached-append_bare (e ∷ d ∷ es) t bare = ap (◌∷◌ e) (reached-append_bare (d ∷ es) t bare)

reached-append_full :
    (es : List Entry) (t : Entry) → 0 < length t.value → reached (es ++ t ∷ []) ≡ es ++ t ∷ []
reached-append_full [] t full = ground arith
reached-append_full (e ∷ []) t full = ap (◌∷◌ e) (reached-append_full [] t full)
reached-append_full (e ∷ d ∷ es) t full = ap (◌∷◌ e) (reached-append_full (d ∷ es) t full)

module _ {S : Type 0} (write : StoreWrite S) (ring : Option Ring) (free : AckMsg) (bsm : Msg)
    (w : Worker S) where
  pub in_bulk_set-encode :
      (es : List Entry)
      → All IsWordEntry es
      → bsm.body ≡ encode es
      → in_bulk_set write ring free bsm w
        ≡ done (write_all write ring (reached es) (record w { bsam = first_acks ring free bsm }))
  unfolding in_bulk_set
  in_bulk_set-encode es h e = simp e (
      entries_loop-encode write ring (suc (length (encode es))) es bsm.spare
        (record w { bsam = first_acks ring free bsm }) h (omega arith))

  -- From a message of word entries whose last has a value that is not empty, the worker writes all
  -- of them, in order, and ends.
  pub in_bulk_set_writes :
      (es : List Entry) (last : Entry)
      → All IsWordEntry (es ++ last ∷ [])
      → 0 < length last.value
      → bsm.body ≡ encode (es ++ last ∷ [])
      → in_bulk_set write ring free bsm w
        ≡ done
            (write_all write ring (es ++ last ∷ []) (record w { bsam = first_acks ring free bsm }))
  in_bulk_set_writes es last h full e =
      rw (reached-append_full es last full) at (in_bulk_set-encode (es ++ last ∷ []) h e)

  -- Where the last entry's value is empty, as every deletion's is, the worker writes and
  -- acknowledges the entries before it, and the last one is lost.
  pub in_bulk_set_loses_last :
      (es : List Entry) (last : Entry)
      → All IsWordEntry (es ++ last ∷ [])
      → last.value ≡ []
      → bsm.body ≡ encode (es ++ last ∷ [])
      → in_bulk_set write ring free bsm w
        ≡ done (write_all write ring es (record w { bsam = first_acks ring free bsm }))
  in_bulk_set_loses_last es last h bare e =
      rw (reached-append_bare es last bare) at (in_bulk_set-encode (es ++ last ∷ []) h e)

  -- Any message at all is dealt with in finitely many rounds.
  pub in_bulk_set-ne-out_of_fuel : in_bulk_set write ring free bsm w ≢ out_of_fuel
  unfolding in_bulk_set
  in_bulk_set-ne-out_of_fuel =
      entries_loop-ne-out_of_fuel write ring (suc (length bsm.body)) bsm.body bsm.spare _
        (omega arith)

  -- A message of word entries and behind them one that claims more bytes than the buffer's
  -- capacity, whatever else there is of it: the worker stores the entries before it, in order,
  -- counts a write more, and then stops by a slice out of range.
  pub in_bulk_set_overlong :
      (es : List Entry) (bad : Bytes)
      → All IsWordEntry es
      → bsm.body ≡ encode es ++ bad
      → entry_header_length < length bad
      → length bad + length bsm.spare < stop_of bad
      → in_bulk_set write ring free bsm w
        ≡ panicked
            (one_more (write_all write ring es (record w { bsam = first_acks ring free bsm })))
  unfolding in_bulk_set
  in_bulk_set_overlong es bad h e long over = simp e (
      entries_loop_overlong write ring (suc (length (encode es ++ bad))) es bad bsm.spare
        (record w { bsam = first_acks ring free bsm }) h (omega arith) long over)

abbrev pub ack_entry : Entry → AckEntry
ack_entry e = record { key_a = e.key_a; key_b = e.key_b; timestampbits = e.timestampbits }

-- The store took the entry without an error, and the local node is responsible for its key.
abbrev accepted : Ring → Entry → Option Error → Bool
accepted ring e none = ring.responsible (partition_of ring e.key_a)
accepted ring e (some err) = false

module _ {S : Type 0} (write : StoreWrite S) (ring : Ring) where
  -- The entries to acknowledge: those whose own write is accepted, in order.
  abbrev pub acked : List Entry → Worker S → List AckEntry
  acked [] w = []
  acked (e ∷ es) w =
      let answer =
        write w.store e.key_a e.key_b e.timestampbits e.value
          (has_bits e.timestampbits tsb_deletion) in
      let later = acked es (write_entry write (some ring) e w) in
      if accepted ring e (answer.0.1) then ack_entry e ∷ later else later

  bsam-count_answer :
      (e : Entry) (a : (ℕ × Option Error) × S) (w : Worker S) (m : AckMsg)
      → w.bsam ≡ some m
      → length m.body + entry_length < m.body_cap
      → (count_answer write (some ring) (ack_entry e) a w).bsam
        ≡ some (record m {
          body = m.body ++ Acks.encode (if accepted ring e (a.0.1) then ack_entry e ∷ [] else []);
        })
  unfolding count_answer ack
  bsam-count_answer e ((p, some x), s) w m h room = rw (append-nil, h)
  bsam-count_answer e ((p, none), s) w m h room =
      rw h (elim (Bool-cases (ring.responsible (partition_of ring e.key_a))) [
        | inr other ↦ rw (other, append-nil)
        | inl own ↦ rw (own, Acks.add-encode m (ack_entry e), fits)
      ])
    where
      fits : leb m.body_cap (length m.body + entry_length) ≡ false
      fits = ground arith

  encode-if :
      (b : Bool) (e : AckEntry) (es : List AckEntry) (front : Bytes)
      → (front ++ Acks.encode (if b then e ∷ [] else [])) ++ Acks.encode es
        ≡ front ++ Acks.encode (if b then e ∷ es else es)
  encode-if true e es front = rw (Acks.encode-cons e es) (append_assoc front _ _)
  encode-if false e es front = rw append-nil

  length-encode_if :
      (b : Bool) (e : AckEntry) → length (Acks.encode (if b then e ∷ [] else [])) ≤ entry_length
  length-encode_if true e = omega (arith, Acks.length-encode (e ∷ []))
  length-encode_if false e = omega arith

  -- Where the message of acks has room, it ends with exactly the accepted entries: those that the
  -- store took without an error and whose key the local node is responsible for.
  pub bsam-write_all :
      (es : List Entry) (w : Worker S) (m : AckMsg)
      → w.bsam ≡ some m
      → length m.body + length es * entry_length < m.body_cap
      → (write_all write (some ring) es w).bsam
        ≡ some (record m { body = m.body ++ Acks.encode (acked es w) })
  unfolding write_entry
  bsam-write_all [] w m h room = rw (append-nil, h)
  bsam-write_all (e ∷ es) w m h room =
      let a =
        write w.store e.key_a e.key_b e.timestampbits e.value
          (has_bits e.timestampbits tsb_deletion) in
      let own = accepted ring e (a.0.1) in
      let now = Acks.encode (if own then ack_entry e ∷ [] else []) in
      bsam-write_all es (write_entry write (some ring) e w) (record m { body = m.body ++ now })
        (bsam-count_answer e a (record w { writes = (w.writes + 1) % 2 ^ 32 }) m h (omega arith))
        (omega (arith, length-append m.body now, length-encode_if own (ack_entry e)))
      ∙ ap (λ b. some (record m { body = b }))
          (encode-if own (ack_entry e) (acked es (write_entry write (some ring) e w)) m.body)
