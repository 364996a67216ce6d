-- ===== src/BulkSet.antt =====
-- valuebulkset_GEN_.go: the message that carries entries to another node, its reading from the
-- ring's connection, and the worker that stores its entries. The channels of free and of incoming
-- messages are lists, their head first; the goroutines and their launcher are not modelled.
pub mod Entries
pub mod Delivery
pub mod Incoming
pub mod Tests
use valuestore.Base.{
  ℕ, zero, suc, ◌+◌, ◌-◌, ◌/◌, ◌%◌, ◌^◌, Bool, true, false, not, ◌&&◌, ◌||◌, List, [], ◌∷◌, ◌++◌,
  Option, none, some, leb, ltb, ◌==◌, if◌then◌else◌, length, take, drop, replicate,
}
use valuestore.Base.Bytes.{Bytes, put_word, get_word}
use valuestore.Package.{Error, has_bits, tsb_deletion}
use valuestore.Ring.{Ring, partition_of}
use valuestore.Reader.{
  Reader, Filled, filled, failed, stuck, Discarded, discarded, broken, endless, fill, discard,
}
use valuestore.BulkSetAck.{AckMsg, AckEntry, StoreWrite}
use valuestore.BulkSetAck

abbrev pub header_length : ℕ
header_length = 8

abbrev pub entry_header_length : ℕ
entry_header_length = 28

abbrev pub min_entry_length : ℕ
min_entry_length = 28

-- `spare` is what the slice's array holds between `len(bsm.body)` and `cap(bsm.body)`.
pub record Msg : Type 0 where
  pub header : Bytes
  pub body : Bytes
  pub spare : Bytes

abbrev pub body_cap : Msg → ℕ
body_cap bsm = length bsm.body + length bsm.spare

pub record Entry : Type 0 where
  pub key_a : ℕ
  pub key_b : ℕ
  pub timestampbits : ℕ
  pub value : Bytes

-- newOutBulkSetMsg, on the free message that the channel hands out
unfoldable pub new_out : Option Ring → Msg → Msg
new_out ring bsm =
    let header : Bytes = elim ring [
      | none ↦ bsm.header
      | some r ↦ elim (r.local_node) [
        | none ↦ bsm.header
        | some id ↦ put_word 8 id ++ drop 8 bsm.header
      ]
    ] in
    record bsm { header = header; body = []; spare = bsm.body ++ bsm.spare }

unfoldable pub msg_length : Msg → ℕ
msg_length bsm = length bsm.header + length bsm.body

unfoldable pub node_id : Msg → ℕ
node_id bsm = get_word 8 0 bsm.header

abbrev pub entry_bytes : Entry → Bytes
entry_bytes e =
    put_word 8 e.key_a
    ++ (put_word 8 e.key_b
        ++ (put_word 8 e.timestampbits ++ (put_word 4 (length e.value) ++ e.value)))

unfoldable pub add : Msg → Entry → Msg × Bool
add bsm e =
    if leb (body_cap bsm) (length bsm.body + entry_header_length + length e.value)
    then (bsm, false)
    else (
      record bsm {
        body = bsm.body ++ entry_bytes e;
        spare = drop (entry_header_length + length e.value) bsm.spare;
      },
      true,
    )

-- The counters that the worker changes, `int32` each, the store and the message of acks.
pub record Worker (S : Type 0) : Type 0 where
  pub store : S
  pub bsam : Option AckMsg
  pub writes : ℕ
  pub write_errors : ℕ
  pub writes_overridden : ℕ

-- How the loop over a message ends. `panicked` is a slice out of range; `out_of_fuel` is no Go
-- value.
pub data Outcome (S : Type 0) : Type 0 where
  done : Worker S → Outcome S
  panicked : Worker S → Outcome S
  out_of_fuel : Outcome S

-- `if err == nil && bsam != nil && ring != nil && ring.Responsible(…) { bsam.add(…) }`
unfoldable pub ack : Option Ring → AckEntry → Option AckMsg → Option AckMsg
ack none e bsam = bsam
ack (some ring) e none = none
ack (some ring) e (some bsam) =
    if ring.responsible (partition_of ring e.key_a)
    then some (BulkSetAck.add bsam e).0
    else some bsam

-- The message of acks that a worker begins with: none without a ring or without a sender.
abbrev pub first_acks : Option Ring → AckMsg → Msg → Option AckMsg
first_acks none free_ack bsm = none
first_acks (some ring) free_ack bsm =
    if node_id bsm == 0 then none else some (BulkSetAck.new_out free_ack)

-- `entryHeaderLength + l`, a uint32
abbrev pub stop_of : Bytes → ℕ
stop_of body = (entry_header_length + get_word 4 24 body) % 2 ^ 32

-- The entry at the head of `body`; its value may reach into the spare bytes, up to the capacity.
abbrev pub entry_at : Bytes → Bytes → Entry
entry_at body spare = record {
  key_a = get_word 8 0 body;
  key_b = get_word 8 8 body;
  timestampbits = get_word 8 16 body;
  value = take (stop_of body - entry_header_length) (drop entry_header_length (body ++ spare));
}

module _ {S : Type 0} (write : StoreWrite S) where
  unfoldable pub count_answer :
      Option Ring → AckEntry → (ℕ × Option Error) × S → Worker S → Worker S
  count_answer ring e ((p, some err), s) w = record w {
    store = s;
    write_errors = (w.write_errors + 1) % 2 ^ 32;
  }
  count_answer ring e ((p, none), s) w = record w {
    store = s;
    writes_overridden =
        if leb e.timestampbits p then (w.writes_overridden + 1) % 2 ^ 32 else w.writes_overridden;
    bsam = ack ring e w.bsam;
  }

  -- the write of one entry; only a deletion is internal
  unfoldable pub write_entry : Option Ring → Entry → Worker S → Worker S
  write_entry ring e w =
      count_answer ring
        (record { key_a = e.key_a; key_b = e.key_b; timestampbits = e.timestampbits })
        (write w.store e.key_a e.key_b e.timestampbits e.value
          (has_bits e.timestampbits tsb_deletion))
        (record w { writes = (w.writes + 1) % 2 ^ 32 })

  -- `for len(body) > entryHeaderLength { … }`. An entry may not end behind the capacity, and
  -- `body[entryHeaderLength+l:]` may not begin behind the length.
  unfoldable pub entries_loop : ℕ → Option Ring → Bytes → Bytes → Worker S → Outcome S
  entries_loop zero ring body spare w = out_of_fuel
  entries_loop (suc fuel) ring body spare w =
      let w' = write_entry ring (entry_at body spare) w in
      let more = entries_loop fuel ring (drop (stop_of body) body) spare w' in
      if leb (length body) entry_header_length
      then done w
      else if ltb (stop_of body) entry_header_length
          || ltb (length body + length spare) (stop_of body)
      then panicked (record w { writes = (w.writes + 1) % 2 ^ 32 })
      else if ltb (length body) (stop_of body)
      then panicked w'
      else more

  -- inBulkSet, for one message: `free_ack` is the message that newOutBulkSetAckMsg would take.
  -- Only a message with a ring and a sender is acknowledged: by `done w`, `w.bsam` goes to
  -- `node_id bsm`.
  unfoldable pub in_bulk_set : Option Ring → AckMsg → Msg → Worker S → Outcome S
  in_bulk_set ring free_ack bsm w =
      entries_loop (suc (length bsm.body)) ring bsm.body bsm.spare
        (record w { bsam = first_acks ring free_ack bsm })

-- The state that newInBulkSetMsg changes.
pub record Inbox : Type 0 where
  pub free : List Msg
  pub pending : List Msg
  pub drops : ℕ
  pub invalids : ℕ
  pub received : ℕ

-- Its result: the count and the error that it returns, and the reader behind it. `panics` is a body
-- that `make` refuses.
pub data Taken (R : Type 0) : Type 0 where
  taken : ℕ → Option ℕ → R → Inbox → Taken R
  panics hangs : Taken R

-- `max_alloc` is the longest slice that `make` gives.
module _ (io : Reader) (max_alloc : ℕ) where
  invalid : Inbox → Inbox
  invalid box = record box { invalids = (box.invalids + 1) % 2 ^ 32 }

  toss_all : ℕ → io.R → Inbox → Inbox → Taken io.R
  toss_all l r kept failing = elim (discard io l l r) [
    | discarded r' ↦ taken l none r' kept
    | broken left e r' ↦ taken (l - left) (some e) r' failing
    | endless ↦ hangs
  ]

  -- `bsm.body` resized to `l` bytes, in a new array where its capacity is less, and then `body`
  -- read into its front
  resized : Msg → ℕ → Bytes → Msg
  resized bsm l body =
      let room = if ltb (body_cap bsm) l then replicate l 0 else bsm.body ++ bsm.spare in
      record bsm { body = body ++ drop (length body) (take l room); spare = drop l room }

  fill_body : Inbox → Msg → ℕ → Bytes → io.R → Taken io.R
  unfolding invalid resized
  fill_body box bsm l header r = elim (fill io l l [] r) [
    | filled body r' ↦ taken (header_length + l) none r' (record box {
      pending = box.pending ++ (resized (record bsm { header = header }) l body) ∷ [];
      received = (box.received + 1) % 2 ^ 32;
    })
    | failed body e r' ↦ taken (header_length + length body) (some e) r' (
        invalid (record box {
          free = box.free ++ (resized (record bsm { header = header }) l body) ∷ [];
        }))
    | stuck ↦ hangs
  ]

  read_body : Inbox → Msg → ℕ → Bytes → io.R → Taken io.R
  unfolding fill_body
  read_body box bsm l header r =
      if ltb (body_cap bsm) l && ltb max_alloc l then panics else fill_body box bsm l header r

  -- a message long enough, with `bsm` taken from the free ones
  read_header : Inbox → Msg → ℕ → io.R → Taken io.R
  unfolding invalid read_body
  read_header box bsm l r = elim (fill io header_length header_length [] r) [
    | filled header r' ↦ read_body box bsm (l - header_length) header r'
    | failed header e r' ↦ taken (length header) (some e) r' (
        invalid (record box {
          free =
              box.free ++ (record bsm { header = header ++ drop (length header) bsm.header }) ∷ [];
        }))
    | stuck ↦ hangs
  ]

  take_free : ℕ → io.R → Inbox → List Msg → Taken io.R
  unfolding invalid toss_all read_header
  take_free l r box [] =
      toss_all l r (record box { drops = (box.drops + 1) % 2 ^ 32 }) (invalid box)
  take_free l r box (bsm ∷ free) =
      let back : Inbox = record box { free = free ++ bsm ∷ [] } in
      if ltb l (header_length + min_entry_length)
      then toss_all l r (invalid back) (invalid back)
      else read_header (record box { free = free }) bsm l r

  -- newInBulkSetMsg
  unfoldable pub new_in : ℕ → io.R → Inbox → Taken io.R
  unfolding take_free
  new_in l r box = take_free l r box box.free
