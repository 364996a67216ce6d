-- ===== src/BulkSetAck.antt =====
-- valuebulksetack_GEN_.go: the message that acknowledges received entries, and its worker.
pub mod Entries
mod Tests
use valuestore.Base.{
  ℕ, zero, suc, ◌+◌, ◌*◌, ◌/◌, ◌%◌, ◌^◌, Bool, true, false, List, ◌++◌, Option, none, some, bit_or,
  leb, not, if◌then◌else◌, length, take, drop,
}
use valuestore.Base.Bytes.{Bytes, put_word, get_word}
use valuestore.Package.{Error, tsb_local_removal}
use valuestore.Ring.{Ring, partition_of}

abbrev pub entry_length : ℕ
entry_length = 24

-- `cap(bsam.body)` is a field, since `add` keeps below it.
pub record AckMsg : Type 0 where
  pub body : Bytes
  pub body_cap : ℕ

pub record AckEntry : Type 0 where
  pub key_a : ℕ
  pub key_b : ℕ
  pub timestampbits : ℕ

-- newOutBulkSetAckMsg, on the free message that the channel hands out
unfoldable pub new_out : AckMsg → AckMsg
new_out bsam = record bsam { body = List.[] }

unfoldable pub add : AckMsg → AckEntry → AckMsg × Bool
add bsam e = if leb bsam.body_cap (length bsam.body + entry_length) then (bsam, false) else (
  record bsam {
    body = bsam.body ++ (put_word 8 e.key_a ++ (put_word 8 e.key_b ++ put_word 8 e.timestampbits));
  },
  true,
)

unfoldable pub msg_length : AckMsg → ℕ
msg_length bsam = length bsam.body

-- The counters that the worker changes, `int32` each, and the store.
pub record Worker (S : Type 0) : Type 0 where
  pub store : S
  pub writes : ℕ
  pub write_errors : ℕ
  pub writes_overridden : ℕ

abbrev pub StoreWrite : Type 0 → Type 0
StoreWrite S = S → ℕ → ℕ → ℕ → Bytes → Bool → (ℕ × Option Error) × S

module _ {S : Type 0} (write : StoreWrite S) where
  -- the counting of one answered `store.write`
  unfoldable pub count_write : ℕ → (ℕ × Option Error) × S → Worker S → Worker S
  count_write timestampbits ((p, none), s) w =
      if leb timestampbits p
      then record w { store = s; writes_overridden = (w.writes_overridden + 1) % 2 ^ 32 }
      else record w { store = s }
  count_write timestampbits ((p, some err), s) w = record w {
    store = s;
    write_errors = (w.write_errors + 1) % 2 ^ 32;
  }

  -- one entry at the head of `b`; a store with no ring, or one responsible for the key, keeps it
  unfoldable pub handle_entry : Option Ring → Bytes → Worker S → Worker S
  handle_entry none b w = w
  handle_entry (some ring) b w =
      let key_a = get_word 8 0 b in
      let timestampbits = bit_or (get_word 8 16 b) tsb_local_removal in
      if ring.responsible (partition_of ring key_a)
      then w
      else count_write timestampbits
          (write w.store key_a (get_word 8 8 b) timestampbits List.[] true)
          (record w { writes = (w.writes + 1) % 2 ^ 32 })

  -- `for o := 0; o < l; o += entry_length`, on the rounds that are left
  unfoldable pub entries_loop : ℕ → Option Ring → Bytes → Worker S → Worker S
  entries_loop zero ring b w = w
  entries_loop (suc n) ring b w = entries_loop n ring (drop entry_length b) (handle_entry ring b w)

  -- inBulkSetAck, for one message; the bytes behind the last whole entry are dropped
  unfoldable pub in_bulk_set_ack : Option Ring → AckMsg → Worker S → Worker S
  in_bulk_set_ack ring bsam w = entries_loop (length bsam.body / entry_length) ring bsam.body w
