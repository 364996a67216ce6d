-- ===== src/PullReplication/Receive.antt =====
-- valuepullreplication_GEN_.go, newInPullReplicationMsg: a message is read from the ring's
-- connection. The channels of free and of incoming messages are lists, their head first.
pub mod Delivery
use valuestore.Base.{
  ℕ, zero, suc, ◌+◌, ◌-◌, ◌%◌, ◌^◌, ◌&&◌, List, [], ◌∷◌, ◌++◌, Option, none, some, ltb, ◌==◌,
  if◌then◌else◌, length, take, drop, replicate,
}
use valuestore.Base.Bytes.{Bytes}
use valuestore.Reader.{Reader, discarded, broken, endless, discard}
use valuestore.Bloom.{Msg, ktbf_header_bytes}
use valuestore.PullReplication.{pull_header_bytes}

-- `spare` is what the array of the body holds between its length and its capacity.
pub record InMsg : Type 0 where
  pub msg : Msg
  pub spare : Bytes

pub record Inbox : Type 0 where
  pub free : List InMsg
  pub pending : List InMsg
  pub drops : ℕ
  pub invalids : ℕ
  pub received : ℕ

-- How a loop ends: with a full buffer and the error of the last read, or at an error. `stuck` is
-- no Go value.
pub data Late (R : Type 0) : Type 0 where
  full : Bytes → Option ℕ → R → Late R
  broke : Bytes → ℕ → R → Late R
  stuck : Late R

-- The count, the error, the reader behind them. `panics` is a body that `make` refuses.
pub data Taken (R : Type 0) : Type 0 where
  taken : ℕ → Option ℕ → R → Inbox → Taken R
  panics hangs : Taken R

-- `l - _VALUE_PULL_REPLICATION_MSG_HEADER_BYTES - uint64(_VALUE_KT_BLOOM_FILTER_HEADER_BYTES)`
abbrev pub body_length : ℕ → ℕ
body_length l = (l + (2 ^ 64 - (pull_header_bytes + ktbf_header_bytes))) % 2 ^ 64

abbrev pub body_cap : InMsg → ℕ
body_cap prm = length prm.msg.body + length prm.spare

module _ (io : Reader) where
  -- `for n != len(buf) { if err != nil { … return } sn, err = r.Read(buf[n:]); n += sn }`; `acc`
  -- is `buf[:n]`
  unfoldable pub fill_late : ℕ → ℕ → Bytes → Option ℕ → io.R → Late io.R
  fill_late zero want acc err r =
      let next : Late io.R = elim err [ none ↦ stuck | some e ↦ broke acc e r ] in
      if length acc == want then full acc err r else next
  fill_late (suc fuel) want acc err r =
      let sn = io.read r (want - length acc) in
      let more = fill_late fuel want (acc ++ sn.0.0) sn.0.1 sn.1 in
      let next : Late io.R = elim err [ none ↦ more | some e ↦ broke acc e r ] in
      if length acc == want then full acc err r else next

  -- `prm.body` at `bl` bytes, in a new array where its capacity is less, and `body` read into its
  -- front
  unfoldable pub resized : InMsg → ℕ → Bytes → InMsg
  resized prm bl body =
      let room = if ltb (body_cap prm) bl then replicate bl 0 else prm.msg.body ++ prm.spare in
      record {
        msg = record prm.msg { body = body ++ drop (length body) (take bl room) };
        spare = drop bl room;
      }

  abbrev pub with_header : InMsg → Bytes → InMsg
  with_header prm header = record prm { msg = record prm.msg { header = header } }

  -- the message goes back to the free ones
  abbrev pub give_back : Inbox → InMsg → Inbox
  give_back box prm = record box {
    free = box.free ++ prm ∷ [];
    invalids = (box.invalids + 1) % 2 ^ 32;
  }

  unfoldable pub read_body : ℕ → Inbox → InMsg → ℕ → Bytes → Late io.R → Taken io.R
  read_body l box prm bl header (full body err r) = taken l none r (record box {
    pending = box.pending ++ resized (with_header prm header) bl body ∷ [];
    received = (box.received + 1) % 2 ^ 32;
  })
  read_body l box prm bl header (broke body e r) =
      taken (length header + length body) (some e) r
        (give_back box (resized (with_header prm header) bl body))
  read_body l box prm bl header stuck = hangs

  unfoldable pub read_header : ℕ → Inbox → InMsg → ℕ → Late io.R → Taken io.R
  read_header l box prm bl (full header err r) =
      read_body l box prm bl header (fill_late bl bl [] err r)
  read_header l box prm bl (broke header e r) = taken (length header) (some e) r (
      give_back box
        (resized (with_header prm (header ++ drop (length header) prm.msg.header)) bl []))
  read_header l box prm bl stuck = hangs

  unfoldable pub toss_all : ℕ → io.R → Inbox → Taken io.R
  toss_all l r box = elim (discard io l l r) [
    | discarded r' ↦ taken l none r' (record box { drops = (box.drops + 1) % 2 ^ 32 })
    | broken left e r' ↦
        taken (l - left) (some e) r' (record box { invalids = (box.invalids + 1) % 2 ^ 32 })
    | endless ↦ hangs
  ]

  -- newInPullReplicationMsg; `max_alloc` is the longest slice that `make` gives
  unfoldable pub take_free : ℕ → ℕ → io.R → Inbox → List InMsg → Taken io.R
  take_free max_alloc l r box [] = toss_all l r box
  take_free max_alloc l r box (prm ∷ free) =
      let bl = body_length l in
      let want = length prm.msg.header in
      if ltb (body_cap prm) bl && ltb max_alloc bl
      then panics
      else read_header l (record box { free = free }) prm bl (fill_late want want [] none r)

  unfoldable pub new_in : ℕ → ℕ → io.R → Inbox → Taken io.R
  new_in max_alloc l r box = take_free max_alloc l r box box.free
