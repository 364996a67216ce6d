-- ===== src/StoreFile/Content.antt =====
-- valuestorefile_GEN_.go, write: what a file holds, checksums left out: the header, then the
-- values of its blocks, one after another.
use valuestore.Base.{
  All-append, ℕ, zero, suc, ◌+◌, ◌^◌, ◌≤◌, ◌<◌, ◌≡◌, refl, sym, ap, ◌∙◌, ◌⊎◌, List, [], ◌∷◌, ◌++◌,
  Option, none, some, inl, inr, append_assoc, append-nil, arith, ltb, leb, ◌==◌, Bool-cases, All,
  length, length-append, length-take, length-drop, take, drop, take-append-drop,
}
use valuestore.Base.Bytes.{Bytes, drop-append_over}
use valuestore.MemWriter.{MemBlock}
use valuestore.StoreFile.{
  WriteBuf, StoreFile, room, fill_buf, write_loop, placed, leave_block, write,
}

abbrev pub joined : List WriteBuf → Bytes
joined [] = []
joined (b ∷ bs) = b.buf ++ joined bs

abbrev pub content : StoreFile → Bytes
content f = joined f.sent ++ f.current.buf

-- Every buffer sent is full, the current one is not, and the offset is what the file holds.
pub record IsOpen (f : StoreFile) : Type 0 where
  pub has_room : length f.current.buf < f.checksum_interval
  pub are_full : All (λ b. length b.buf ≡ f.checksum_interval) f.sent
  pub offset_is : f.writer_offset ≡ length (content f)

joined-append : (bs cs : List WriteBuf) → joined (bs ++ cs) ≡ joined bs ++ joined cs
joined-append [] cs = refl
joined-append (b ∷ bs) cs =
    rw (joined-append bs cs) (sym (append_assoc b.buf (joined bs) (joined cs)))

-- After a round of the loop.
fill_buf-content :
    (f : StoreFile) (rest : Bytes) → content (fill_buf f rest) ≡ content f ++ take (room f) rest
fill_buf-content f rest =
    let part = take (room f) rest in
    elim (Bool-cases (leb f.checksum_interval (length (f.current.buf ++ part)))) [
      | inl full ↦ simp full simp (joined-append, append-nil, append_assoc) refl
      | inr more ↦ simp more simp (append_assoc) refl
    ]

fill_buf-IsOpen :
    (f : StoreFile) (rest : Bytes)
    → IsOpen f
    → length (content f) + length rest < 2 ^ 32
    → IsOpen (fill_buf f rest)
fill_buf-IsOpen f rest is small =
    let part = take (room f) rest in
    let part_length = length-take (room f) rest in
    let buf_length = length-append f.current.buf part in
    let grown : length (content (fill_buf f rest)) ≡ length (content f) + length part =
      rw (fill_buf-content f rest) (length-append (content f) part) in
    elim (Bool-cases (leb f.checksum_interval (length (f.current.buf ++ part)))) [
      | inl full ↦
          let now = simp full at grown in
          simp full (record {
            has_room = ground (arith, is.has_room);
            are_full =
                All-append (λ b. length b.buf ≡ f.checksum_interval) f.sent
                  (record { buf = f.current.buf ++ part; mem_blocks = f.current.mem_blocks } ∷ [])
                  is.are_full (ground (arith, full, is.has_room, part_length, buf_length), tt);
            offset_is = omega (arith, now, part_length, is.offset_is, small);
          })
      | inr more ↦
          let now = simp more at grown in
          simp more (record {
            has_room = ground (arith, more);
            are_full = is.are_full;
            offset_is = omega (arith, now, part_length, is.offset_is, small);
          })
    ]

-- The loop's result: open still, and `rest` behind what was there.
abbrev pub Appended : StoreFile → Bytes → Option StoreFile → Type 0
Appended f rest none = ⊥
Appended f rest (some g) =
    IsOpen g
    × (content g ≡ content f ++ rest)
    × (g.checksum_interval ≡ f.checksum_interval)
    × (g.freed ≡ f.freed)

fill_buf_keeps :
    (f : StoreFile) (rest : Bytes)
    → ((fill_buf f rest).checksum_interval ≡ f.checksum_interval)
      × ((fill_buf f rest).freed ≡ f.freed)
fill_buf_keeps f rest =
    elim (Bool-cases (leb f.checksum_interval (length (f.current.buf ++ take (room f) rest)))) [
      | inl full ↦ simp full (refl, refl)
      | inr more ↦ simp more (refl, refl)
    ]

Appended-fill_buf :
    (f : StoreFile) (rest : Bytes) (o : Option StoreFile)
    → Appended (fill_buf f rest) (drop (room f) rest) o
    → Appended f rest o
Appended-fill_buf f rest none h = h
Appended-fill_buf f rest (some g) (is, now, c, d) = (
  is,
  now
      ∙ rw (fill_buf-content f rest) (
          append_assoc (content f) (take (room f) rest) (drop (room f) rest)
          ∙ ap (λ xs. content f ++ xs) (take-append-drop (room f) rest)),
  c ∙ (fill_buf_keeps f rest).0,
  d ∙ (fill_buf_keeps f rest).1,
)

write_loop-Appended :
    (n : ℕ) (f : StoreFile) (rest : Bytes)
    → length rest ≤ n
    → IsOpen f
    → length (content f) + length rest < 2 ^ 32
    → Appended f rest (write_loop n f rest)
unfolding write_loop
write_loop-Appended n f [] fuel is small = (is, sym (append-nil (content f)), refl, refl)
write_loop-Appended zero f (x ∷ rest) fuel is small = absurd (omega (arith, fuel))
write_loop-Appended (suc n) f (x ∷ rest) fuel is small =
    let left = length-drop (room f) (x ∷ rest) in
    let some_room : 0 < room f = omega (arith, is.has_room) in
    let grown : length (content (fill_buf f (x ∷ rest)))
        ≡ length (content f) + length (take (room f) (x ∷ rest)) =
      rw (fill_buf-content f (x ∷ rest)) (length-append (content f) (take (room f) (x ∷ rest))) in
    let part_length = length-take (room f) (x ∷ rest) in
    Appended-fill_buf f (x ∷ rest) (write_loop n (fill_buf f (x ∷ rest)) (drop (room f) (x ∷ rest)))
      (write_loop-Appended n (fill_buf f (x ∷ rest)) (drop (room f) (x ∷ rest))
        (omega (arith, left, some_room, fuel)) (fill_buf-IsOpen f (x ∷ rest) is small)
        (omega (arith, grown, part_length, left, small)))

-- The block is behind what was there, where `fileOffset` says; it is free once its values are all
-- in full buffers, and else waits for the current one.
abbrev pub Written : StoreFile → MemBlock → Option StoreFile → Type 0
Written f b none = ⊥
Written f b (some g) =
    IsOpen g
    × (content g ≡ content f ++ b.values)
    × ((o n : ℕ)
        → take n (drop ((placed f b).file_offset + o) (content g)) ≡ take n (drop o b.values))
    × (((g.freed ≡ f.freed ++ placed f b ∷ []) × ((length b.values ≡ 0) ⊎ (g.current.buf ≡ [])))
        ⊎ ((g.freed ≡ f.freed)
            × (older : List MemBlock) × (g.current.mem_blocks ≡ older ++ placed f b ∷ [])))

read_at :
    (f : StoreFile) (b : MemBlock) (bytes : Bytes)
    → IsOpen f
    → bytes ≡ content f ++ b.values
    → (o n : ℕ) → take n (drop ((placed f b).file_offset + o) bytes) ≡ take n (drop o b.values)
read_at f b bytes is e o n = rw e (
    ap (take n)
      (drop-append_over (f.writer_offset + o) o (content f) b.values (omega (arith, is.offset_is))))

empty : (xs : Bytes) → length xs ≡ 0 → xs ≡ []
empty [] h = refl
empty (x ∷ xs) h = absurd (omega (arith, h))

leave_block-Written :
    (f : StoreFile) (b : MemBlock) (o : Option StoreFile)
    → IsOpen f
    → Appended f b.values o
    → Written f b (leave_block (placed f b) o)
leave_block-Written f b none is h = h
leave_block-Written f b (some g) is (isg, now, c, d) =
    elim (Bool-cases (length g.current.buf == 0)) [
      | inl e ↦ simp e (
        record { has_room = isg.has_room; are_full = isg.are_full; offset_is = isg.offset_is },
        now,
        read_at f b (content g) is now,
        inl (ap (λ xs. xs ++ placed f b ∷ []) d, inr (empty g.current.buf (ground (arith, e)))),
      )
      | inr e ↦ simp e (
        record { has_room = isg.has_room; are_full = isg.are_full; offset_is = isg.offset_is },
        now,
        read_at f b (content g) is now,
        inr (d, g.current.mem_blocks, refl),
      )
    ]

interval-leave_block :
    (f g : StoreFile) (b : MemBlock) (rest : Bytes) (o : Option StoreFile)
    → Appended f rest o
    → leave_block b o ≡ some g
    → g.checksum_interval ≡ f.checksum_interval
interval-leave_block f g b rest none app e = absurd app
interval-leave_block f g b rest (some h) app e = elim (Bool-cases (length h.current.buf == 0)) [
  | inl empty_buf ↦
      let left : some (record h { freed = h.freed ++ b ∷ [] }) ≡ some g = simp empty_buf at e in
      let same : record h { freed = h.freed ++ b ∷ [] } ≡ g = cc in
      sym (ap (λ (x : StoreFile). x.checksum_interval) same) ∙ app.2
  | inr waiting ↦
      let left : some (record h {
        current = record { buf = h.current.buf; mem_blocks = h.current.mem_blocks ++ b ∷ [] };
      })
          ≡ some g =
        simp waiting at e in
      let same : record h {
        current = record { buf = h.current.buf; mem_blocks = h.current.mem_blocks ++ b ∷ [] };
      }
          ≡ g =
        cc in
      sym (ap (λ (x : StoreFile). x.checksum_interval) same) ∙ app.2
]

pub write-interval :
    (f g : StoreFile) (b : MemBlock)
    → IsOpen f
    → length (content f) + length b.values < 2 ^ 32
    → write f b ≡ some g
    → g.checksum_interval ≡ f.checksum_interval
unfolding write
write-interval f g b is small e = elim (Bool-cases (ltb (length b.values) 1)) [
  | inl none_left ↦
      let left : some (record f { freed = f.freed ++ placed f b ∷ [] }) ≡ some g =
        simp none_left at e in
      let same : record f { freed = f.freed ++ placed f b ∷ [] } ≡ g = cc in
      sym (ap (λ (x : StoreFile). x.checksum_interval) same)
  | inr some_left ↦
      interval-leave_block f g (placed f b) b.values (write_loop (length b.values) f b.values)
        (write_loop-Appended (length b.values) f b.values (omega arith) is small)
        (simp some_left at e)
]

-- Writing a block to an open file, while the offset stays below 2 ^ 32, ends: the file holds what
-- it held and the block's values behind that, so that every location in the block, moved by the
-- block's file offset, reads the same bytes from the file; and the block is free only if it has
-- no values or none of them is left in the current buffer, else it waits with that buffer.
pub write-Written :
    (f : StoreFile) (b : MemBlock)
    → IsOpen f
    → length (content f) + length b.values < 2 ^ 32
    → Written f b (write f b)
unfolding write
write-Written f b is small = elim (Bool-cases (ltb (length b.values) 1)) [
  | inl none_left ↦
      let nothing = empty b.values (ground (arith, none_left)) in
      simp none_left (
        record { has_room = is.has_room; are_full = is.are_full; offset_is = is.offset_is },
        rw nothing (sym (append-nil (content f))),
        read_at f b (content f) is (rw nothing (sym (append-nil (content f)))),
        inl (refl, inl (ground (arith, none_left))),
      )
  | inr some_left ↦ simp some_left (
      leave_block-Written f b (write_loop (length b.values) f b.values) is
        (write_loop-Appended (length b.values) f b.values (omega arith) is small))
]
