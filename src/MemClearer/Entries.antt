-- ===== src/MemClearer/Entries.antt =====
-- valuestore_GEN_.go, memClearer: the entries of a block as they were written, and where each
-- ends up.
use valuestore.Base.{
  ℕ, zero, suc, ◌+◌, ◌-◌, ◌^◌, ◌≤◌, ◌<◌, ◌≡◌, ◌≢◌, refl, ap, ◌∙◌, true, false, List, [], ◌∷◌, ◌++◌,
  append_assoc, Option, none, some, inl, inr, arith, ltb, Bool-cases, All, length, length-append,
  take, drop, drop-append_self,
}
use valuestore.Base.Bytes.{Bytes, put_word, get_word-put_word, get_word-put_word_over}
use valuestore.LocMap.{Key, LocMap, IsLocMap, supersedes}
use valuestore.MemWriter.{MemBlock, toc_entry, file_entry_size}
use valuestore.MemWriter.Bounds.{length-toc_entry}
use valuestore.StoreFile.{StoreFile, write, placed}
use valuestore.StoreFile.Content.{IsOpen, Written, content, write-Written}
use valuestore.MemClearer.{
  Clearer, MemEntry, entry_at, is_removal, place_of, add_entry, clear_entry, clear_loop,
}

abbrev pub IsEntry : MemEntry → Type 0
IsEntry e =
    (e.key.key_a < 2 ^ 64)
    × (e.key.key_b < 2 ^ 64)
    × (e.timestampbits < 2 ^ 64)
    × (e.offset < 2 ^ 32)
    × (e.size < 2 ^ 32)

abbrev pub encode : List MemEntry → Bytes
encode [] = []
encode (e ∷ es) = toc_entry e.key e.timestampbits e.offset e.size ++ encode es

pub entry_at-toc_entry :
    (e : MemEntry) (rest : Bytes)
    → IsEntry e
    → entry_at (toc_entry e.key e.timestampbits e.offset e.size ++ rest) ≡ e
unfolding entry_at toc_entry
entry_at-toc_entry e rest (ha, hb, ht, ho, hs) =
    let ka = e.key.key_a in
    let kb = e.key.key_b in
    let r4 = put_word 4 e.size ++ rest in
    let r3 = put_word 4 e.offset ++ r4 in
    let r2 = put_word 8 e.timestampbits ++ r3 in
    let r1 = put_word 8 kb ++ r2 in
    let a = get_word-put_word 8 ka r1 ha in
    let b = get_word-put_word_over 8 8 0 8 ka r1 refl ∙ get_word-put_word 8 kb r2 hb in
    let t =
      get_word-put_word_over 8 16 8 8 ka r1 refl
      ∙ (get_word-put_word_over 8 8 0 8 kb r2 refl ∙ get_word-put_word 8 e.timestampbits r3 ht) in
    let o =
      get_word-put_word_over 4 24 16 8 ka r1 refl
      ∙ (get_word-put_word_over 4 16 8 8 kb r2 refl
          ∙ (get_word-put_word_over 4 8 0 8 e.timestampbits r3 refl
              ∙ get_word-put_word 4 e.offset r4 ho)) in
    let z =
      get_word-put_word_over 4 28 20 8 ka r1 refl
      ∙ (get_word-put_word_over 4 20 12 8 kb r2 refl
          ∙ (get_word-put_word_over 4 12 4 8 e.timestampbits r3 refl
              ∙ (get_word-put_word_over 4 4 0 4 e.offset r4 refl
                  ∙ get_word-put_word 4 e.size rest hs))) in
    simp append_assoc (λ i. record {
      key = record { key_a = a i; key_b = b i };
      timestampbits = t i;
      offset = o i;
      size = z i;
    })

module _ (l : LocMap) (page_size : ℕ) where
  abbrev pub clear_entries : Clearer l → ℕ → MemBlock → List MemEntry → Clearer l
  clear_entries c file_ts b [] = c
  clear_entries c file_ts b (e ∷ es) =
      clear_entries (clear_entry l page_size c file_ts b e) file_ts b es

  clear_loop-cons :
      (n : ℕ) (c : Clearer l) (file_ts : ℕ) (b : MemBlock) (first : Bytes) (e : MemEntry)
      (rest : Bytes)
      → length first ≡ file_entry_size
      → entry_at (first ++ rest) ≡ e
      → length (first ++ rest) ≤ n
      → clear_loop l page_size n c file_ts b (first ++ rest)
        ≡ clear_loop l page_size (n - 1) (clear_entry l page_size c file_ts b e) file_ts b rest
  unfolding clear_loop
  clear_loop-cons n c file_ts b [] e rest len same fuel = absurd (omega (arith, len))
  clear_loop-cons zero c file_ts b (x ∷ xs) e rest len same fuel = absurd (omega (arith, fuel))
  clear_loop-cons (suc n) c file_ts b (x ∷ xs) e rest len same fuel =
      let behind = drop-append_self file_entry_size (x ∷ xs) rest len in
      let fuel_left : suc n - 1 ≡ n = omega arith in
      simp (behind, fuel_left)
        (ap (λ y. clear_loop l page_size n (clear_entry l page_size c file_ts b y) file_ts b rest)
          same)

  -- A table of contents that was written entry by entry, all fields within their widths, is read
  -- back entry by entry: the loop ends, and does what the entries, one after another, do.
  pub clear_loop-encode :
      (n : ℕ) (c : Clearer l) (file_ts : ℕ) (b : MemBlock) (es : List MemEntry)
      → length (encode es) ≤ n
      → All IsEntry es
      → clear_loop l page_size n c file_ts b (encode es) ≡ some (clear_entries c file_ts b es)
  unfolding clear_loop
  clear_loop-encode n c file_ts b [] fuel valid = refl
  clear_loop-encode n c file_ts b (e ∷ es) fuel valid =
      clear_loop-cons n c file_ts b (toc_entry e.key e.timestampbits e.offset e.size) e (encode es)
        (length-toc_entry e.key e.timestampbits e.offset e.size)
        (entry_at-toc_entry e (encode es) valid.0) fuel
      ∙ clear_loop-encode (n - 1) (clear_entry l page_size c file_ts b e) file_ts b es
          (omega (
            arith,
            length-append (toc_entry e.key e.timestampbits e.offset e.size) (encode es),
            length-toc_entry e.key e.timestampbits e.offset e.size,
            fuel,
          ))
          valid.1

  -- The key's entry is now the file's.
  pub record Moved (c : Clearer l) (b : MemBlock) (e : MemEntry) (file_ts : ℕ) (d : Clearer l)
      : Type 0 where
    pub located : l.get d.map e.key ≡ place_of b e
    pub elsewhere : (j : Key) → j ≢ e.key → l.get d.map j ≡ l.get c.map j
    pub recorded :
        (front : Bytes) × (d.tb
          ≡ some (
            file_ts,
            front ++ toc_entry e.key e.timestampbits (place_of b e).offset (place_of b e).size,
          ))

  add_entry-recorded :
      (c : Clearer l) (file_ts : ℕ) (o : Option (ℕ × Bytes)) (entry : Bytes)
      → ((ts : ℕ) (bytes : Bytes) → o ≡ some (ts, bytes) → ts ≡ file_ts)
      → (front : Bytes) × ((add_entry l page_size c file_ts o entry).tb
          ≡ some (file_ts, front ++ entry))
        × ((add_entry l page_size c file_ts o entry).map ≡ c.map)
  unfolding add_entry
  add_entry-recorded c file_ts none entry same = (put_word 8 file_ts, refl, refl)
  add_entry-recorded c file_ts (some (ts, bytes)) entry same =
      let is_same : ts ≡ file_ts = same ts bytes refl in
      elim (Bool-cases (ltb page_size (length bytes + file_entry_size))) [
        | inl full ↦ simp full (put_word 8 file_ts, refl, refl)
        | inr has_room ↦ simp has_room (bytes, ap (λ u. some (u, bytes ++ entry)) is_same, refl)
      ]

  -- An entry of a value that the map has nothing newer for, of a block in a file, with a table
  -- block in work for that file if any: the map has the key in the file, no other key's location
  -- changes, and the table block in work ends with the entry as the file's.
  pub clear_entry-Moved :
      IsLocMap l
      → (c : Clearer l) (file_ts : ℕ) (b : MemBlock) (e : MemEntry)
      → ((ts : ℕ) (bytes : Bytes) → c.tb ≡ some (ts, bytes) → ts ≡ file_ts)
      → is_removal e ≡ false
      → 0 < b.file_id
      → (l.get c.map e.key).timestampbits ≤ e.timestampbits
      → Moved c b e file_ts (clear_entry l page_size c file_ts b e)
  unfolding clear_entry
  clear_entry-Moved laws c file_ts b e same kept in_file newest =
      let x = place_of b e in
      let c2 : Clearer l = record c { map = (l.set c.map e.key x true).1 } in
      let p = laws.previous c.map e.key x true in
      let not_newer : ltb e.timestampbits (l.set c.map e.key x true).0 ≡ false =
        rw p (ground (arith, newest)) in
      let t : x.timestampbits ≡ e.timestampbits = simp kept refl in
      let id : x.block_id ≡ b.file_id = simp kept refl in
      let wins : supersedes true (l.get c.map e.key).timestampbits x.timestampbits ≡ true =
        rw t (ground (arith, newest)) in
      let stored_at = laws.stored c.map e.key x true wins (rw id in_file) in
      let (front, tb_is, map_is) =
        add_entry-recorded c2 file_ts c.tb (toc_entry e.key e.timestampbits x.offset x.size) same in
      simp not_newer (record {
        located = ap (λ m. l.get m e.key) map_is ∙ stored_at;
        elsewhere = λ j ne. ap (λ m. l.get m j) map_is ∙ laws.elsewhere c.map e.key j x true ne;
        recorded = (front, tb_is);
      })

Written-reads :
    (f : StoreFile) (b : MemBlock) (o : Option StoreFile)
    → Written f b o
    → (g : StoreFile) × (o ≡ some g)
      × ((at n : ℕ)
          → take n (drop ((placed f b).file_offset + at) (content g)) ≡ take n (drop at b.values))
Written-reads f b none h = absurd h
Written-reads f b (some g) h = (g, refl, h.2)

-- Writing a block to an open file, while the offset stays below 2 ^ 32, ends, and for an entry of a
-- value inside the block, which is no local removal, the bytes at its place in the file are the
-- bytes at its offset in the block.
pub write-place_of :
    (f : StoreFile) (b : MemBlock) (e : MemEntry)
    → IsOpen f
    → length (content f) + length b.values < 2 ^ 32
    → e.offset + e.size ≤ length b.values
    → is_removal e ≡ false
    → (g : StoreFile) × (write f b ≡ some g)
      × (take (place_of (placed f b) e).size (drop (place_of (placed f b) e).offset (content g))
          ≡ take e.size (drop e.offset b.values))
write-place_of f b e is small inside kept =
    let below = is.offset_is in
    let place : (place_of (placed f b) e).offset ≡ f.writer_offset + e.offset =
      simp kept (omega (arith, is.offset_is, small, inside)) in
    let size : (place_of (placed f b) e).size ≡ e.size = simp kept refl in
    let (g, wrote, reads) = Written-reads f b (write f b) (write-Written f b is small) in
    (g, wrote, rw (place, size) (reads e.offset e.size))
