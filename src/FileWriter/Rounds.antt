-- ===== src/FileWriter/Rounds.antt =====
-- valuestore_GEN_.go, fileWriter: a block, and the closing of a file, in rounds where the disk does
-- its part.
use mathlib.Core.Path.{subst}
use valuestore.Base.{
  ℕ, ◌+◌, ◌%◌, ◌^◌, ◌≤◌, ◌<◌, ◌≡◌, refl, sym, ap, ◌∙◌, false, ◌||◌, List, [], ◌∷◌, ◌++◌, Option,
  none, some, inl, inr, arith, ltb, leb, if◌then◌else◌, Bool-cases, Option-cases, length,
  length-append, append_assoc, append-nil, drop, All,
}
use valuestore.Base.Bytes.{Bytes}
use valuestore.Package.{Error}
use valuestore.MemWriter.{MemBlock, file}
use valuestore.StoreFile.{StoreFile, Closed, new_file, write, close_writing}
use valuestore.StoreFile.Content.{content, Written, write-Written, write-interval}
use valuestore.StoreFile.Closing.{drop_all, Sealed, close_writing-Sealed}
use valuestore.Toc.Entries.{drop-append_shorter}
use valuestore.FileWriter.{
  FileWriter, FileTurn, running, close_current, is_full, wrote_block, write_block, open_file,
  take_block, file_turn,
}
use valuestore.FileWriter.Layout.{
  body, bodies, current_body, IsFinished, IsCurrent, length-new_file, new_file-IsCurrent,
}

module _ (sum32 : Bytes → ℕ) (disk_write : Bytes → Option Error) (disk_close : ℕ → Option Error)
    (written : (b : Bytes) → disk_write b ≡ none) (make : ℕ → Option ℕ)
    (makes : (n : ℕ) → (id : ℕ) × (make n ≡ some id))
    (interval file_cap writers clearers page most : ℕ) (wide : 32 < interval)
    (caps : file_cap ≤ most) (pages : 32 + page ≤ most) (small : most < 2 ^ 32) where
  abbrev pub IsGood : FileWriter → Type 0
  IsGood w =
      IsCurrent interval most w.value_len w.current
      × All (IsFinished sum32 disk_close interval most) w.finished
      × (w.disabled ≡ false)

  abbrev pub total : FileWriter → Bytes
  total w = bodies w.finished ++ current_body w.current

  bodies-append :
      (xs : List (StoreFile × Option Closed)) (f : StoreFile) (c : Option Closed)
      → bodies (xs ++ (f, c) ∷ []) ≡ bodies xs ++ body f
  bodies-append [] f c = append-nil (body f)
  bodies-append ((g, d) ∷ xs) f c =
      ap (body g ++◌) (bodies-append xs f c) ∙ sym (append_assoc (body g) (bodies xs) (body f))

  IsFinished-append :
      (xs : List (StoreFile × Option Closed)) (x : StoreFile × Option Closed)
      → All (IsFinished sum32 disk_close interval most) xs
      → IsFinished sum32 disk_close interval most x
      → All (IsFinished sum32 disk_close interval most) (xs ++ x ∷ [])
  IsFinished-append [] x all h = (h, tt)
  IsFinished-append (y ∷ xs) x (hy, all) h = (hy, IsFinished-append xs x all h)

  -- What a round leaves alone.
  abbrev pub Alike : FileWriter → FileWriter → Type 0
  Alike w x = (x.flush_left ≡ w.flush_left) × (x.clearing ≡ w.clearing)

  pub close_current-IsGood :
      (w : FileWriter) (o : Option StoreFile)
      → w.current ≡ o
      → IsGood w
      → (x : FileWriter) × (close_current sum32 disk_write disk_close make interval file_cap writers
            clearers w
          ≡ x)
        × (x.current ≡ none)
        × IsGood x
        × (bodies x.finished ≡ total w)
        × Alike w x
  unfolding close_current
  close_current-IsGood w none e good = (
    w,
    simp (close_current, e) refl,
    e,
    good,
    simp e (sym (append-nil (bodies w.finished))),
    (refl, refl),
  )
  close_current-IsGood w (some f) e (cur, fin, on) =
      let is : IsCurrent interval most w.value_len (some f) =
        subst (IsCurrent interval most w.value_len) e cur in
      let c = close_writing sum32 disk_write (disk_close f.id) f in
      let closed : Sealed sum32 interval f.current.buf (disk_close f.id) c =
        subst (λ n. Sealed sum32 n f.current.buf (disk_close f.id) c) (is.1)
          (close_writing-Sealed sum32 disk_write written (disk_close f.id) f
            (omega (arith, wide, is.1)) is.0) in
      (
        record w { current = none; finished = w.finished ++ (f, c) ∷ [] },
        simp (close_current, e) refl,
        refl,
        (tt, IsFinished-append w.finished (f, c) fin (omega (arith, is.2, is.4), closed), on),
        simp e (bodies-append w.finished f c),
        (refl, refl),
      )

  -- A file is open, and has room for the block or has only its header.
  abbrev HasRoom : MemBlock → FileWriter → StoreFile → Type 0
  HasRoom b w f = (w.current ≡ some f) × (w.value_len + length b.values ≤ most)

  open_file-IsGood :
      (b : MemBlock) (w : FileWriter)
      → length b.values ≤ page
      → w.current ≡ none
      → IsGood w
      → (x : FileWriter) × (f : StoreFile) × (open_file sum32 disk_write disk_close make interval
            file_cap writers clearers w
          ≡ x)
        × HasRoom b x f
        × IsGood x
        × (total x ≡ bodies w.finished)
        × Alike w x
  unfolding open_file
  open_file-IsGood b w fits e (cur, fin, on) =
      let (id, made) = makes w.made in
      let f = new_file id interval in
      let long = length-new_file id interval in
      (
        record w { current = some f; made = w.made + 1; toc_len = 32; value_len = 32 },
        f,
        simp (open_file, e, made) refl,
        (refl, omega (arith, fits, pages)),
        (new_file-IsCurrent id interval most wide (omega (arith, pages)), fin, on),
        ap (bodies w.finished ++◌) (drop_all 32 (content f) (omega (arith, long)))
            ∙ append-nil (bodies w.finished),
        (refl, refl),
      )

  wrote_block-IsGood :
      (b : MemBlock) (w : FileWriter) (f : StoreFile) (o : Option StoreFile)
      → length b.values ≤ page
      → HasRoom b w f
      → IsGood w
      → write f b ≡ o
      → Written f b o
      → (x : FileWriter) × (wrote_block sum32 disk_write disk_close make interval file_cap writers
            clearers o b w
          ≡ running x)
        × IsGood x
        × (total x ≡ total w ++ b.values)
        × Alike w x
  wrote_block-IsGood b w f none fits (e, room) good ran wrote = absurd wrote
  wrote_block-IsGood b w f (some g) fits (e, room) (cur, fin, on) ran wrote =
      let is : IsCurrent interval most w.value_len (some f) =
        subst (IsCurrent interval most w.value_len) e cur in
      let long : length (content g) ≡ length (content f) + length b.values =
        ap length wrote.1 ∙ length-append (content f) b.values in
      let more : body g ≡ body f ++ b.values =
        ap (drop 32) wrote.1
        ∙ drop-append_shorter 32 (content f) b.values (omega (arith, is.2, is.3)) in
      (
        record w {
          current = some g;
          toc_len = (w.toc_len + length b.toc) % 2 ^ 64;
          value_len = (w.value_len + length b.values) % 2 ^ 64;
        },
        refl,
        (
          (
            wrote.0,
            write-interval f g b is.0 (omega (arith, is.2, room, small)) ran ∙ is.1,
            omega (arith, long, is.2, room, small),
            omega (arith, room, small, is.3),
            omega (arith, room, small),
          ),
          fin,
          on,
        ),
        ap (bodies w.finished ++◌) more
            ∙ sym (append_assoc (bodies w.finished) (body f) b.values)
            ∙ ap (λ o. (bodies w.finished ++ current_body o) ++ b.values) (sym e),
        (refl, refl),
      )

  -- A block is taken without a panic and in a bounded number of rounds.
  abbrev pub Takes : MemBlock → FileWriter → FileTurn → Type 0
  Takes b w turn =
      (x : FileWriter) × (turn ≡ running x) × IsGood x × (total x ≡ total w ++ b.values) × Alike w x

  write_block-Takes :
      (b : MemBlock) (w : FileWriter) (f : StoreFile)
      → length b.values ≤ page
      → HasRoom b w f
      → IsGood w
      → Takes b w
          (write_block sum32 disk_write disk_close make interval file_cap writers clearers b w)
  unfolding write_block
  write_block-Takes b w f fits (e, room) good =
      let is : IsCurrent interval most w.value_len (some f) =
        subst (IsCurrent interval most w.value_len) e good.0 in
      let (x, ran, good', more, alike) =
        wrote_block-IsGood b w f (write f b) fits (e, room) good refl
          (write-Written f b is.0 (omega (arith, is.2, room, small))) in
      (x, simp (write_block, e) ran, good', more, alike)

  -- The same behind an opening of a file.
  opened-Takes :
      (b : MemBlock) (w y : FileWriter)
      → length b.values ≤ page
      → y.current ≡ none
      → IsGood y
      → bodies y.finished ≡ total w
      → Alike w y
      → Takes b w (
          write_block sum32 disk_write disk_close make interval file_cap writers clearers b
            (open_file sum32 disk_write disk_close make interval file_cap writers clearers y))
  opened-Takes b w y fits e good all (left, clearing) =
      let (z, f, opened, room, good', same, (left', clearing')) =
        open_file-IsGood b y fits e good in
      let (x, ran, good'', more, (left'', clearing'')) = write_block-Takes b z f fits room good' in
      (
        x,
        ap (write_block sum32 disk_write disk_close make interval file_cap writers clearers b)
              opened
            ∙ ran,
        good'',
        more ∙ ap (◌++ b.values) (same ∙ all),
        (left'' ∙ left' ∙ left, clearing'' ∙ clearing' ∙ clearing),
      )

  abbrev rolled : MemBlock → FileWriter → FileWriter
  rolled b w =
      if is_full sum32 disk_write disk_close make interval file_cap writers clearers w b
      then close_current sum32 disk_write disk_close make interval file_cap writers clearers w
      else w

  block_turn :
      (b : MemBlock) (w : FileWriter)
      → w.disabled ≡ false
      → file_turn sum32 disk_write disk_close make interval file_cap writers clearers (file b) w
        ≡ write_block sum32 disk_write disk_close make interval file_cap writers clearers b (
            open_file sum32 disk_write disk_close make interval file_cap writers clearers
              (rolled b w))
  unfolding file_turn take_block
  block_turn b w on = simp (take_block, on) refl

  is_full-false :
      (b : MemBlock) (w : FileWriter) (f : StoreFile)
      → w.current ≡ some f
      → w.value_len ≤ most
      → length b.values ≤ page
      → is_full sum32 disk_write disk_close make interval file_cap writers clearers w b ≡ false
      → w.value_len + length b.values ≤ most
  is_full-false b w f e long fits room =
      let tests : (leb file_cap ((w.toc_len + length b.toc) % 2 ^ 64)
            || ltb file_cap ((w.value_len + length b.values) % 2 ^ 64))
          ≡ false =
        simp (is_full, e) at room in
      ground (arith, tests, caps, pages, small)

  after_roll :
      (b : MemBlock) (w y : FileWriter)
      → rolled b w ≡ y
      → Takes b w (
          write_block sum32 disk_write disk_close make interval file_cap writers clearers b
            (open_file sum32 disk_write disk_close make interval file_cap writers clearers y))
      → Takes b w (
          write_block sum32 disk_write disk_close make interval file_cap writers clearers b (
            open_file sum32 disk_write disk_close make interval file_cap writers clearers
              (rolled b w)))
  after_roll b w y e =
      subst
        (λ v. Takes b w (
          write_block sum32 disk_write disk_close make interval file_cap writers clearers b
            (open_file sum32 disk_write disk_close make interval file_cap writers clearers v)))
        (sym e)

  pub block-Takes :
      (b : MemBlock) (w : FileWriter)
      → length b.values ≤ page
      → IsGood w
      → Takes b w
          (file_turn sum32 disk_write disk_close make interval file_cap writers clearers (file b) w)
  unfolding open_file
  block-Takes b w fits good =
      let taken : Takes b w (
          write_block sum32 disk_write disk_close make interval file_cap writers clearers b (
            open_file sum32 disk_write disk_close make interval file_cap writers clearers
              (rolled b w))) =
        elim (Option-cases w.current) [
          | inl e ↦
              let same : rolled b w ≡ w = simp (is_full, e) refl in
              after_roll b w w same (
                opened-Takes b w w fits e good
                  (sym (append-nil (bodies w.finished))
                    ∙ ap (λ o. bodies w.finished ++ current_body o) (sym e))
                  (refl, refl))
          | inr (f, e) ↦
              elim (Bool-cases
                (is_full sum32 disk_write disk_close make interval file_cap writers clearers w b)) [
                  | inl full ↦
                      let (y, closed, none_left, good', all, alike) =
                        close_current-IsGood w w.current refl good in
                      after_roll b w y (simp full closed)
                        (opened-Takes b w y fits none_left good' all alike)
                  | inr room ↦
                      let same : rolled b w ≡ w = simp room refl in
                      let is : IsCurrent interval most w.value_len (some f) =
                        subst (IsCurrent interval most w.value_len) e good.0 in
                      let open_still : open_file sum32 disk_write disk_close make interval file_cap
                            writers clearers w
                          ≡ w =
                        simp (open_file, e) refl in
                      after_roll b w w same (
                        subst
                          (λ v. Takes b w (
                            write_block sum32 disk_write disk_close make interval file_cap writers
                              clearers b v))
                          (sym open_still)
                          (write_block-Takes b w f fits (e, is_full-false b w f e is.4 fits room)
                            good))
                ]
        ] in
      subst (Takes b w) (sym (block_turn b w good.2)) taken
