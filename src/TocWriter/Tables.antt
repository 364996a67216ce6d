-- ===== src/TocWriter/Tables.antt =====
-- valuestore_GEN_.go, tocWriter: the tables of contents as lists of entries' bytes, by timestamp,
-- of which at most two are open; rounds in which nothing fails.
use mathlib.Core.Path.{ap₂}
use valuestore.Base.{
  ℕ, suc, ◌+◌, ◌%◌, ◌^◌, ◌<◌, ◌≡◌, ◌≢◌, refl, ap, ◌∙◌, Bool, true, false, List, [], ◌∷◌, ◌++◌,
  Option, none, some, inl, inr, arith, Bool-cases, append_assoc, leb, ◌==◌, if◌then◌else◌, length,
  drop, map, All,
}
use valuestore.Base.Bytes.{Bytes, get_word}
use valuestore.Toc.Frames.{head, term}
use valuestore.TocWriter.{
  TocFile, TocWriter, TocTurn, running, append_to, close_file, truncate, seal, take_block,
}
use valuestore.TocWriter.Files.{
  modify-append_over, modify-append_front, modify-append_last, length-snoc,
}

-- The timestamp of a table and the bytes of its entries.
abbrev pub Table : Type 0
Table = ℕ × Bytes

-- The tables that are closed, and those that are open, the newest last.
pub data Tables : Type 0 where
  idle : List Table → Tables
  one : List Table → Table → Tables
  two : List Table → Table → Table → Tables

-- A block goes to the table of its timestamp, or to a new one, for which the oldest of two is
-- closed.
abbrev pub take_in : Table → Tables → Tables
take_in (t, x) (idle c) = one c (t, x)
take_in (t, x) (one c (ta, xa)) = if t == ta then one c (ta, xa ++ x) else two c (ta, xa) (t, x)
take_in (t, x) (two c (tb, xb) (ta, xa)) =
    if t == ta
    then two c (tb, xb) (ta, xa ++ x)
    else if t == tb
    then two c (tb, xb ++ x) (ta, xa)
    else two (c ++ (tb, xb) ∷ []) (ta, xa) (t, x)

abbrev pub close_all : Tables → List Table
close_all (idle c) = c
close_all (one c a) = c ++ a ∷ []
close_all (two c b a) = (c ++ b ∷ []) ++ a ∷ []

abbrev pub closed : Tables → List Table
closed (idle c) = c
closed (one c a) = c
closed (two c b a) = c

-- No table of the timestamp is closed.
abbrev pub IsNew : ℕ → List Table → Type 0
IsNew t = All (λ p. p.0 ≢ t)

-- What of the writer's state the tables leave open.
pub record Rest : Type 0 where
  pub offset_a : ℕ
  pub offset_b : ℕ
  pub flush_left : ℕ
  pub shutdown_left : ℕ
  pub freed : List Bytes
  pub flushed : ℕ

module _ (interval : ℕ) where
  abbrev opened : Table → TocFile
  opened (t, x) = record { stamp = t; content = head interval ++ x; closed = false }

  abbrev pub sealed : Table → TocFile
  sealed (t, x) = record {
    stamp = t;
    content = (head interval ++ x) ++ term interval;
    closed = true;
  }

  abbrev pub state_of : List TocFile → Option ℕ → Option ℕ → ℕ → ℕ → Rest → TocWriter
  state_of files a b active_a active_b x = record {
    files = files;
    writer_a = a;
    writer_b = b;
    active_a = active_a;
    active_b = active_b;
    offset_a = x.offset_a;
    offset_b = x.offset_b;
    flush_left = x.flush_left;
    shutdown_left = x.shutdown_left;
    disabled = false;
    freed = x.freed;
    flushed = x.flushed;
  }

  -- The state of the writer that has these tables.
  abbrev pub writer_of : Tables → Rest → TocWriter
  writer_of (idle c) = state_of (map sealed c) none none 0 0
  writer_of (one c a) =
      state_of (map sealed c ++ opened a ∷ []) (some (length (map sealed c))) none a.0 0
  writer_of (two c b a) =
      state_of ((map sealed c ++ opened b ∷ []) ++ opened a ∷ [])
        (some (suc (length (map sealed c)))) (some (length (map sealed c))) a.0 b.0

  abbrev pub Becomes : TocTurn → Tables → Rest → Type 0
  Becomes turn tables x =
      (y : Rest) × (turn ≡ running (writer_of tables y))
      × (y.flush_left ≡ x.flush_left)
      × (y.flushed ≡ x.flushed)

  truncate-opened :
      (t s : ℕ) (x : Bytes) → (t == s) ≡ false → truncate t (opened (s, x)) ≡ opened (s, x)
  truncate-opened t s x apart =
      let other : (s == t) ≡ false = ground (arith, apart) in simp other refl

  truncate-sealed : (t s : ℕ) (x : Bytes) → s ≢ t → truncate t (sealed (s, x)) ≡ sealed (s, x)
  truncate-sealed t s x apart =
      let other : (s == t) ≡ false = ground (arith, apart) in simp other refl

  -- A new timestamp's file takes nothing away.
  truncate-map :
      (t : ℕ) (c : List Table) → IsNew t c → map (truncate t) (map sealed c) ≡ map sealed c
  truncate-map t [] new = refl
  truncate-map t ((s, x) ∷ c) (apart, new) =
      ap₂ (λ f fs. f ∷ fs) (truncate-sealed t s x apart) (truncate-map t c new)

  map_truncate-append :
      (t : ℕ) (xs ys : List TocFile)
      → map (truncate t) (xs ++ ys) ≡ map (truncate t) xs ++ map (truncate t) ys
  map_truncate-append t [] ys = refl
  map_truncate-append t (x ∷ xs) ys = ap (◌∷◌ (truncate t x)) (map_truncate-append t xs ys)

  truncate_one :
      (t : ℕ) (c : List Table) (a : Table)
      → IsNew t c
      → (t == a.0) ≡ false
      → map (truncate t) (map sealed c ++ opened a ∷ []) ≡ map sealed c ++ opened a ∷ []
  truncate_one t c (s, x) new apart =
      map_truncate-append t (map sealed c) (opened (s, x) ∷ [])
      ∙ ap₂ (λ fs f. fs ++ f ∷ []) (truncate-map t c new) (truncate-opened t s x apart)

  truncate_two :
      (t : ℕ) (c : List Table) (b : Table) (a : Table)
      → IsNew t c
      → (t == b.0) ≡ false
      → (t == a.0) ≡ false
      → map (truncate t) (
          (map sealed c ++ close_file (append_to (term interval) (opened b)) ∷ []) ++ opened a ∷ [])
        ≡ (map sealed c ++ close_file (append_to (term interval) (opened b)) ∷ []) ++ opened a ∷ []
  truncate_two t c (u, y) (s, x) new apart_b apart_a =
      map_truncate-append t (map sealed c ++ sealed (u, y) ∷ []) (opened (s, x) ∷ [])
      ∙ ap₂ (λ fs f. fs ++ f ∷ [])
          (map_truncate-append t (map sealed c) (sealed (u, y) ∷ [])
            ∙ ap₂ (λ fs f. fs ++ f ∷ []) (truncate-map t c new)
                (truncate-sealed t u y
                  (λ e. let same : (t == u) ≡ true = ground (arith, e) in absurd cc)))
          (truncate-opened t s x apart_a)

  pub map-snoc :
      (c : List Table) (b : Table) → map sealed (c ++ b ∷ []) ≡ map sealed c ++ sealed b ∷ []
  map-snoc [] b = refl
  map-snoc (x ∷ c) b = ap (◌∷◌ (sealed x)) (map-snoc c b)

  append_to-opened : (t : ℕ) (x b : Bytes) → append_to b (opened (t, x)) ≡ opened (t, x ++ b)
  append_to-opened t x b =
      λ i. record { stamp = t; content = append_assoc (head interval) x b i; closed = false }

  module _ (clearers : ℕ) (fails : ℕ → Bool) (fine : (n : ℕ) → fails n ≡ false) where
    pub take_idle :
        (c : List Table) (x : Rest) (t : Bytes)
        → 8 < length t
        → get_word 8 0 t ≢ 0
        → IsNew (get_word 8 0 t) c
        → Becomes
            (take_block interval clearers fails t (writer_of (idle c) x))
            (take_in (get_word 8 0 t, drop 8 t) (idle c))
            x
    unfolding take_block
    take_idle c x t long stamped new =
        let enough : leb (length t) 8 ≡ false = ground (arith, long) in
        let other : (get_word 8 0 t == 0) ≡ false = ground (arith, stamped) in
        (
          record x {
            offset_a = (32 + length (drop 8 t)) % 2 ^ 64;
            offset_b = x.offset_a;
            freed = x.freed ++ t ∷ [];
          },
          simp (take_block, enough, other, fine 9, fine 10, fine 11)
              (simp (truncate-map (get_word 8 0 t) c new) (simp modify-append_over refl)),
          refl,
          refl,
        )

    pub take_one :
        (c : List Table) (a : Table) (x : Rest) (t : Bytes)
        → 8 < length t
        → get_word 8 0 t ≢ 0
        → IsNew (get_word 8 0 t) c
        → Becomes
            (take_block interval clearers fails t (writer_of (one c a) x))
            (take_in (get_word 8 0 t, drop 8 t) (one c a))
            x
    unfolding take_block
    take_one c (ta, xa) x t long stamped new =
        let enough : leb (length t) 8 ≡ false = ground (arith, long) in
        let other : (get_word 8 0 t == 0) ≡ false = ground (arith, stamped) in
        elim (Bool-cases (get_word 8 0 t == ta)) [
          | inl same ↦ (
            record x {
              offset_a = (x.offset_a + length (drop 8 t)) % 2 ^ 64;
              freed = x.freed ++ t ∷ [];
            },
            simp (take_block, enough, same, fine 5, modify-append_over)
                (ap
                  (λ (f : TocFile). running (
                    state_of (map sealed c ++ f ∷ []) (some (length (map sealed c))) none ta 0
                      (record x {
                        offset_a = (x.offset_a + length (drop 8 t)) % 2 ^ 64;
                        freed = x.freed ++ t ∷ [];
                      })))
                  (append_to-opened ta xa (drop 8 t))),
            refl,
            refl,
          )
          | inr apart ↦ (
            record x {
              offset_a = (32 + length (drop 8 t)) % 2 ^ 64;
              offset_b = x.offset_a;
              freed = x.freed ++ t ∷ [];
            },
            simp (take_block, enough, apart, other, fine 9, fine 10, fine 11)
                (simp (truncate_one (get_word 8 0 t) c (ta, xa) new apart)
                  (simp modify-append_over (simp length-snoc refl))),
            refl,
            refl,
          )
        ]

    pub take_two :
        (c : List Table) (b a : Table) (x : Rest) (t : Bytes)
        → 8 < length t
        → get_word 8 0 t ≢ 0
        → IsNew (get_word 8 0 t) c
        → Becomes
            (take_block interval clearers fails t (writer_of (two c b a) x))
            (take_in (get_word 8 0 t, drop 8 t) (two c b a))
            x
    unfolding take_block seal
    take_two c (tb, xb) (ta, xa) x t long stamped new =
        let enough : leb (length t) 8 ≡ false = ground (arith, long) in
        elim (Bool-cases (get_word 8 0 t == ta)) [
          | inl same ↦ (
            record x {
              offset_a = (x.offset_a + length (drop 8 t)) % 2 ^ 64;
              freed = x.freed ++ t ∷ [];
            },
            simp (take_block, enough, same, fine 5, modify-append_last)
                (ap
                  (λ (f : TocFile). running (
                    state_of ((map sealed c ++ opened (tb, xb) ∷ []) ++ f ∷ [])
                      (some (suc (length (map sealed c)))) (some (length (map sealed c))) ta tb
                      (record x {
                        offset_a = (x.offset_a + length (drop 8 t)) % 2 ^ 64;
                        freed = x.freed ++ t ∷ [];
                      })))
                  (append_to-opened ta xa (drop 8 t))),
            refl,
            refl,
          )
          | inr apart ↦ elim (Bool-cases (get_word 8 0 t == tb)) [
            | inl late ↦ (
              record x {
                offset_b = (x.offset_b + length (drop 8 t)) % 2 ^ 64;
                freed = x.freed ++ t ∷ [];
              },
              simp (take_block, enough, apart, late, fine 6, modify-append_front)
                  (ap
                    (λ (f : TocFile). running (
                      state_of ((map sealed c ++ f ∷ []) ++ opened (ta, xa) ∷ [])
                        (some (suc (length (map sealed c)))) (some (length (map sealed c))) ta tb
                        (record x {
                          offset_b = (x.offset_b + length (drop 8 t)) % 2 ^ 64;
                          freed = x.freed ++ t ∷ [];
                        })))
                    (append_to-opened tb xb (drop 8 t))),
              refl,
              refl,
            )
            | inr late ↦ (
              record x {
                offset_a = (32 + length (drop 8 t)) % 2 ^ 64;
                offset_b = x.offset_a;
                freed = x.freed ++ t ∷ [];
              },
              simp (take_block, seal, enough, apart, late, fine 7, fine 8, fine 9, fine 10, fine 11)
                  (simp (modify-append_front) (
                    simp (truncate_two (get_word 8 0 t) c (tb, xb) (ta, xa) new late apart)
                      (simp modify-append_over (simp (map-snoc, length-snoc) refl)))),
              refl,
              refl,
            )
          ]
        ]
