-- ===== src/TocWriter/Order.antt =====
-- valuestore_GEN_.go, tocWriter: the order of the entries of a timestamp over the tables.
use mathlib.Core.Path.{subst}
use valuestore.Base.{
  ℕ, ◌<◌, ◌≡◌, ◌≢◌, refl, sym, ap, ◌∙◌, true, false, List, [], ◌∷◌, ◌++◌, inl, inr, arith,
  Bool-cases, append_assoc, append-nil, ◌==◌, if◌then◌else◌, length, drop, map,
}
use valuestore.Base.Bytes.{Bytes, get_word}
use valuestore.TocWriter.Tables.{Table, Tables, idle, one, two, take_in, close_all, closed, IsNew}

-- The timestamp of a block, and its entries.
abbrev pub parts : Bytes → Table
parts t = (get_word 8 0 t, drop 8 t)

abbrev pub IsStamped : Bytes → Type 0
IsStamped t = (8 < length t) × (get_word 8 0 t ≢ 0)

abbrev pub bytes_of : ℕ → List Table → Bytes
bytes_of s [] = []
bytes_of s ((t, x) ∷ more) = (if t == s then x else []) ++ bytes_of s more

abbrev pub take_ins : List Bytes → Tables → Tables
take_ins [] tables = tables
take_ins (t ∷ ts) tables = take_ins ts (take_in (parts t) tables)

bytes_of-append :
    (s : ℕ) (xs ys : List Table) → bytes_of s (xs ++ ys) ≡ bytes_of s xs ++ bytes_of s ys
bytes_of-append s [] ys = refl
bytes_of-append s ((t, x) ∷ xs) ys =
    ap ((if t == s then x else []) ++◌) (bytes_of-append s xs ys)
    ∙ sym (append_assoc (if t == s then x else []) (bytes_of s xs) (bytes_of s ys))

same_stamp : (t s : ℕ) → (t == s) ≡ true → t ≡ s
same_stamp t s e = ground (arith, e)

bytes_of-under :
    (s : ℕ) (xs ys zs : List Table)
    → bytes_of s ys ≡ bytes_of s zs
    → bytes_of s (xs ++ ys) ≡ bytes_of s (xs ++ zs)
bytes_of-under s xs ys zs e =
    bytes_of-append s xs ys ∙ ap (bytes_of s xs ++◌) e ∙ sym (bytes_of-append s xs zs)

-- More for the newest of the tables.
bytes_of-newest :
    (s : ℕ) (c : List Table) (t : ℕ) (xa x : Bytes)
    → bytes_of s (c ++ (t, xa ++ x) ∷ []) ≡ bytes_of s ((c ++ (t, xa) ∷ []) ++ (t, x) ∷ [])
bytes_of-newest s c t xa x =
    let joined : bytes_of s ((t, xa ++ x) ∷ []) ≡ bytes_of s ((t, xa) ∷ (t, x) ∷ []) =
      elim (Bool-cases (t == s)) [ inl e ↦ simp e (append_assoc xa x []) | inr e ↦ simp e refl ] in
    bytes_of-under s c ((t, xa ++ x) ∷ []) ((t, xa) ∷ (t, x) ∷ []) joined
    ∙ ap (bytes_of s) (sym (append_assoc c ((t, xa) ∷ []) ((t, x) ∷ [])))

-- More for the older of two tables, which the newer one has another timestamp than.
bytes_of-late :
    (s : ℕ) (c : List Table) (t : ℕ) (xb : Bytes) (a : Table) (x : Bytes)
    → (t == a.0) ≡ false
    → bytes_of s ((c ++ (t, xb ++ x) ∷ []) ++ a ∷ [])
      ≡ bytes_of s (((c ++ (t, xb) ∷ []) ++ a ∷ []) ++ (t, x) ∷ [])
bytes_of-late s c t xb (ta, xa) x apart =
    let joined : bytes_of s ((t, xb ++ x) ∷ (ta, xa) ∷ [])
        ≡ bytes_of s ((t, xb) ∷ (ta, xa) ∷ (t, x) ∷ []) =
      elim (Bool-cases (t == s)) [
        | inl e ↦
            let other : (ta == s) ≡ false = ground (arith, e, apart) in
            simp (e, other) (append_assoc xb x [])
        | inr e ↦ simp e refl
      ] in
    ap (bytes_of s) (append_assoc c ((t, xb ++ x) ∷ []) ((ta, xa) ∷ []))
    ∙ bytes_of-under s c ((t, xb ++ x) ∷ (ta, xa) ∷ []) ((t, xb) ∷ (ta, xa) ∷ (t, x) ∷ []) joined
    ∙ ap (bytes_of s) (
        sym (
          append_assoc (c ++ (t, xb) ∷ []) ((ta, xa) ∷ []) ((t, x) ∷ [])
          ∙ append_assoc c ((t, xb) ∷ []) ((ta, xa) ∷ (t, x) ∷ [])))

bytes_of-take_in :
    (s : ℕ) (tables : Tables) (b : Table)
    → bytes_of s (close_all (take_in b tables)) ≡ bytes_of s (close_all tables ++ b ∷ [])
bytes_of-take_in s (idle c) (t, x) = refl
bytes_of-take_in s (one c (ta, xa)) (t, x) = elim (Bool-cases (t == ta)) [
  | inl e ↦ simp e (
      bytes_of-newest s c ta xa x
      ∙ ap (λ u. bytes_of s ((c ++ (ta, xa) ∷ []) ++ (u, x) ∷ [])) (sym (same_stamp t ta e)))
  | inr e ↦ simp e refl
]
bytes_of-take_in s (two c (tb, xb) (ta, xa)) (t, x) = elim (Bool-cases (t == ta)) [
  | inl e ↦ simp e (
      bytes_of-newest s (c ++ (tb, xb) ∷ []) ta xa x
      ∙ ap (λ u. bytes_of s (((c ++ (tb, xb) ∷ []) ++ (ta, xa) ∷ []) ++ (u, x) ∷ []))
          (sym (same_stamp t ta e)))
  | inr apart ↦ elim (Bool-cases (t == tb)) [
    | inl e ↦
        let old = same_stamp t tb e in
        simp (apart, e)
          (bytes_of-late s c tb xb (ta, xa) x (subst (λ u. (u == ta) ≡ false) old apart)
            ∙ ap (λ u. bytes_of s (((c ++ (tb, xb) ∷ []) ++ (ta, xa) ∷ []) ++ (u, x) ∷ []))
                (sym old))
    | inr e ↦ simp (apart, e) refl
  ]
]

pub bytes_of-take_ins :
    (s : ℕ) (ts : List Bytes) (tables : Tables)
    → bytes_of s (close_all (take_ins ts tables)) ≡ bytes_of s (close_all tables ++ map parts ts)
bytes_of-take_ins s [] tables = ap (bytes_of s) (sym (append-nil (close_all tables)))
bytes_of-take_ins s (t ∷ ts) tables =
    bytes_of-take_ins s ts (take_in (parts t) tables)
    ∙ bytes_of-append s (close_all (take_in (parts t) tables)) (map parts ts)
    ∙ ap (◌++ bytes_of s (map parts ts)) (bytes_of-take_in s tables (parts t))
    ∙ sym (bytes_of-append s (close_all tables ++ parts t ∷ []) (map parts ts))
    ∙ ap (bytes_of s) (append_assoc (close_all tables) (parts t ∷ []) (map parts ts))

-- No block comes for a table that is closed, which is one that two others were begun behind.
abbrev pub IsTimely : List Bytes → Tables → Type 0
IsTimely [] tables = Unit {0}
IsTimely (t ∷ ts) tables =
    IsNew (parts t).0 (closed tables) × IsTimely ts (take_in (parts t) tables)

-- Each timestamp is that of one table.
abbrev pub AreApart : List Table → Type 0
AreApart [] = Unit {0}
AreApart ((t, x) ∷ c) = IsNew t c × AreApart c

IsNew-snoc :
    (s : ℕ) (c : List Table) (t : ℕ) (x : Bytes) → IsNew s c → t ≢ s → IsNew s (c ++ (t, x) ∷ [])
IsNew-snoc s [] t x new apart = (apart, tt)
IsNew-snoc s (p ∷ c) t x (own, new) apart = (own, IsNew-snoc s c t x new apart)

AreApart-snoc :
    (c : List Table) (t : ℕ) (x : Bytes) → AreApart c → IsNew t c → AreApart (c ++ (t, x) ∷ [])
AreApart-snoc [] t x all new = (tt, tt)
AreApart-snoc ((s, y) ∷ c) t x (own, all) (apart, new) =
    (IsNew-snoc s c t x own (λ e. apart (sym e)), AreApart-snoc c t x all new)

-- More for a table.
IsNew-more :
    (s : ℕ) (c : List Table) (t : ℕ) (x y : Bytes) (d : List Table)
    → IsNew s (c ++ (t, x) ∷ d)
    → IsNew s (c ++ (t, y) ∷ d)
IsNew-more s [] t x y d new = new
IsNew-more s (p ∷ c) t x y d (own, new) = (own, IsNew-more s c t x y d new)

AreApart-more :
    (c : List Table) (t : ℕ) (x y : Bytes) (d : List Table)
    → AreApart (c ++ (t, x) ∷ d)
    → AreApart (c ++ (t, y) ∷ d)
AreApart-more [] t x y d all = all
AreApart-more ((s, z) ∷ c) t x y d (own, all) =
    (IsNew-more s c t x y d own, AreApart-more c t x y d all)

other_stamp : (t s : ℕ) → (t == s) ≡ false → s ≢ t
other_stamp t s apart e = let same : (t == s) ≡ true = ground (arith, e) in absurd cc

AreApart-take_in :
    (tables : Tables) (t : ℕ) (x : Bytes)
    → IsNew t (closed tables)
    → AreApart (close_all tables)
    → AreApart (close_all (take_in (t, x) tables))
AreApart-take_in (idle c) t x new all = AreApart-snoc c t x all new
AreApart-take_in (one c (ta, xa)) t x new all = elim (Bool-cases (t == ta)) [
  | inl e ↦ simp e (AreApart-more c ta xa (xa ++ x) [] all)
  | inr e ↦
      simp e
        (AreApart-snoc (c ++ (ta, xa) ∷ []) t x all (IsNew-snoc t c ta xa new (other_stamp t ta e)))
]
AreApart-take_in (two c (tb, xb) (ta, xa)) t x new all = elim (Bool-cases (t == ta)) [
  | inl e ↦ simp e (AreApart-more (c ++ (tb, xb) ∷ []) ta xa (xa ++ x) [] all)
  | inr apart ↦ elim (Bool-cases (t == tb)) [
    | inl e ↦
        simp (apart, e)
          (subst AreApart (sym (append_assoc c ((tb, xb ++ x) ∷ []) ((ta, xa) ∷ []))) (
            AreApart-more c tb xb (xb ++ x) ((ta, xa) ∷ [])
              (subst AreApart (append_assoc c ((tb, xb) ∷ []) ((ta, xa) ∷ [])) all)))
    | inr e ↦
        simp (apart, e)
          (AreApart-snoc ((c ++ (tb, xb) ∷ []) ++ (ta, xa) ∷ []) t x all (
            IsNew-snoc t (c ++ (tb, xb) ∷ []) ta xa (IsNew-snoc t c tb xb new (other_stamp t tb e))
              (other_stamp t ta apart)))
  ]
]

pub AreApart-take_ins :
    (ts : List Bytes) (tables : Tables)
    → IsTimely ts tables
    → AreApart (close_all tables)
    → AreApart (close_all (take_ins ts tables))
AreApart-take_ins [] tables timely all = all
AreApart-take_ins (t ∷ ts) tables (new, timely) all =
    AreApart-take_ins ts (take_in (parts t) tables) timely
      (AreApart-take_in tables (parts t).0 (parts t).1 new all)
