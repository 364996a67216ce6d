-- ===== src/Base/Lists.antt =====
-- Lists measured and indexed by native numbers, under the library's names.
use Prim.Native.Nat.{ℕ, zero, suc, ◌+◌, ◌-◌, ◌<◌, ◌≤◌, min}
use mathlib.Core.Path.{◌≡◌, refl, ap, subst}
use mathlib.Core.Logic.{◌≢◌}
use mathlib.Core.List.{List, [], ◌∷◌, ◌++◌}
use mathlib.Core.Option.{Option, none, some}
use native.Mathlib.Omega.{arith}

module _ {ℓ} {A : Type ℓ} where
  abbrev pub length : List A → ℕ
  length [] = 0
  length (x ∷ xs) = suc (length xs)

  abbrev pub get_elem? : List A → ℕ → Option A
  get_elem? [] i = none
  get_elem? (x ∷ xs) zero = some x
  get_elem? (x ∷ xs) (suc i) = get_elem? xs i

  abbrev pub get_or : List A → ℕ → A → A
  get_or [] i d = d
  get_or (x ∷ xs) zero d = x
  get_or (x ∷ xs) (suc i) d = get_or xs i d

  -- A write out of bounds changes nothing.
  abbrev pub set : List A → ℕ → A → List A
  set [] i v = []
  set (x ∷ xs) zero v = v ∷ xs
  set (x ∷ xs) (suc i) v = x ∷ set xs i v

  abbrev pub take : ℕ → List A → List A
  take zero xs = []
  take (suc n) [] = []
  take (suc n) (x ∷ xs) = x ∷ take n xs

  abbrev pub drop : ℕ → List A → List A
  drop zero xs = xs
  drop (suc n) [] = []
  drop (suc n) (x ∷ xs) = drop n xs

  abbrev pub replicate : ℕ → A → List A
  replicate zero a = []
  replicate (suc n) a = a ∷ replicate n a

  abbrev pub All {κ} : (A → Type κ) → List A → Type κ
  All P [] = Unit {κ}
  All P (x ∷ xs) = P x × All P xs

  pub length-append : (xs ys : List A) → length (xs ++ ys) ≡ length xs + length ys
  length-append [] ys = omega arith
  length-append (x ∷ xs) ys = omega (arith, length-append xs ys)

  pub length-set : (xs : List A) (i : ℕ) (v : A) → length (set xs i v) ≡ length xs
  length-set [] i v = refl
  length-set (x ∷ xs) zero v = refl
  length-set (x ∷ xs) (suc i) v = ap suc (length-set xs i v)

  pub length-take : (n : ℕ) (xs : List A) → length (take n xs) ≡ min n (length xs)
  length-take zero xs = omega arith
  length-take (suc n) [] = omega arith
  length-take (suc n) (x ∷ xs) = omega (arith, length-take n xs)

  pub length-drop : (n : ℕ) (xs : List A) → length (drop n xs) ≡ length xs - n
  length-drop zero xs = omega arith
  length-drop (suc n) [] = omega arith
  length-drop (suc n) (x ∷ xs) = omega (arith, length-drop n xs)

  pub length-replicate : (n : ℕ) (a : A) → length (replicate n a) ≡ n
  length-replicate zero a = refl
  length-replicate (suc n) a = ap suc (length-replicate n a)

  pub take-append-drop : (n : ℕ) (xs : List A) → take n xs ++ drop n xs ≡ xs
  take-append-drop zero xs = refl
  take-append-drop (suc n) [] = refl
  take-append-drop (suc n) (x ∷ xs) = ap (◌∷◌ x) (take-append-drop n xs)

  -- A prefix of known length is taken and dropped whole.
  pub take-append_self : (n : ℕ) (xs ys : List A) → length xs ≡ n → take n (xs ++ ys) ≡ xs
  take-append_self zero [] ys h = refl
  take-append_self zero (x ∷ xs) ys h = absurd (omega arith)
  take-append_self (suc n) [] ys h = absurd (omega arith)
  take-append_self (suc n) (x ∷ xs) ys h = ap (◌∷◌ x) (take-append_self n xs ys (omega arith))

  pub drop-append_self : (n : ℕ) (xs ys : List A) → length xs ≡ n → drop n (xs ++ ys) ≡ ys
  drop-append_self zero [] ys h = refl
  drop-append_self zero (x ∷ xs) ys h = absurd (omega arith)
  drop-append_self (suc n) [] ys h = absurd (omega arith)
  drop-append_self (suc n) (x ∷ xs) ys h = drop-append_self n xs ys (omega arith)

  pub get_or-set :
      (xs : List A) (i j : ℕ) (v d : A)
      → i < length xs
      → (i ≡ j → get_or (set xs i v) j d ≡ v) × (i ≢ j → get_or (set xs i v) j d ≡ get_or xs j d)
  get_or-set [] i j v d h = absurd (omega arith)
  get_or-set (x ∷ xs) zero zero v d h = (λ e. refl, λ ne. absurd (ne refl))
  get_or-set (x ∷ xs) zero (suc j) v d h = (λ e. absurd (omega arith), λ ne. refl)
  get_or-set (x ∷ xs) (suc i) zero v d h = (λ e. absurd (omega arith), λ ne. refl)
  get_or-set (x ∷ xs) (suc i) (suc j) v d h =
      let ih = get_or-set xs i j v d (omega arith) in
      (λ e. ih.0 (omega arith), λ ne. ih.1 (λ e. ne (ap suc e)))

  -- Two drops in a row.
  pub drop-drop : (p m n : ℕ) (xs : List A) → m + n ≡ p → drop n (drop m xs) ≡ drop p xs
  drop-drop p zero n xs h = let e : n ≡ p = omega arith in rw e
  drop-drop zero (suc m) n xs h = absurd (omega arith)
  drop-drop (suc p) (suc m) zero [] h = refl
  drop-drop (suc p) (suc m) (suc n) [] h = refl
  drop-drop (suc p) (suc m) n (x ∷ xs) h = drop-drop p m n xs (omega arith)

  pub drop-take_self : (n : ℕ) (xs : List A) → drop n (take n xs) ≡ []
  drop-take_self zero xs = refl
  drop-take_self (suc n) [] = refl
  drop-take_self (suc n) (x ∷ xs) = drop-take_self n xs

  pub get_elem?-set :
      (xs : List A) (i : ℕ) (a v : A) → get_elem? xs i ≡ some a → get_elem? (set xs i v) i ≡ some v
  get_elem?-set [] i a v h = absurd (cc)
  get_elem?-set (x ∷ xs) zero a v h = refl
  get_elem?-set (x ∷ xs) (suc i) a v h = get_elem?-set xs i a v h

  pub take_self : (n : ℕ) (xs : List A) → length xs ≡ n → take n xs ≡ xs
  take_self zero [] h = refl
  take_self zero (x ∷ xs) h = absurd (omega arith)
  take_self (suc n) [] h = absurd (omega arith)
  take_self (suc n) (x ∷ xs) h = ap (◌∷◌ x) (take_self n xs (omega arith))

  -- Writing what is there changes nothing.
  pub set-get_elem? : (xs : List A) (i : ℕ) (v : A) → get_elem? xs i ≡ some v → set xs i v ≡ xs
  set-get_elem? [] i v h = refl
  set-get_elem? (x ∷ xs) zero v h = let e : v ≡ x = cc in rw e refl
  set-get_elem? (x ∷ xs) (suc i) v h = ap (◌∷◌ x) (set-get_elem? xs i v h)

  pub get_elem?-get_or :
      (xs : List A) (i : ℕ) (d : A) → i < length xs → get_elem? xs i ≡ some (get_or xs i d)
  get_elem?-get_or [] i d h = absurd (omega arith)
  get_elem?-get_or (x ∷ xs) zero d h = refl
  get_elem?-get_or (x ∷ xs) (suc i) d h = get_elem?-get_or xs i d (omega arith)

  pub get_elem?-set_ne :
      (xs : List A) (i j : ℕ) (v : A) → j ≢ i → get_elem? (set xs i v) j ≡ get_elem? xs j
  get_elem?-set_ne [] i j v ne = refl
  get_elem?-set_ne (x ∷ xs) zero zero v ne = absurd (ne refl)
  get_elem?-set_ne (x ∷ xs) zero (suc j) v ne = refl
  get_elem?-set_ne (x ∷ xs) (suc i) zero v ne = refl
  get_elem?-set_ne (x ∷ xs) (suc i) (suc j) v ne = get_elem?-set_ne xs i j v (λ e. ne (ap suc e))

  pub All-get_elem? {κ} :
      (P : A → Type κ) (xs : List A) (i : ℕ) (v : A) → All P xs → get_elem? xs i ≡ some v → P v
  All-get_elem? P [] i v all h = absurd (cc)
  All-get_elem? P (x ∷ xs) zero v (px, all) h = let e : x ≡ v = cc in subst P e px
  All-get_elem? P (x ∷ xs) (suc i) v (px, all) h = All-get_elem? P xs i v all h

  pub All-set {κ} :
      (P : A → Type κ) (xs : List A) (i : ℕ) (v : A) → All P xs → P v → All P (set xs i v)
  All-set P [] i v all pv = tt
  All-set P (x ∷ xs) zero v (px, all) pv = (pv, all)
  All-set P (x ∷ xs) (suc i) v (px, all) pv = (px, All-set P xs i v all pv)

  -- A part of the front.
  pub take-drop-take :
      (n o m : ℕ) (xs : List A) → o + n ≤ m → take n (drop o (take m xs)) ≡ take n (drop o xs)
  take-drop-take zero o m xs h = refl
  take-drop-take (suc n) o zero xs h = absurd (omega arith)
  take-drop-take (suc n) zero (suc m) [] h = refl
  take-drop-take (suc n) zero (suc m) (x ∷ xs) h =
      ap (◌∷◌ x) (take-drop-take n zero m xs (omega arith))
  take-drop-take (suc n) (suc o) (suc m) [] h = refl
  take-drop-take (suc n) (suc o) (suc m) (x ∷ xs) h = take-drop-take (suc n) o m xs (omega arith)

  pub All-append {κ} : (P : A → Type κ) (xs ys : List A) → All P xs → All P ys → All P (xs ++ ys)
  All-append P [] ys h k = k
  All-append P (x ∷ xs) ys h k = (h.0, All-append P xs ys h.1 k)

  pub All-split {κ} : (P : A → Type κ) (xs ys : List A) → All P (xs ++ ys) → All P xs × All P ys
  All-split P [] ys h = (tt, h)
  All-split P (x ∷ xs) ys h = let (a, b) = All-split P xs ys h.1 in ((h.0, a), b)

  pub All-map {κ μ} :
      (P : A → Type κ) (Q : A → Type μ) (xs : List A) → ((x : A) → P x → Q x) → All P xs → All Q xs
  All-map P Q [] f h = tt
  All-map P Q (x ∷ xs) f h = (f x h.0, All-map P Q xs f h.1)
