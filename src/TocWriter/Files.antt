-- ===== src/TocWriter/Files.antt =====
-- valuestore_GEN_.go, tocWriter: which file of a list `modify` reaches.
use valuestore.Base.{suc, ◌≡◌, refl, ap, List, [], ◌∷◌, ◌++◌, length}
use valuestore.TocWriter.{modify}

pub modify-append_over :
    {A : Type 0} (f : A → A) (xs : List A) (y : A) (ys : List A)
    → modify f (xs ++ y ∷ ys) (length xs) ≡ xs ++ f y ∷ ys
modify-append_over f [] y ys = refl
modify-append_over f (x ∷ xs) y ys = ap (◌∷◌ x) (modify-append_over f xs y ys)

pub modify-append_front :
    {A : Type 0} (f : A → A) (xs : List A) (y : A) (ys : List A)
    → modify f ((xs ++ y ∷ []) ++ ys) (length xs) ≡ (xs ++ f y ∷ []) ++ ys
modify-append_front f [] y ys = refl
modify-append_front f (x ∷ xs) y ys = ap (◌∷◌ x) (modify-append_front f xs y ys)

pub modify-append_last :
    {A : Type 0} (f : A → A) (xs : List A) (y z : A)
    → modify f ((xs ++ y ∷ []) ++ z ∷ []) (suc (length xs)) ≡ (xs ++ y ∷ []) ++ f z ∷ []
modify-append_last f [] y z = refl
modify-append_last f (x ∷ xs) y z = ap (◌∷◌ x) (modify-append_last f xs y z)

pub length-snoc : {A : Type 0} (xs : List A) (y : A) → length (xs ++ y ∷ []) ≡ suc (length xs)
length-snoc [] y = refl
length-snoc (x ∷ xs) y = ap suc (length-snoc xs y)
