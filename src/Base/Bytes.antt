-- ===== src/Base/Bytes.antt =====
-- Byte slices as lists of numbers, and `encoding/binary`'s big-endian words.
use valuestore.Base.{
  ℕ, zero, suc, ◌+◌, ◌*◌, ◌/◌, ◌%◌, ◌^◌, ◌<◌, ◌≡◌, refl, List, [], ◌∷◌, ◌++◌, arith, length,
  length-append, take, drop, take-append_self,
}
use native.Mathlib.Nat.{pow-suc}
use mathlib.Core.List.{foldl, foldl-append}

abbrev pub Bytes : Type 0
Bytes = List ℕ

-- The lowest `n` bytes of a word, the highest first: `binary.BigEndian.PutUint32`, `PutUint64`.
unfoldable pub put_word : ℕ → ℕ → Bytes
put_word zero v = []
put_word (suc n) v = put_word n (v / 256) ++ (v % 256) ∷ []

-- `binary.BigEndian.Uint32`, `Uint64` of a slice of that many bytes.
unfoldable pub word : Bytes → ℕ
word = foldl (λ acc b. acc * 256 + b) 0

-- `binary.BigEndian.Uint64(b[o:])` with `n = 8`
unfoldable pub get_word : ℕ → ℕ → Bytes → ℕ
unfolding word
get_word n o b = word (take n (drop o b))

pub length-put_word : (n v : ℕ) → length (put_word n v) ≡ n
unfolding put_word
length-put_word zero v = refl
length-put_word (suc n) v = rw length-append (omega (arith, length-put_word n (v / 256)))

pub word-put_word : (n v : ℕ) → v < 256 ^ n → word (put_word n v) ≡ v
unfolding word put_word
word-put_word zero v h = omega arith
word-put_word (suc n) v h =
    rw (foldl-append)
      (omega (arith, pow-suc 256 n, word-put_word n (v / 256) (omega (arith, pow-suc 256 n))))

pub get_word-put_word : (n v : ℕ) (ys : Bytes) → v < 256 ^ n → get_word n 0 (put_word n v ++ ys) ≡ v
unfolding get_word
get_word-put_word n v ys h =
    rw (take-append_self n (put_word n v) ys (length-put_word n v)) (word-put_word n v h)

pub drop-append_over : (o p : ℕ) (xs ys : Bytes) → length xs + p ≡ o → drop o (xs ++ ys) ≡ drop p ys
drop-append_over o p [] ys h = let e : p ≡ o = omega arith in rw e
drop-append_over zero p (x ∷ xs) ys h = absurd (omega arith)
drop-append_over (suc o) p (x ∷ xs) ys h = drop-append_over o p xs ys (omega arith)

-- A field behind `k` bytes, read at `o = k + p`.
pub get_word-append :
    (n o p : ℕ) (xs ys : Bytes) → length xs + p ≡ o → get_word n o (xs ++ ys) ≡ get_word n p ys
unfolding get_word
get_word-append n o p xs ys h = rw (drop-append_over o p xs ys h)

-- The same behind a word.
pub get_word-put_word_over :
    (n o p k v : ℕ) (ys : Bytes) → k + p ≡ o → get_word n o (put_word k v ++ ys) ≡ get_word n p ys
get_word-put_word_over n o p k v ys h =
    get_word-append n o p (put_word k v) ys (omega (arith, length-put_word k v))

pub drop-put_word_over :
    (o p k v : ℕ) (ys : Bytes) → k + p ≡ o → drop o (put_word k v ++ ys) ≡ drop p ys
drop-put_word_over o p k v ys h =
    drop-append_over o p (put_word k v) ys (omega (arith, length-put_word k v))
