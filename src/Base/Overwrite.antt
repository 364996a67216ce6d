-- ===== src/Base/Overwrite.antt =====
-- Writes into a slice that has room for them: `binary.BigEndian.PutUint64(b[o:], v)`, `copy`.
use valuestore.Base.{
  ℕ, zero, suc, ◌+◌, ◌^◌, ◌≤◌, ◌<◌, ◌≡◌, refl, ap, ◌∙◌, [], ◌∷◌, ◌++◌, arith, length, length-append,
  length-drop, length-take, take, drop, List, All, take_self, append-nil,
}
use valuestore.Base.Bytes.{
  Bytes, put_word, word, get_word, length-put_word, get_word-append, get_word-put_word,
}

abbrev pub overwrite : ℕ → Bytes → Bytes → Bytes
overwrite o b buf = take o buf ++ (b ++ drop (o + length b) buf)

-- `copy(dst, src)`
abbrev pub copy_into : Bytes → Bytes → Bytes
copy_into dst src = take (length dst) src ++ drop (length src) dst

pub length-overwrite :
    (o : ℕ) (b buf : Bytes) → o + length b ≤ length buf → length (overwrite o b buf) ≡ length buf
length-overwrite o b buf h = omega (
  arith,
  length-append (take o buf) (b ++ drop (o + length b) buf),
  length-append b (drop (o + length b) buf),
  length-take o buf,
  length-drop (o + length b) buf,
)

pub take-take_front :
    (n p : ℕ) (buf ys : Bytes) → n ≤ p → p ≤ length buf → take n (take p buf ++ ys) ≡ take n buf
take-take_front zero p buf ys h room = refl
take-take_front (suc n) zero buf ys h room = absurd (omega arith)
take-take_front (suc n) (suc p) [] ys h room = absurd (omega arith)
take-take_front (suc n) (suc p) (x ∷ buf) ys h room =
    ap (◌∷◌ x) (take-take_front n p buf ys (omega arith) (omega arith))

take-drop_front :
    (o n p : ℕ) (buf ys : Bytes)
    → o + n ≤ p
    → p ≤ length buf
    → take n (drop o (take p buf ++ ys)) ≡ take n (drop o buf)
take-drop_front zero n p buf ys h room = take-take_front n p buf ys (omega arith) room
take-drop_front (suc o) n zero buf ys h room = absurd (omega arith)
take-drop_front (suc o) n (suc p) [] ys h room = absurd (omega arith)
take-drop_front (suc o) n (suc p) (x ∷ buf) ys h room =
    take-drop_front o n p buf ys (omega arith) (omega arith)

-- A field in front of what is written is as before.
pub get_word-overwrite_front :
    (n o p : ℕ) (b buf : Bytes)
    → o + n ≤ p
    → p + length b ≤ length buf
    → get_word n o (overwrite p b buf) ≡ get_word n o buf
unfolding get_word
get_word-overwrite_front n o p b buf h room = ap word (take-drop_front o n p buf _ h (omega arith))

-- The field that is written is read back.
pub get_word-overwrite_self :
    (n o v : ℕ) (buf : Bytes)
    → v < 256 ^ n
    → o ≤ length buf
    → get_word n o (overwrite o (put_word n v) buf) ≡ v
get_word-overwrite_self n o v buf small room =
    get_word-append n o 0 (take o buf) _ (omega (arith, length-take o buf))
    ∙ get_word-put_word n v _ small

drop_whole : (n : ℕ) (xs : Bytes) → length xs ≡ n → drop n xs ≡ []
drop_whole zero [] h = refl
drop_whole zero (x ∷ xs) h = absurd (omega arith)
drop_whole (suc n) [] h = absurd (omega arith)
drop_whole (suc n) (x ∷ xs) h = drop_whole n xs (omega arith)

-- A copy of as many bytes.
pub copy_into_whole : (dst src : Bytes) → length dst ≡ length src → copy_into dst src ≡ src
copy_into_whole dst src h =
    let all : take (length dst) src ≡ src = take_self (length dst) src (omega arith) in
    let none_left : drop (length src) dst ≡ [] = drop_whole (length src) dst (omega arith) in
    rw (all, none_left) (append-nil src)

-- Fields of a header: offset, width and value of each, written in order.
abbrev pub Fields : Type 0
Fields = List (ℕ × (ℕ × ℕ))

abbrev pub put_all : Fields → Bytes → Bytes
put_all [] buf = buf
put_all ((o, (n, v)) ∷ fields) buf = put_all fields (overwrite o (put_word n v) buf)

-- Each begins where the one before it ends, or later, and has room for its value.
abbrev pub Ascends : ℕ → ℕ → Fields → Type 0
Ascends from size [] = Unit
Ascends from size ((o, (n, v)) ∷ fields) =
    ((from ≤ o) × ((o + n ≤ size) × (v < 256 ^ n))) × Ascends (o + n) size fields

abbrev pub ReadsAs : Bytes → ℕ × (ℕ × ℕ) → Type 0
ReadsAs buf (o, (n, v)) = get_word n o buf ≡ v

length-overwrite_word :
    (o n v : ℕ) (buf : Bytes)
    → o + n ≤ length buf
    → length (overwrite o (put_word n v) buf) ≡ length buf
length-overwrite_word o n v buf room =
    length-overwrite o (put_word n v) buf (omega (arith, length-put_word n v))

get_word-put_all_front :
    (n o from : ℕ) (fields : Fields) (buf : Bytes)
    → o + n ≤ from
    → Ascends from (length buf) fields
    → get_word n o (put_all fields buf) ≡ get_word n o buf
get_word-put_all_front n o from [] buf h asc = refl
get_word-put_all_front n o from ((p, (k, v)) ∷ fields) buf h ((low, (room, small)), asc) =
    get_word-put_all_front n o (p + k) fields (overwrite p (put_word k v) buf) (omega arith)
      (rw (length-overwrite_word p k v buf room) asc)
    ∙ get_word-overwrite_front n o p (put_word k v) buf (omega arith)
        (omega (arith, length-put_word k v))

-- Every field is read back.
pub put_all-ReadsAs :
    (from : ℕ) (fields : Fields) (buf : Bytes)
    → Ascends from (length buf) fields
    → All (ReadsAs (put_all fields buf)) fields
put_all-ReadsAs from [] buf asc = tt
put_all-ReadsAs from ((o, (n, v)) ∷ fields) buf ((low, (room, small)), asc) =
    let later : Ascends (o + n) (length (overwrite o (put_word n v) buf)) fields =
      rw (length-overwrite_word o n v buf room) asc in
    (
      get_word-put_all_front n o (o + n) fields (overwrite o (put_word n v) buf) (omega arith) later
          ∙ get_word-overwrite_self n o v buf small (omega arith),
      put_all-ReadsAs (o + n) fields (overwrite o (put_word n v) buf) later,
    )
