-- ===== src/Reader/Supply.antt =====
-- A reader over a list of bytes, which ends with an error: an instance of `IsReader`.
use valuestore.Base.{
  ℕ, zero, suc, ◌<◌, ◌≡◌, [], ◌∷◌, none, some, arith, length, take, drop, take-append-drop,
  length-take,
}
use valuestore.Base.Bytes.{Bytes}
use valuestore.Reader.{Reader, IsReader}

abbrev pub bytes_reader : Reader
bytes_reader = record {
  R = Bytes;
  read = λ r n. ((take n r, elim r [ [] ↦ some 1 | _ ∷ _ ↦ none ]), drop n r);
  rest = λ r. r;
}

delivers_some :
    (r : Bytes) (n : ℕ) → 0 < n → (bytes_reader.read r n).0.1 ≡ none → 0 < length (take n r)
delivers_some [] n h e = cc
delivers_some (x ∷ r) zero h e = absurd (omega arith)
delivers_some (x ∷ r) (suc n) h e = omega arith

pub bytes_reader-IsReader : IsReader bytes_reader
bytes_reader-IsReader = record {
  within = λ r n. omega (arith, length-take n r);
  progress = delivers_some;
  in_order = λ r n. take-append-drop n r;
}
