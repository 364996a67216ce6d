-- ===== src/FileWriter/Layout.antt =====
-- valuestore_GEN_.go, fileWriter: the content of its files, behind their headers.
use valuestore.Base.{
  ℕ, ◌≤◌, ◌<◌, ◌≡◌, refl, sym, List, [], ◌∷◌, ◌++◌, Option, none, some, arith, length,
  length-append, drop,
}
use valuestore.Base.Bytes.{Bytes, put_word, length-put_word}
use valuestore.Package.{Error}
use valuestore.MemWriter.{MemBlock}
use valuestore.StoreFile.{StoreFile, Closed, magic, new_file}
use valuestore.StoreFile.Content.{content, IsOpen}
use valuestore.StoreFile.Closing.{Sealed}

-- What a value file has behind its header.
abbrev pub body : StoreFile → Bytes
body f = drop 32 (content f)

abbrev pub bodies : List (StoreFile × Option Closed) → Bytes
bodies [] = []
bodies ((f, c) ∷ fs) = body f ++ bodies fs

abbrev pub current_body : Option StoreFile → Bytes
current_body none = []
current_body (some f) = body f

abbrev pub values_of : List MemBlock → Bytes
values_of [] = []
values_of (b ∷ bs) = b.values ++ values_of bs

-- A value file that is as long as the cap at most, or has the header and one block at most, and
-- that was closed with all that it was given.
abbrev pub IsFinished :
    (sum32 : Bytes → ℕ) → (ℕ → Option Error) → ℕ → ℕ → StoreFile × Option Closed → Type 0
IsFinished sum32 disk_close interval most (f, c) =
    (length (content f) ≤ most) × Sealed sum32 interval f.current.buf (disk_close f.id) c

abbrev pub IsCurrent : ℕ → ℕ → ℕ → Option StoreFile → Type 0
IsCurrent interval most value_len none = Unit {0}
IsCurrent interval most value_len (some f) =
    IsOpen f
    × (f.checksum_interval ≡ interval)
    × (value_len ≡ length (content f))
    × (32 ≤ value_len)
    × (value_len ≤ most)

pub length-new_file : (id interval : ℕ) → length (content (new_file id interval)) ≡ 32
unfolding new_file
length-new_file id interval =
    omega (arith, length-append magic (put_word 4 interval), length-put_word 4 interval)

pub new_file-IsCurrent :
    (id interval most : ℕ)
    → 32 < interval
    → 32 ≤ most
    → IsCurrent interval most 32 (some (new_file id interval))
unfolding new_file
new_file-IsCurrent id interval most wide fits =
    let long = length-new_file id interval in
    (
      record { has_room = omega (arith, long, wide); are_full = tt; offset_is = sym long },
      refl,
      sym long,
      omega arith,
      fits,
    )
