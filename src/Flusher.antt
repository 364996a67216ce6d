-- ===== src/Flusher.antt =====
-- valueflusher_GEN_.go, flusherLauncher: the rounds of its loop that no notification takes. The
-- count of modifications is an int32, which the round takes and sets back to 0.
pub mod Rounds
mod Tests
use valuestore.Base.{
  ℕ, Bool, true, false, not, ◌&&◌, ◌||◌, ℤ, pos, negsuc, List, [], ◌∷◌, ◌==◌, ltb, if◌then◌else◌,
}

-- `(m == 0 && !justFlushed) || (m > 0 && m < threshold)`
unfoldable pub must_flush : ℕ → Bool → ℤ → Bool
must_flush threshold just_flushed (negsuc m) = false
must_flush threshold just_flushed (pos m) =
    ((m == 0) && not just_flushed) || (ltb 0 m && ltb m threshold)

-- What each round does, true for a flush; the flag `justFlushed` is what the round before did.
unfoldable pub flush_rounds : ℕ → Bool → List ℤ → List Bool
unfolding must_flush
flush_rounds threshold just_flushed [] = []
flush_rounds threshold just_flushed (m ∷ ms) =
    must_flush threshold just_flushed m
    ∷ flush_rounds threshold (must_flush threshold just_flushed m) ms
