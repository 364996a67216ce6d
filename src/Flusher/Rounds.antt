-- ===== src/Flusher/Rounds.antt =====
-- valueflusher_GEN_.go: the rounds after the last modification.
use valuestore.Base.{ℕ, zero, suc, Bool, not, List, [], ◌∷◌}

-- Every second one.
abbrev pub alternate : Bool → ℕ → List Bool
alternate b zero = []
alternate b (suc n) = b ∷ alternate (not b) n
