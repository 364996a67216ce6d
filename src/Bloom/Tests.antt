-- ===== src/Bloom/Tests.antt =====
-- A filter of sixteen bits and one round, with a hash that takes the last byte.
use valuestore.Base.{◌*◌, ◌^◌, ◌≡◌, ◌%◌, refl, true, List, [], ◌∷◌, some, arith, All}
use valuestore.Base.Bytes.{word}
use valuestore.LocMap.{Key}
use valuestore.Bloom.{Sizing, Filter, new_filter, may_have}
use valuestore.Bloom.Rounds.{Fits}
use valuestore.Bloom.Answers.{Entry, add_all, add_all-may_have}

abbrev pub a_sizing : Sizing
a_sizing = record { sum128 = λ b. (word b % 2 ^ 64, 3); size = λ n p. 2; rounds = λ n p. 1 }

abbrev pub a_filter : Filter
a_filter = record { n = 3; p = 5; salt = 7 * 2 ^ 16; m = 16; k_div4 = 1; bits = 0 ∷ 0 ∷ [] }

a_filter_new : new_filter a_sizing 3 5 7 ≡ a_filter
unfolding new_filter
a_filter_new = refl

abbrev pub one_key : Key
one_key = record { key_a = 1; key_b = 2 }

abbrev pub other_key : Key
other_key = record { key_a = 4; key_b = 5 }

abbrev pub two_entries : List Entry
two_entries = (one_key, 300) ∷ (other_key, 70000) ∷ []

add_all-may_have_example :
    (g : Filter) × (add_all a_sizing two_entries a_filter ≡ some g)
    × Fits g.m g.bits
    × All (λ e. may_have a_sizing g e.0 e.1 ≡ some true) two_entries
add_all-may_have_example = add_all-may_have a_sizing a_filter two_entries (omega arith, omega arith)
