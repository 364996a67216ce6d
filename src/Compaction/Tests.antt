-- ===== src/Compaction/Tests.antt =====
-- A compaction of a table of two entries: a value that lies in the compacted file, and an entry of
-- a key that is not there any more.
use valuestore.Base.{
  ◌<◌, length, take, drop, ltb, ◌++◌, ℕ, ◌/◌, ◌≡◌, ◌≢◌, refl, arith, Bool, true, false, List, [],
  ◌∷◌, Option, none, some, inr, ◌==◌, if◌then◌else◌, All,
}
use valuestore.LocMap.{Key}
use valuestore.LocMap.Functions.{nowhere, put, functions, functions-IsLocMap}
use valuestore.MemWriter.Tests.{a_key, some_limits, some_limits-IsLimits}
use valuestore.Toc.{Entry}
use valuestore.Store.{Store, FileReader, answered, lookup, read}
use valuestore.Store.Tests.{new_store, new_store-IsSound}
use valuestore.Compaction.{Counts, compact_file, outdated, reading, verdict}
use valuestore.Compaction.Entries.{Fate, old, moved}
use valuestore.Compaction.Runs.{IsSafe, IsMoved}
use valuestore.Compaction.Whole.{all_entries, flat, IsRead, compact_file-IsSafe}
use valuestore.Compaction.Choice.{is_chosen, to_check_of, sample_entries, sample_entry}
use valuestore.Compaction.Choice.Sampled.{IsSome, entries_of, elsewhere, is_chosen-elsewhere}

abbrev other_key : Key
other_key = record { key_a = 3; key_b = 4 }

abbrev an_entry : Entry
an_entry = record { key = a_key; timestampbits = 256000; block_id = 9; offset = 32; size = 2 }

abbrev old_entry : Entry
old_entry = record { key = other_key; timestampbits = 255744; block_id = 9; offset = 34; size = 1 }

abbrev two_entries : List (List (Entry × Fate))
two_entries = ((an_entry, moved (5 ∷ 6 ∷ [])) ∷ (old_entry, old) ∷ []) ∷ []

abbrev some_file : FileReader
some_file offset size = (5 ∷ 6 ∷ [], none)

abbrev some_files : ℕ → Option FileReader
some_files id = if id == 9 then some some_file else none

abbrev filled : Store functions
filled = record new_store {
  map =
      put (λ k. nowhere) a_key
        (record { timestampbits = 256000; block_id = 9; offset = 32; size = 2 });
}

compact_file-IsSafe_example :
    (z : Store functions) × (c : Counts) × (removed : Bool) × (compact_file functions some_limits
        some_files filled false
        (2, ([], all_entries two_entries))
      ≡ answered z (c, removed))
    × All (IsSafe z) (flat two_entries)
    × ((j : Key)
        → All (λ p. IsMoved p.1 → j ≢ p.0.key) (flat two_entries)
        → functions.get z.map j ≡ functions.get filled.map j)
    × (removed ≡ true → (false ≡ false) × All (λ p. IsRead p.1) (flat two_entries))
compact_file-IsSafe_example =
    compact_file-IsSafe some_limits functions-IsLocMap some_limits-IsLimits some_files true
      two_entries filled false 2 [] ((refl, omega arith), ((refl, omega arith), tt))
      ((omega arith, (refl, omega arith, refl, some_file, refl, refl)), (inr refl, tt))
      (((λ same e. absurd (omega (arith, e))), tt), (tt, tt)) new_store-IsSound (omega arith)
      (omega arith)

-- The tombstone that a key has counts as outdated.
abbrev deleted : Store functions
deleted = record new_store {
  map =
      put (λ k. nowhere) a_key
        (record { timestampbits = 256128; block_id = 9; offset = 0; size = 0 });
}

tombstone_outdated :
    verdict functions some_limits some_files deleted
      (record { key = a_key; timestampbits = 256128; block_id = 9; offset = 0; size = 0 })
    ≡ outdated
unfolding verdict lookup reading read
tombstone_outdated = refl

-- One of two entries is elsewhere, which is no more than half; two workers come to one each.
abbrev of_two : List (ℕ × Entry)
of_two = (1, an_entry) ∷ (0, old_entry) ∷ []

is_chosen-elsewhere_example :
    let n = to_check_of functions (λ n. n / 2) 2 filled 2000 in
    (more : List Entry) × (length more < 2)
    × IsSome more (drop n of_two)
    × (is_chosen functions (λ n. n / 2) 2 filled 2000 [] of_two ≡ (
        if ltb 2000 1000
        then true
        else ltb
            (length (take n (entries_of of_two) ++ more) / 2)
            (elsewhere functions filled (take n (entries_of of_two) ++ more))))
is_chosen-elsewhere_example =
    is_chosen-elsewhere functions (λ n. n / 2) 2 filled 2000 of_two (omega arith) (omega arith)
      (omega arith) (omega arith, (omega arith, tt))

half_chosen : is_chosen functions (λ n. n / 2) 2 filled 2000 [] of_two ≡ false
unfolding is_chosen sample_entries sample_entry lookup
half_chosen = refl
