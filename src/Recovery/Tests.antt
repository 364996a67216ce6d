-- ===== src/Recovery/Tests.antt =====
-- Recovery of a table of two entries by two workers.
use valuestore.Base.{◌≡◌, refl, true, false, List, [], ◌∷◌, some, pos}
use valuestore.LocMap.Functions.{functions, nowhere}
use valuestore.MemClearer.{MemEntry}
use valuestore.Toc.Tests.{a_sum, one_entry, removal}
use valuestore.Recovery.{Loaded, visit, skipped}

abbrev nothing : Loaded functions
nothing = record { map = λ k. nowhere; encountered = 0; caused = 0 }

abbrev table : List MemEntry
table = one_entry ∷ removal ∷ []

-- A name whose timestamp is zero is passed over.
zero_stamp :
    visit a_sum 2 2 (record {
      text = 48 ∷ [];
      has_suffix = true;
      stamp = some (pos 0);
      table = some (record { ahead = []; broken = false });
      block_id = some 1;
    })
    ≡ skipped
unfolding visit
zero_stamp = refl
