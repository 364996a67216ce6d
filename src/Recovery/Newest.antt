-- ===== src/Recovery/Newest.antt =====
-- valuestore_GEN_.go, recovery: where each key is when the entries have been loaded.
use valuestore.Base.{◌<◌, ◌≡◌, false, List, [], ◌∷◌, leb, if◌then◌else◌}
use valuestore.Base.Bytes.{Bytes}
use valuestore.Package.{has_bits, tsb_local_removal}
use valuestore.LocMap.{Key, Location, LocMap}
use valuestore.LocMap.Functions.{same_key}
use valuestore.Toc.{Entry}
use valuestore.Recovery.{location_of}

-- The entries of one key, in order.
abbrev pub with_key : Key → List Entry → List Entry
with_key k [] = []
with_key k (e ∷ es) = if same_key e.key k then e ∷ with_key k es else with_key k es

-- The abstract view of one key: the latest of its entries whose timestamp is not behind that of
-- the location before it.
abbrev pub newest : Location → List Entry → Location
newest x [] = x
newest x (e ∷ es) = newest (if leb x.timestampbits e.timestampbits then location_of e else x) es

-- An entry that has a place in a value file, and is no local removal.
abbrev pub IsPlaced : Entry → Type 0
IsPlaced e = (has_bits e.timestampbits tsb_local_removal ≡ false) × (0 < e.block_id)
