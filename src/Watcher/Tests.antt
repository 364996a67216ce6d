-- ===== src/Watcher/Tests.antt =====
-- A disk that fills up and is cleared, seen three times.
use valuestore.Base.{ℕ, [], ◌∷◌, none, ltb, leb, refl}
use valuestore.LocMap.Functions.{functions}
use valuestore.MemWriter.Tests.{some_limits}
use valuestore.Store.Tests.{a_store}
use valuestore.Watcher.{Usages, Thresholds, Sample, is_clear, watch_all}
use valuestore.Watcher.Writes.{IsWatched, watch_all-IsWatched}

-- Usages in percent.
abbrev percents : Usages
percents = record { Usage = ℕ; is_positive = λ x. ltb 0 x; is_at_least = λ x y. leb y x }

abbrev some_thresholds : Thresholds percents
some_thresholds = record {
  disk_free_disable = 10;
  disk_free_reenable = 20;
  disk_usage_disable = 94;
  disk_usage_reenable = 90;
  mem_free_disable = 10;
  mem_free_reenable = 20;
  mem_usage_disable = 94;
  mem_usage_reenable = 90;
}

abbrev seen : ℕ → Sample percents
seen free = record { free = free; usage = 50; free_toc = free; usage_toc = 50; memory = none }

watch_all-IsWatched_example :
    IsWatched
      (watch_all percents functions some_limits some_thresholds is_clear a_store
        (seen 50 ∷ seen 5 ∷ seen 25 ∷ [])).0
      (watch_all percents functions some_limits some_thresholds is_clear a_store
        (seen 50 ∷ seen 5 ∷ seen 25 ∷ [])).1
watch_all-IsWatched_example =
    watch_all-IsWatched percents functions some_limits some_thresholds is_clear a_store
      (seen 50 ∷ seen 5 ∷ seen 25 ∷ []) (λ _. (refl, tt))
