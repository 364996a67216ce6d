-- ===== src/Watcher/Writes.antt =====
-- valuewatcher_GEN_.go: the watcher's state and the store's writes.
use valuestore.Base.{◌≡◌, true, false, List, [], ◌∷◌, inl, inr, Bool-cases, All}
use valuestore.LocMap.{LocMap}
use valuestore.MemWriter.{Limits}
use valuestore.Store.{Store, enable_writes, disable_writes}
use valuestore.Store.Switches.{switch_all-All}
use valuestore.Watcher.{
  Usages, Thresholds, Sample, WatchState, is_clear, disk_free, disk_usage, mem_free, mem_usage,
  watch, switched, watch_all,
}

-- In a state of the watcher: writes are off, or on unless the user disabled them.
abbrev pub IsWatched : {l : LocMap} → WatchState → Store l → Type 0
IsWatched is_clear s = s.user_disabled ≡ false → All (λ w. w.enabled ≡ true) s.workers
IsWatched _ s = All (λ w. w.enabled ≡ false) s.workers

module _ (u : Usages) (l : LocMap) (lim : Limits) where
  disabled-All : (s : Store l) → All (λ w. w.enabled ≡ false) (disable_writes l lim s false).workers
  unfolding disable_writes
  disabled-All s = switch_all-All l lim false s.workers

  enabled-All :
      (s : Store l)
      → (enable_writes l lim s false).user_disabled ≡ false
      → All (λ w. w.enabled ≡ true) (enable_writes l lim s false).workers
  unfolding enable_writes
  enabled-All s h = elim (Bool-cases s.user_disabled) [
    | inl off ↦ let off_still : true ≡ false = simp off at h in absurd cc
    | inr on ↦ simp on (switch_all-All l lim true s.workers)
  ]

  switched-IsWatched :
      (old new : WatchState) (s : Store l)
      → IsWatched old s
      → IsWatched new (switched u l lim old new s)
  unfolding switched
  switched-IsWatched is_clear is_clear s h = h
  switched-IsWatched is_clear disk_free s h = disabled-All s
  switched-IsWatched is_clear disk_usage s h = disabled-All s
  switched-IsWatched is_clear mem_free s h = disabled-All s
  switched-IsWatched is_clear mem_usage s h = disabled-All s
  switched-IsWatched disk_free is_clear s h = enabled-All s
  switched-IsWatched disk_usage is_clear s h = enabled-All s
  switched-IsWatched mem_free is_clear s h = enabled-All s
  switched-IsWatched mem_usage is_clear s h = enabled-All s
  switched-IsWatched disk_free disk_free s h = h
  switched-IsWatched disk_free disk_usage s h = h
  switched-IsWatched disk_free mem_free s h = h
  switched-IsWatched disk_free mem_usage s h = h
  switched-IsWatched disk_usage disk_free s h = h
  switched-IsWatched disk_usage disk_usage s h = h
  switched-IsWatched disk_usage mem_free s h = h
  switched-IsWatched disk_usage mem_usage s h = h
  switched-IsWatched mem_free disk_free s h = h
  switched-IsWatched mem_free disk_usage s h = h
  switched-IsWatched mem_free mem_free s h = h
  switched-IsWatched mem_free mem_usage s h = h
  switched-IsWatched mem_usage disk_free s h = h
  switched-IsWatched mem_usage disk_usage s h = h
  switched-IsWatched mem_usage mem_free s h = h
  switched-IsWatched mem_usage mem_usage s h = h

  -- Through any sequence of looks, from a store whose writes fit the watcher's state and with no
  -- call of the user's in between: whenever the state is not clear no worker takes writes, and
  -- whenever it is clear every worker does, unless the user has disabled writes.
  pub watch_all-IsWatched :
      (t : Thresholds u) (state : WatchState) (s : Store l) (xs : List (Sample u))
      → IsWatched state s
      → IsWatched (watch_all u l lim t state s xs).0 (watch_all u l lim t state s xs).1
  unfolding watch_all
  watch_all-IsWatched t state s [] h = h
  watch_all-IsWatched t state s (x ∷ xs) h =
      watch_all-IsWatched t (watch u t state x) (switched u l lim state (watch u t state x) s) xs
        (switched-IsWatched state (watch u t state x) s h)
