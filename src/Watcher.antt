-- ===== src/Watcher.antt =====
-- valuewatcher_GEN_.go, watcherLauncher: a state machine over what the disks and the memory have
-- free and in use, which switches writes off and on. The amounts are read by other packages; the
-- floating-point usages and their tests are a parameter.
pub mod Writes
mod Tests
use valuestore.Base.{
  ℕ, Bool, true, false, ◌&&◌, ◌||◌, List, [], ◌∷◌, Option, none, some, ltb, leb, if◌then◌else◌,
}
use valuestore.LocMap.{LocMap}
use valuestore.MemWriter.{Limits}
use valuestore.Store.{Store, enable_writes, disable_writes}

-- float64, as far as the watcher compares them: `x > 0`, `x >= y`
pub record Usages : Type 1 where
  pub Usage : Type 0
  pub is_positive : Usage → Bool
  pub is_at_least : Usage → Usage → Bool

pub data WatchState : Type 0 where
  is_clear disk_free disk_usage mem_free mem_usage : WatchState

module _ (u : Usages) where
  pub record Thresholds : Type 0 where
    pub disk_free_disable : ℕ
    pub disk_free_reenable : ℕ
    pub disk_usage_disable : u.Usage
    pub disk_usage_reenable : u.Usage
    pub mem_free_disable : ℕ
    pub mem_free_reenable : ℕ
    pub mem_usage_disable : u.Usage
    pub mem_usage_reenable : u.Usage

  -- One look; `memory` is none where it could not be read.
  pub record Sample : Type 0 where
    pub free : ℕ
    pub usage : u.Usage
    pub free_toc : ℕ
    pub usage_toc : u.Usage
    pub memory : Option (ℕ × u.Usage)

  mem_free_low : ℕ → Option (ℕ × u.Usage) → Bool
  mem_free_low limit none = false
  mem_free_low limit (some (actual_free, used)) = ltb 1 limit && leb actual_free limit

  mem_usage_high : u.Usage → Option (ℕ × u.Usage) → Bool
  mem_usage_high limit none = false
  mem_usage_high limit (some (actual_free, used)) = u.is_positive limit && u.is_at_least used limit

  mem_free_back : ℕ → Option (ℕ × u.Usage) → Bool
  mem_free_back limit none = false
  mem_free_back limit (some (actual_free, used)) = ltb 1 limit && leb limit actual_free

  mem_usage_back : u.Usage → Option (ℕ × u.Usage) → Bool
  mem_usage_back limit none = false
  mem_usage_back limit (some (actual_free, used)) = u.is_positive limit && u.is_at_least limit used

  -- The state after a look that finds writes not switched off: the last test that holds decides.
  unfoldable pub watch_clear : Thresholds → Sample → WatchState
  unfolding mem_free_low mem_usage_high
  watch_clear t x =
      if mem_usage_high t.mem_usage_disable x.memory
      then mem_usage
      else if mem_free_low t.mem_free_disable x.memory
      then mem_free
      else if u.is_positive t.disk_usage_disable
          && (u.is_at_least x.usage t.disk_usage_disable
              || u.is_at_least x.usage_toc t.disk_usage_disable)
      then disk_usage
      else if ltb 1 t.disk_free_disable
          && (leb x.free t.disk_free_disable || leb x.free_toc t.disk_free_disable)
      then disk_free
      else is_clear

  -- The state after a look, and whether writes were off.
  unfoldable pub watch : Thresholds → WatchState → Sample → WatchState
  unfolding watch_clear mem_free_back mem_usage_back
  watch t is_clear x = watch_clear t x
  watch t disk_free x =
      if ltb 1 t.disk_free_reenable
        && (leb t.disk_free_reenable x.free && leb t.disk_free_reenable x.free_toc)
      then is_clear
      else disk_free
  watch t disk_usage x =
      if u.is_positive t.disk_usage_reenable
        && (u.is_at_least t.disk_usage_reenable x.usage
            && u.is_at_least t.disk_usage_reenable x.usage_toc)
      then is_clear
      else disk_usage
  watch t mem_free x = if mem_free_back t.mem_free_reenable x.memory then is_clear else mem_free
  watch t mem_usage x = if mem_usage_back t.mem_usage_reenable x.memory then is_clear else mem_usage

  module _ (l : LocMap) (lim : Limits) where
    -- What a change of the state does to the store; none of the calls is the user's.
    unfoldable pub switched : WatchState → WatchState → Store l → Store l
    switched is_clear is_clear s = s
    switched is_clear _ s = disable_writes l lim s false
    switched _ is_clear s = enable_writes l lim s false
    switched _ _ s = s

    -- The rounds of the loop, without notifications.
    unfoldable pub watch_all :
        Thresholds → WatchState → Store l → List Sample → WatchState × Store l
    unfolding watch switched
    watch_all t state s [] = (state, s)
    watch_all t state s (x ∷ xs) =
        watch_all t (watch t state x) (switched state (watch t state x) s) xs
