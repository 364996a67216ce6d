-- ===== src/Config/Tests.antt =====
-- The defaults, and an environment that asks for small pages.
use valuestore.Base.{◌≡◌, refl, arith, ℤ, pos, negsuc, Option, none, some}
use valuestore.Config.Passes.{
  PassSetting, of_replication_ignore_recent, of_push_msg_timeout, resolve_pull, resolve_reply,
  resolve_bulk,
}
use valuestore.Config.{Resolved, Setting, page_size, resolve, limits_of}
use valuestore.Config.Sizes.{IsResolved, resolve-IsResolved}
use valuestore.MemWriter.Bounds.{IsLimits}

abbrev small_pages : Setting → Option ℤ
small_pages page_size = some (pos 1)
small_pages _ = none

abbrev nothing_given : Setting → ℤ
nothing_given s = pos 0

default_page : (resolve (λ s. none) nothing_given 8 (λ n. pos n)).page_size_of ≡ 4194304
unfolding resolve
default_page = refl

small_page : (resolve small_pages nothing_given 8 (λ n. pos n)).page_size_of ≡ 1114108
unfolding resolve
small_page = refl

resolve-IsResolved_example :
    IsResolved (resolve small_pages nothing_given 8 (λ n. pos n))
    × IsLimits (limits_of (resolve small_pages nothing_given 8 (λ n. pos n)))
resolve-IsResolved_example =
    resolve-IsResolved small_pages nothing_given 8 (λ n. pos n) (omega arith)

abbrev default_sizes : Resolved
unfolding resolve
default_sizes = resolve (λ s. none) nothing_given 8 (λ n. pos n)

abbrev given_numbers : PassSetting → ℤ
given_numbers of_replication_ignore_recent = negsuc 6
given_numbers of_push_msg_timeout = negsuc 0
given_numbers _ = pos 0

-- A number that is too small is 0, 1 or 250, by its setting.
too_small :
    ((resolve_pull (λ s. none) given_numbers default_sizes (λ n. pos n)).replication_ignore_recent
      ≡ 0)
    × ((resolve_reply (λ s. none) given_numbers default_sizes (λ n. pos n)).push_msg_timeout ≡ 250)
    × ((resolve_bulk (λ s. none) given_numbers default_sizes (λ n. pos n)).compaction_interval
        ≡ 600)
unfolding resolve_pull resolve_reply resolve_bulk
too_small = (refl, refl, refl)
