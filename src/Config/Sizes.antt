-- ===== src/Config/Sizes.antt =====
-- The bounds that the resolved sizes keep, which the memory writer and the files rely on.
use native.Mathlib.Nat.{div-lt_self, lt-mul-div-succ}
use valuestore.Base.{ℕ, ◌+◌, ◌-◌, ◌*◌, ◌/◌, ◌^◌, ◌≤◌, ◌<◌, ℤ, pos, negsuc, Option, arith}
use valuestore.MemWriter.{file_entry_size}
use valuestore.MemWriter.Bounds.{IsLimits}
use valuestore.Config.{
  Setting, Resolved, at_least, at_most, chosen, value_cap, checksum_interval, page_size, file_cap,
  value_cap_resolved, checksum_interval_resolved, page_size_resolved, value_page_size_min,
  value_file_header_size, value_file_trailer_size, resolve, limits_of,
}

pub at_least-le : (n : ℕ) (x : ℤ) → n ≤ at_least n x
at_least-le n (negsuc x) = omega arith
at_least-le n (pos x) = ground arith

at_most-le : (n x : ℕ) → at_most n x ≤ n
at_most-le n x = ground arith

clamped :
    (d w : ℕ)
    → d ≤ w
    → d ≤ 2 ^ 32 - 2
    → (d ≤ at_most (2 ^ 32 - 2) (at_least value_page_size_min (pos w)))
      × (value_page_size_min ≤ at_most (2 ^ 32 - 2) (at_least value_page_size_min (pos w)))
clamped d w h k = (ground (arith, h, k), ground arith)

file_clamped : (d w : ℕ) → d ≤ w → d ≤ 2 ^ 32 - 1 → d ≤ at_most (2 ^ 32 - 1) w
file_clamped d w h k = ground (arith, h, k)

alloc_fits :
    (interval page : ℕ)
    → 32 ≤ interval
    → interval ≤ page
    → interval / (page / file_entry_size + 1) + 1 ≤ page
alloc_fits interval page wide h =
    let less =
      div-lt_self {n = interval} {k = page / file_entry_size + 1} (omega (arith, wide))
        (omega (arith, wide, h)) in
    omega (arith, less, h)

-- A value, its entry and a checksum interval fit a page, a page's size fits 32 bits, a file has
-- room for a value between its header and its trailer, and one entry more than a page of a table
-- of contents holds has at least a checksum interval of values.
pub record IsResolved (cfg : Resolved) : Type 0 where
  pub interval_wide : 32 ≤ cfg.checksum_interval_of
  pub page_holds : cfg.value_cap_of + cfg.checksum_interval_of ≤ cfg.page_size_of
  pub page_fits : cfg.page_size_of ≤ 2 ^ 32 - 2
  pub file_holds : 40 + cfg.value_cap_of ≤ cfg.file_cap_of
  pub file_fits : cfg.file_cap_of ≤ 2 ^ 32 - 1
  pub page_of_entries :
      cfg.checksum_interval_of < (cfg.page_size_of / file_entry_size + 1) * cfg.min_value_alloc_of

module _ (env : Setting → Option ℤ) (given : Setting → ℤ) (processors : ℕ) (scaled : ℕ → ℤ) where
  -- Whatever the environment and the configuration say, if the checksum interval and the value cap
  -- that result fit a page's greatest size, the resolved sizes keep their bounds, and they are such
  -- that the memory writer stays inside its blocks.
  pub resolve-IsResolved :
      value_cap_resolved env given processors scaled
          + checksum_interval_resolved env given processors scaled
        ≤ 2 ^ 32 - 2
      → IsResolved (resolve env given processors scaled)
        × IsLimits (limits_of (resolve env given processors scaled))
  unfolding resolve
  resolve-IsResolved h =
      let vc = value_cap_resolved env given processors scaled in
      let ci = checksum_interval_resolved env given processors scaled in
      let page = page_size_resolved env given processors scaled in
      let wide =
        at_least-le value_file_header_size
          (chosen env given processors scaled checksum_interval (pos (64 * 1024 - 4))) in
      let page_chosen = chosen env given processors scaled page_size (scaled (4 * 1024 * 1024)) in
      let holds =
        clamped (vc + ci) (at_least (vc + ci) page_chosen) (at_least-le (vc + ci) page_chosen) h in
      let file_chosen = chosen env given processors scaled file_cap (pos (2 ^ 32 - 1)) in
      let file_min = value_file_header_size + value_file_trailer_size + vc in
      let vc_most =
        at_most-le 1048576
          (at_least 0 (chosen env given processors scaled value_cap (pos 1048576))) in
      (
        record {
          interval_wide = wide;
          page_holds = holds.0;
          page_fits =
              at_most-le (2 ^ 32 - 2)
                (at_least value_page_size_min (pos (at_least (vc + ci) page_chosen)));
          file_holds =
              file_clamped file_min (at_least file_min file_chosen)
                (at_least-le file_min file_chosen) (omega (arith, vc_most));
          file_fits = at_most-le (2 ^ 32 - 1) (at_least file_min file_chosen);
          page_of_entries = lt-mul-div-succ ci {b = page / file_entry_size + 1} (omega arith);
        },
        record {
          values_fit = omega (arith, holds);
          allocs_fit = alloc_fits ci page wide (omega (arith, holds));
          entries_fit = omega (arith, holds);
        },
      )
