-- ===== src/Config.antt =====
-- valueconfig_GEN_.go, the sizes that resolveValueStoreConfig settles, the environment's first,
-- then the given configuration's, then the default's. Atoi's result of a variable, and the
-- conversion of a product with cfg.Scale to an int, are the standard library's and so parameters.
pub mod Sizes
pub mod Passes
mod Tests
use valuestore.Base.{
  ℕ, suc, ◌+◌, ◌-◌, ◌*◌, ◌/◌, ◌^◌, ℤ, pos, negsuc, Bool, true, false, Option, none, some, ltb, ◌==◌,
  if◌then◌else◌,
}
use valuestore.MemWriter.{Limits, file_entry_size}

-- The settings that are whole numbers, as far as they are modelled.
pub data Setting : Type 0 where
  value_cap workers checksum_interval page_size : Setting
  write_pages_per_worker msg_cap msg_timeout file_cap : Setting
  file_readers recovery_batch_size : Setting
  tombstone_discard_interval tombstone_discard_batch_size tombstone_age : Setting

abbrev pub value_file_header_size : ℕ
value_file_header_size = 32

abbrev pub value_file_trailer_size : ℕ
value_file_trailer_size = 8

abbrev pub value_page_size_min : ℕ
value_page_size_min = 8 + file_entry_size

-- `if x < n { x = n }`
abbrev pub at_least : ℕ → ℤ → ℕ
at_least n (negsuc x) = n
at_least n (pos x) = if ltb x n then n else x

-- `if x < n { x = m }`
abbrev pub at_least_or : ℕ → ℕ → ℤ → ℕ
at_least_or n m (negsuc x) = m
at_least_or n m (pos x) = if ltb x n then m else x

-- `if x > n { x = n }`
abbrev pub at_most : ℕ → ℕ → ℕ
at_most n x = if ltb n x then n else x

abbrev pub if_zero : ℤ → ℤ → ℤ
if_zero (negsuc x) default = negsuc x
if_zero (pos x) default = if x == 0 then default else pos x

abbrev pub from_env : Option ℤ → ℤ → ℤ
from_env none given = given
from_env (some x) given = x

pub record Resolved : Type 0 where
  pub value_cap_of : ℕ
  pub workers_of : ℕ
  pub checksum_interval_of : ℕ
  pub page_size_of : ℕ
  pub min_value_alloc_of : ℕ
  pub write_pages_of : ℕ
  pub msg_cap_of : ℕ
  pub msg_timeout_of : ℕ
  pub file_cap_of : ℕ
  pub file_readers_of : ℕ
  pub recovery_batch_size_of : ℕ
  pub tombstone_discard_interval_of : ℕ
  pub tombstone_discard_batch_size_of : ℕ
  pub tombstone_age_of : ℕ

-- The environment's numbers, the given configuration's, the number of processors that Go uses, and
-- `int(n * cfg.Scale)`.
module _ (env : Setting → Option ℤ) (given : Setting → ℤ) (processors : ℕ) (scaled : ℕ → ℤ) where
  abbrev pub chosen : Setting → ℤ → ℤ
  chosen s default = if_zero (from_env (env s) (given s)) default

  abbrev pub value_cap_resolved : ℕ
  value_cap_resolved = at_most 1048576 (at_least 0 (chosen value_cap (pos 1048576)))

  abbrev pub checksum_interval_resolved : ℕ
  checksum_interval_resolved =
      at_least value_file_header_size (chosen checksum_interval (pos (64 * 1024 - 4)))

  abbrev pub page_size_resolved : ℕ
  page_size_resolved =
      let data_size = value_cap_resolved + checksum_interval_resolved in
      let wide = at_least data_size (chosen page_size (scaled (4 * 1024 * 1024))) in
      at_most (2 ^ 32 - 2) (at_least value_page_size_min (pos wide))

  abbrev pub workers_resolved : ℕ
  workers_resolved = at_least 1 (chosen workers (scaled processors))

  abbrev pub file_cap_resolved : ℕ
  file_cap_resolved = at_most (2 ^ 32 - 1) (
      at_least (value_file_header_size + value_file_trailer_size + value_cap_resolved)
        (chosen file_cap (pos (2 ^ 32 - 1))))

  -- resolveValueStoreConfig
  unfoldable pub resolve : Resolved
  resolve = record {
    value_cap_of = value_cap_resolved;
    workers_of = workers_resolved;
    checksum_interval_of = checksum_interval_resolved;
    page_size_of = page_size_resolved;
    min_value_alloc_of =
        checksum_interval_resolved / (page_size_resolved / file_entry_size + 1) + 1;
    write_pages_of = at_least 2 (chosen write_pages_per_worker (scaled 3));
    msg_cap_of = at_least 1024 (chosen msg_cap (scaled (16 * 1024 * 1024)));
    msg_timeout_of = at_least_or 1 250 (chosen msg_timeout (pos 250));
    file_cap_of = file_cap_resolved;
    file_readers_of = at_least 1 (chosen file_readers (pos workers_resolved));
    recovery_batch_size_of = at_least 1 (chosen recovery_batch_size (scaled (1024 * 1024)));
    tombstone_discard_interval_of = at_least 1 (chosen tombstone_discard_interval (pos 300));
    tombstone_discard_batch_size_of =
        at_least 1 (chosen tombstone_discard_batch_size (scaled (1024 * 1024)));
    tombstone_age_of = at_least 0 (chosen tombstone_age (pos (4 * 60 * 60)));
  }

-- What NewValueStore hands the memory writer.
abbrev pub limits_of : Resolved → Limits
limits_of cfg = record {
  value_cap = cfg.value_cap_of;
  min_value_alloc = cfg.min_value_alloc_of;
  page_size = cfg.page_size_of;
}
