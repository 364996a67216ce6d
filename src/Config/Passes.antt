-- ===== src/Config/Passes.antt =====
-- valueconfig_GEN_.go, the settings of messages and background passes that are whole numbers. The
-- thresholds that are floating-point numbers are left out.
use valuestore.Base.{ℕ, ◌*◌, ◌/◌, ℤ, pos, Option}
use valuestore.Config.{Resolved, at_least, at_least_or, from_env, if_zero}

pub data PassSetting : Type 0 where
  of_tombstone_discard_workers of_replication_ignore_recent of_out_pull_interval : PassSetting
  of_out_pull_workers of_out_pull_msgs of_out_pull_bloom_n : PassSetting
  of_out_pull_msg_timeout of_in_pull_workers of_in_pull_msgs : PassSetting
  of_in_pull_response_timeout of_push_interval of_push_workers : PassSetting
  of_push_msg_timeout of_bulk_set_msg_cap of_out_bulk_set_msgs : PassSetting
  of_in_bulk_set_workers of_in_bulk_set_msgs of_in_bulk_set_response_timeout : PassSetting
  of_bulk_set_ack_msg_cap of_in_bulk_set_ack_workers of_in_bulk_set_ack_msgs : PassSetting
  of_out_bulk_set_ack_msgs of_compaction_interval of_compaction_workers : PassSetting

-- The pull replication that goes out, and tombstone discard.
pub record PullSettings : Type 0 where
  pub tombstone_discard_workers : ℕ
  pub replication_ignore_recent : ℕ
  pub out_pull_interval : ℕ
  pub out_pull_workers : ℕ
  pub out_pull_msgs : ℕ
  pub out_pull_bloom_n : ℕ

-- Pull replication that comes in, and push replication.
pub record ReplySettings : Type 0 where
  pub out_pull_msg_timeout : ℕ
  pub in_pull_workers : ℕ
  pub in_pull_msgs : ℕ
  pub in_pull_response_timeout : ℕ
  pub push_interval : ℕ
  pub push_workers : ℕ
  pub push_msg_timeout : ℕ

-- Bulk-set messages and their acks, and compaction.
pub record BulkSettings : Type 0 where
  pub bulk_set_msg_cap : ℕ
  pub out_bulk_set_msgs : ℕ
  pub in_bulk_set_workers : ℕ
  pub in_bulk_set_msgs : ℕ
  pub in_bulk_set_response_timeout : ℕ
  pub bulk_set_ack_msg_cap : ℕ
  pub in_bulk_set_ack_workers : ℕ
  pub in_bulk_set_ack_msgs : ℕ
  pub out_bulk_set_ack_msgs : ℕ
  pub compaction_interval : ℕ
  pub compaction_workers : ℕ

-- The environment's numbers, the given configuration's, the sizes that are already resolved, and
-- `int(n * cfg.Scale)`.
module _ (env : PassSetting → Option ℤ) (given : PassSetting → ℤ) (cfg : Resolved)
    (scaled : ℕ → ℤ) where
  abbrev pub pass_chosen : PassSetting → ℤ → ℤ
  pass_chosen s default = if_zero (from_env (env s) (given s)) default

  abbrev pub tombstone_discard_workers_resolved : ℕ
  tombstone_discard_workers_resolved =
      at_least 1 (pass_chosen of_tombstone_discard_workers (pos cfg.workers_of))

  abbrev pub replication_ignore_recent_resolved : ℕ
  replication_ignore_recent_resolved =
      at_least 0 (pass_chosen of_replication_ignore_recent (pos 60))

  abbrev pub out_pull_interval_resolved : ℕ
  out_pull_interval_resolved = at_least 1 (pass_chosen of_out_pull_interval (pos 60))

  abbrev pub out_pull_workers_resolved : ℕ
  out_pull_workers_resolved =
      at_least 1 (pass_chosen of_out_pull_workers (pos (cfg.workers_of / 10)))

  abbrev pub out_pull_msgs_resolved : ℕ
  out_pull_msgs_resolved =
      at_least 1 (pass_chosen of_out_pull_msgs (scaled (out_pull_workers_resolved * 4)))

  abbrev pub out_pull_bloom_n_resolved : ℕ
  out_pull_bloom_n_resolved = at_least 1 (pass_chosen of_out_pull_bloom_n (scaled 1000000))

  abbrev pub out_pull_msg_timeout_resolved : ℕ
  out_pull_msg_timeout_resolved =
      at_least_or 1 250 (pass_chosen of_out_pull_msg_timeout (pos cfg.msg_timeout_of))

  abbrev pub in_pull_workers_resolved : ℕ
  in_pull_workers_resolved = at_least 1 (pass_chosen of_in_pull_workers (pos cfg.workers_of))

  abbrev pub in_pull_msgs_resolved : ℕ
  in_pull_msgs_resolved =
      at_least 1 (pass_chosen of_in_pull_msgs (scaled (in_pull_workers_resolved * 4)))

  abbrev pub in_pull_response_timeout_resolved : ℕ
  in_pull_response_timeout_resolved =
      at_least_or 1 250 (pass_chosen of_in_pull_response_timeout (pos cfg.msg_timeout_of))

  abbrev pub push_interval_resolved : ℕ
  push_interval_resolved = at_least 1 (pass_chosen of_push_interval (pos 60))

  abbrev pub push_workers_resolved : ℕ
  push_workers_resolved = at_least 1 (pass_chosen of_push_workers (pos (cfg.workers_of / 10)))

  abbrev pub push_msg_timeout_resolved : ℕ
  push_msg_timeout_resolved =
      at_least_or 1 250 (pass_chosen of_push_msg_timeout (pos cfg.msg_timeout_of))

  abbrev pub bulk_set_msg_cap_resolved : ℕ
  bulk_set_msg_cap_resolved = at_least 1 (pass_chosen of_bulk_set_msg_cap (pos cfg.msg_cap_of))

  abbrev pub out_bulk_set_msgs_resolved : ℕ
  out_bulk_set_msgs_resolved =
      at_least 1 (pass_chosen of_out_bulk_set_msgs (scaled (push_workers_resolved * 4)))

  abbrev pub in_bulk_set_workers_resolved : ℕ
  in_bulk_set_workers_resolved =
      at_least 1 (pass_chosen of_in_bulk_set_workers (pos cfg.workers_of))

  abbrev pub in_bulk_set_msgs_resolved : ℕ
  in_bulk_set_msgs_resolved =
      at_least 1 (pass_chosen of_in_bulk_set_msgs (scaled (in_bulk_set_workers_resolved * 4)))

  abbrev pub in_bulk_set_response_timeout_resolved : ℕ
  in_bulk_set_response_timeout_resolved =
      at_least_or 1 250 (pass_chosen of_in_bulk_set_response_timeout (pos cfg.msg_timeout_of))

  abbrev pub bulk_set_ack_msg_cap_resolved : ℕ
  bulk_set_ack_msg_cap_resolved =
      at_least 1 (pass_chosen of_bulk_set_ack_msg_cap (pos cfg.msg_cap_of))

  abbrev pub in_bulk_set_ack_workers_resolved : ℕ
  in_bulk_set_ack_workers_resolved =
      at_least 1 (pass_chosen of_in_bulk_set_ack_workers (pos cfg.workers_of))

  abbrev pub in_bulk_set_ack_msgs_resolved : ℕ
  in_bulk_set_ack_msgs_resolved =
      at_least 1
        (pass_chosen of_in_bulk_set_ack_msgs (scaled (in_bulk_set_ack_workers_resolved * 4)))

  abbrev pub out_bulk_set_ack_msgs_resolved : ℕ
  out_bulk_set_ack_msgs_resolved =
      at_least 1
        (pass_chosen of_out_bulk_set_ack_msgs (scaled (in_bulk_set_ack_workers_resolved * 4)))

  abbrev pub compaction_interval_resolved : ℕ
  compaction_interval_resolved = at_least 1 (pass_chosen of_compaction_interval (pos 600))

  abbrev pub compaction_workers_resolved : ℕ
  compaction_workers_resolved = at_least 1 (pass_chosen of_compaction_workers (pos cfg.workers_of))

  unfoldable pub resolve_pull : PullSettings
  resolve_pull = record {
    tombstone_discard_workers = tombstone_discard_workers_resolved;
    replication_ignore_recent = replication_ignore_recent_resolved;
    out_pull_interval = out_pull_interval_resolved;
    out_pull_workers = out_pull_workers_resolved;
    out_pull_msgs = out_pull_msgs_resolved;
    out_pull_bloom_n = out_pull_bloom_n_resolved;
  }

  unfoldable pub resolve_reply : ReplySettings
  resolve_reply = record {
    out_pull_msg_timeout = out_pull_msg_timeout_resolved;
    in_pull_workers = in_pull_workers_resolved;
    in_pull_msgs = in_pull_msgs_resolved;
    in_pull_response_timeout = in_pull_response_timeout_resolved;
    push_interval = push_interval_resolved;
    push_workers = push_workers_resolved;
    push_msg_timeout = push_msg_timeout_resolved;
  }

  unfoldable pub resolve_bulk : BulkSettings
  resolve_bulk = record {
    bulk_set_msg_cap = bulk_set_msg_cap_resolved;
    out_bulk_set_msgs = out_bulk_set_msgs_resolved;
    in_bulk_set_workers = in_bulk_set_workers_resolved;
    in_bulk_set_msgs = in_bulk_set_msgs_resolved;
    in_bulk_set_response_timeout = in_bulk_set_response_timeout_resolved;
    bulk_set_ack_msg_cap = bulk_set_ack_msg_cap_resolved;
    in_bulk_set_ack_workers = in_bulk_set_ack_workers_resolved;
    in_bulk_set_ack_msgs = in_bulk_set_ack_msgs_resolved;
    out_bulk_set_ack_msgs = out_bulk_set_ack_msgs_resolved;
    compaction_interval = compaction_interval_resolved;
    compaction_workers = compaction_workers_resolved;
  }
