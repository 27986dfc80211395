-- ===== src/Policy/Block.antt =====
-- `XpnCalculateBlock` and `XpnCalculateBlockInvert` of
-- src/xpn_client/xpn/xpn_simple/policy/xpn_policy_rw.c.
-- `off_t` and `int` are C's signed integers; they are read as integers
-- with no bound, since their overflow has no meaning in C.
pub mod RoundTrip
pub mod Replicas
pub mod Spread
use xpn.Prelude.Int.{ℤ, pos, ◌+ℤ◌, ◌-ℤ◌, ◌*ℤ◌, ◌/ℤ◌, ◌%ℤ◌}

-- The out parameters `*local_offset` and `*serv`.
pub record Placement : Type 0 where
  pub local_offset : ℤ
  pub serv : ℤ

-- The out parameters `*offset` and `*replication`.
pub record Origin : Type 0 where
  pub offset : ℤ
  pub replication : ℤ

unfoldable pub calculate_block :
    (block_size replication_level nserv offset replication first_node : ℤ) → Placement
calculate_block block_size replication_level nserv offset replication first_node =
    let block = offset /ℤ block_size in
    let block_replication = block *ℤ (replication_level +ℤ pos 1) +ℤ replication in
    let block_line = block_replication /ℤ nserv in
    record {
      local_offset = block_line *ℤ block_size +ℤ offset %ℤ block_size;
      serv = (block_replication +ℤ first_node) %ℤ nserv;
    }

unfoldable pub calculate_block_invert :
    (block_size replication_level nserv serv local_offset first_node : ℤ) → Origin
calculate_block_invert block_size replication_level nserv serv local_offset first_node =
    let block_line = local_offset /ℤ block_size in
    let block_replication =
      block_line *ℤ nserv +ℤ ((serv -ℤ first_node) %ℤ nserv +ℤ nserv) %ℤ nserv in
    let block = block_replication /ℤ (replication_level +ℤ pos 1) in
    record {
      offset = block *ℤ block_size +ℤ local_offset %ℤ block_size;
      replication = block_replication %ℤ (replication_level +ℤ pos 1);
    }
