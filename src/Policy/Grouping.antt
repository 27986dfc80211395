-- ===== src/Policy/Grouping.antt =====
-- The grouping of operations into one for each server, of
-- src/xpn_client/xpn/xpn_simple/policy/xpn_policy_rw.c, from `XpnReadBlocksAllInOne` on. Memory is
-- a list of bytes; a `none` stands for an access outside of it.
pub mod Gather
pub mod Totals
mod Tests
use xpn.Prelude.{
  ℕ, zero, suc, ◌+◌, ◌*◌, Bool, true, false, not, ◌&&◌, ◌||◌, Option, none, some, List, [], ◌∷◌,
  ◌++◌, ◌==◌, ltb, leb, if◌then◌else◌, length, take, drop, replicate, ◌>>=◌,
}
use xpn.Prelude.Int.{ℤ, pos, eq_ℤ}
use xpn.Metadata.{nserv_at}
use xpn.Policy.Block.{Placement}
use xpn.Policy.Transfer.{
  File, Base, user, scratch, Io, Matrix, read_blocks_block_by_block, write_blocks_block_by_block,
}

abbrev pub Bytes : Type 0
Bytes = List ℕ

-- `memcpy(dst + to, src + from, size)`
unfoldable pub memcpy : (to from size : ℕ) (dst src : Bytes) → Option Bytes
memcpy to from size dst src =
    if leb (to + size) (length dst) && leb (from + size) (length src)
    then some (take to dst ++ (take size (drop from src) ++ drop (to + size) dst))
    else none

abbrev pub sizes : List Io → ℕ
sizes [] = 0
sizes (op ∷ ops) = op.size + sizes ops

-- `io[i][0]` after the sizes of the row are added up and its buffer is set.
abbrev pub merged : (at : ℕ) → Io → List Io → Io
merged at op ops = record op {
  size = op.size + sizes ops;
  buffer = record { base = scratch; at = at };
}

-- The second loop of `XpnReadBlocksAllInOne`.
unfoldable pub read_group : (count : ℕ) → Matrix → Matrix
read_group count [] = []
read_group count ([] ∷ rows) = [] ∷ read_group count rows
read_group count ((op ∷ ops) ∷ rows) =
    (merged count op ops ∷ []) ∷ read_group (count + (op.size + sizes ops)) rows

-- The inner loop of `XpnWriteBlocksAllInOne`: `send_buffer` and `count` after a row is copied.
unfoldable pub copy_row : (buffer : Bytes) → List Io → (count : ℕ) → Bytes → Option (ℕ × Bytes)
copy_row buffer [] count send_buffer = some (count, send_buffer)
copy_row buffer (op ∷ ops) count send_buffer =
    memcpy count op.buffer.at op.size send_buffer buffer >>= λ sent.
    copy_row buffer ops (count + op.size) sent

-- The second loop of `XpnWriteBlocksAllInOne`.
unfoldable pub write_group :
    (buffer : Bytes) → Matrix → (count server_count : ℕ) → Bytes → Option (Matrix × Bytes)
write_group buffer [] count server_count send_buffer = some ([], send_buffer)
write_group buffer ([] ∷ rows) count server_count send_buffer =
    write_group buffer rows count server_count send_buffer >>= λ (more, sent).
    some ([] ∷ more, sent)
write_group buffer ((op ∷ ops) ∷ rows) count server_count send_buffer =
    copy_row buffer (op ∷ ops) count send_buffer >>= λ (count', copied).
    write_group buffer rows count' (server_count + (op.size + sizes ops)) copied >>= λ (more, sent).
    some ((merged server_count op ops ∷ []) ∷ more, sent)

-- The second loop of `XpnReadBlocksFinish` over the operations of a row.
unfoldable pub finish_row :
    (new_buffer : Bytes) → List Io → (count : ℕ) → Bytes → Option (ℕ × Bytes)
finish_row new_buffer [] count buffer = some (count, buffer)
finish_row new_buffer (op ∷ ops) count buffer =
    memcpy op.buffer.at count op.size buffer new_buffer >>= λ copied.
    finish_row new_buffer ops (count + op.size) copied

unfoldable pub finish_rows : (new_buffer : Bytes) → Matrix → (count : ℕ) → Bytes → Option Bytes
finish_rows new_buffer [] count buffer = some buffer
finish_rows new_buffer (row ∷ rows) count buffer =
    finish_row new_buffer row count buffer >>= λ (count', copied).
    finish_rows new_buffer rows count' copied

-- `optimize`
unfoldable pub is_grouped : File → Bool
is_grouped f = not (ltb 0 f.replication_level || not (eq_ℤ (nserv_at f.mdata 1) (pos 0)))

-- `serv_client` is the client's own server and `rand` what `rand()` returns in each round; `out`
-- is what the variables of the placement hold before the first call.
module _ (f : File) (size offset : ℕ) (num_servers : ℕ) (out : Placement) where
  -- `XpnReadBlocksAllInOne`, with its buffer.
  unfoldable pub read_blocks_all_in_one :
      (serv_client : ℤ) (rand : ℕ → ℕ) (base : Base) → Option Matrix
  read_blocks_all_in_one serv_client rand base =
      read_blocks_block_by_block f base size offset serv_client rand num_servers out >>= λ rows.
      some (read_group 0 rows)

  -- `XpnWriteBlocksAllInOne`: the matrix and what is in `send_buffer`.
  unfoldable pub write_blocks_all_in_one : (buffer send_buffer : Bytes) → Option (Matrix × Bytes)
  write_blocks_all_in_one buffer send_buffer =
      write_blocks_block_by_block f user size offset num_servers out >>= λ rows.
      write_group buffer rows 0 0 send_buffer

  -- `XpnReadBlocks`. The result is `some none` where `malloc` fails; the new buffer has `size` bytes.
  unfoldable pub read_blocks :
      (serv_client : ℤ) (rand : ℕ → ℕ) (malloc : Bool) → Option (Option Matrix)
  read_blocks serv_client rand malloc =
      let grouped = read_blocks_all_in_one serv_client rand scratch >>= λ rows. some (some rows) in
      let apart =
        read_blocks_block_by_block f user size offset serv_client rand num_servers out >>= λ rows.
        some (some rows) in
      if not malloc then some none else if is_grouped f then grouped else apart

  -- `XpnReadBlocksFinish`: the user's buffer afterwards.
  unfoldable pub read_blocks_finish :
      (serv_client : ℤ) (rand : ℕ → ℕ) (buffer new_buffer : Bytes) → Option Bytes
  read_blocks_finish serv_client rand buffer new_buffer =
      let finished =
        read_blocks_block_by_block f user size offset serv_client rand num_servers out >>= λ rows.
        finish_rows new_buffer rows 0 buffer in
      if is_grouped f then finished else some buffer

  -- `XpnWriteBlocks`, which always groups. `junk` is what new memory holds.
  unfoldable pub write_blocks :
      (buffer : Bytes) (malloc : Bool) (junk : ℕ) → Option (Option (Matrix × Bytes))
  write_blocks buffer malloc junk =
      let grouped =
        write_blocks_all_in_one buffer (replicate (size * (f.replication_level + 1)) junk) >>= λ r.
        some (some r) in
      if malloc then grouped else some none
