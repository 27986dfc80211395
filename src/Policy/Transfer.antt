-- ===== src/Policy/Transfer.antt =====
-- The splitting of a read or a write into operations on the servers, of
-- src/xpn_client/xpn/xpn_simple/policy/xpn_policy_rw.c: `XpnReadGetBlock`, `XpnWriteGetBlock` and
-- the functions that fill the operation matrix `io` with its row lengths `ion`.
-- A `none` stands for an access outside of `io` or of the array of servers.
pub mod Rows
pub mod Placed
pub mod Write
pub mod Choice
pub mod Read
pub mod Plain
pub mod Capacity
use xpn.Prelude.{
  ◌>>=◌, ℕ, zero, suc, ◌+◌, ◌-◌, ◌%◌, Bool, true, false, not, ◌&&◌, ◌||◌, Option, none, some, List,
  [], ◌∷◌, ◌++◌, ltb, ◌==◌, if◌then◌else◌, get_elem?, replicate,
}
use xpn.Prelude.Int.{ℤ, pos, negsuc, eq_ℤ, index}
use xpn.Metadata.{Metadata, nserv_at}
use xpn.Policy.Block.{Placement}
use xpn.Policy.Reconfigure.{calculate_block_mdata}

-- What these functions read of `xpn_file_table[fd]`: `part->replication_level`, `block_size`,
-- `mdata`, and `part->data_serv[i].error` of each server, -1 for one that has failed.
pub record File : Type 0 where
  pub replication_level : ℕ
  pub block_size : ℕ
  pub mdata : Metadata
  pub errors : List ℤ

-- The caller's buffer, or the one that is allocated for the call.
pub data Base : Type 0 where
  user scratch : Base

-- A pointer into a buffer.
pub record Pointer : Type 0 where
  pub base : Base
  pub at : ℕ

-- `struct nfi_worker_io`
pub record Io : Type 0 where
  pub offset : ℤ
  pub size : ℕ
  pub buffer : Pointer

-- `io` with `ion`: row `i` holds the operations on server `i`.
abbrev pub Matrix : Type 0
Matrix = List (List Io)

-- `io[l_serv][ion[l_serv]] = op; ion[l_serv]++`. A row is a list: the room in the array
-- that the caller passes is in the module Capacity.
unfoldable pub push_row : ℕ → Io → Matrix → Option Matrix
push_row i op [] = none
push_row zero op (row ∷ rows) = some ((row ++ op ∷ []) ∷ rows)
push_row (suc i) op (row ∷ rows) = push_row i op rows >>= λ rows'. some (row ∷ rows')

unfoldable pub push_io : ℤ → Io → Matrix → Option Matrix
push_io l_serv op rows = index l_serv >>= λ i. push_row i op rows

-- `part->data_serv[serv].error`
unfoldable pub error_at : File → ℤ → Option ℤ
error_at f serv = index serv >>= get_elem? f.errors

abbrev pub has_failed : ℤ → Bool
has_failed e = eq_ℤ e (negsuc 0)

module _ (f : File) (offset : ℤ) where
  -- The search for a replica on the client's own server, with `n` rounds left. The flag says
  -- whether one was found.
  pub find_local : (serv_client : ℤ) → (n replication : ℕ) → Placement → Option (Placement × Bool)
  find_local serv_client zero replication out = some (out, false)
  find_local serv_client (suc n) replication out =
      let p = calculate_block_mdata f.mdata offset (pos replication) out in
      let rest = find_local serv_client n (replication + 1) p in
      if eq_ℤ p.serv serv_client
      then (error_at f p.serv >>= λ e. if has_failed e then rest else some (p, true))
      else rest

  -- The replica after this one, in the second loop.
  abbrev pub next_replica : ℕ → ℕ
  next_replica replication =
      if f.replication_level == 0
      then replication
      else (replication + 1) % (f.replication_level + 1)

  -- The second loop, with at most `n` rounds after this one.
  pub try_replicas : (n replication : ℕ) → Placement → Option Placement
  try_replicas zero replication out =
      let p = calculate_block_mdata f.mdata offset (pos replication) out in
      error_at f p.serv >>= λ e. some p
  try_replicas (suc n) replication out =
      let p = calculate_block_mdata f.mdata offset (pos replication) out in
      let rest = try_replicas n (next_replica replication) p in
      error_at f p.serv >>= λ e. if has_failed e then rest else some p

  -- `XpnReadGetBlock`; `rand` is what `rand()` returns, and `serv_client` is -1 for none.
  unfoldable pub read_get_block : (serv_client : ℤ) (rand : ℕ) → Placement → Option Placement
  unfolding find_local try_replicas
  read_get_block serv_client rand out =
      let rl = f.replication_level in
      let second = λ (q : Placement). try_replicas rl (if rl == 0 then 0 else rand % (rl + 1)) q in
      if eq_ℤ serv_client (negsuc 0)
      then second out
      else (find_local serv_client (rl + 1) 0 out >>= λ (p, found).
          if found then some p else second p)

  -- `XpnWriteGetBlock`: the placement, and the error of its server as the result.
  unfoldable pub write_get_block : (replication : ℕ) → Placement → Option (Placement × ℤ)
  write_get_block replication out =
      let p = calculate_block_mdata f.mdata offset (pos replication) out in
      error_at f p.serv >>= λ e. some (p, e)

-- The bytes from `new_offset` to the end of its block, or what is left of the request.
unfoldable pub chunk : (block_size new_offset left : ℕ) → ℕ
chunk block_size new_offset left =
    let l_size = block_size - new_offset % block_size in if ltb left l_size then left else l_size

module _ (f : File) (base : Base) (size offset : ℕ) where
  abbrev pub io_at : Placement → (count l_size : ℕ) → Io
  io_at p count l_size = record {
    offset = p.local_offset;
    size = l_size;
    buffer = record { base = base; at = count };
  }

  -- The loop of `XpnReadBlocksBlockByBlock`; `rand count` is what `rand()` returns in the round
  -- that begins at `count`.
  pub read_loop :
      (serv_client : ℤ) (rand : ℕ → ℕ) → (fuel count : ℕ) → Placement → Matrix → Option Matrix
  read_loop serv_client rand zero count out rows = if ltb count size then none else some rows
  read_loop serv_client rand (suc fuel) count out rows =
      let more = read_get_block f (pos (offset + count)) serv_client (rand count) out >>= λ p.
      let l_size = chunk f.block_size (offset + count) (size - count) in
      push_io p.serv (io_at p count l_size) rows >>= λ rows'.
      read_loop serv_client rand fuel (count + l_size) p rows' in
      if ltb count size then more else some rows

  -- The loop over the replicas in `XpnWriteBlocksBlockByBlock`, with `n` of them left.
  pub write_replicas : (n j count l_size : ℕ) → Placement → Matrix → Option (Placement × Matrix)
  write_replicas zero j count l_size out rows = some (out, rows)
  write_replicas (suc n) j count l_size out rows =
      write_get_block f (pos (offset + count)) j out >>= λ (p, e).
      push_io p.serv (io_at p count l_size) rows >>= λ rows'.
      write_replicas n (j + 1) count l_size p rows'

  -- The loop of `XpnWriteBlocksBlockByBlock`.
  pub write_loop : (fuel count : ℕ) → Placement → Matrix → Option Matrix
  write_loop zero count out rows = if ltb count size then none else some rows
  write_loop (suc fuel) count out rows =
      let l_size = chunk f.block_size (offset + count) (size - count) in
      let more = write_replicas (f.replication_level + 1) 0 count l_size out rows >>= λ (p, rows').
      write_loop fuel (count + l_size) p rows' in
      if ltb count size then more else some rows

  -- `XpnReadBlocksBlockByBlock`. Each round takes a byte at least, so `size` rounds are enough.
  unfoldable pub read_blocks_block_by_block :
      (serv_client : ℤ) (rand : ℕ → ℕ) (num_servers : ℕ) → Placement → Option Matrix
  unfolding read_loop
  read_blocks_block_by_block serv_client rand num_servers out =
      read_loop serv_client rand size 0 out (replicate num_servers [])

  -- `XpnWriteBlocksBlockByBlock`
  unfoldable pub write_blocks_block_by_block : (num_servers : ℕ) → Placement → Option Matrix
  unfolding write_replicas write_loop
  write_blocks_block_by_block num_servers out = write_loop size 0 out (replicate num_servers [])
