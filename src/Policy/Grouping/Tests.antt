-- ===== src/Policy/Grouping/Tests.antt =====
-- The grouping of operations at concrete inputs.
use xpn.Prelude.{ℕ, replicate, ◌≡◌, refl, some, [], ◌∷◌, arith}
use xpn.Prelude.Int.{pos}
use xpn.Metadata.{magic, max_reconstructions}
use xpn.Policy.Transfer.{
  File, Io, Matrix, user, write_blocks_block_by_block, push_row, push_io, error_at, write_get_block,
  chunk,
}
use xpn.Policy.Reconfigure.{calculate_block_mdata}
use xpn.Policy.Grouping.{finish_rows, finish_row, memcpy, write_blocks_all_in_one}
use xpn.Policy.Grouping.Gather.{Grouped, write_blocks_all_in_one-Grouped}
use xpn.Policy.Grouping.Totals.{get_real_file_size}
use xpn.Policy.Block.{Placement, calculate_block, calculate_block_invert}

abbrev op : (offset at size : ℕ) → Io
op offset at size = record {
  offset = pos offset;
  size = size;
  buffer = record { base = user; at = at };
}

-- Blocks of 2 bytes on two servers, 5 bytes from the second byte of the file on.
abbrev rows : Matrix
rows = (op 1 0 1 ∷ op 2 3 2 ∷ []) ∷ (op 0 1 2 ∷ []) ∷ []

-- A file with blocks of 2 bytes on two servers, the first block on the first one.
abbrev two_servers : File
two_servers = record {
  replication_level = 0;
  block_size = 2;
  mdata = record {
    magic_number = magic;
    version = pos 1;
    type = pos 0;
    block_size = pos 2;
    file_size = pos 6;
    replication_level = pos 0;
    first_node = pos 0;
    distribution_policy = pos 1;
    data_nserv = pos 2 ∷ replicate 39 (pos 0);
    offsets = replicate max_reconstructions (pos 0);
  };
  errors = pos 0 ∷ pos 0 ∷ [];
}

abbrev nowhere : Placement
nowhere = record { local_offset = pos 0; serv = pos 0 }

blocks : write_blocks_block_by_block two_servers user 5 1 2 nowhere ≡ some rows
unfolding write_blocks_block_by_block push_row push_io error_at write_get_block chunk
    calculate_block_mdata calculate_block
blocks = refl

write_blocks_all_in_one-Grouped_example :
    (rows' : Matrix) × (write_blocks_all_in_one two_servers 5 1 2 nowhere
        (1 ∷ 2 ∷ 3 ∷ 4 ∷ 5 ∷ [])
        (0 ∷ 0 ∷ 0 ∷ 0 ∷ 0 ∷ [])
      ≡ some (rows', 1 ∷ 4 ∷ 5 ∷ 2 ∷ 3 ∷ []))
    × Grouped (1 ∷ 2 ∷ 3 ∷ 4 ∷ 5 ∷ []) (1 ∷ 4 ∷ 5 ∷ 2 ∷ 3 ∷ []) 0 rows rows'
write_blocks_all_in_one-Grouped_example =
    write_blocks_all_in_one-Grouped two_servers 5 1 2 nowhere (1 ∷ 2 ∷ 3 ∷ 4 ∷ 5 ∷ [])
      (0 ∷ 0 ∷ 0 ∷ 0 ∷ 0 ∷ []) rows blocks
      ((omega arith, (omega arith, tt)), ((omega arith, tt), tt)) refl

-- A buffer that was read server after server is put in order.
finished :
    finish_rows (1 ∷ 4 ∷ 5 ∷ 2 ∷ 3 ∷ []) rows 0 (0 ∷ 0 ∷ 0 ∷ 0 ∷ 0 ∷ [])
    ≡ some (1 ∷ 2 ∷ 3 ∷ 4 ∷ 5 ∷ [])
unfolding finish_rows finish_row memcpy
finished = refl

-- 7 blocks of 10 bytes and 3 bytes on 3 servers.
real_size :
    get_real_file_size (pos 10) (pos 0) (pos 3) (pos 8222 ∷ pos 8215 ∷ pos 8212 ∷ []) ≡ pos 73
unfolding get_real_file_size calculate_block_invert
real_size = refl
