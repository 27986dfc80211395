-- ===== src/Policy/Tests.antt =====
-- Runs of the placement and of the splitting of requests, and the theorems at inputs that meet
-- their hypotheses.
use xpn.Prelude.{ℕ, ◌≤◌, ◌<◌, ◌/◌, ◌≡◌, refl, some, [], ◌∷◌, arith, length, replicate}
use xpn.Prelude.Int.{pos, negsuc}
use xpn.Metadata.{Metadata, magic, max_reconstructions}
use xpn.Policy.Block.{Placement, calculate_block, calculate_block_invert}
use xpn.Policy.Block.RoundTrip.{invert-calculate_block, calculate_block-invert}
use xpn.Policy.Block.Replicas.{serv-calculate_block_injective}
use xpn.Policy.Block.Spread.{calculate_block_balanced}
use xpn.Policy.Reconfigure.{
  calculate_block_mdata, walk, visit, find_segment, in_segment, is_shrink_at, prev_segment,
  prev_block_num, add_segment, is_actual, place_here, substract_offset, recalculate, greater_shrink,
}
use xpn.Policy.Reconfigure.Disjoint.{calculate_block_mdata_injective}
use xpn.Policy.Transfer.{
  File, user, Matrix, read_get_block, read_blocks_block_by_block, write_blocks_block_by_block,
}
use xpn.Policy.Transfer.Placed.{Placed}
use xpn.Policy.Transfer.Plain.{IsPlain, local, serv, IsPlain-Placed}
use xpn.Policy.Transfer.Rows.{matrix_size, row_at}
use xpn.Policy.Transfer.Capacity.{read_capacity, write_capacity, length-blocks_block_by_block}
use xpn.Policy.Transfer.Choice.{Alive, read_get_block-Alive}
use xpn.Policy.Transfer.Write.{Sent, write_blocks_block_by_block_complete}
use xpn.Policy.Transfer.Read.{ReadFrom, read_blocks_block_by_block_complete}

-- Blocks of 10 bytes with one replica each, on 3 servers, the first block on server 1.
abbrev two_copies : Metadata
two_copies = record {
  magic_number = magic;
  version = pos 1;
  type = pos 0;
  block_size = pos 10;
  file_size = pos 95;
  replication_level = pos 1;
  first_node = pos 1;
  distribution_policy = pos 1;
  data_nserv = pos 3 ∷ replicate 39 (pos 0);
  offsets = replicate max_reconstructions (pos 0);
}

-- Server 2 has failed.
abbrev opened : File
opened = record {
  replication_level = 1;
  block_size = 10;
  mdata = two_copies;
  errors = pos 0 ∷ pos 0 ∷ negsuc 0 ∷ [];
}

abbrev nowhere : Placement
nowhere = record { local_offset = pos 0; serv = pos 0 }

opened-IsPlain : IsPlain opened 10 3 1
opened-IsPlain = record {
  block = refl;
  block_pos = omega arith;
  mdata_block = refl;
  mdata_level = refl;
  mdata_first = refl;
  servers = refl;
  servers_pos = omega arith;
  unchanged = refl;
  known = omega arith;
}

abbrev opened-Placed : Placed opened 3 (local opened 10 3 1) (serv opened 10 3 1)
opened-Placed = IsPlain-Placed opened 10 3 1 opened-IsPlain

-- Byte 47 lies in block 4; its second copy is block 9 of the copies.
second_copy :
    calculate_block (pos 10) (pos 1) (pos 3) (pos 47) (pos 1) (pos 1)
    ≡ record { local_offset = pos 37; serv = pos 1 }
unfolding calculate_block
second_copy = refl

-- The servers of a file on 3 servers, of which the second was taken away behind block 5: block 1
-- was moved to server 0 and block 4 stays on server 1.
abbrev shrunk : Metadata
shrunk = record two_copies {
  replication_level = pos 0;
  first_node = pos 0;
  data_nserv = pos 3 ∷ negsuc 1 ∷ pos 2 ∷ replicate 37 (pos 0);
  offsets = pos 0 ∷ pos 5 ∷ pos 5 ∷ replicate 37 (pos 0);
}

shrunk_moved :
    calculate_block_mdata shrunk (pos 10) (pos 0) nowhere
    ≡ record { local_offset = pos 20; serv = pos 0 }
unfolding calculate_block_mdata calculate_block walk visit find_segment in_segment is_shrink_at
    prev_segment prev_block_num add_segment is_actual place_here substract_offset recalculate
    greater_shrink
shrunk_moved = refl

invert-calculate_block_example :
    let p = calculate_block (pos 10) (pos 1) (pos 3) (pos 47) (pos 1) (pos 1) in
    calculate_block_invert (pos 10) (pos 1) (pos 3) p.serv p.local_offset (pos 1)
    ≡ record { offset = pos 47; replication = pos 1 }
invert-calculate_block_example =
    invert-calculate_block 10 1 3 (omega arith) (omega arith) 47 1 1 (omega arith)

calculate_block-invert_example :
    let o = calculate_block_invert (pos 10) (pos 1) (pos 3) (pos 0) (pos 37) (pos 1) in
    calculate_block (pos 10) (pos 1) (pos 3) o.offset o.replication (pos 1)
    ≡ record { local_offset = pos 37; serv = pos 0 }
calculate_block-invert_example =
    calculate_block-invert 10 1 3 (omega arith) (omega arith) 0 37 1 (omega arith)

serv-calculate_block_injective_example : ◌≡◌ {A = ℕ} 1 1
serv-calculate_block_injective_example =
    serv-calculate_block_injective 10 1 3 47 1 1 1 (omega arith) (omega arith) (omega arith) refl

calculate_block_balanced_example :
    (l s : ℕ) × (calculate_block (pos 10) (pos 1) (pos 3) (pos 47) (pos 1) (pos 1)
      ≡ record { local_offset = pos l; serv = pos s })
    × (s < 3)
    × (l / 10 < 7)
calculate_block_balanced_example =
    calculate_block_balanced 10 1 3 47 1 1 95 (omega arith) (omega arith) (omega arith)
      (omega arith)

calculate_block_mdata_injective_example : ◌≡◌ {A = ℕ} 77 77 × ◌≡◌ {A = ℕ} 1 1
calculate_block_mdata_injective_example =
    calculate_block_mdata_injective two_copies 10 1 1 2 3 5 (omega arith) (omega arith)
      (omega arith) (omega arith) nowhere 77 1 77 1 (omega arith) (omega arith) refl

read_get_block-Alive_example :
    (r : ℕ) × (r ≤ 1)
    × (read_get_block opened (pos 47) (pos 0) 5 nowhere
        ≡ some (record {
          local_offset = pos (local opened 10 3 1 47 r);
          serv = pos (serv opened 10 3 1 47 r);
        }))
    × ((r' : ℕ)
        → r' ≤ 1
        → Alive opened (serv opened 10 3 1 47 r')
        → Alive opened (serv opened 10 3 1 47 r))
    × ((r' : ℕ)
        → r' ≤ 1
        → Alive opened (serv opened 10 3 1 47 r')
        → pos (serv opened 10 3 1 47 r') ≡ pos 0
        → pos (serv opened 10 3 1 47 r) ≡ pos 0)
read_get_block-Alive_example =
    read_get_block-Alive opened 47 3 (local opened 10 3 1) (serv opened 10 3 1) opened-Placed
      (pos 0) 5 nowhere

write_blocks_block_by_block_complete_example :
    (rows : Matrix) × (write_blocks_block_by_block opened user 25 42 3 nowhere ≡ some rows)
    × (length rows ≡ 3)
    × (matrix_size rows ≡ 50)
    × ((k rep : ℕ)
        → k < 25
        → rep ≤ 1
        → Sent opened user 25 42 3
            (local opened 10 3 1)
            (serv opened 10 3 1)
            opened-Placed
            rows
            k
            rep)
write_blocks_block_by_block_complete_example =
    write_blocks_block_by_block_complete opened user 25 42 3 (local opened 10 3 1)
      (serv opened 10 3 1) opened-Placed nowhere

read_blocks_block_by_block_complete_example :
    (rows : Matrix) × (read_blocks_block_by_block opened user 25 42
        (pos 0)
        (λ count. count)
        3
        nowhere
      ≡ some rows)
    × (length rows ≡ 3)
    × (matrix_size rows ≡ 25)
    × ((k : ℕ)
        → k < 25
        → (r : ℕ) × (r ≤ 1)
          × ReadFrom opened user 25 42 3
              (local opened 10 3 1)
              (serv opened 10 3 1)
              opened-Placed
              (pos 0)
              (λ count. count)
              rows
              k
              r)
read_blocks_block_by_block_complete_example =
    read_blocks_block_by_block_complete opened user 25 42 3 (local opened 10 3 1)
      (serv opened 10 3 1) opened-Placed (pos 0) (λ count. count) nowhere

length-blocks_block_by_block_example :
    ((rows : Matrix) × (read_blocks_block_by_block opened user 25 42
          (pos 0)
          (λ count. count)
          3
          nowhere
        ≡ some rows)
      × ((s : ℕ) → length (row_at rows s) ≤ 4))
    × ((rows : Matrix) × (write_blocks_block_by_block opened user 25 42 3 nowhere ≡ some rows)
        × ((s : ℕ) → length (row_at rows s) ≤ 8))
unfolding read_capacity write_capacity
length-blocks_block_by_block_example =
    length-blocks_block_by_block opened user 25 42 3 (local opened 10 3 1) (serv opened 10 3 1)
      opened-Placed (pos 0) (λ count. count) nowhere
