-- ===== src/Client/Tests.antt =====
-- Runs of the client's operations, and the theorems at inputs that meet their hypotheses.
use xpn.Prelude.{
  List, suc, zero, ◌%◌, false, length, ap, ℕ, ◌+◌, ◌<◌, ◌≤◌, ◌≡◌, refl, true, some, none, [], ◌∷◌,
  arith, replicate, ◌++◌, ◌∙◌, sym, take, length-replicate,
}
use xpn.Prelude.Int.{◌+ℤ◌, ◌%ℤ◌, lt_ℤ, ℤ, pos, negsuc}
use xpn.Metadata.{Metadata, magic, max_reconstructions, header_size}
use xpn.Policy.Transfer.{File, error_at}
use xpn.Policy.Transfer.Placed.{Placed}
use xpn.Policy.Transfer.Plain.{IsPlain, local, serv, IsPlain-Placed}
use xpn.Policy.Grouping.{Bytes}
use xpn.Policy.Grouping.Gather.{slice, drop-append_left}
use xpn.Base.Hash.Names.{sum}
use xpn.Client.Mdata.{create_metadata_extern}
use xpn.Client.Mdata.Created.{create_metadata_extern-IsPlain}
use xpn.Client.Rw.{swrite, Filedesc, Nfi, sread, swrite_loop}
use xpn.Client.Rw.Ends.{Defined, swrite-Defined}
use xpn.Client.Rw.Sread.{Holds, sread_complete}
use xpn.Client.Rw.Lost.{AllFailed, swrite_loop_lost}

-- Blocks of 10 bytes on one server.
abbrev one_server : Metadata
one_server = record {
  magic_number = magic;
  version = pos 1;
  type = pos 0;
  block_size = pos 10;
  file_size = pos 95;
  replication_level = pos 0;
  first_node = pos 0;
  distribution_policy = pos 1;
  data_nserv = pos 1 ∷ replicate 39 (pos 0);
  offsets = replicate max_reconstructions (pos 0);
}

abbrev stored : File
stored = record { replication_level = 0; block_size = 10; mdata = one_server; errors = pos 0 ∷ [] }

abbrev broken : File
broken = record stored { errors = negsuc 0 ∷ [] }

abbrev opened : Filedesc
opened = record { offset = pos 42; flags = 2; type = 0; file = stored }

stored-IsPlain : IsPlain stored 10 1 0
stored-IsPlain = record {
  block = refl;
  block_pos = omega arith;
  mdata_block = refl;
  mdata_level = refl;
  mdata_first = refl;
  servers = refl;
  servers_pos = omega arith;
  unchanged = refl;
  known = omega arith;
}

broken-IsPlain : IsPlain broken 10 1 0
broken-IsPlain = record {
  block = refl;
  block_pos = omega arith;
  mdata_block = refl;
  mdata_level = refl;
  mdata_first = refl;
  servers = refl;
  servers_pos = omega arith;
  unchanged = refl;
  known = omega arith;
}

-- A file of 48 bytes, and a server that has its bytes behind the header.
abbrev content : Bytes
content = replicate 45 1 ++ (2 ∷ 3 ∷ 4 ∷ [])

abbrev whole_file : Nfi ℕ
whole_file = record {
  handle = λ s. true;
  nfi_read = λ st s offset size. elim offset [
    | pos o ↦ some (slice o size (replicate header_size 0 ++ content))
    | negsuc o ↦ none
  ];
  nfi_write = λ st s offset bs. (st, pos (length bs));
  update_metadata = λ st mdata. st;
}

abbrev stored-Placed : Placed stored 1 (local stored 10 1 0) (serv stored 10 1 0)
stored-Placed = IsPlain-Placed stored 10 1 0 stored-IsPlain

abbrev broken-Placed : Placed broken 1 (local broken 10 1 0) (serv broken 10 1 0)
broken-Placed = IsPlain-Placed broken 10 1 0 broken-IsPlain

local_alone :
    (off rep : ℕ) → rep ≤ 0 → local stored 10 1 0 off rep + header_size ≡ header_size + off
local_alone off rep h = omega arith

behind_header :
    (header bs : Bytes) (off m : ℕ) → slice (length header + off) m (header ++ bs) ≡ slice off m bs
behind_header header bs off m = ap (take m) (drop-append_left header bs off)

read_there :
    (at off m : ℕ)
    → at ≡ header_size + off
    → slice at m (replicate header_size 0 ++ content) ≡ slice off m content
read_there at off m e =
    ap (λ n. slice n m (replicate header_size 0 ++ content))
      (e ∙ ap (λ n. n + off) (sym (length-replicate {A = ℕ} header_size 0)))
    ∙ behind_header (replicate header_size 0) content off m

whole_file-Holds : Holds whole_file 0 stored (local stored 10 1 0) (serv stored 10 1 0) content
whole_file-Holds = record {
  opened = λ s. refl;
  reads = λ off rep m hr fits.
      ap some
        (read_there (local stored 10 1 0 off rep + header_size) off m (local_alone off rep hr));
}

sread_complete_example :
    sread whole_file
      (pos 1)
      (negsuc 0)
      (λ count. 0)
      0
      opened
      25
      42
      (record { local_offset = pos 0; serv = pos 0 })
    ≡ some (pos 6, 1 ∷ 1 ∷ 1 ∷ 2 ∷ 3 ∷ 4 ∷ [], record opened { offset = pos 48 })
sread_complete_example =
    sread_complete whole_file 0 opened 1 (local stored 10 1 0) (serv stored 10 1 0) stored-Placed
      content whole_file-Holds (negsuc 0) (λ count. 0) 25 42
      (record { local_offset = pos 0; serv = pos 0 }) (omega arith) (omega arith)

serv_alone : (rep : ℕ) → serv broken 10 1 0 50 rep ≡ 0
serv_alone rep = omega arith

broken-AllFailed :
    AllFailed whole_file 0 broken 1
      (local broken 10 1 0)
      (serv broken 10 1 0)
      broken-Placed
      []
      9
      42
      50
unfolding error_at
broken-AllFailed rep hr = rw (serv_alone rep)

-- The first 8 of 9 bytes at 42 were written; the server has failed since.
swrite_loop_lost_example :
    swrite_loop whole_file broken 9 42 [] 2 8
      (pos 8)
      0
      (record { local_offset = pos 0; serv = pos 0 })
    ≡ some (pos 16, 0)
swrite_loop_lost_example =
    swrite_loop_lost whole_file 0 broken 1 (local broken 10 1 0) (serv broken 10 1 0) broken-Placed
      [] 9 42 1 8 8 (record { local_offset = pos 0; serv = pos 0 }) broken-AllFailed (omega arith)

-- A new file "ab" on four servers, with a copy of each block.
abbrev same_name : List ℕ → List ℕ
same_name name = name

abbrev new_file : File
new_file = record {
  replication_level = 1;
  block_size = 10;
  mdata = create_metadata_extern same_name same_name (97 ∷ 98 ∷ []) 4 10 1;
  errors = replicate 4 (pos 0);
}

create_metadata_extern-IsPlain_example : IsPlain new_file 10 4 (sum (97 ∷ 98 ∷ []) % 4)
create_metadata_extern-IsPlain_example =
    create_metadata_extern-IsPlain same_name same_name (97 ∷ 98 ∷ []) 4 10 new_file (omega arith)
      (omega arith) refl refl (omega arith) (omega arith, (omega arith, tt)) (omega arith)

-- Server 2 holds the second copy, and fails.
abbrev third_fails : ℤ → ℤ
third_fails s = elim s [ pos (suc (suc zero)) ↦ negsuc 0 | _ ↦ pos 0 ]

first_answers : (k : ℕ) → k < 1 → lt_ℤ (third_fails ((pos 1 +ℤ pos k) %ℤ pos 4)) (pos 0) ≡ false
first_answers zero h = refl
first_answers (suc k) h = absurd (omega arith)

swrite-Defined_example : Defined (
    swrite whole_file
      (pos 1)
      0
      opened
      (1 ∷ 2 ∷ 3 ∷ [])
      3
      48
      (record { local_offset = pos 0; serv = pos 0 }))
swrite-Defined_example =
    swrite-Defined whole_file (pos 1) 0 opened 1 (local stored 10 1 0) (serv stored 10 1 0)
      stored-Placed (1 ∷ 2 ∷ 3 ∷ []) 3 48 (record { local_offset = pos 0; serv = pos 0 })
