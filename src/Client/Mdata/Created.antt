-- ===== src/Client/Mdata/Created.antt =====
-- New files have a settled placement.
use xpn.Prelude.{ℕ, ◌-◌, ◌^◌, ◌%◌, ◌<◌, ◌≤◌, ◌≡◌, ap, ◌∙◌, List, take, length}
use xpn.Metadata.{nserv_at}
use xpn.Policy.Transfer.{File}
use xpn.Policy.Transfer.Plain.{IsPlain}
use xpn.Base.Hash.{hash, path_max}
use xpn.Base.Hash.Names.{sum, AllAscii, hash_name-ascii}
use xpn.Client.Mdata.{create_metadata_extern}

-- A file with the metadata that `XpnCreateMetadataExtern` makes, with the block size and the
-- replication level that it was given, has the plain placement that begins at the hash of its name.
-- The name is in ASCII and its characters add up to less than 2^31.
pub create_metadata_extern-IsPlain :
    (basename dirname : List ℕ → List ℕ) (path : List ℕ) (nserv block_size : ℕ) (f : File)
    → 0 < nserv
    → 0 < block_size
    → f.mdata ≡ create_metadata_extern basename dirname path nserv block_size f.replication_level
    → f.block_size ≡ block_size
    → nserv ≤ length f.errors
    → AllAscii (basename (take (path_max - 1) path))
    → sum (basename (take (path_max - 1) path)) < 2 ^ 31
    → IsPlain f block_size nserv (sum (basename (take (path_max - 1) path)) % nserv)
unfolding create_metadata_extern hash
create_metadata_extern-IsPlain basename dirname path nserv block_size f n_pos b_pos md bs known
      ascii small =
    record {
      block = bs;
      block_pos = b_pos;
      mdata_block = ap (λ m. m.block_size) md;
      mdata_level = ap (λ m. m.replication_level) md;
      mdata_first =
          ap (λ m. m.first_node) md
          ∙ hash_name-ascii (basename (take (path_max - 1) path)) nserv ascii small;
      servers = ap (λ m. nserv_at m 0) md;
      servers_pos = n_pos;
      unchanged = ap (λ m. nserv_at m 1) md;
      known = known;
    }
