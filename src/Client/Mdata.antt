-- ===== src/Client/Mdata.antt =====
-- The metadata of a file over its life, of src/xpn_client/xpn/xpn_simple/xpncore/xpn_metadata.c: a
-- new file's, and which servers its copies are written to and read from. `basename` and `dirname`
-- are the C library's.
pub mod Created
pub mod Copies
use xpn.Prelude.{
  ℕ, zero, suc, ◌+◌, Bool, Option, none, some, List, [], ◌∷◌, if◌then◌else◌, get_elem?, replicate,
  ◌>>=◌, map, ◌||◌, false, ◌==◌,
}
use xpn.Prelude.Int.{ℤ, pos, negsuc, ◌+ℤ◌, ◌%ℤ◌, lt_ℤ, index}
use xpn.Metadata.{Metadata, magic, max_reconstructions}
use xpn.Policy.Transfer.{has_failed}
use xpn.Base.Hash.{hash}

-- What is read of `struct xpn_partition`.
pub record Partition : Type 0 where
  pub id : ℕ
  pub data_nserv : ℕ
  pub block_size : ℕ
  pub replication_level : ℕ

module _ (basename dirname : List ℕ → List ℕ) where
  -- `XpnCreateMetadataExtern` on a `mdata` that is not NULL.
  unfoldable pub create_metadata_extern :
      (path : List ℕ) (nserv block_size replication_level : ℕ) → Metadata
  create_metadata_extern path nserv block_size replication_level = record {
    magic_number = magic;
    version = pos 1;
    type = pos 0;
    block_size = pos block_size;
    file_size = pos 0;
    replication_level = pos replication_level;
    first_node = hash basename dirname path nserv 1;
    distribution_policy = pos 1;
    data_nserv = pos nserv ∷ replicate 39 (pos 0);
    offsets = replicate max_reconstructions (pos 0);
  }

  -- `XpnCreateMetadata`; the list is `xpn_parttable` and a `none` its result -1.
  unfoldable pub create_metadata : List Partition → (pd : ℕ) (path : List ℕ) → Option Metadata
  create_metadata [] pd path = none
  create_metadata (p ∷ parts) pd path =
      let rest = create_metadata parts pd path in
      if p.id == pd
      then some (create_metadata_extern path p.data_nserv p.block_size p.replication_level)
      else rest

-- `(master_node + i) % nserv` for each of the `n` values of `i` from this one on.
unfoldable pub copies : (nserv master_node : ℤ) (n i : ℕ) → List ℤ
copies nserv master_node zero i = []
copies nserv master_node (suc n) i =
    (master_node +ℤ pos i) %ℤ nserv ∷ copies nserv master_node n (i + 1)

abbrev pub any_negative : List ℤ → Bool
any_negative [] = false
any_negative (r ∷ rs) = lt_ℤ r (pos 0) || any_negative rs

-- `XpnUpdateMetadata`: the servers that are told to write, and the result. `answer` is what the
-- wait for a server returns.
unfoldable pub update_metadata :
    (answer : ℤ → ℤ) (nserv master_node : ℤ) (replication_level : ℕ) → List ℤ × ℤ
update_metadata answer nserv master_node replication_level = (
  copies nserv master_node (replication_level + 1) 0,
  if any_negative (map answer (copies nserv master_node replication_level 0))
      then negsuc 0
      else pos 0,
)

-- The loop of `XpnReadMetadata` with `n` rounds left: the server that is asked. A `none` is an
-- access outside of the servers.
unfoldable pub read_server : (errors : List ℤ) (nserv master_node : ℤ) (n i : ℕ) → Option ℤ
read_server errors nserv master_node zero i = some master_node
read_server errors nserv master_node (suc n) i =
    let next = (master_node +ℤ pos i) %ℤ nserv in
    let rest = read_server errors nserv next n (i + 1) in
    index next >>= get_elem? errors >>= λ e. if has_failed e then rest else some next

-- `XpnGetMetadataPos`
unfoldable pub get_metadata_pos : Metadata → (at : ℤ) → ℤ
get_metadata_pos mdata at =
    let nserv = xpn.Metadata.nserv_at mdata 0 in
    if lt_ℤ at (pos 0) then mdata.first_node %ℤ nserv else (mdata.first_node +ℤ at) %ℤ nserv
