-- ===== src/Metadata.antt =====
-- `struct xpn_metadata` of include/xpn_client/xpn/xpn_simple/xpn_metadata.h.
use xpn.Prelude.{ℕ, Bool, List, [], ◌∷◌, get_or, ◌&&◌, ◌==◌}
use xpn.Prelude.Int.{ℤ, pos}

-- Characters are bytes. The block size and the file size are the `ssize_t` of a 64-bit build.
pub record Metadata : Type 0 where
  pub magic_number : List ℕ
  pub version : ℤ
  pub type : ℤ
  pub block_size : ℤ
  pub file_size : ℤ
  pub replication_level : ℤ
  pub first_node : ℤ
  pub distribution_policy : ℤ
  pub data_nserv : List ℤ
  pub offsets : List ℤ

-- XPN_METADATA_MAX_RECONSTURCTIONS, the length of `data_nserv` and of `offsets`.
abbrev pub max_reconstructions : ℕ
max_reconstructions = 40

-- XPN_HEADER_SIZE, the bytes of metadata in front of a server's part of a file.
abbrev pub header_size : ℕ
header_size = 8192

-- XPN_MAGIC_NUMBER
abbrev pub magic : List ℕ
magic = b'X' ∷ b'P' ∷ b'N' ∷ []

-- XPN_CHECK_MAGIC_NUMBER
unfoldable pub check_magic_number : Metadata → Bool
check_magic_number mdata =
    (get_or mdata.magic_number 0 0 == get_or magic 0 0)
    && (get_or mdata.magic_number 1 0 == get_or magic 1 0)
    && (get_or mdata.magic_number 2 0 == get_or magic 2 0)

-- `data_nserv[i]` and `offsets[i]`. The arrays are read in range as long as fewer than 39 entries
-- are in use; behind the end a 0 is read here.
abbrev pub nserv_at : Metadata → ℕ → ℤ
nserv_at mdata i = get_or mdata.data_nserv i (pos 0)

abbrev pub offset_at : Metadata → ℕ → ℤ
offset_at mdata i = get_or mdata.offsets i (pos 0)
