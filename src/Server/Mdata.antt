-- ===== src/Server/Mdata.antt =====
-- The operations on metadata of src/xpn_server/xpn_server_ops.c. The mutex of
-- `xpn_server_op_write_mdata_file_size` makes it one step.
pub mod Sizes
use xpn.Prelude.{ℕ, Bool, [], ◌&&◌, Option, none, some, if◌then◌else◌, length, ◌>>=◌}
use xpn.Prelude.Int.{ℤ, pos, negsuc, lt_ℤ, eq_ℤ}
use xpn.Metadata.{Metadata, check_magic_number}
use xpn.Policy.Grouping.{Bytes}
use xpn.Protocol.{Reply, Status, status, PathMsg, WriteMdataMsg, FileSizeMsg, MdataReq, mdata_req}
use xpn.Server.{Host, World, send, read_path}
use xpn.Server.Files.{answer}

-- How the compiler lays out `struct xpn_metadata` and a `ssize_t`, and the size of the structures of
-- the answers but the status. `decode_mdata` is a structure of
-- zeros over which the bytes are written, and `decode_size` a `ssize_t`.
pub record Layout : Type 0 where
  pub sizeof_metadata : ℕ
  pub sizeof_size : ℕ
  pub offset_of_file_size : ℕ
  pub zeros : Metadata
  pub decode_mdata : Bytes → Metadata
  pub encode_mdata : Metadata → Bytes
  pub decode_size : Bytes → ℤ
  pub encode_size : ℤ → Bytes
  pub sizeof_answer : Reply → ℕ

-- EISDIR, O_RDWR, O_WRONLY | O_CREAT and S_IRWXU, as on Linux.
abbrev pub eisdir : ℤ
eisdir = pos 21

abbrev pub o_rdwr : ℕ
o_rdwr = 2

abbrev pub o_wronly_creat : ℕ
o_wronly_creat = 65

abbrev pub s_irwxu : ℕ
s_irwxu = 448

-- The result of filesystem_read and filesystem_write, and the bytes that were read.
abbrev pub read_result : Option Bytes → ℤ
read_result none = negsuc 0
read_result (some bs) = pos (length bs)

abbrev pub bytes_read : Option Bytes → Bytes
bytes_read none = []
bytes_read (some bs) = bs

abbrev pub write_result : Option ℕ → ℤ
write_result none = negsuc 0
write_result (some n) = pos n

module _ {S : Type 0} (h : Host S) (l : Layout) where
  -- The result for a file that cannot be opened: 0 for a directory.
  abbrev pub refused : S → (fd : ℤ) → ℤ
  refused s fd = if eq_ℤ (h.errno s) eisdir then pos 0 else fd

  -- A failed check of the magic number clears what was read.
  abbrev pub checked : Metadata → Metadata
  checked mdata = if check_magic_number mdata then mdata else l.zeros

  abbrev pub send_mdata : World S → S → (ret : ℤ) → Metadata → World S
  send_mdata w s ret mdata = send w s (
      mdata_req (record { mdata = mdata; status = record { ret = ret; server_errno = h.errno s } }))

  unfoldable pub op_read_mdata : World S → PathMsg → Option (World S)
  op_read_mdata w m = read_path w m.path_len m.path >>= λ (full_path, w1).
      let (s1, fd) = h.open_path (h.clear_errno w1.host) full_path o_rdwr in
      let (s2, got) = h.read s1 fd l.sizeof_metadata in
      let (s3, closed) = h.close s2 fd in
      some (
        if lt_ℤ fd (pos 0)
        then send_mdata w1 s1 (refused s1 fd) l.zeros
        else send_mdata w1 s3 (read_result got) (checked (l.decode_mdata (bytes_read got))))

  unfoldable pub op_write_mdata : World S → WriteMdataMsg → Option (World S)
  op_write_mdata w m = read_path w m.path_len m.path >>= λ (full_path, w1).
      let (s1, fd) = h.open2 (h.clear_errno w1.host) full_path o_wronly_creat s_irwxu in
      let (s2, put) = h.write s1 fd (l.encode_mdata m.mdata) in
      let (s3, closed) = h.close s2 fd in
      some (
        if lt_ℤ fd (pos 0)
        then answer h w1 (refused s1 fd) s1
        else answer h w1 (write_result put) s3)

  -- The size in the file is read, and replaced by a larger one.
  unfoldable pub store_size : S → (fd size : ℤ) → S × ℤ
  store_size s fd size =
      let (s1, at) = h.lseek s fd l.offset_of_file_size in
      let (s2, got) = h.read s1 fd l.sizeof_size in
      let (s3, at') = h.lseek s2 fd l.offset_of_file_size in
      let (s4, put) = h.write s3 fd (l.encode_size size) in
      if lt_ℤ (pos 0) (read_result got) && lt_ℤ (l.decode_size (bytes_read got)) size
      then (s4, write_result put)
      else (s2, read_result got)

  unfoldable pub op_write_mdata_file_size : World S → FileSizeMsg → Option (World S)
  op_write_mdata_file_size w m = read_path w m.path_len m.path >>= λ (full_path, w1).
      let (s1, fd) = h.open_path (h.clear_errno w1.host) full_path o_rdwr in
      let (s2, ret) = store_size s1 fd m.size in
      let (s3, closed) = h.close s2 fd in
      some (if lt_ℤ fd (pos 0) then answer h w1 (refused s1 fd) s1 else answer h w1 ret s3)
