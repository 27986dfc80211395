-- ===== src/Nfi/Local/Dirs.antt =====
-- Directories, attributes and metadata of src/xpn_client/nfi/nfi_local/nfi_local.c.
use xpn.Prelude.{ℕ, Bool, true, not, ◌&&◌, Option, none, some, ◌==◌, if◌then◌else◌, []}
use xpn.Prelude.Int.{ℤ, pos, lt_ℤ, eq_ℤ}
use xpn.Metadata.{Metadata}
use xpn.Policy.Grouping.{Bytes}
use xpn.Server.{}
use xpn.Server.Mdata.{
  eisdir, o_rdwr, o_wronly_creat, s_irwxu, read_result, bytes_read, write_result, checked,
}
use xpn.Nfi.{Fhandle, Answer, einval, eexist, enotdir, bad, minus_one}
use xpn.Nfi.Local.{Local, done, local_dir, refuse}

module _ {S : Type 0} (k : Local S) where
  -- `nfi_local_setattr`, which changes no file.
  unfoldable pub local_setattr : S → S × Answer
  local_setattr s = (k.keep_local s, done (pos 0))

  -- `nfi_local_mkdir`
  unfoldable pub local_mkdir : S → (url : Bytes) (mode : ℕ) → S × Answer
  local_mkdir s url mode = local_dir k (refuse k) s url λ s1 dir.
      let (s2, ret) = k.host.mkdir s1 dir mode in
      if lt_ℤ ret (pos 0) && not (eq_ℤ (k.host.errno s2) eexist)
      then (s2, minus_one)
      else (s2, done ret)

  abbrev pub local_listed : S → (url dir : Bytes) → Option ℕ → S × Answer × Option Fhandle
  local_listed s url dir none = (s, minus_one, none)
  local_listed s url dir (some d) =
      let (s1, at) = k.host.telldir s (some d) in
      let closed = (k.host.closedir s1 (some d)).0 in
      let fh : Fhandle = record {
        url = url;
        has_mqtt = 0;
        is_dir = true;
        path = dir;
        fd = pos 0;
        telldir = if k.session_dir == 0 then at else pos 0;
        dir = d;
      } in
      (if k.session_dir == 0 then closed else s, done (pos 0), some fh)

  -- `nfi_local_opendir`
  unfoldable pub local_opendir : S → (url : Bytes) → S × Answer × Option Fhandle
  local_opendir s url =
      local_dir k (λ t. (t, bad einval, none)) s url
        λ s1 dir. let (s2, d) = k.host.opendir s1 dir in local_listed s2 url dir d

  -- The entry that was read. Where there is none, the directory is not closed.
  abbrev pub local_entry :
      S → (d : Option ℕ) → Fhandle → Option Bytes → S × Answer × Fhandle × Bytes
  local_entry s d fh none = (s, minus_one, fh, [])
  local_entry s d fh (some name) =
      let (s1, at) = k.host.telldir s d in
      ((k.host.closedir s1 d).0, done (pos 0), record fh { telldir = at }, name)

  -- `nfi_local_readdir`, which opens the directory anew, with a session too.
  unfoldable pub local_readdir : S → Fhandle → S × Answer × Fhandle × Bytes
  local_readdir s fh =
      let (s1, d) = k.host.opendir (k.keep_local s) fh.path in
      let s2 = k.host.clear_errno (k.host.seekdir s1 d fh.telldir) in
      let (s3, got) = k.host.readdir s2 d in
      if fh.is_dir then local_entry s3 d fh got else (s, bad enotdir, fh, [])

  -- `nfi_local_closedir`
  unfoldable pub local_closedir : S → Fhandle → S × Answer
  local_closedir s fh =
      let (s1, ret) = k.host.closedir (k.keep_local s) (some fh.dir) in
      if k.session_dir == 1 then (s1, done ret) else (s, done (pos 0))

  -- `nfi_local_rmdir`
  unfoldable pub local_rmdir : S → (url : Bytes) → S × Answer
  local_rmdir s url = local_dir k (refuse k) s url λ s1 dir.
      let (s2, ret) = k.host.rmdir s1 dir in
      (s2, if lt_ℤ ret (pos 0) then minus_one else done (pos 0))

  -- `nfi_local_statfs`
  unfoldable pub local_statfs : S → S × Answer
  local_statfs s = (s, done (pos 0))

  -- The result for a file that cannot be opened: 0 for a directory.
  abbrev pub local_refused : S → Answer
  local_refused s = if eq_ℤ (k.host.errno s) eisdir then done (pos 0) else minus_one

  -- `nfi_local_read_mdata`; `none` where the caller's metadata are left alone. `errno` is not cleared
  -- before the file is opened.
  unfoldable pub local_read_mdata : S → (url : Bytes) → S × Answer × Option Metadata
  local_read_mdata s url =
      local_dir k (λ t. (t, bad einval, none)) s url
        λ s1 dir.
          let (s2, fd) = k.host.open_path s1 dir o_rdwr in
          let (s3, got) = k.host.read s2 fd k.layout.sizeof_metadata in
          let s4 = (k.host.close s3 fd).0 in
          if lt_ℤ fd (pos 0) then (s2, local_refused s2, some k.layout.zeros) else (
            s4,
            done (read_result got),
            some (checked k.host k.layout (k.layout.decode_mdata (bytes_read got))),
          )

  abbrev pub local_sent : S → Option (S × ℤ) → S × Answer
  local_sent s none = (s, minus_one)
  local_sent s (some (s1, ret)) = (s1, done ret)

  -- `nfi_local_write_mdata`; the size alone is sent to the server.
  unfoldable pub local_write_mdata :
      S → (url : Bytes) → Metadata → (only_file_size : Bool) → S × Answer
  local_write_mdata s url mdata only_file_size =
      let written = local_dir k (refuse k) s url λ s1 dir.
        (let (s2, fd) = k.host.open2 s1 dir o_wronly_creat s_irwxu in
          let (s3, put) = k.host.write s2 fd (k.layout.encode_mdata mdata) in
          let s4 = (k.host.close s3 fd).0 in
          if lt_ℤ fd (pos 0) then (s2, local_refused s2) else (s4, done (write_result put))) in
      if only_file_size then local_sent s (k.xpn_write_mdata s url mdata) else written
