-- ===== src/Nfi/Local.antt =====
-- The functions of src/xpn_client/nfi/nfi_local/nfi_local.c, which do on the client's own file system
-- what a server does when it runs on the same machine. Arguments are taken not to be NULL, the
-- interface to be initialised and memory to suffice. `errno` is that of the state, but where a function sets it.
pub mod Dirs
use xpn.Prelude.{
  ℕ, Bool, true, false, not, ◌&&◌, Option, none, some, ◌==◌, if◌then◌else◌, length, [], ◌>>=◌,
}
use xpn.Prelude.Int.{ℤ, pos, negsuc, lt_ℤ, eq_ℤ}
use xpn.Metadata.{Metadata, check_magic_number}
use xpn.Policy.Grouping.{Bytes, memcpy}
use xpn.Protocol.{Stat}
use xpn.Server.{Host}
use xpn.Server.Mdata.{
  Layout, eisdir, o_rdwr, o_wronly_creat, s_irwxu, read_result, bytes_read, write_result, checked,
}
use xpn.Nfi.{Fhandle, Answer, einval, eexist, enotdir, bad, minus_one}
use xpn.Nfi.Files.{creat_flags}

-- The machine, with what the functions use beside it: ParseURL, `nfi_local_keep_connected`, and
-- `nfi_xpn_server_write_mdata` on the server behind the interface, `none` where there is none.
pub record Local (S : Type 0) : Type 0 where
  pub host : Host S
  pub layout : Layout
  pub parse_url : Bytes → ℤ × Bytes
  pub keep_local : S → S
  pub xpn_write_mdata : S → (url : Bytes) → Metadata → Option (S × ℤ)
  pub session_file : ℕ
  pub session_dir : ℕ

abbrev pub done : ℤ → Answer
done ret = record { ret = ret; errno = none }

-- A negative result is returned as -1.
abbrev pub done_or_fail : ℤ → Answer
done_or_fail ret = if lt_ℤ ret (pos 0) then minus_one else done ret

module _ {S : Type 0} (k : Local S) where
  -- The part of a function behind ParseURL.
  abbrev pub local_dir {ℓ} : {A : Type ℓ} → (refused : S → A) → S → Bytes → (S → Bytes → A) → A
  local_dir refused s url body =
      let (ret, dir) = k.parse_url url in
      let s1 = k.keep_local s in if lt_ℤ ret (pos 0) then refused s1 else body s1 dir

  abbrev pub refuse : S → S × Answer
  refuse s = (s, bad einval)

  -- `nfi_local_open`; with no session the file is closed again, and the handle keeps its number.
  unfoldable pub local_open : S → (url : Bytes) (flags mode : ℕ) → S × Answer × Option Fhandle
  local_open s url flags mode =
      local_dir (λ t. (t, bad einval, none)) s url
        λ s1 dir.
          let (s2, ret) = k.host.open2 s1 dir flags mode in
          let closed = (k.host.close s2 ret).0 in
          let fh : Fhandle = record {
            url = url;
            has_mqtt = 0;
            is_dir = false;
            path = dir;
            fd = ret;
            telldir = pos 0;
            dir = 0;
          } in
          if lt_ℤ ret (pos 0)
          then (s2, minus_one, none)
          else (if k.session_file == 0 then closed else s2, done (pos 0), some fh)

  -- `nfi_local_create`
  unfoldable pub local_create : S → (url : Bytes) (mode : ℕ) → S × Answer × Option Fhandle
  local_create s url mode = local_open s url creat_flags mode

  -- The descriptor of a handle, or that of the file that is opened for the call.
  abbrev pub local_fd : S → Fhandle → (flags : ℕ) → S × ℤ
  local_fd s fh flags = if k.session_file == 1 then (s, fh.fd) else k.host.open_path s fh.path flags

  -- What a read makes of the buffer; `none` for a write behind its end.
  abbrev pub local_store : S → Bytes → Option Bytes → Option (S × Answer × Bytes)
  local_store s buffer none = some (s, minus_one, buffer)
  local_store s buffer (some bs) =
      memcpy 0 0 (length bs) buffer bs >>= λ b. some (s, done (pos (length bs)), b)

  -- `nfi_local_read`
  unfoldable pub local_read :
      S → Fhandle → (buffer : Bytes) (offset size : ℕ) → Option (S × Answer × Bytes)
  local_read s fh buffer offset size =
      let (s1, fd) = local_fd (k.keep_local s) fh 0 in
      let (s2, at) = k.host.lseek s1 fd offset in
      let (s3, got) = k.host.read s2 fd size in
      let end : S → S = λ t. if k.session_file == 0 then (k.host.close t fd).0 else t in
      let stored = local_store (end s3) buffer got in
      if lt_ℤ fd (pos 0)
      then some (s1, minus_one, buffer)
      else if lt_ℤ at (pos 0)
      then some (end s2, minus_one, buffer)
      else stored

  -- `nfi_local_write`; `bs` are the first `size` bytes of the buffer.
  unfoldable pub local_write : S → Fhandle → (bs : Bytes) (offset : ℕ) → S × Answer
  local_write s fh bs offset =
      let (s1, fd) = local_fd (k.keep_local s) fh 1 in
      let (s2, at) = k.host.lseek s1 fd offset in
      let (s3, put) = k.host.write s2 fd bs in
      let end : S → S =
        λ t. if k.session_file == 1 then k.host.fsync t fd else (k.host.close t fd).0 in
      if length bs == 0
      then (s, done (pos 0))
      else if lt_ℤ fd (pos 0)
      then (s1, minus_one)
      else if lt_ℤ at (pos 0)
      then (end s2, minus_one)
      else (end s3, done (write_result put))

  -- `nfi_local_close`
  unfoldable pub local_close : S → Fhandle → S × Answer
  local_close s fh =
      let (s1, ret) = k.host.close (k.keep_local s) fh.fd in
      if k.session_file == 1 then (s1, done ret) else (s, done (pos 0))

  -- `nfi_local_remove`
  unfoldable pub local_remove : S → (url : Bytes) → S × Answer
  local_remove s url =
      local_dir refuse s url
        λ s1 dir. let (s2, ret) = k.host.unlink s1 dir in (s2, done_or_fail ret)

  -- `nfi_local_rename`
  unfoldable pub local_rename : S → (old_url new_url : Bytes) → S × Answer
  local_rename s old_url new_url =
      let (ret_old, old_path) = k.parse_url old_url in
      let (ret_new, new_path) = k.parse_url new_url in
      let s1 = k.keep_local s in
      let (s2, ret) = k.host.rename s1 old_path new_path in
      if lt_ℤ ret_old (pos 0)
      then refuse s1
      else if lt_ℤ ret_new (pos 0)
      then refuse s1
      else (s2, done_or_fail ret)

  -- `nfi_local_getattr`. The attributes are handed over as they come, those of a `struct stat`.
  unfoldable pub local_getattr : S → Fhandle → S × Answer × Option Stat
  local_getattr s fh =
      local_dir (λ t. (t, bad einval, none)) s fh.url
        λ s1 dir.
          let (s2, ret, attr) = k.host.stat s1 dir in
          (s2, done ret, if lt_ℤ ret (pos 0) then none else some attr)
