-- ===== src/Nfi/Dirs.antt =====
-- Directories, of src/xpn_client/nfi/nfi_xpn_server/nfi_xpn_server.c.
use xpn.Prelude.{ℕ, true, not, ◌&&◌, Option, none, some, [], ◌==◌, if◌then◌else◌, length}
use xpn.Prelude.Int.{ℤ, pos, negsuc, lt_ℤ, eq_ℤ}
use xpn.Policy.Grouping.{Bytes}
use xpn.Protocol.{
  mkdir_dir, opendir_dir, readdir_dir, closedir_dir, rmdir_dir, Reply, Status, OpendirReq,
  opendir_req, ReaddirReq, readdir_req,
}
use xpn.Nfi.{
  Link, Serv, Fhandle, Answer, eexist, enotdir, einval, bad, minus_one, errno_of, path_field, leave,
  with_server, ask, do_request, result_or,
}
use xpn.Nfi.Files.{Result, no_server, with_dir, as_status, Opened, not_opened}

abbrev pub as_opendir : Reply → Option OpendirReq
as_opendir (opendir_req a) = some a
as_opendir r = none

abbrev pub as_readdir : Reply → Option ReaddirReq
as_readdir (readdir_req a) = some a
as_readdir r = none

module _ {L : Type 0} (k : Link L) where
  abbrev pub end_mkdir : Serv L → L × Option (ℤ × Status) → Option (Result k)
  end_mkdir s (l, none) = some (record s { link = l }, minus_one)
  end_mkdir s (l, some (ret, st)) =
      let s1 = leave k (record s { link = l }) in
      some (
        if lt_ℤ st.ret (pos 0) && not (eq_ℤ st.server_errno eexist)
        then (s1, bad st.server_errno)
        else (s1, record { ret = ret; errno = errno_of st }))

  -- `nfi_xpn_server_mkdir`; only the mode is set of the flags, and `xpn_session` and `file_type` are
  -- what the stack holds, `old_flags`.
  unfoldable pub nfi_mkdir :
      (old : Status) (old_flags : ℕ) → Serv L → (url : Bytes) (mode : ℕ) → Option (Result k)
  nfi_mkdir old old_flags s url mode = with_server k (no_server k) s λ s1.
      with_dir k (no_server k) s1 url λ ret dir. end_mkdir s1 (
        ask k as_status old ret s1.link mkdir_dir
          (record {
            flags = old_flags;
            mode = mode;
            xpn_session = old_flags;
            file_type = old_flags;
            path_len = length dir;
            path = path_field dir;
          })
          dir)

  abbrev pub end_opendir : Serv L → Fhandle → L × Option (ℤ × OpendirReq) → Option (Opened k)
  end_opendir s fh (l, none) = some (record s { link = l }, minus_one, none)
  end_opendir s fh (l, some (ret, req)) =
      let s1 = leave k (record s { link = l }) in
      let fh1 = record fh { telldir = req.status.ret; dir = req.dir } in
      some (
        if lt_ℤ req.status.ret (pos 0)
        then (s1, bad req.status.server_errno, none)
        else (s1, record { ret = pos 0; errno = none }, some fh1))

  -- `nfi_xpn_server_opendir`. `old` is the uninitialised answer, `old_flags` what is not set of the
  -- message. `has_mqtt` and `fd` are zero.
  unfoldable pub nfi_opendir :
      (old : OpendirReq) (old_flags : ℕ) → Serv L → (url : Bytes) → Option (Opened k)
  nfi_opendir old old_flags s url = with_server k (not_opened k) s λ s1.
      with_dir k (not_opened k) s1 url λ ret dir.
        let fh : Fhandle = record {
          url = url;
          has_mqtt = 0;
          is_dir = true;
          path = dir;
          fd = pos 0;
          telldir = pos 0;
          dir = 0;
        } in
        end_opendir s1 fh (
          ask k as_opendir old ret s1.link opendir_dir
            (record {
              flags = old_flags;
              mode = old_flags;
              xpn_session = s1.xpn_session_dir;
              file_type = old_flags;
              path_len = length dir;
              path = path_field dir;
            })
            dir)

  -- The server, the result, the handle and the entry that is filled in.
  abbrev pub Entry : Type 0
  Entry = Serv L × Answer × Fhandle × Bytes

  abbrev pub end_readdir : Serv L → Fhandle → L × Option (ℤ × ReaddirReq) → Option Entry
  end_readdir s fh (l, none) = some (record s { link = l }, minus_one, fh, [])
  end_readdir s fh (l, some (ret, req)) =
      let s1 = leave k (record s { link = l }) in
      let fh1 = if lt_ℤ req.status.ret (pos 0) then fh else record fh { telldir = req.telldir } in
      let err = errno_of req.status in
      some (
        if req.end == 0
        then (s1, record { ret = negsuc 0; errno = err }, fh1, [])
        else (s1, record { ret = pos 0; errno = err }, fh1, req.ret))

  -- `nfi_xpn_server_readdir`
  unfoldable pub nfi_readdir : (old : ReaddirReq) → Serv L → Fhandle → Option Entry
  nfi_readdir old s fh =
      with_server k (λ t. (t, bad einval, fh, [])) s
        λ s1.
          let answered = end_readdir s1 fh (
            ask k as_readdir old (pos 0) s1.link readdir_dir
              (record {
                telldir = fh.telldir;
                dir = fh.dir;
                xpn_session = s1.xpn_session_dir;
                path_len = length fh.path;
                path = path_field fh.path;
              })
              fh.path) in
          if fh.is_dir then answered else some (leave k s1, bad enotdir, fh, [])

  abbrev pub end_closedir : Serv L → Status → L × Option (ℕ × Status) → Option (Result k)
  end_closedir s old (l, answer) =
      let (ret, st) = result_or k (pos 0) old answer in
      some (leave k (record s { link = l }), record { ret = st.ret; errno = errno_of st })

  -- `nfi_xpn_server_closedir`, which sends no path; the other fields are what the stack holds.
  unfoldable pub nfi_closedir :
      (old : Status) (old_num : ℕ) (old_path : Bytes) → Serv L → Fhandle → Option (Result k)
  nfi_closedir old old_num old_path s fh =
      let request = with_server k (no_server k) s λ s1. end_closedir s1 old (
        do_request k as_status s1.link closedir_dir (record {
          fd = pos old_num;
          file_type = old_num;
          dir = fh.dir;
          path_len = old_num;
          path = old_path;
        })) in
      if s.xpn_session_dir == 1
      then request
      else some (leave k s, record { ret = pos 0; errno = none })

  abbrev pub end_rmdir : Serv L → L × Option (ℤ × Status) → Option (Result k)
  end_rmdir s (l, none) = some (record s { link = l }, minus_one)
  end_rmdir s (l, some (ret, st)) = some (
    leave k (record s { link = l }),
    if lt_ℤ st.ret (pos 0)
        then record { ret = st.ret; errno = some st.server_errno }
        else record { ret = pos 0; errno = none },
  )

  -- `nfi_xpn_server_rmdir`
  unfoldable pub nfi_rmdir : (old : Status) → Serv L → (url : Bytes) → Option (Result k)
  nfi_rmdir old s url = with_server k (no_server k) s λ s1.
      with_dir k (no_server k) s1 url λ ret dir. end_rmdir s1 (
        ask k as_status old ret s1.link rmdir_dir
          (record { path_len = length dir; path = path_field dir }) dir)

  -- `nfi_xpn_server_statfs`, which does nothing but to disconnect.
  unfoldable pub nfi_statfs : Serv L → Result k
  nfi_statfs s = (leave k s, record { ret = pos 0; errno = none })
