-- ===== src/Nfi/Files.antt =====
-- Opening, closing, removing and renaming of files, and their attributes, of
-- src/xpn_client/nfi/nfi_xpn_server/nfi_xpn_server.c.
use xpn.Prelude.{ℕ, false, ◌&&◌, Option, none, some, ltb, ◌==◌, if◌then◌else◌, drop, length}
use xpn.Prelude.Int.{ℤ, pos, lt_ℤ}
use xpn.Policy.Grouping.{Bytes}
use xpn.Protocol.{
  open_file, close_file, rm_file, rename_file, getattr_file, Reply, Status, status, AttrReq,
  attr_req, xpn_path_max, RenameMsg, Stat,
}
use xpn.Nfi.{
  Link, Serv, Fhandle, Answer, einval, bad, minus_one, errno_of, path_field, leave, with_server,
  nfi_write_operation, do_request, sort_reply, ask, result_or,
}

abbrev pub as_status : Reply → Option Status
as_status (status s) = some s
as_status r = none

abbrev pub as_attr : Reply → Option AttrReq
as_attr (attr_req a) = some a
as_attr r = none

-- O_WRONLY | O_CREAT | O_TRUNC, as on Linux.
abbrev pub creat_flags : ℕ
creat_flags = 577

module _ {L : Type 0} (k : Link L) where
  abbrev pub Result : Type 0
  Result = Serv L × Answer

  abbrev pub no_server : Serv L → Result
  no_server s = (s, bad einval)

  -- The part of a function behind ParseURL.
  abbrev pub with_dir {ℓ} :
      {A : Type ℓ} → (refused : Serv L → A) → Serv L → Bytes → (ℤ → Bytes → Option A) → Option A
  with_dir refused s url body =
      let (ret, dir) = k.parse_url url in
      let rest = body ret dir in if lt_ℤ ret (pos 0) then some (refused (leave k s)) else rest

  -- What a function that returns `ret` makes of an answer.
  abbrev pub end_with_ret : Serv L → L × Option (ℤ × Status) → Option Result
  end_with_ret s (l, none) = some (record s { link = l }, minus_one)
  end_with_ret s (l, some (ret, st)) =
      some (leave k (record s { link = l }), record { ret = ret; errno = errno_of st })

  -- The same for a function that returns the status.
  abbrev pub end_with_status : Serv L → L × Option (ℤ × Status) → Option Result
  end_with_status s (l, none) = some (record s { link = l }, minus_one)
  end_with_status s (l, some (ret, st)) =
      some (leave k (record s { link = l }), record { ret = st.ret; errno = errno_of st })

  abbrev pub Opened : Type 0
  Opened = Serv L × Answer × Option Fhandle

  abbrev pub not_opened : Serv L → Opened
  not_opened s = (s, bad einval, none)

  abbrev pub end_open : Serv L → Fhandle → L × Option (ℤ × Status) → Option Opened
  end_open s fh (l, none) = some (record s { link = l }, minus_one, none)
  end_open s fh (l, some (ret, st)) =
      let s1 = leave k (record s { link = l }) in
      some (
        if lt_ℤ st.ret (pos 0)
        then (s1, bad st.server_errno, none)
        else (s1, record { ret = pos 0; errno = none }, some (record fh { fd = st.ret })))

  -- `nfi_xpn_server_open`. `old` is the uninitialised status.
  unfoldable pub nfi_open : (old : Status) → Serv L → (url : Bytes) (flags mode : ℕ) → Option Opened
  nfi_open old s url flags mode = with_server k not_opened s λ s1.
      with_dir not_opened s1 url λ ret dir.
        let has_mqtt = if k.is_mq_server url then 1 else 0 in
        let fh : Fhandle = record {
          url = url;
          has_mqtt = has_mqtt;
          is_dir = false;
          path = dir;
          fd = pos 0;
          telldir = pos 0;
          dir = 0;
        } in
        end_open s1 fh (
          ask k as_status old ret s1.link open_file
            (record {
              flags = flags;
              mode = mode;
              xpn_session = s1.xpn_session_file;
              file_type = has_mqtt;
              path_len = length dir;
              path = path_field dir;
            })
            dir)

  -- `nfi_xpn_server_create`
  unfoldable pub nfi_create : (old : Status) → Serv L → (url : Bytes) (mode : ℕ) → Option Opened
  nfi_create old s url mode = nfi_open old s url creat_flags mode

  -- `nfi_xpn_server_close`; `dir` is not set in its message.
  unfoldable pub nfi_close : (old : Status) (old_dir : ℕ) → Serv L → Fhandle → Option Result
  nfi_close old old_dir s fh = with_server k no_server s λ s1.
      let answered = end_with_status s1 (
        ask k as_status old (pos 0) s1.link close_file
          (record {
            fd = fh.fd;
            file_type = fh.has_mqtt;
            dir = old_dir;
            path_len = length fh.path;
            path = path_field fh.path;
          })
          fh.path) in
      if s1.xpn_session_file == 1
      then answered
      else some (leave k s1, record { ret = pos 0; errno = none })

  -- `nfi_xpn_server_remove`
  unfoldable pub nfi_remove : (old : Status) → Serv L → (url : Bytes) → Option Result
  nfi_remove old s url = with_server k no_server s λ s1. with_dir no_server s1 url λ ret dir.
      end_with_ret s1 (
        ask k as_status old ret s1.link rm_file
          (record { path_len = length dir; path = path_field dir }) dir)

  -- The rest of a path of 128 characters or more, if it is one; `none` for a failure.
  abbrev pub write_rest : L → (dir : Bytes) → L × Option ℕ
  write_rest l dir =
      let written = k.comm_write_data l (drop xpn_path_max dir) in
      if ltb (length dir) xpn_path_max then (l, some 0) else written

  abbrev pub rest_and_reply : L × Option ℕ → L × Option (ℕ × Status)
  rest_and_reply (l, none) = (l, none)
  rest_and_reply (l, some n) = sort_reply k as_status (k.comm_read_reply l)

  abbrev pub two_rests : L × Option ℕ → (dir : Bytes) → L × Option (ℕ × Status)
  two_rests (l, none) dir = (l, none)
  two_rests (l, some n) dir = rest_and_reply (write_rest l dir)

  abbrev pub read_ret : Option (ℕ × Status) → Option (ℤ × Status)
  read_ret none = none
  read_ret (some (n, st)) = some (pos n, st)

  -- `nfi_xpn_server_rename`, whose message has two paths.
  unfoldable pub nfi_rename : (old : Status) → Serv L → (old_url new_url : Bytes) → Option Result
  nfi_rename old s old_url new_url = with_server k no_server s λ s1.
      with_dir no_server s1 old_url λ ret_old old_path.
        with_dir no_server s1 new_url λ ret new_path.
          let m : RenameMsg = record {
            old_url_len = length old_path;
            new_url_len = length new_path;
            old_url = path_field old_path;
            new_url = path_field new_path;
          } in
          let (l1, written) = nfi_write_operation k s1.link rename_file m in
          let (l2, long) = two_rests (write_rest l1 old_path) new_path in
          let (l3, short) = do_request k as_status s1.link rename_file m in
          end_with_ret s1 (
            if ltb (length old_path) xpn_path_max && ltb (length new_path) xpn_path_max
            then (l3, some (result_or k ret old short))
            else if lt_ℤ written (pos 0)
            then (l1, none)
            else (l2, read_ret long))

  abbrev pub end_getattr :
      Serv L → L × Option (ℤ × AttrReq) → Option (Serv L × Answer × Option Stat)
  end_getattr s (l, none) = some (record s { link = l }, minus_one, none)
  end_getattr s (l, some (ret, req)) = some (
    leave k (record s { link = l }),
    record { ret = req.status; errno = errno_of req.status_req },
    some req.attr,
  )

  -- `nfi_xpn_server_getattr`. The attributes are handed over as they come, those of a `struct stat`.
  unfoldable pub nfi_getattr :
      (old : AttrReq) → Serv L → Fhandle → Option (Serv L × Answer × Option Stat)
  nfi_getattr old s fh =
      with_server k (λ t. (t, bad einval, none)) s
        λ s1.
          with_dir (λ t. (t, bad einval, none)) s1 fh.url
            λ ret dir. end_getattr s1 (
              ask k as_attr old ret s1.link getattr_file
                (record { path_len = length dir; path = path_field dir }) dir)

  -- `nfi_xpn_server_setattr`, which sends nothing.
  unfoldable pub nfi_setattr : Serv L → Option Result
  nfi_setattr s =
      with_server k no_server s λ s1. some (leave k s1, record { ret = pos 0; errno = none })
