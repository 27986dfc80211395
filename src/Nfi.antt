-- ===== src/Nfi.antt =====
-- The network file interface to a server, of
-- src/xpn_client/nfi/nfi_xpn_server/nfi_xpn_server.c: the connection, and how a request is sent.
-- Arguments are taken not to be NULL and memory to suffice. A `none` stands for an access through
-- NULL or outside of an array, or for an `int` that overflows.
pub mod Files
pub mod Dirs
pub mod Transfer
pub mod Mdata
pub mod Local
use xpn.Prelude.{
  ℕ, ◌-◌, Bool, true, false, not, Option, none, some, List, ltb, leb, ◌==◌, if◌then◌else◌, take,
  drop, length, replicate, ◌++◌, ◌>>=◌,
}
use xpn.Prelude.Int.{ℤ, pos, negsuc, lt_ℤ}
use xpn.Policy.Grouping.{Bytes}
use xpn.Protocol.{
  Op, setattr_file, disconnect, finalize, Fields, Reply, Status, xpn_path_max, open_file,
  creat_file,
}

-- What lies under the client, whose state is a value of `L`: the calls of nfi_xpn_server_comm.c and
-- ParseURL. A `none` is a negative result; a reply comes with the number of its bytes, and
-- `parse_url` gives the result and the directory.
pub record Link (L : Type 0) : Type 0 where
  pub connect : L → L × ℤ
  pub comm_disconnect : L → L
  pub comm_write_operation : L → Op → L × ℤ
  pub comm_write_fields : L → (op : Op) → Fields op → L × ℤ
  pub comm_write_data : L → Bytes → L × Option ℕ
  pub comm_read_reply : L → L × Option (ℕ × Reply)
  pub comm_read_data : L → (size : ℕ) → L × Option Bytes
  pub parse_url : Bytes → ℤ × Bytes
  pub is_mq_server : Bytes → Bool
  pub mq_publish : L → (path buffer : Bytes) → (offset size : ℕ) → L × ℤ

-- What is used of `struct nfi_server`; `private_info` says whether it is there.
pub record Serv (L : Type 0) : Type 0 where
  pub link : L
  pub private_info : Bool
  pub keep_connected : ℕ
  pub xpn_session_file : ℕ
  pub xpn_session_dir : ℕ

-- `struct nfi_fhandle` with its `struct nfi_xpn_server_fhandle`; `is_dir` is NFIDIR.
pub record Fhandle : Type 0 where
  pub url : Bytes
  pub has_mqtt : ℕ
  pub is_dir : Bool
  pub path : Bytes
  pub fd : ℤ
  pub telldir : ℤ
  pub dir : ℕ

-- The result of a function and `errno`, when it is set.
pub record Answer : Type 0 where
  pub ret : ℤ
  pub errno : Option ℤ

-- EINVAL, EEXIST and ENOTDIR, as on Linux.
abbrev pub einval : ℤ
einval = pos 22

abbrev pub eexist : ℤ
eexist = pos 17

abbrev pub enotdir : ℤ
enotdir = pos 20

abbrev pub bad : ℤ → Answer
bad e = record { ret = negsuc 0; errno = some e }

abbrev pub minus_one : Answer
minus_one = record { ret = negsuc 0; errno = none }

-- `if (status.ret < 0) errno = status.server_errno;`
abbrev pub errno_of : Status → Option ℤ
errno_of s = if lt_ℤ s.ret (pos 0) then some s.server_errno else none

-- The 128 characters of the path in a message: `bzero`, and then `memccpy` up to the end of the
-- string or of the array.
unfoldable pub path_field : Bytes → Bytes
path_field dir =
    let copied = if ltb (length dir) xpn_path_max then length dir else xpn_path_max in
    take copied dir ++ replicate (xpn_path_max - copied) 0

-- The codes that `nfi_write_operation` has no case for.
abbrev pub has_fields : Op → Bool
has_fields setattr_file = false
has_fields disconnect = false
has_fields finalize = false
has_fields op = true

module _ {L : Type 0} (k : Link L) where
  -- `nfi_xpn_server_disconnect`
  unfoldable pub serv_disconnect : Serv L → Serv L
  serv_disconnect s = if s.private_info then record s { link = k.comm_disconnect s.link } else s

  -- `if (serv->keep_connected == 0) nfi_xpn_server_disconnect(serv);`
  abbrev pub leave : Serv L → Serv L
  leave s = if s.keep_connected == 0 then serv_disconnect s else s

  -- `nfi_xpn_server_reconnect`, which hands `private_info` on to a function that looks into it.
  unfoldable pub reconnect : Serv L → Option (Serv L × ℤ)
  reconnect s =
      let (l, ret) = k.connect s.link in
      if s.private_info
      then some (record s { link = l }, if lt_ℤ ret (pos 0) then negsuc 0 else pos 0)
      else none

  -- `nfi_xpn_server_keep_connected`, whose result is not looked at.
  unfoldable pub keep_connected : Serv L → Option (Serv L)
  keep_connected s =
      let connected = reconnect s >>= λ (s1, ret).
      some (if lt_ℤ ret (pos 0) then record s1 { private_info = false } else s1) in
      if s.keep_connected == 0 then connected else some s

  -- The beginning of every function: `nfi_xpn_server_keep_connected` and the check that
  -- `private_info` is there; `refused` is the function's result when it is not.
  abbrev pub with_server {ℓ} :
      {A : Type ℓ} → (refused : Serv L → A) → Serv L → (Serv L → Option A) → Option A
  with_server refused s body = keep_connected s >>= λ s1.
      let rest = body s1 in if s1.private_info then rest else some (refused s1)

  -- `nfi_write_operation`
  unfoldable pub nfi_write_operation : L → (op : Op) → Fields op → L × ℤ
  nfi_write_operation l op m =
      let (l1, ret) = k.comm_write_operation l op in
      if lt_ℤ ret (pos 0)
      then (l1, negsuc 0)
      else if has_fields op
      then k.comm_write_fields l1 op m
      else (l1, ret)

  -- A structure that is read must be of the sort that is waited for.
  abbrev pub sort_reply {ℓ} :
      {A : Type ℓ} → (sort : Reply → Option A) → L × Option (ℕ × Reply) → L × Option (ℕ × A)
  sort_reply sort (l, none) = (l, none)
  sort_reply sort (l, some (n, r)) = (l, sort r >>= λ a. some (n, a))

  -- `nfi_xpn_server_do_request`: the reply, or `none` for its -1.
  unfoldable pub do_request {ℓ} :
      {A : Type ℓ} → (sort : Reply → Option A) → L → (op : Op) → Fields op → L × Option (ℕ × A)
  do_request sort l op m =
      let (l1, ret) = nfi_write_operation l op m in
      let answered = sort_reply sort (k.comm_read_reply l1) in
      if lt_ℤ ret (pos 0) then (l1, none) else answered

  -- A path's bytes behind the first 128, and then the reply.
  abbrev pub send_tail {ℓ} :
      {A : Type ℓ} → (sort : Reply → Option A) → L × Option ℕ → L × Option (ℕ × A)
  send_tail sort (l, none) = (l, none)
  send_tail sort (l, some n) = sort_reply sort (k.comm_read_reply l)

  abbrev pub result_or {ℓ} : {A : Type ℓ} → (ret : ℤ) (old : A) → Option (ℕ × A) → ℤ × A
  result_or ret old none = (ret, old)
  result_or ret old (some (n, a)) = (ret, a)

  abbrev pub result_read {ℓ} : {A : Type ℓ} → Option (ℕ × A) → Option (ℤ × A)
  result_read none = none
  result_read (some (n, a)) = some (pos n, a)

  -- How a message with one path is sent and answered, the same in every function: a path of 128
  -- characters and more with `nfi_write_operation` and its rest, for which a failure is a `none`,
  -- and a shorter one with `nfi_xpn_server_do_request`, whose result is not looked at: the structure
  -- then keeps what it holds, `old`. The number is what the function's `ret` holds.
  unfoldable pub ask {ℓ} :
      {A : Type ℓ}
      → (sort : Reply → Option A) (old : A) (ret : ℤ) → L
      → (op : Op) → Fields op
      → (dir : Bytes) → L × Option (ℤ × A)
  ask sort old ret l op m dir =
      let (l1, written) = nfi_write_operation l op m in
      let (l2, long) = send_tail sort (k.comm_write_data l1 (drop xpn_path_max dir)) in
      let (l3, short) = do_request sort l op m in
      if ltb (length dir) xpn_path_max
      then (l3, some (result_or ret old short))
      else if lt_ℤ written (pos 0)
      then (l1, none)
      else (l2, result_read long)
