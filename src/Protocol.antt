-- ===== src/Protocol.antt =====
-- What client and server say to each other: the structures of include/xpn_server/xpn_server_ops.h,
-- the codes of the operations, and the stream that carries them.
use xpn.Prelude.{
  ap, ◌≤◌, take, drop, arith, ℕ, zero, suc, ◌≡◌, refl, Option, none, some, List, [], ◌∷◌, ◌++◌,
  ◌>>=◌, map, length,
}
use xpn.Prelude.Int.{ℤ}
use xpn.Metadata.{Metadata}
use xpn.Policy.Grouping.{Bytes}

-- XPN_PATH_MAX, the room for a path in a message; PATH_MAX; MAX_BUFFER_SIZE.
abbrev pub xpn_path_max : ℕ
xpn_path_max = 128

abbrev pub path_max : ℕ
path_max = 4096

abbrev pub max_buffer_size : ℕ
max_buffer_size = 1048576

-- `struct st_xpn_server_status`
pub record Status : Type 0 where
  pub ret : ℤ
  pub server_errno : ℤ

-- The structures of the requests. An array of characters is a list, a `DIR *` that travels is a
-- number, and the padding is left out.
pub record PathFlags : Type 0 where
  pub flags : ℕ
  pub mode : ℕ
  pub xpn_session : ℕ
  pub file_type : ℕ
  pub path_len : ℕ
  pub path : Bytes

pub record PathMsg : Type 0 where
  pub path_len : ℕ
  pub path : Bytes

pub record CloseMsg : Type 0 where
  pub fd : ℤ
  pub file_type : ℕ
  pub dir : ℕ
  pub path_len : ℕ
  pub path : Bytes

pub record RwMsg : Type 0 where
  pub fd : ℤ
  pub file_type : ℕ
  pub offset : ℕ
  pub size : ℕ
  pub xpn_session : ℕ
  pub path_len : ℕ
  pub path : Bytes

pub record RenameMsg : Type 0 where
  pub old_url_len : ℕ
  pub new_url_len : ℕ
  pub old_url : Bytes
  pub new_url : Bytes

pub record ReaddirMsg : Type 0 where
  pub telldir : ℤ
  pub dir : ℕ
  pub xpn_session : ℕ
  pub path_len : ℕ
  pub path : Bytes

pub record WriteMdataMsg : Type 0 where
  pub mdata : Metadata
  pub path_len : ℕ
  pub path : Bytes

pub record FileSizeMsg : Type 0 where
  pub size : ℤ
  pub path_len : ℕ
  pub path : Bytes

-- `struct stat` and `struct dirent`, as far as they are looked at here.
pub record Stat : Type 0 where
  pub st_mode : ℕ
  pub st_size : ℤ

-- The structures of the answers; `struct dirent` is its name.
pub record RwReq : Type 0 where
  pub size : ℤ
  pub status : Status

pub record AttrReq : Type 0 where
  pub attr : Stat
  pub status : ℤ
  pub status_req : Status

pub record OpendirReq : Type 0 where
  pub dir : ℕ
  pub status : Status

pub record ReaddirReq : Type 0 where
  pub end : ℕ
  pub telldir : ℤ
  pub ret : Bytes
  pub status : Status

pub record MdataReq : Type 0 where
  pub mdata : Metadata
  pub status : Status

-- The codes of the operations.
pub data Op : Type 0 where
  open_file creat_file read_file write_file close_file rm_file rm_file_async : Op
  rename_file getattr_file setattr_file : Op
  mkdir_dir opendir_dir readdir_dir closedir_dir rmdir_dir rmdir_dir_async : Op
  read_mdata write_mdata write_mdata_file_size : Op
  disconnect finalize : Op

-- An empty structure: nothing is sent behind the code.
pub data Nothing : Type 0 where
  nothing : Nothing

-- The member of the union that belongs to a code. Nothing is looked at of `op_setattr`.
abbrev pub Fields : Op → Type 0
Fields open_file = PathFlags
Fields creat_file = PathFlags
Fields read_file = RwMsg
Fields write_file = RwMsg
Fields close_file = CloseMsg
Fields rm_file = PathMsg
Fields rm_file_async = PathMsg
Fields rename_file = RenameMsg
Fields getattr_file = PathMsg
Fields setattr_file = Nothing
Fields mkdir_dir = PathFlags
Fields opendir_dir = PathFlags
Fields readdir_dir = ReaddirMsg
Fields closedir_dir = CloseMsg
Fields rmdir_dir = PathMsg
Fields rmdir_dir_async = PathMsg
Fields read_mdata = PathMsg
Fields write_mdata = WriteMdataMsg
Fields write_mdata_file_size = FileSizeMsg
Fields disconnect = Nothing
Fields finalize = Nothing

-- An answer is one of these structures.
pub data Reply : Type 0 where
  status : Status → Reply
  rw_req : RwReq → Reply
  attr_req : AttrReq → Reply
  opendir_req : OpendirReq → Reply
  readdir_req : ReaddirReq → Reply
  mdata_req : MdataReq → Reply

-- `sizeof` of an answer: the status is two numbers of 32 bits; the size of the others, which hold
-- structures of the C library, is a parameter.
abbrev pub sizeof_reply : (others : Reply → ℕ) → Reply → ℕ
sizeof_reply others (status s) = 8
sizeof_reply others r = others r

-- What is on its way in one direction, first in, first out: the code of an operation with its
-- structure, an answer, or a byte of a path or of a file.
pub data Token : Type 0 where
  request : (op : Op) → Fields op → Token
  reply : Reply → Token
  byte : ℕ → Token

abbrev pub raw : Bytes → List Token
raw bs = map byte bs

-- The next `n` bytes. A read that meets a structure instead, or the end, fails.
unfoldable pub take_bytes : ℕ → List Token → Option (Bytes × List Token)
take_bytes zero ts = some ([], ts)
take_bytes (suc n) [] = none
take_bytes (suc n) (request op m ∷ ts) = none
take_bytes (suc n) (reply r ∷ ts) = none
take_bytes (suc n) (byte b ∷ ts) = take_bytes n ts >>= λ (bs, rest). some (b ∷ bs, rest)

-- The next structure.
unfoldable pub take_reply : List Token → Option (Reply × List Token)
take_reply [] = none
take_reply (request op m ∷ ts) = none
take_reply (reply r ∷ ts) = some (r, ts)
take_reply (byte b ∷ ts) = none

pub take_bytes-raw :
    (bs : Bytes) (ts : List Token) → take_bytes (length bs) (raw bs ++ ts) ≡ some (bs, ts)
unfolding take_bytes
take_bytes-raw [] ts = refl
take_bytes-raw (b ∷ bs) ts = rw (take_bytes-raw bs ts)

pub raw-append : (cs bs : Bytes) → raw (cs ++ bs) ≡ raw cs ++ raw bs
raw-append [] bs = refl
raw-append (c ∷ cs) bs = ap (λ ts. byte c ∷ ts) (raw-append cs bs)

-- Bytes that are there are taken in any portions.
pub take_bytes-take :
    (n : ℕ) (bs : Bytes) → n ≤ length bs → take_bytes n (raw bs) ≡ some (take n bs, raw (drop n bs))
unfolding take_bytes
take_bytes-take zero bs h = refl
take_bytes-take (suc n) [] h = absurd (omega arith)
take_bytes-take (suc n) (b ∷ bs) h = rw (take_bytes-take n bs (omega arith))
