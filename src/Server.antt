-- ===== src/Server.antt =====
-- The operations of src/xpn_server/xpn_server_ops.c: the machine that they run on, and
-- `xpn_server_read_path`. The arguments `head` and `params` are taken not to be NULL. A `none`
-- stands for an access outside of an array, or for an `int` that overflows.
pub mod Files
pub mod Dirs
pub mod Transfer
pub mod Mdata
pub mod Dispatch
use xpn.Prelude.{
  ℕ, zero, suc, ◌-◌, Bool, Option, none, some, List, [], ◌∷◌, ◌++◌, ltb, leb, ◌==◌, if◌then◌else◌,
  take, ◌>>=◌,
}
use xpn.Prelude.Int.{ℤ}
use xpn.Metadata.{Metadata}
use xpn.Policy.Grouping.{Bytes}
use xpn.Protocol.{
  Status, Stat, Reply, status, Token, reply, raw, take_bytes, xpn_path_max, path_max, PathFlags,
  CloseMsg,
}

-- The process and its file system, whose state is a value of `S`: `errno`, the calls of
-- base/filesystem.h, of which a `none` is a negative result or NULL, `malloc`, and the
-- subscriptions of mq_server. Directories that are open are numbers, as they travel.
pub record Host (S : Type 0) : Type 0 where
  pub errno : S → ℤ
  pub clear_errno : S → S
  pub malloc : S → ℕ → Bool
  pub open_path : S → Bytes → (flags : ℕ) → S × ℤ
  pub open2 : S → Bytes → (flags mode : ℕ) → S × ℤ
  pub creat : S → Bytes → (mode : ℕ) → S × ℤ
  pub close : S → (fd : ℤ) → S × ℤ
  pub fsync : S → (fd : ℤ) → S
  pub lseek : S → (fd : ℤ) → (offset : ℕ) → S × ℤ
  pub read : S → (fd : ℤ) → (size : ℕ) → S × Option Bytes
  pub write : S → (fd : ℤ) → Bytes → S × Option ℕ
  pub unlink : S → Bytes → S × ℤ
  pub rename : S → (old new : Bytes) → S × ℤ
  pub stat : S → Bytes → S × ℤ × Stat
  pub mkdir : S → Bytes → (mode : ℕ) → S × ℤ
  pub rmdir : S → Bytes → S × ℤ
  pub opendir : S → Bytes → S × Option ℕ
  pub readdir : S → Option ℕ → S × Option Bytes
  pub telldir : S → Option ℕ → S × ℤ
  pub seekdir : S → Option ℕ → ℤ → S
  pub closedir : S → Option ℕ → S × ℤ
  pub subscribe : S → PathFlags → S
  pub unsubscribe : S → CloseMsg → S

-- A server and the stream to it and from it.
pub record World (S : Type 0) : Type 0 where
  pub host : S
  pub incoming : List Token
  pub outgoing : List Token

-- `xpn_server_comm_write_data`, whose result is not looked at.
abbrev pub send : {S : Type 0} → World S → S → Reply → World S
send w s r = record w { host = s; outgoing = w.outgoing ++ reply r ∷ [] }

abbrev pub send_data : {S : Type 0} → World S → Bytes → World S
send_data w bs = record w { outgoing = w.outgoing ++ raw bs }

-- The string that an array holds.
abbrev pub c_string : Bytes → Bytes
c_string [] = []
c_string (zero ∷ bs) = []
c_string (suc b ∷ bs) = suc b ∷ c_string bs

-- `full_path` after the rest of it is read, or could not be read.
abbrev pub joined :
    {S : Type 0} → World S → (front : Bytes) → Option (Bytes × List Token) → Bytes × World S
joined w front none = ([], w)
joined w front (some (rest, ts)) = (c_string (front ++ rest), record w { incoming = ts })

-- `xpn_server_read_path`
unfoldable pub read_path :
    {S : Type 0} → World S → (path_len : ℕ) (path_msg : Bytes) → Option (Bytes × World S)
read_path w path_len path_msg =
    let front = take (if ltb xpn_path_max path_len then xpn_path_max else path_len) path_msg in
    if leb path_max path_len
    then none
    else if ltb xpn_path_max path_len
    then some (joined w front (take_bytes (path_len - xpn_path_max) w.incoming))
    else some (c_string front, w)
