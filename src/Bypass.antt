-- ===== src/Bypass.antt =====
-- The interception library, src/bypass/xpn_bypass.c: wrappers of the C library's functions that send
-- a call to Expand or pass it on. Pointers and the results of all calls are integers, 0 for NULL.
pub mod Fds
pub mod Init
pub mod Files
pub mod Streams
pub mod Paths
pub mod Dirs
pub mod Process
pub mod Intercept
mod Tests
use xpn.Prelude.{
  ℕ, ◌+◌, ◌-◌, ◌^◌, ◌%◌, Bool, Option, none, some, List, [], ◌∷◌, ◌++◌, ◌==◌, ltb, if◌then◌else◌,
  ◌&&◌, length, drop, true, false,
}
use xpn.Prelude.Int.{ℤ, pos, negsuc}

abbrev pub Bytes : Type 0
Bytes = List ℕ

-- The calls of Expand. `open` has no mode where none is passed.
pub data Xpn : Type 0 where
  open_file : (path : Bytes) (flags : ℕ) (mode : Option ℕ) → Xpn
  creat : (path : Bytes) (mode : ℕ) → Xpn
  ftruncate : (fd length : ℤ) → Xpn
  read write : (fd buf : ℤ) (nbyte : ℕ) → Xpn
  lseek : (fd offset : ℤ) (whence : ℕ) → Xpn
  close : (fd : ℤ) → Xpn
  rename : (old_path new_path : Bytes) → Xpn
  unlink rmdir opendir chdir : (path : Bytes) → Xpn
  mkdir chmod : (path : Bytes) (mode : ℕ) → Xpn
  readdir : (dir fd : ℤ) → Xpn
  closedir : (dir : ℤ) → Xpn
  dup : (fd : ℤ) → Xpn
  dup2 : (fd fd2 : ℤ) → Xpn
  fchmod : (fd : ℤ) (mode : ℕ) → Xpn
  chown : (path : Bytes) (owner group : ℕ) → Xpn
  init destroy : Xpn

-- The calls of the C library.
pub data Libc : Type 0 where
  open_file open64 : (path : Bytes) (flags mode : ℕ) → Libc
  open_2 : (path : Bytes) (flags : ℕ) → Libc
  creat : (path : Bytes) (mode : ℕ) → Libc
  mkstemp : (at : ℤ) (template : Bytes) → Libc
  ftruncate : (fd length : ℤ) → Libc
  read write : (fd buf : ℤ) (nbyte : ℕ) → Libc
  pread pwrite pread64 pwrite64 : (fd buf : ℤ) (count : ℕ) (offset : ℤ) → Libc
  lseek lseek64 : (fd offset : ℤ) (whence : ℕ) → Libc
  stat lstat lxstat64 xstat64 : (ver : ℕ) (path : Bytes) (buf : ℤ) → Libc
  statfs statfs64 : (path : Bytes) (buf : ℤ) → Libc
  fstat fxstat64 : (ver : ℕ) (fd buf : ℤ) → Libc
  close : (fd : ℤ) → Libc
  rename : (old_path new_path : Bytes) → Libc
  unlink remove rmdir opendir chdir : (path : Bytes) → Libc
  fopen : (path mode : Bytes) → Libc
  fdopen : (fd : ℤ) (mode : Bytes) → Libc
  fclose ftell rewind feof : (stream : ℤ) → Libc
  fread fwrite : (ptr : ℤ) (size nmemb : ℕ) (stream : ℤ) → Libc
  fseek : (stream offset : ℤ) (whence : ℕ) → Libc
  mkdir chmod access : (path : Bytes) (mode : ℕ) → Libc
  readdir readdir64 closedir : (dir : ℤ) → Libc
  fork : Libc
  pipe : (pipefd : ℤ) → Libc
  dup fsync : (fd : ℤ) → Libc
  dup2 : (fd fd2 : ℤ) → Libc
  exit : (status : ℤ) → Libc
  fchmod : (fd : ℤ) (mode : ℕ) → Libc
  chown : (path : Bytes) (owner group : ℕ) → Libc
  fcntl : (fd : ℤ) (cmd : ℕ) (arg : ℤ) → Libc
  realpath : (path : Bytes) (resolved_path : ℤ) → Libc
  flock : (fd : ℤ) (operation : ℕ) → Libc

-- The fields that are copied between `struct stat` and `struct stat64`.
pub record Stat : Type 0 where
  pub st_dev : ℤ
  pub st_ino : ℤ
  pub st_mode : ℕ
  pub st_nlink : ℤ
  pub st_uid : ℤ
  pub st_gid : ℤ
  pub st_rdev : ℤ
  pub st_size : ℤ
  pub st_blksize : ℤ
  pub st_blocks : ℤ
  pub st_atime : ℤ
  pub st_mtime : ℤ
  pub st_ctime : ℤ

-- What the wrappers call, on a state of the process and the system. `xpn_stat` and `xpn_fstat`
-- come with what is in the buffer afterwards; the `store` functions write to the program's memory,
-- `store_dirent64` into new memory, whose address it gives; `fileno` and `dir_fd` read the
-- descriptor of a stream and of a directory; `setenv` sets INITCALLED.
pub record Env (S : Type 0) : Type 0 where
  pub xpn : Xpn → S → S × ℤ
  pub libc : Libc → S → S × ℤ
  pub xpn_stat : Bytes → S → S × ℤ × Stat
  pub xpn_fstat : ℤ → S → S × ℤ × Stat
  pub store_stat : ℤ → Stat → S → S
  pub store_stat64 : ℤ → Stat → S → S
  pub store_path : ℤ → Bytes → S → S
  pub store_dirent64 : ℤ → S → S × ℤ
  pub fileno : ℤ → S → ℤ
  pub set_fileno : ℤ → ℤ → S → S
  pub dir_fd : ℤ → S → ℤ
  pub set_dir_fd : ℤ → ℤ → S → S
  pub atexit_destroy : S → S
  pub setenv : ℕ → S → S

-- FD_FREE, FD_SYS and FD_XPN
pub data FdType : Type 0 where
  fd_free fd_sys fd_xpn : FdType

-- `struct generic_fd`
pub record GenericFd : Type 0 where
  pub type : FdType
  pub real_fd : ℤ

-- The variables of the library. The size of a table is the length of its list, and 0 for NULL.
-- `initcalled_env` is the number in the variable INITCALLED, if there is one.
pub record Sys (S : Type 0) : Type 0 where
  pub os : S
  pub prefix : Bytes
  pub fdstable : Option (List GenericFd)
  pub fdstable_first_free : ℕ
  pub fdsdirtable : Option (List ℤ)
  pub fdsdirtable_first_free : ℕ
  pub init_called : ℕ
  pub init_called_getenv : Bool
  pub initcalled_env : Option ℕ

-- A call ends with the new state and its result; `none` is an access outside of a table, a NULL
-- pointer that is read, or a division by zero.
abbrev pub Outcome : Type 0 → Type 0
Outcome S = Option (Sys S × ℤ)

-- `xpn_adaptor_partition_prefix` after `is_xpn_prefix` read XPN_MOUNT_POINT.
unfoldable pub mount_prefix : (mount_point : Option Bytes) → Bytes
mount_prefix none =
    b'/' ∷ b't' ∷ b'm' ∷ b'p' ∷ b'/' ∷ b'e' ∷ b'x' ∷ b'p' ∷ b'a' ∷ b'n' ∷ b'd' ∷ b'/' ∷ []
mount_prefix (some p) = p

-- `!memcmp(prefix, path, strlen(prefix))` with a path that is longer.
unfoldable pub has_prefix : (prefix path : Bytes) → Bool
has_prefix [] [] = false
has_prefix [] (c ∷ path) = true
has_prefix (p ∷ prefix) [] = false
has_prefix (p ∷ prefix) (c ∷ path) = let rest = has_prefix prefix path in (p == c) && rest

module _ {S : Type 0} where
  -- `is_xpn_prefix`
  abbrev pub is_xpn_prefix : Sys S → Bytes → Bool
  is_xpn_prefix w path = has_prefix w.prefix path

  -- `skip_xpn_prefix`
  abbrev pub skip_xpn_prefix : Sys S → Bytes → Bytes
  skip_xpn_prefix w path = drop (length w.prefix) path

  abbrev pub call_xpn : Env S → Xpn → Sys S → Outcome S
  call_xpn env r w = let (s, a) = env.xpn r w.os in some (record w { os = s }, a)

  abbrev pub call_libc : Env S → Libc → Sys S → Outcome S
  call_libc env r w = let (s, a) = env.libc r w.os in some (record w { os = s }, a)

-- `stat_to_stat64` and, in the other direction, `stat64_to_stat`: each field is copied. The types of
-- the fields have the same widths where the library is built with HAVE_64BITS.
unfoldable pub stat_to_stat64 : Stat → Stat
stat_to_stat64 st = record {
  st_dev = st.st_dev;
  st_ino = st.st_ino;
  st_mode = st.st_mode;
  st_nlink = st.st_nlink;
  st_uid = st.st_uid;
  st_gid = st.st_gid;
  st_rdev = st.st_rdev;
  st_size = st.st_size;
  st_blksize = st.st_blksize;
  st_blocks = st.st_blocks;
  st_atime = st.st_atime;
  st_mtime = st.st_mtime;
  st_ctime = st.st_ctime;
}
