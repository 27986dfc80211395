-- ===== src/Bypass/Tests.antt =====
-- Runs of the wrappers, and the theorems about them at inputs that meet their hypotheses.
use xpn.Prelude.{
  ℕ, zero, suc, ◌+◌, ◌-◌, ◌<◌, ◌≡◌, ◌≢◌, refl, sym, ap, ◌∙◌, true, false, Option, none, some, List,
  [], ◌∷◌, ◌++◌, arith, some_injective,
}
use xpn.Prelude.Int.{◌+ℤ◌, ℤ, pos, negsuc}
use xpn.Client.Rw.{Filedesc}
use xpn.Client.Rw as Rw
use xpn.Bypass.{
  Bytes, Xpn, Libc, Stat, Env, Sys, GenericFd, fd_xpn, mount_prefix, has_prefix, call_xpn,
  call_libc,
}
use xpn.Bypass.Fds.{fdstable_take, fdstable_get, free_fd, is_free}
use xpn.Bypass.Fds.Taken.{UsedBelow, IsTable, Taken, fdstable_take-IsTable}
use xpn.Bypass.Init.{keep_init, read_initcalled}
use xpn.Bypass.Files.{transfer_at, open_file, read, write, dup}
use xpn.Bypass.Files.Opened.{read-open_file}
use xpn.Bypass.Files.Position.{IsExpand, transfer_at-position}
use xpn.Bypass.Files.Duplicate.{read-write-dup}
use xpn.Bypass.Dirs.Full.{}
use xpn.Bypass.Intercept.{intercept}
use xpn.Bypass.Intercept.Program.{Prog, done, ask, run, run-intercept}

abbrev no_stat : Stat
no_stat = record {
  st_dev = pos 0;
  st_ino = pos 0;
  st_mode = 0;
  st_nlink = pos 0;
  st_uid = pos 0;
  st_gid = pos 0;
  st_rdev = pos 0;
  st_size = pos 0;
  st_blksize = pos 0;
  st_blocks = pos 0;
  st_atime = pos 0;
  st_mtime = pos 0;
  st_ctime = pos 0;
}

-- An Expand with one file, whose state is the position in it.
abbrev seek_to : ℕ → ℤ → (whence : ℕ) → ℕ
seek_to s (pos o) zero = o
seek_to s (negsuc o) zero = s
seek_to s (pos d) (suc whence) = s + d
seek_to s (negsuc d) (suc whence) = s - suc d

abbrev one_file : Xpn → ℕ → ℕ × ℤ
one_file (Xpn.lseek fd offset whence) s = (seek_to s offset whence, pos (seek_to s offset whence))
one_file (Xpn.read fd buf nbyte) s = (s + nbyte, pos nbyte)
one_file (Xpn.dup fd) s = (s, pos 7)
one_file (Xpn.open_file path flags mode) s = (0, pos 3)
one_file r s = (s, pos 0)

abbrev env_over : {S : Type 0} → (Xpn → S → S × ℤ) → Env S
env_over xpn = record {
  xpn = xpn;
  libc = λ r s. (s, pos 5);
  xpn_stat = λ path s. (s, pos 0, no_stat);
  xpn_fstat = λ fd s. (s, pos 0, no_stat);
  store_stat = λ buf st s. s;
  store_stat64 = λ buf st s. s;
  store_path = λ buf path s. s;
  store_dirent64 = λ aux s. (s, pos 0);
  fileno = λ stream s. pos 3;
  set_fileno = λ stream fd s. s;
  dir_fd = λ dir s. pos 4;
  set_dir_fd = λ dir fd s. s;
  atexit_destroy = λ s. s;
  setenv = λ n s. s;
}

abbrev test_env : Env ℕ
test_env = env_over one_file

-- An Expand with one file, whose position `xpn_simple_lseek` moves and reads.
abbrev sought : ℤ × Option Rw.Errno × Filedesc → Filedesc × ℤ
sought (r, e, d) = (d, r)

abbrev on_file : Xpn → Filedesc → Filedesc × ℤ
on_file (Xpn.lseek fd offset zero) d = sought (Rw.lseek none d offset Rw.seek_set)
on_file (Xpn.lseek fd offset (suc whence)) d = sought (Rw.lseek none d offset Rw.seek_cur)
on_file (Xpn.read fd buf nbyte) d = (record d { offset = d.offset +ℤ pos nbyte }, pos nbyte)
on_file r d = (d, pos 0)

abbrev file_env : Env Filedesc
file_env = env_over on_file

abbrev at_seven : Filedesc
at_seven = record {
  offset = pos 7;
  flags = 0;
  type = 0;
  file = record {
    replication_level = 0;
    block_size = 10;
    mdata = record {
      magic_number = [];
      version = pos 1;
      type = pos 0;
      block_size = pos 10;
      file_size = pos 95;
      replication_level = pos 0;
      first_node = pos 0;
      distribution_policy = pos 1;
      data_nserv = [];
      offsets = [];
    };
    errors = [];
  };
}

abbrev loaded_over : {S : Type 0} → S → Sys S
loaded_over s = record {
  os = s;
  prefix = mount_prefix none;
  fdstable = none;
  fdstable_first_free = 0;
  fdsdirtable = none;
  fdsdirtable_first_free = 0;
  init_called = 0;
  init_called_getenv = false;
  initcalled_env = none;
}

abbrev loaded : Sys ℕ
loaded = loaded_over 0

-- A file of the system, and one below the mount point.
abbrev outside_path : Bytes
outside_path = b'/' ∷ b'a' ∷ []

abbrev inside_path : Bytes
inside_path = mount_prefix none ++ (b'a' ∷ [])

abbrev expand_fd : GenericFd
expand_fd = record { type = fd_xpn; real_fd = pos 3 }

-- Two entries, of which the first one is used.
abbrev two_fds : List GenericFd
two_fds = expand_fd ∷ free_fd ∷ []

two_fds-IsTable : IsTable two_fds 1
two_fds-IsTable = record { inside = omega arith; used = first_used }
  where
    first_used : UsedBelow two_fds 1
    first_used zero v lt at = ap is_free (sym (some_injective at))
    first_used (suc i) v lt at = absurd (omega arith)

abbrev with_table : Sys ℕ
with_table = record loaded {
  fdstable = some two_fds;
  fdstable_first_free = 1;
  init_called = 1;
  init_called_getenv = true;
}

-- `open` and `read` of a file that is not below the mount point.
abbrev cat : Prog
cat = ask (Libc.open_file outside_path 0 0) (λ fd. ask (Libc.read fd (pos 64) 4) (λ n. done n))

run-intercept_example :
    run (intercept test_env 0 0) cat loaded ≡ run (call_libc test_env) cat loaded
unfolding has_prefix mount_prefix
run-intercept_example =
    run-intercept test_env 0 0 (mount_prefix none) cat loaded
      (record { mounted = refl; no_fds = refl; no_dirs = refl; not_called = refl })
      (refl, λ a. (tt, λ b. tt))

fdstable_take-IsTable_example :
    (w' : Sys ℕ) × (i : ℕ) × (fdstable_take
        (record with_table { fdstable = some two_fds })
        expand_fd
      ≡ some (w', some i))
    × Taken w' two_fds i expand_fd
fdstable_take-IsTable_example =
    fdstable_take-IsTable with_table two_fds expand_fd (omega arith) refl two_fds-IsTable

read-open_file_example :
    (w' : Sys ℕ) × (i : ℕ) × (open_file test_env inside_path 66 384
        (record with_table { fdstable = some two_fds; init_called = 1; init_called_getenv = true })
      ≡ some (w', pos (i + 1000)))
    × Taken w' two_fds i (record { type = fd_xpn; real_fd = pos 3 })
    × ((other : ℕ)
        → other < 1002
        → other ≢ i + 1000
        → fdstable_get w' (pos other)
          ≡ fdstable_get (record with_table { fdstable = some two_fds }) (pos other))
    × ((buf : ℤ) (nbyte : ℕ)
        → read test_env (pos (i + 1000)) buf nbyte w'
          ≡ call_xpn test_env (Xpn.read (pos 3) buf nbyte) (keep_init test_env w'))
unfolding has_prefix mount_prefix
read-open_file_example =
    read-open_file test_env with_table two_fds 3 inside_path 66 384 0 (omega arith) (omega arith)
      two_fds-IsTable refl refl

file_env-IsExpand : IsExpand file_env (pos 3) (Xpn.read (pos 3) (pos 64) 4) (λ d. d) (λ d. none)
file_env-IsExpand = record {
  set = λ o s. (_, refl, refl);
  move = λ o s. (_, refl, refl);
  moved = λ s s' k e. moved_on s s' k e;
}
  where
    moved_on :
        (s s' : Filedesc) (k : ℕ)
        → on_file (Xpn.read (pos 3) (pos 64) 4) s ≡ (s', pos k)
        → s'.offset ≡ s.offset +ℤ pos k
    moved_on s s' k e = sym (ap (λ p. p.0.offset) e) ∙ ap (λ i. s.offset +ℤ i) (ap (λ p. p.1) e)

transfer_at-position_example :
    (w' : Sys Filedesc) × (transfer_at file_env
        (pos 3)
        (pos 100)
        (Xpn.read (pos 3) (pos 64) 4)
        (loaded_over at_seven)
      ≡ some (w', pos 4))
    × (w'.os.offset ≡ pos 100)
transfer_at-position_example =
    transfer_at-position file_env (pos 3) (Xpn.read (pos 3) (pos 64) 4) (λ d. d) (λ d. none) 100 4
      (loaded_over at_seven) _ file_env-IsExpand (omega arith) refl

read-write-dup_example :
    (w' : Sys ℕ) × (dup test_env (pos 1000) with_table ≡ some (w', pos 7))
    × ((buf : ℤ) (nbyte : ℕ)
        → (read test_env (pos 7) buf nbyte w' ≡ call_libc test_env (Libc.read (pos 7) buf nbyte) w')
          × (write test_env (pos 7) buf nbyte w'
              ≡ call_libc test_env (Libc.write (pos 7) buf nbyte) w'))
unfolding fdstable_get keep_init read_initcalled
read-write-dup_example =
    read-write-dup test_env with_table (pos 1000) expand_fd 0 7 refl refl refl (omega arith)
