-- ===== src/Bypass/Intercept/Program.antt =====
-- Whole programs that never name the mount point.
use xpn.Prelude.{ℕ, ◌≡◌, ◌⊎◌, refl, none, some, false, ◌>>=◌}
use xpn.Prelude.Int.{ℤ}
use xpn.Bypass.{Bytes, Env, Sys, Outcome, fd_sys, Libc, has_prefix, call_libc}
use xpn.Bypass.Fds.{fdstable_get}
use xpn.Bypass.Dirs.{fdsdirtable_get, find_dir}
use xpn.Bypass.Intercept.{
  intercept, Subject, subject, on_path, on_paths, on_fd, on_stream, on_dir, on_fds, on_process,
  on_nothing,
}
use xpn.Bypass.Intercept.Foreign.{IsForeignFd, IsForeignSubject, intercept-IsForeign}

-- A program: it ends with a status, or makes a call and goes on with its result.
pub data Prog : Type 0 where
  done : ℤ → Prog
  ask : Libc → (ℤ → Prog) → Prog

-- A run of a program, whose calls are answered by this function.
abbrev pub run : {S : Type 0} (answer : Libc → Sys S → Outcome S) → Prog → Sys S → Outcome S
run answer (done status) w = some (w, status)
run answer (ask r k) w = answer r w >>= λ (w1, a). run answer (k a) w1

abbrev pub NamesNothing : (prefix : Bytes) → Subject → Type 0
NamesNothing prefix (on_path path) = has_prefix prefix path ≡ false
NamesNothing prefix (on_paths a b) = (has_prefix prefix a ≡ false) ⊎ (has_prefix prefix b ≡ false)
NamesNothing prefix (on_fd fd) = Unit
NamesNothing prefix (on_stream stream) = Unit
NamesNothing prefix (on_dir d) = Unit
NamesNothing prefix (on_fds fd fd2) = Unit
NamesNothing prefix on_process = Unit
NamesNothing prefix on_nothing = Unit

-- The program names no path below the mount point, whatever its calls return.
abbrev pub NeverNames : (prefix : Bytes) → Prog → Type 0
NeverNames prefix (done status) = Unit
NeverNames prefix (ask r k) = NamesNothing prefix (subject r) × ((a : ℤ) → NeverNames prefix (k a))

module _ {S : Type 0} (env : Env S) where
  -- The library as it is loaded: without tables, and not initialized.
  pub record IsLoaded (prefix : Bytes) (w : Sys S) : Type 0 where
    pub mounted : w.prefix ≡ prefix
    pub no_fds : w.fdstable ≡ none
    pub no_dirs : w.fdsdirtable ≡ none
    pub not_called : w.init_called ≡ 0

  foreign_fd : (prefix : Bytes) (w : Sys S) (fd : ℤ) → IsLoaded prefix w → IsForeignFd env w fd
  unfolding fdstable_get
  foreign_fd prefix w fd h = (record { type = fd_sys; real_fd = fd }, rw h.no_fds, refl)

  IsLoaded-IsForeign :
      (prefix : Bytes) (w : Sys S) (s : Subject)
      → IsLoaded prefix w
      → NamesNothing prefix s
      → IsForeignSubject env w s
  unfolding fdsdirtable_get find_dir
  IsLoaded-IsForeign prefix w (on_path path) h names = rw h.mounted names
  IsLoaded-IsForeign prefix w (on_paths a b) h names = rw h.mounted names
  IsLoaded-IsForeign prefix w (on_fd fd) h names = foreign_fd prefix w fd h
  IsLoaded-IsForeign prefix w (on_stream stream) h names =
      foreign_fd prefix w (env.fileno stream w.os) h
  IsLoaded-IsForeign prefix w (on_dir d) h names = rw h.no_dirs
  IsLoaded-IsForeign prefix w (on_fds fd fd2) h names =
      let (v, e, n) = foreign_fd prefix w fd2 h in (foreign_fd prefix w fd h, (v, e))
  IsLoaded-IsForeign prefix w on_process h names = h.not_called
  IsLoaded-IsForeign prefix w on_nothing h names = tt

  -- A program that never names a path below the mount point runs with the library as it runs with
  -- the C library alone: the same calls, the same states, the same end.
  pub run-intercept :
      (rand vararg : ℕ) (prefix : Bytes) (p : Prog) (w : Sys S)
      → IsLoaded prefix w
      → NeverNames prefix p
      → run (intercept env rand vararg) p w ≡ run (call_libc env) p w
  run-intercept rand vararg prefix (done status) w h names = refl
  run-intercept rand vararg prefix (ask r k) w h names =
      let (s, a) = env.libc r w.os in
      rw
        (intercept-IsForeign env rand vararg w r
          (IsLoaded-IsForeign prefix w (subject r) h names.0))
        (run-intercept rand vararg prefix (k a) (record w { os = s })
          (record {
            mounted = h.mounted;
            no_fds = h.no_fds;
            no_dirs = h.no_dirs;
            not_called = h.not_called;
          })
          (names.1 a))
