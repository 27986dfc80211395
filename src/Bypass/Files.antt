-- ===== src/Bypass/Files.antt =====
-- The wrappers of src/bypass/xpn_bypass.c that open a file and those that are given a descriptor.
pub mod Opened
pub mod Position
pub mod Duplicate
use xpn.Prelude.{
  ℕ, zero, suc, ◌+◌, ◌-◌, ◌/◌, ◌%◌, Bool, true, false, Option, none, some, List, [], ◌∷◌, ◌++◌,
  ◌==◌, ◌&&◌, if◌then◌else◌, ◌>>=◌,
}
use xpn.Prelude.Int.{ℤ, pos, negsuc, ◌-ℤ◌, eq_ℤ, le_ℤ}
use xpn.Bypass.{
  Bytes, Env, Sys, Outcome, Xpn, Libc, call_xpn, call_libc, is_xpn_prefix, skip_xpn_prefix,
  stat_to_stat64,
}
use xpn.Bypass.Fds.{fdstable_remove}
use xpn.Bypass.Init.{by_path, by_fd, add_xpn_file}

-- SEEK_SET, SEEK_CUR and SEEK_END
abbrev pub seek_set : ℕ
seek_set = 0

abbrev pub seek_cur : ℕ
seek_cur = 1

abbrev pub seek_end : ℕ
seek_end = 2

-- `_STAT_VER`, where the system does not define it
abbrev pub stat_ver : ℕ
stat_ver = 0

-- S_IRUSR | S_IWUSR
abbrev pub owner_rw : ℕ
owner_rw = 384

-- The six digits that `mkstemp` prints.
abbrev pub six_digits : ℕ → Bytes
six_digits n =
    (b'0' + n / 100000 % 10)
    ∷ (b'0' + n / 10000 % 10)
    ∷ (b'0' + n / 1000 % 10)
    ∷ (b'0' + n / 100 % 10)
    ∷ (b'0' + n / 10 % 10)
    ∷ (b'0' + n % 10)
    ∷ []

-- Whether a text begins with `k` times the letter X.
unfoldable pub begins_with_x : (k : ℕ) → Bytes → Bool
begins_with_x zero path = true
begins_with_x (suc k) [] = false
begins_with_x (suc k) (c ∷ path) = let rest = begins_with_x k path in (c == b'X') && rest

-- The template after `sprintf(strstr(template, "XXXXXX"), "%06d", n)`, which ends it there; `none`
-- where `strstr` finds nothing.
unfoldable pub filled_template : (n : ℕ) → Bytes → Option Bytes
filled_template n [] = none
filled_template n (c ∷ path) =
    let rest = filled_template n path >>= λ filled. some (c ∷ filled) in
    if begins_with_x 6 (c ∷ path) then some (six_digits n) else rest

module _ {S : Type 0} (env : Env S) where
  -- `xpn_open`, without a mode where it is 0, and the virtual descriptor of its result.
  unfoldable pub open_xpn : (path : Bytes) (flags mode : ℕ) → Sys S → Outcome S
  open_xpn path flags mode w =
      call_xpn env
        (Xpn.open_file (skip_xpn_prefix w path) flags (if mode == 0 then none else some mode)) w
      >>= λ (w1, fd). add_xpn_file env fd w1

  -- `open`
  unfoldable pub open_file : (path : Bytes) (flags mode : ℕ) → Sys S → Outcome S
  open_file path flags mode =
      by_path env path (open_xpn path flags mode) (call_libc env (Libc.open_file path flags mode))

  -- `open64`
  unfoldable pub open64 : (path : Bytes) (flags mode : ℕ) → Sys S → Outcome S
  open64 path flags mode =
      by_path env path (open_xpn path flags mode) (call_libc env (Libc.open64 path flags mode))

  -- `__open_2`
  unfoldable pub open_2 : (path : Bytes) (flags mode : ℕ) → Sys S → Outcome S
  open_2 path flags mode =
      by_path env path (open_xpn path flags mode) (call_libc env (Libc.open_2 path flags))

  -- `creat`
  unfoldable pub creat : (path : Bytes) (mode : ℕ) → Sys S → Outcome S
  creat path mode =
      by_path env path
        (λ w. call_xpn env (Xpn.creat (skip_xpn_prefix w path) mode) w >>= λ (w1, fd).
          add_xpn_file env fd w1)
        (call_libc env (Libc.creat path mode))

  -- `mkstemp`, on a template at an address; `rand` is what `rand()` returns.
  unfoldable pub mkstemp : (rand : ℕ) (at : ℤ) (template : Bytes) → Sys S → Outcome S
  mkstemp rand at template w =
      let made = filled_template (rand % 100000) template >>= λ filled.
      let w1 = record w { os = env.store_path at filled w.os } in
      call_xpn env (Xpn.creat (skip_xpn_prefix w filled) owner_rw) w1 >>= λ (w2, fd).
      add_xpn_file env fd w2 in
      if is_xpn_prefix w template then made else call_libc env (Libc.mkstemp at template) w

  -- `ftruncate`
  unfoldable pub ftruncate : (fd length : ℤ) → Sys S → Outcome S
  ftruncate fd length =
      by_fd env fd (λ v. call_xpn env (Xpn.ftruncate v.real_fd length))
        (call_libc env (Libc.ftruncate fd length))

  -- `read`
  unfoldable pub read : (fd buf : ℤ) (nbyte : ℕ) → Sys S → Outcome S
  read fd buf nbyte =
      by_fd env fd (λ v. call_xpn env (Xpn.read v.real_fd buf nbyte))
        (call_libc env (Libc.read fd buf nbyte))

  -- `write`
  unfoldable pub write : (fd buf : ℤ) (nbyte : ℕ) → Sys S → Outcome S
  write fd buf nbyte =
      by_fd env fd (λ v. call_xpn env (Xpn.write v.real_fd buf nbyte))
        (call_libc env (Libc.write fd buf nbyte))

  -- A transfer of Expand at an offset: there, the transfer, and back by the bytes that it moved.
  unfoldable pub transfer_at : (fd offset : ℤ) (transfer : Xpn) → Sys S → Outcome S
  transfer_at fd offset transfer w =
      call_xpn env (Xpn.lseek fd offset seek_set) w >>= λ (w1, there).
      let moved = call_xpn env transfer w1 >>= λ (w2, ret).
      let back =
        call_xpn env (Xpn.lseek fd (pos 0 -ℤ ret) seek_cur) w2 >>= λ (w3, r). some (w3, ret) in
      if eq_ℤ ret (negsuc 0) then some (w2, ret) else back in
      if eq_ℤ there (negsuc 0) then some (w1, there) else moved

  -- `pread`
  unfoldable pub pread : (fd buf : ℤ) (count : ℕ) (offset : ℤ) → Sys S → Outcome S
  pread fd buf count offset =
      by_fd env fd (λ v. transfer_at v.real_fd offset (Xpn.read v.real_fd buf count))
        (call_libc env (Libc.pread fd buf count offset))

  -- `pwrite`
  unfoldable pub pwrite : (fd buf : ℤ) (count : ℕ) (offset : ℤ) → Sys S → Outcome S
  pwrite fd buf count offset =
      by_fd env fd (λ v. transfer_at v.real_fd offset (Xpn.write v.real_fd buf count))
        (call_libc env (Libc.pwrite fd buf count offset))

  -- `pread64`
  unfoldable pub pread64 : (fd buf : ℤ) (count : ℕ) (offset : ℤ) → Sys S → Outcome S
  pread64 fd buf count offset =
      by_fd env fd (λ v. transfer_at v.real_fd offset (Xpn.read v.real_fd buf count))
        (call_libc env (Libc.pread64 fd buf count offset))

  -- `pwrite64`
  unfoldable pub pwrite64 : (fd buf : ℤ) (count : ℕ) (offset : ℤ) → Sys S → Outcome S
  pwrite64 fd buf count offset =
      by_fd env fd (λ v. transfer_at v.real_fd offset (Xpn.write v.real_fd buf count))
        (call_libc env (Libc.pwrite64 fd buf count offset))

  -- `lseek`
  unfoldable pub lseek : (fd offset : ℤ) (whence : ℕ) → Sys S → Outcome S
  lseek fd offset whence =
      by_fd env fd (λ v. call_xpn env (Xpn.lseek v.real_fd offset whence))
        (call_libc env (Libc.lseek fd offset whence))

  -- `lseek64`
  unfoldable pub lseek64 : (fd offset : ℤ) (whence : ℕ) → Sys S → Outcome S
  lseek64 fd offset whence =
      by_fd env fd (λ v. call_xpn env (Xpn.lseek v.real_fd offset whence))
        (call_libc env (Libc.lseek64 fd offset whence))

  -- `xpn_fstat` into the program's buffer.
  unfoldable pub fstat_xpn : (fd buf : ℤ) → Sys S → Outcome S
  fstat_xpn fd buf w =
      let (s, ret, st) = env.xpn_fstat fd w.os in
      some (record w { os = env.store_stat buf st s }, ret)

  -- `__fxstat64`
  unfoldable pub fxstat64 : (ver : ℕ) (fd buf : ℤ) → Sys S → Outcome S
  fxstat64 ver fd buf =
      by_fd env fd
        (λ v w.
          (let (s, ret, st) = env.xpn_fstat v.real_fd w.os in
            some (
              record w {
                os = if le_ℤ (pos 0) ret then env.store_stat64 buf (stat_to_stat64 st) s else s;
              },
              ret,
            )))
        (call_libc env (Libc.fxstat64 ver fd buf))

  -- `fstat`
  unfoldable pub fstat : (fd buf : ℤ) → Sys S → Outcome S
  fstat fd buf =
      by_fd env fd (λ v. fstat_xpn v.real_fd buf) (call_libc env (Libc.fstat stat_ver fd buf))

  -- `__fxstat`
  unfoldable pub fxstat : (ver : ℕ) (fd buf : ℤ) → Sys S → Outcome S
  fxstat ver fd buf =
      by_fd env fd (λ v. fstat_xpn v.real_fd buf) (call_libc env (Libc.fstat ver fd buf))

  -- `xpn_close`, and the removal of the descriptor.
  unfoldable pub close_xpn : (fd real_fd : ℤ) → Sys S → Outcome S
  close_xpn fd real_fd w = call_xpn env (Xpn.close real_fd) w >>= λ (w1, ret).
      fdstable_remove env w1 fd >>= λ (w2, r). some (w2, ret)

  -- `close`
  unfoldable pub close : (fd : ℤ) → Sys S → Outcome S
  close fd = by_fd env fd (λ v. close_xpn fd v.real_fd) (call_libc env (Libc.close fd))

  -- `fchmod`, which gives Expand the virtual descriptor.
  unfoldable pub fchmod : (fd : ℤ) (mode : ℕ) → Sys S → Outcome S
  fchmod fd mode =
      by_fd env fd (λ v. call_xpn env (Xpn.fchmod fd mode)) (call_libc env (Libc.fchmod fd mode))

  -- `dup`
  unfoldable pub dup : (fd : ℤ) → Sys S → Outcome S
  dup fd = by_fd env fd (λ v. call_xpn env (Xpn.dup v.real_fd)) (call_libc env (Libc.dup fd))
