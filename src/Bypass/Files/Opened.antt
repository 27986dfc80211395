-- ===== src/Bypass/Files/Opened.antt =====
-- A file of Expand from `open` on: its virtual descriptor, and the calls on it.
use xpn.Prelude.{
  ℕ, ◌+◌, ◌-◌, ◌<◌, ◌≡◌, ◌≢◌, refl, sym, ◌∙◌, true, false, none, some, List, arith, ◌==◌, leb, ltb,
  if◌then◌else◌, get_elem?, length, drop, subst, Option-cases, Bool-cases, ltb→lt, inl, inr,
}
use xpn.Prelude.Int.{ℤ, pos}
use xpn.Bypass.{Bytes, Env, Sys, GenericFd, fd_sys, fd_xpn, Xpn, Libc, has_prefix, call_xpn}
use xpn.Bypass.Fds.{fdstable_get, plusxpn}
use xpn.Bypass.Fds.Taken.{IsTable, Taken, fdstable_take-IsTable}
use xpn.Bypass.Init.{keep_init, read_initcalled, dup2, fdstable_put, add_xpn_file}
use xpn.Bypass.Files.{open_xpn, open_file, read}

module _ {S : Type 0} where
  fdstable_get-entry :
      (w : Sys S) (table : List GenericFd) (i : ℕ)
      → w.fdstable ≡ some table
      → fdstable_get w (pos (i + plusxpn)) ≡ get_elem? table i
  unfolding fdstable_get
  fdstable_get-entry w table i h =
      rw
        (
          h,
          (let e : leb plusxpn (i + plusxpn) ≡ true = ground arith in e),
          (let e : i + plusxpn - plusxpn ≡ i = omega arith in e),
        )
        refl

  pub fdstable_get_below :
      (w : Sys S) (fd : ℕ)
      → fd < plusxpn
      → fdstable_get w (pos fd) ≡ some (record { type = fd_sys; real_fd = pos fd })
  unfolding fdstable_get
  fdstable_get_below w fd h =
      let low : leb plusxpn fd ≡ false = ground arith in
      elim (Option-cases w.fdstable) [ inl e ↦ rw e refl | inr (table, e) ↦ rw (e, low) refl ]

  -- A change of one entry leaves what the other descriptors are.
  fdstable_get-Taken :
      (w w' : Sys S) (table : List GenericFd) (v : GenericFd) (i fd : ℕ)
      → w.fdstable ≡ some table
      → Taken w' table i v
      → fd < plusxpn + length table
      → fd ≢ i + plusxpn
      → fdstable_get w' (pos fd) ≡ fdstable_get w (pos fd)
  fdstable_get-Taken w w' table v i fd h t bound other = elim (Bool-cases (ltb fd plusxpn)) [
    | inl low ↦
        let below : fd < plusxpn = ltb→lt fd plusxpn low in
        fdstable_get_below w' fd below ∙ sym (fdstable_get_below w fd below)
    | inr high ↦
        let at : fd - plusxpn + plusxpn ≡ fd = ground arith in
        subst (λ n. fdstable_get w' (pos n) ≡ fdstable_get w (pos n)) at
          (fdstable_get-entry w' t.table' (fd - plusxpn) t.kept
            ∙ t.changed.others (fd - plusxpn) (ground arith) (ground arith)
            ∙ sym (fdstable_get-entry w table (fd - plusxpn) h))
  ]

module _ {S : Type 0} (env : Env S) (w : Sys S) (table : List GenericFd) (fd : ℕ) where
  -- `fdstable_put` of a file of Expand, with its `dup2`.
  fdstable_put-Taken :
      0 < length table
      → fd < plusxpn
      → IsTable table w.fdstable_first_free
      → (w' : Sys S) × (i : ℕ) × (add_xpn_file env (pos fd) (record w { fdstable = some table })
          ≡ some (w', pos (i + plusxpn)))
        × Taken w' table i (record { type = fd_xpn; real_fd = pos fd })
  unfolding add_xpn_file fdstable_put dup2
  fdstable_put-Taken some_entry low h =
      let v : GenericFd = record { type = fd_xpn; real_fd = pos fd } in
      let (w1, i, e, t) = fdstable_take-IsTable w table v some_entry refl h in
      let (s, r) = env.libc (Libc.dup2 (pos fd) (pos (i + plusxpn))) w1.os in
      (
        record w1 { os = s },
        i,
        rw
            (
              (let n : ltb fd 0 ≡ false = ground arith in n),
              e,
              fdstable_get-entry w1 t.table' i t.kept,
              t.changed.stored,
              fdstable_get_below w1 fd low,
            )
            refl,
        record {
          table' = t.table';
          kept = t.kept;
          valid = t.valid;
          changed = t.changed;
          place = t.place;
          was_free = t.was_free;
          lowest = t.lowest;
        },
      )

module _ {S : Type 0} (env : Env S) (w : Sys S) (table : List GenericFd) (fd : ℕ) where
  -- With Expand initialized, a valid table of one entry or more, and a descriptor of Expand below
  -- PLUSXPN: a path below the mount point is opened by Expand. The descriptor that the program gets stands for
  -- that file: a read of it is a read of Expand's descriptor. The other descriptors inside of the table stay what they are.
  pub read-open_file :
      (path : Bytes) (flags mode : ℕ) (s : S)
      → 0 < length table
      → fd < plusxpn
      → IsTable table w.fdstable_first_free
      → has_prefix w.prefix path ≡ true
      → env.xpn
          (Xpn.open_file
            (drop (length w.prefix) path)
            flags
            (if mode == 0 then none else some mode))
          w.os
        ≡ (s, pos fd)
      → (w' : Sys S) × (i : ℕ) × (open_file env path flags mode
            (record w { fdstable = some table; init_called = 1; init_called_getenv = true })
          ≡ some (w', pos (i + plusxpn)))
        × Taken w' table i (record { type = fd_xpn; real_fd = pos fd })
        × ((other : ℕ)
            → other < plusxpn + length table
            → other ≢ i + plusxpn
            → fdstable_get w' (pos other)
              ≡ fdstable_get (record w { fdstable = some table }) (pos other))
        × ((buf : ℤ) (nbyte : ℕ)
            → read env (pos (i + plusxpn)) buf nbyte w'
              ≡ call_xpn env (Xpn.read (pos fd) buf nbyte) (keep_init env w'))
  unfolding open_file open_xpn read keep_init read_initcalled
  read-open_file path flags mode s some_entry low h inside opened =
      let w0 : Sys S = record w { os = s; init_called = 1; init_called_getenv = true } in
      let (w', i, e, t) = fdstable_put-Taken env w0 table fd some_entry low h in
      (
        w',
        i,
        rw (inside, opened) e,
        t,
        λ other bound ne.
            fdstable_get-Taken (record w { fdstable = some table }) w' table
              (record { type = fd_xpn; real_fd = pos fd }) i other refl t bound ne,
        λ buf nbyte. rw (fdstable_get-entry w' t.table' i t.kept, t.changed.stored) refl,
      )
