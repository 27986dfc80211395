-- ===== src/Bypass/Fds.antt =====
-- The table of virtual descriptors: `fdstable_realloc`, `fdstable_get`, `fdstable_put` and
-- `fdstable_remove` of src/bypass/xpn_bypass.c. Memory is found; the process ends where it is not.
pub mod Taken
use xpn.Prelude.{
  ℕ, zero, suc, ◌+◌, ◌-◌, ◌*◌, Bool, true, false, Option, none, some, List, [], ◌∷◌, ◌++◌, ◌==◌,
  ltb, if◌then◌else◌, ◌>>=◌, get_elem?, set, length, replicate,
}
use xpn.Prelude.Int.{ℤ, pos, negsuc, ◌-ℤ◌, lt_ℤ, le_ℤ, index}
use xpn.Bypass.{Env, Sys, GenericFd, FdType, fd_free, fd_sys, fd_xpn, Outcome, Libc, call_libc}

-- MAX_FDS and PLUSXPN
abbrev pub max_fds : ℕ
max_fds = 10000

abbrev pub plusxpn : ℕ
plusxpn = 1000

abbrev pub is_free : GenericFd → Bool
is_free v = elim v.type [ fd_free ↦ true | fd_sys ↦ false | fd_xpn ↦ false ]

abbrev pub is_xpn : GenericFd → Bool
is_xpn v = elim v.type [ fd_free ↦ false | fd_sys ↦ false | fd_xpn ↦ true ]

abbrev pub free_fd : GenericFd
free_fd = record { type = fd_free; real_fd = negsuc 0 }

abbrev pub entries : {A : Type 0} → Option (List A) → List A
entries none = []
entries (some table) = table

-- The table that `fdstable_realloc` leaves.
unfoldable pub fdstable_grown : Option (List GenericFd) → List GenericFd
fdstable_grown none = replicate max_fds free_fd
fdstable_grown (some table) = table ++ replicate (length table) free_fd

-- The loop of `fdstable_put`, over what is left of the table: the index of a free entry.
unfoldable pub find_free : List GenericFd → (i : ℕ) → Option ℕ
find_free [] i = none
find_free (v ∷ table) i = let rest = find_free table (i + 1) in if is_free v then some i else rest

module _ {S : Type 0} where
  -- `fdstable_realloc`
  unfoldable pub fdstable_realloc : Sys S → Sys S
  fdstable_realloc w = record w { fdstable = some (fdstable_grown w.fdstable) }

  -- `fdstable_get`
  unfoldable pub fdstable_get : Sys S → (fd : ℤ) → Option GenericFd
  fdstable_get w fd = elim w.fdstable [
    | none ↦ some (record { type = fd_sys; real_fd = fd })
    | some table ↦
        let entry = index (fd -ℤ pos plusxpn) >>= get_elem? table in
        if le_ℤ (pos plusxpn) fd then entry else some (record { type = fd_sys; real_fd = fd })
  ]

  -- `fdstable[i] = v`
  abbrev pub write_fd : Sys S → (i : ℕ) → GenericFd → Sys S
  write_fd w i v = record w { fdstable = some (set (entries w.fdstable) i v) }

  -- What `fdstable_put` does with the entry that its search found: it is taken, or the table grows
  -- and its first new entry is taken. The index of the entry is given, if one was taken.
  unfoldable pub take_found : Sys S → GenericFd → Option ℕ → Option (Sys S × Option ℕ)
  take_found w v (some i) = some (record (write_fd w i v) { fdstable_first_free = i + 1 }, some i)
  take_found w v none =
      let old_size = length (entries w.fdstable) in
      let w1 = fdstable_realloc w in
      get_elem? (entries w1.fdstable) old_size >>= λ e.
      (if is_free e then some (write_fd w1 old_size v, some old_size) else some (w1, none))

  -- `fdstable_put` up to its `dup2`.
  unfoldable pub fdstable_take : Sys S → GenericFd → Option (Sys S × Option ℕ)
  fdstable_take w v = take_found w v (
      find_free (xpn.Prelude.drop w.fdstable_first_free (entries w.fdstable)) w.fdstable_first_free)

  -- `fdstable_remove` up to its `close`, for a descriptor that is not below PLUSXPN.
  unfoldable pub fdstable_release : Sys S → (i : ℕ) → Option (Sys S)
  fdstable_release w i = get_elem? (entries w.fdstable) i >>= λ e.
      some (record (write_fd w i free_fd) {
        fdstable_first_free = if ltb i w.fdstable_first_free then i else w.fdstable_first_free;
      })

  -- `fdstable_remove`. The `close` at its end is the wrapper, which finds a free entry and passes the
  -- call on.
  unfoldable pub fdstable_remove : Env S → Sys S → (fd : ℤ) → Outcome S
  fdstable_remove env w fd =
      let removed = index (fd -ℤ pos plusxpn) >>= λ i. fdstable_release w i >>= λ w1.
      call_libc env (Libc.close fd) w1 >>= λ (w2, r). some (w2, pos 0) in
      if lt_ℤ fd (pos plusxpn) then some (w, pos 0) else removed
