-- ===== src/Client/Open/Calls.antt =====
-- The calls of src/xpn_client/xpn/xpn_simple/xpncore/xpn_open.c and xpn_opendir.c that open and close
-- files and directories. A `none` for a path or a directory is NULL.
use xpn.Prelude.{
  ℕ, ◌≤◌, ◌≡◌, refl, false, ◌||◌, arith, ltb, ltb-zero, ◌==◌, Option, none, some, List, [], ◌∷◌,
  if◌then◌else◌, ◌>>=◌, length, get_elem?, get_elem?_bound,
}
use xpn.Prelude.Int.{ℤ, pos, negsuc, index}
use xpn.Metadata.{Metadata}
use xpn.Base.Hash.{path_max}
use xpn.Client.Rw.{max_file, einval, enoent}
use xpn.Client.Files.{Handle, Files, at, is_bad, close_desc, close}
use xpn.Client.Names.{slash}
use xpn.Client.Open.{Opening, o_directory, internal_open}

-- O_WRONLY | O_CREAT | O_TRUNC
abbrev pub creat_flags : ℕ
creat_flags = 577

-- The path with a slash at its end.
abbrev pub with_slash : List ℕ → List ℕ
with_slash [] = slash ∷ []
with_slash (c ∷ []) = if c == slash then c ∷ [] else c ∷ slash ∷ []
with_slash (c ∷ d ∷ path) = c ∷ with_slash (d ∷ path)

module _ {S : Type 0} (basename dirname : List ℕ → List ℕ) (env : Opening S)
    (cleared : Metadata) where
  abbrev pub refuse : Files S → Option (Files S × ℤ)
  refuse w = some (record w { errno = some einval }, negsuc 0)

  -- `xpn_simple_open`
  unfoldable pub simple_open :
      (path : Option (List ℕ)) (flags mode : ℕ) → Files S → Option (Files S × ℤ)
  simple_open none flags mode w = refuse w
  simple_open (some path) flags mode w =
      if ltb path_max (length path)
      then refuse w
      else internal_open basename dirname env cleared path flags mode w

  -- `xpn_simple_creat`
  unfoldable pub simple_creat : (path : Option (List ℕ)) (perm : ℕ) → Files S → Option (Files S × ℤ)
  simple_creat path perm = simple_open path creat_flags perm

  -- `xpn_simple_opendir`: the descriptor of the directory, or a negative number for NULL.
  unfoldable pub simple_opendir : (path : Option (List ℕ)) → Files S → Option (Files S × ℤ)
  simple_opendir none w = refuse w
  simple_opendir (some path) w =
      if length path == 0 || ltb path_max (length path)
      then refuse w
      else simple_open (some (with_slash path)) o_directory 0 w

module _ {S : Type 0} (nfi_closedir : Handle → S → S) where
  -- `xpn_simple_closedir`, on the descriptor in the directory.
  unfoldable pub simple_closedir : (dirp : Option ℤ) → Files S → Option (Files S × ℤ)
  simple_closedir none w = some (record w { errno = some einval }, negsuc 0)
  simple_closedir (some fd) w =
      let bad : Files S × ℤ = (record w { errno = some einval }, negsuc 0) in
      let missing : Files S × ℤ = (record w { errno = some enoent }, negsuc 0) in
      let done = index fd >>= λ i. get_elem? w.table i >>= λ e. elim e [
        | none ↦ some missing
        | some a ↦ at w.heap a >>= λ d. some (close_desc nfi_closedir w i a d, pos 0)
      ] in
      if is_bad fd then some bad else done

  -- A directory that is open is closed as a file is.
  simple_closedir-close :
      (w : Files S) (n a : ℕ)
      → length w.table ≤ max_file
      → get_elem? w.table n ≡ some (some a)
      → simple_closedir (some (pos n)) w ≡ close nfi_closedir (pos n) w
  unfolding simple_closedir close
  simple_closedir-close w n a size there =
      let small : ltb 1023 n ≡ false =
        ground (arith, size, get_elem?_bound w.table n (some a) there) in
      rw (small, ltb-zero n, there) refl
