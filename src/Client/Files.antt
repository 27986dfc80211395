-- ===== src/Client/Files.antt =====
-- The table of open files: src/xpn_client/xpn/xpn_simple/xpncore/xpn_file.c, and the functions of
-- xpn_open.c beside it that work on the table. Descriptions of files are in memory, where several
-- entries can point to the same one. A `none` is an access to memory that was freed, or outside of
-- the table.
pub mod Counted
pub mod Runs
pub mod Reached
pub mod Dangling
use xpn.Prelude.{
  ℕ, zero, suc, ◌+◌, ◌-◌, Bool, true, false, ◌||◌, Option, none, some, List, [], ◌∷◌, ◌++◌, ◌==◌,
  ltb, if◌then◌else◌, get_elem?, set, length, take, replicate, ◌>>=◌,
}
use xpn.Prelude.Int.{ℤ, pos, negsuc, ◌+ℤ◌, ◌-ℤ◌, lt_ℤ, eq_ℤ, index}
use xpn.Metadata.{Metadata}
use xpn.Base.Hash.{path_max}
use xpn.Client.Rw.{max_file, Errno, ebadf}

-- What is used of `struct nfi_fhandle`: its server, and `priv_fh`, 0 for NULL.
pub record Handle : Type 0 where
  pub server : ℕ
  pub priv_fh : ℕ

-- `struct xpn_filedesc`, where `part` is the number of the partition and `data_vfh` the pointers of
-- `nfih`.
pub record Desc : Type 0 where
  pub id : ℕ
  pub path : List ℕ
  pub type : ℤ
  pub links : ℤ
  pub flags : ℕ
  pub mode : ℕ
  pub part : ℕ
  pub mdata : Metadata
  pub offset : ℤ
  pub block_size : ℕ
  pub data_vfh : List (Option Handle)

-- `xpn_file_table`, the memory that its entries point to, where `none` is freed, `errno`, and the
-- servers' files.
pub record Files (S : Type 0) : Type 0 where
  pub os : S
  pub heap : List (Option Desc)
  pub table : List (Option ℕ)
  pub errno : Option Errno

-- The description at an address.
abbrev pub flat : {A : Type 0} → Option (Option A) → Option A
flat none = none
flat (some o) = o

abbrev pub at : List (Option Desc) → (a : ℕ) → Option Desc
at heap a = flat (get_elem? heap a)

-- `while ((i < XPN_MAX_FILE-1) && (xpn_file_table[i] != NULL)) i++`, over what is left of the table,
-- which has XPN_MAX_FILE entries.
abbrev pub free_slot : List (Option ℕ) → (i : ℕ) → ℕ
free_slot [] i = i
free_slot (none ∷ table) i = i
free_slot (some a ∷ []) i = i
free_slot (some a ∷ e ∷ table) i = free_slot (e ∷ table) (i + 1)

-- What `XpnSearchSlotFile` writes to the entry `i`.
unfoldable pub new_desc :
    (i pd block_size : ℕ) (path : List ℕ) (vfh : List (Option Handle)) (mdata : Metadata)
    (flags mode : ℕ)
    → Desc
new_desc i pd block_size path vfh mdata flags mode = record {
  id = i;
  path = take (path_max - 1) path;
  type = mdata.type;
  links = pos 1;
  flags = flags;
  mode = mode;
  part = pd;
  mdata = mdata;
  offset = pos 0;
  block_size = block_size;
  data_vfh = vfh;
}

-- `xpn_init_file_table`
unfoldable pub init_file_table : {S : Type 0} → Files S → Files S
init_file_table w = record w { table = replicate max_file none }

-- `(fd > XPN_MAX_FILE - 1) || (fd < 0)`
abbrev pub is_bad : ℤ → Bool
is_bad fd = lt_ℤ (pos (max_file - 1)) fd || lt_ℤ fd (pos 0)

module _ {S : Type 0} where
  -- `XpnSearchSlotFile`; `memory` is whether malloc finds memory, `block_size` that of the partition.
  unfoldable pub search_slot_file :
      (memory : Bool) (pd block_size : ℕ) (path : List ℕ) (vfh : List (Option Handle))
      (mdata : Metadata) (flags mode : ℕ)
      → Files S
      → Files S × ℤ
  search_slot_file memory pd block_size path vfh mdata flags mode w =
      let i = free_slot w.table 0 in
      if i == max_file
      then (w, negsuc 0)
      else if memory
      then (
        record w {
          heap = w.heap ++ some (new_desc i pd block_size path vfh mdata flags mode) ∷ [];
          table = set w.table i (some (length w.heap));
        },
        pos i,
      )
      else (record w { table = set w.table i none }, negsuc 0)

  -- One more link of a description, in an entry of the table.
  abbrev pub add_link : Files S → (i a : ℕ) → Desc → Files S
  add_link w i a d = record w {
    heap = set w.heap a (some (record d { links = d.links +ℤ pos 1 }));
    table = set w.table i (some a);
  }

  -- `xpn_simple_dup`
  unfoldable pub dup : (fd : ℤ) → Files S → Option (Files S × ℤ)
  dup fd w =
      let i = free_slot w.table 0 in
      let done = index fd >>= get_elem? w.table >>= λ e. elim e [
        | none ↦ some (w, negsuc 0)
        | some a ↦
            if i == max_file
            then some (w, negsuc 0)
            else (at w.heap a >>= λ d. some (add_link w i a d, pos i))
      ] in
      if is_bad fd then some (w, negsuc 0) else done

  -- `xpn_simple_dup2`
  unfoldable pub dup2 : (fd fd2 : ℤ) → Files S → Option (Files S × ℤ)
  dup2 fd fd2 w =
      let done = index fd >>= get_elem? w.table >>= λ e. elim e [
        | none ↦ some (w, negsuc 0)
        | some a ↦ index fd2 >>= λ i. get_elem? w.table i >>= λ e2. elim e2 [
          | some b ↦ some (w, negsuc 0)
          | none ↦ at w.heap a >>= λ d. some (add_link w i a d, pos 0)
        ]
      ] in
      if is_bad fd then some (w, negsuc 0) else if is_bad fd2 then some (w, negsuc 0) else done

  module _ (nfi_close : Handle → S → S) where
    -- The loop of `xpn_simple_close` over the handles.
    unfoldable pub close_handles : List (Option Handle) → S → S
    close_handles [] s = s
    close_handles (none ∷ nfih) s = close_handles nfih s
    close_handles (some h ∷ nfih) s =
        close_handles nfih (if h.priv_fh == 0 then s else nfi_close h s)

    -- What `xpn_simple_close` does with the description of an open file.
    unfoldable pub close_desc : Files S → (i a : ℕ) → Desc → Files S
    close_desc w i a d =
        let links = d.links -ℤ pos 1 in
        if eq_ℤ links (pos 0)
        then record w {
          os = close_handles d.data_vfh w.os;
          heap = set w.heap a none;
          table = set w.table i none;
        }
        else record w { heap = set w.heap a (some (record d { links = links })) }

    -- `xpn_simple_close`
    unfoldable pub close : (fd : ℤ) → Files S → Option (Files S × ℤ)
    close fd w =
        let bad : Files S × ℤ = (record w { errno = some ebadf }, negsuc 0) in
        let done = index fd >>= λ i. get_elem? w.table i >>= λ e. elim e [
          | none ↦ some bad
          | some a ↦ at w.heap a >>= λ d. some (close_desc w i a d, pos 0)
        ] in
        if is_bad fd then some bad else done
