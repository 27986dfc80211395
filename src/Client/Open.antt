-- ===== src/Client/Open.antt =====
-- `xpn_internal_open` of src/xpn_client/xpn/xpn_simple/xpncore/xpn_open.c, as `xpn_simple_open` calls
-- it: without a handle and metadata of its own. A `none` stands for a write through NULL or outside
-- of the handles.
pub mod Outcomes
pub mod Calls
mod Tests
use Prim.Native.Nat.{bit_and}
use xpn.Prelude.{
  ℕ, zero, suc, ◌+◌, Bool, true, false, not, ◌&&◌, ◌==◌, Option, none, some, List, [], ◌∷◌,
  if◌then◌else◌, ◌>>=◌,
}
use xpn.Prelude.Int.{ℤ, pos, negsuc, lt_ℤ, eq_ℤ}
use xpn.Metadata.{Metadata, check_magic_number}
use xpn.Base.Hash.{hash}
use xpn.Client.Files.{Handle, Files, search_slot_file}
use xpn.Client.Affected.{wait_affected, affected_by, check_serv_affected_by_op}

-- O_CREAT and O_DIRECTORY
abbrev pub o_creat : ℕ
o_creat = 64

abbrev pub o_directory : ℕ
o_directory = 65536

abbrev pub has_flag : (flags flag : ℕ) → Bool
has_flag flags flag = bit_and flags flag == flag

-- Where malloc finds memory: for the metadata, `vfh`, `vfh->nfih`, the handles of the servers, and the
-- entry of the table.
pub record Memory : Type 0 where
  pub mdata : Bool
  pub vfh : Bool
  pub nfih : Bool
  pub handle : ℤ → Bool
  pub desc : Bool

-- What is called: the names of files, where a `none` is a failure, `get_servers` the number of
-- servers and `block_size` that of a partition; the metadata; and the workers of the servers.
-- `priv_fh` is what an open left in the handle of a server.
pub record Opening (S : Type 0) : Type 0 where
  pub get_absolute_path : List ℕ → Option (List ℕ)
  pub get_partition : List ℕ → Option (ℕ × List ℕ)
  pub get_servers : ℕ → ℕ
  pub block_size : ℕ → ℕ
  pub read_metadata : (pd : ℕ) (path : List ℕ) → S → S × ℤ × Metadata
  pub create_metadata : (pd : ℕ) (path : List ℕ) → Metadata
  pub update_metadata : (pd : ℕ) (path : List ℕ) → Metadata → S → S × ℤ
  pub do_open : (serv : ℤ) (path : List ℕ) (flags mode : ℕ) → S → S
  pub do_opendir : (serv : ℤ) (path : List ℕ) → S → S
  pub wait : (serv : ℤ) → S → S × ℤ
  pub priv_fh : (serv : ℤ) → S → ℕ
  pub memory : Memory

-- What is opened: a path in a partition, on a number of servers.
pub record Target : Type 0 where
  pub pd : ℕ
  pub path : List ℕ
  pub n : ℕ
  pub flags : ℕ
  pub mode : ℕ

-- `vfh->nfih`, where the servers that `opened` holds of have a handle.
unfoldable pub handles : (opened : ℕ → Bool) (priv_fh : ℕ → ℕ) (k i : ℕ) → List (Option Handle)
handles opened priv_fh zero i = []
handles opened priv_fh (suc k) i =
    (if opened i then some (record { server = i; priv_fh = priv_fh i }) else none)
    ∷ handles opened priv_fh k (i + 1)

-- The loop that opens a file that is created, with `k` rounds left, and whether it went through: it is
-- left where there is no memory for a handle.
unfoldable pub open_affected :
    {S : Type 0}
    → (affected : ℕ → Bool) (memory : ℤ → Bool) (call : ℕ → S → S) (k i : ℕ) → S
    → S × Bool
open_affected affected memory call zero i s = (s, true)
open_affected affected memory call (suc k) i s =
    let skipped = open_affected affected memory call k (i + 1) s in
    let opened = open_affected affected memory call k (i + 1) (call i s) in
    if affected i then (if memory (pos i) then opened else (s, false)) else skipped

module _ {S : Type 0} (basename dirname : List ℕ → List ℕ) (env : Opening S) where
  -- The metadata that the file is opened with, or the result of a failure. A directory has none, and
  -- `memset` cleared what stands for it, `cleared`.
  unfoldable pub open_metadata : (cleared : Metadata) → Target → S → S × ℤ × Option Metadata
  open_metadata cleared t s =
      let (s1, res, mdata) = env.read_metadata t.pd t.path s in
      if has_flag t.flags o_directory
      then (s, pos 0, some cleared)
      else if lt_ℤ res (pos 0) && not (has_flag t.flags o_creat)
      then (s1, res, none)
      else (
        s1,
        res,
        some (if check_magic_number mdata then mdata else env.create_metadata t.pd t.path),
      )

  -- The servers that get a handle.
  unfoldable pub opened_servers : Target → Metadata → ℕ → Bool
  opened_servers t mdata =
      if has_flag t.flags o_creat
      then check_serv_affected_by_op mdata (hash basename dirname t.path t.n 0)
          (hash basename dirname t.path t.n 1) t.n
      else (λ i. eq_ℤ (hash basename dirname t.path t.n 0) (pos i))

  -- The opens on the servers, and whether they succeed. A negative hash of the name is an access
  -- outside of the servers.
  unfoldable pub open_servers : Target → Metadata → S → Option (S × ℤ)
  open_servers t mdata s =
      let affected = opened_servers t mdata in
      let (s1, all) =
        open_affected affected env.memory.handle (λ i. env.do_open (pos i) t.path t.flags t.mode)
          t.n 0 s in
      let (s2, err) = wait_affected affected (λ i. env.wait (pos i)) t.n 0 false s1 in
      let master_dir = hash basename dirname t.path t.n 0 in
      let one =
        if has_flag t.flags o_directory
        then env.wait master_dir (env.do_opendir master_dir t.path s)
        else env.wait master_dir (env.do_open master_dir t.path t.flags t.mode s) in
      if has_flag t.flags o_creat
      then some (if all then (s2, if err then negsuc 0 else pos 0) else (s1, negsuc 0))
      else if lt_ℤ master_dir (pos 0)
      then none
      else some (if env.memory.handle master_dir then one else (s, negsuc 0))

  -- The last step before the table: the metadata of a file that may be new is written.
  unfoldable pub store_metadata : Target → Metadata → S → S × ℤ
  store_metadata t mdata s =
      if has_flag t.flags o_creat && not (has_flag t.flags o_directory)
      then env.update_metadata t.pd t.path mdata s
      else (s, pos 0)

  -- The part behind the opens, given their result.
  unfoldable pub finish_open : Target → Metadata → Files S → (res : ℤ) → Files S × ℤ
  finish_open t mdata w res =
      let (s, stored) = store_metadata t mdata w.os in
      let vfh = handles (opened_servers t mdata) (λ i. env.priv_fh (pos i) s) t.n 0 in
      if lt_ℤ res (pos 0)
      then (w, res)
      else if lt_ℤ stored (pos 0)
      then (record w { os = s }, stored)
      else search_slot_file env.memory.desc t.pd (env.block_size t.pd) t.path vfh mdata t.flags
          t.mode (record w { os = s })

  -- The part behind the reading of the metadata, given its result, which is returned without memory
  -- for `vfh`.
  unfoldable pub open_with : Target → (res : ℤ) → Option Metadata → Files S → Option (Files S × ℤ)
  open_with t res none w = some (w, res)
  open_with t res (some mdata) w =
      let opened = open_servers t mdata w.os >>= λ (s, res1).
      some (finish_open t mdata (record w { os = s }) res1) in
      if not env.memory.vfh then some (w, res) else if not env.memory.nfih then none else opened

  -- `XpnGetAbsolutePath` and `XpnGetPartition` found the file, or one failed. Without servers, or
  -- memory for the metadata, the result is that of `XpnGetAbsolutePath`, 0.
  unfoldable pub open_resolved :
      (cleared : Metadata) (flags mode : ℕ) → Option (ℕ × List ℕ) → Files S → Option (Files S × ℤ)
  open_resolved cleared flags mode none w = some (w, negsuc 0)
  open_resolved cleared flags mode (some (pd, path)) w =
      let n = env.get_servers pd in
      let t : Target = record { pd = pd; path = path; n = n; flags = flags; mode = mode } in
      let (s, res, mdata) = open_metadata cleared t w.os in
      let opened = open_with t res mdata (record w { os = s }) in
      if n == 0 then some (w, pos 0) else if not env.memory.mdata then some (w, pos 0) else opened

  -- `xpn_internal_open`
  unfoldable pub internal_open :
      (cleared : Metadata) (path : List ℕ) (flags mode : ℕ) → Files S → Option (Files S × ℤ)
  internal_open cleared path flags mode =
      open_resolved cleared flags mode (env.get_absolute_path path >>= env.get_partition)
