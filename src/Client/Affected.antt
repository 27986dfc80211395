-- ===== src/Client/Affected.antt =====
-- Which servers an operation on a whole file goes to: `XpnCheckServAffectedByOp`,
-- `xpn_internal_remove` and `xpn_simple_rename` of
-- src/xpn_client/xpn/xpn_simple/xpncore/xpn_open.c.
pub mod Holders
pub mod Reach
use xpn.Prelude.{
  ℕ, zero, suc, ◌+◌, Bool, true, false, not, ◌==◌, Option, none, some, List, if◌then◌else◌, ◌>>=◌,
}
use xpn.Prelude.Int.{ℤ, pos, negsuc, ◌+ℤ◌, ◌*ℤ◌, ◌%ℤ◌, lt_ℤ, eq_ℤ}
use xpn.Metadata.{Metadata, check_magic_number, nserv_at}
use xpn.Policy.Block.{Placement}
use xpn.Policy.Reconfigure.{calculate_block_mdata}
use xpn.Base.Hash.{hash}

-- The rounds of `for (i = 0; i < n; i++)`.
abbrev pub rounds : ℤ → ℕ
rounds (pos n) = n
rounds (negsuc n) = 0

-- The loops over the copies of the metadata, with `k` rounds left.
unfoldable pub in_copies : (master n_serv serv : ℤ) (k i : ℕ) → Bool
in_copies master n_serv serv zero i = false
in_copies master n_serv serv (suc k) i =
    let rest = in_copies master n_serv serv k (i + 1) in
    if eq_ℤ ((pos i +ℤ master) %ℤ n_serv) serv then true else rest

-- What `local_offset` and `aux_serv` hold before they are set.
abbrev pub unset : Placement
unset = record { local_offset = pos 0; serv = pos 0 }

-- The loop over the replicas of a block. The servers of the file were not changed, so that each call
-- sets both of its results.
unfoldable pub holds_replica : (mdata : Metadata) (offset serv : ℤ) (k j : ℕ) → Bool
holds_replica mdata offset serv zero j = false
holds_replica mdata offset serv (suc k) j =
    let rest = holds_replica mdata offset serv k (j + 1) in
    let place = calculate_block_mdata mdata offset (pos j) unset in
    if eq_ℤ place.serv serv then true else rest

-- The loop over the first blocks of the file, with `k` rounds left.
unfoldable pub holds_data : (mdata : Metadata) (serv : ℤ) (k i : ℕ) → Bool
holds_data mdata serv zero i = false
holds_data mdata serv (suc k) i =
    let rest = holds_data mdata serv k (i + 1) in
    let offset = mdata.block_size *ℤ pos i in
    let replicas = rounds (mdata.replication_level +ℤ pos 1) in
    if lt_ℤ mdata.file_size offset
    then false
    else if holds_replica mdata offset serv replicas 0
    then true
    else rest

-- `XpnCheckServAffectedByOp`
unfoldable pub check_serv_affected_by_op :
    (mdata : Metadata) (master_dir master_node : ℤ) (n_serv serv : ℕ) → Bool
check_serv_affected_by_op mdata master_dir master_node n_serv serv =
    let replicas = rounds (mdata.replication_level +ℤ pos 1) in
    if not (check_magic_number mdata)
    then true
    else if in_copies master_dir (pos n_serv) (pos serv) replicas 0
    then true
    else if in_copies master_node (pos n_serv) (pos serv) replicas 0
    then true
    else if not (eq_ℤ (nserv_at mdata 1) (pos 0))
    then true
    else holds_data mdata (pos serv) n_serv 0

-- What the operations call: the names of files (xpn_policy_cwd.c and xpn_policy_init.c), where a
-- `none` is a failure and `get_servers` gives the number of servers, the metadata, and the workers
-- of the servers. `do_remove` is told whether the server is the master of the file.
pub record Servers (S : Type 0) : Type 0 where
  pub get_absolute_path : List ℕ → Option (List ℕ)
  pub get_partition : List ℕ → Option (ℕ × List ℕ)
  pub get_servers : ℕ → ℕ
  pub read_metadata : (pd : ℕ) (path : List ℕ) → S → S × Metadata
  pub update_copies : (pd : ℕ) (path : List ℕ) → Metadata → S → S
  pub do_remove : (serv : ℕ) (is_master_node : Bool) (path : List ℕ) → S → S
  pub do_rename : (serv : ℕ) (path newpath : List ℕ) → S → S
  pub wait : (serv : ℕ) → S → S × ℤ

module _ {S : Type 0} where
  -- `for (i = 0; i < n; i++) if (affected(i)) call(i);`, with `k` rounds left.
  unfoldable pub call_affected : (affected : ℕ → Bool) (call : ℕ → S → S) (k i : ℕ) → S → S
  call_affected affected call zero i s = s
  call_affected affected call (suc k) i s =
      call_affected affected call k (i + 1) (if affected i then call i s else s)

  -- The same for `res = nfiworker_wait(...)`, and whether a result was negative.
  unfoldable pub wait_affected :
      (affected : ℕ → Bool) (wait : ℕ → S → S × ℤ) (k i : ℕ) (err : Bool) → S → S × Bool
  wait_affected affected wait zero i err s = (s, err)
  wait_affected affected wait (suc k) i err s =
      let (s1, res) = wait i s in
      if affected i
      then wait_affected affected wait k (i + 1) (if lt_ℤ res (pos 0) then true else err) s1
      else wait_affected affected wait k (i + 1) err s

  module _ (basename dirname : List ℕ → List ℕ) (env : Servers S) where
    abbrev pub affected_by : Metadata → (path : List ℕ) (n : ℕ) → ℕ → Bool
    affected_by mdata path n =
        check_serv_affected_by_op mdata (hash basename dirname path n 0)
          (hash basename dirname path n 1) n

    -- `xpn_internal_remove` on the servers, from the reading of the metadata on.
    unfoldable pub remove_on : (pd : ℕ) (path : List ℕ) (n : ℕ) → S → S × ℤ
    remove_on pd path n s =
        let (s1, mdata) = env.read_metadata pd path s in
        let affected = affected_by mdata path n in
        let master_node = hash basename dirname path n 1 in
        let s2 =
          call_affected affected (λ i. env.do_remove i (eq_ℤ master_node (pos i)) path) n 0 s1 in
        let (s3, err) = wait_affected affected env.wait n 0 false s2 in
        (s3, if err then negsuc 0 else pos 0)

    -- The end of `xpn_internal_remove`, given the partition and the path in it.
    unfoldable pub remove_resolved : Option (ℕ × List ℕ) → S → S × ℤ
    remove_resolved none s = (s, negsuc 0)
    remove_resolved (some (pd, abs_path)) s =
        let n = env.get_servers pd in if n == 0 then (s, negsuc 0) else remove_on pd abs_path n s

    -- `xpn_internal_remove`, on a path that is not NULL.
    unfoldable pub internal_remove : (path : List ℕ) → S → S × ℤ
    internal_remove path = remove_resolved (env.get_absolute_path path >>= env.get_partition)

    -- `xpn_simple_rename` on the servers.
    unfoldable pub rename_on : (pd : ℕ) (path newpath : List ℕ) (n : ℕ) → S → S × ℤ
    rename_on pd path newpath n s =
        let (s1, mdata) = env.read_metadata pd path s in
        let affected = affected_by mdata path n in
        let s2 = call_affected affected (λ i. env.do_rename i path newpath) n 0 s1 in
        let (s3, err) = wait_affected affected env.wait n 0 false s2 in
        if err
        then (s3, negsuc 0)
        else (if check_magic_number mdata then env.update_copies pd newpath mdata s3 else s3, pos 0)

    -- The end of `xpn_simple_rename`, given the partitions of both paths and the paths in them.
    unfoldable pub rename_resolved : Option (ℕ × List ℕ × ℕ × List ℕ) → S → S × ℤ
    rename_resolved none s = (s, negsuc 0)
    rename_resolved (some (pd, abs_path, newpd, newabs_path)) s =
        let n = env.get_servers pd in
        if not (pd == newpd)
        then (s, negsuc 0)
        else if n == 0
        then (s, negsuc 0)
        else rename_on pd abs_path newabs_path n s

    -- `xpn_simple_rename`, on paths that are not NULL.
    unfoldable pub simple_rename : (path newpath : List ℕ) → S → S × ℤ
    simple_rename path newpath = rename_resolved (
        env.get_absolute_path path >>= λ abs_path. env.get_absolute_path newpath >>= λ newabs_path.
        env.get_partition abs_path >>= λ (pd, p).
        env.get_partition newabs_path >>= λ (newpd, newp). some (pd, p, newpd, newp))
