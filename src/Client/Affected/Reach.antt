-- ===== src/Client/Affected/Reach.antt =====
-- A removal reaches every server with a block of the file.
use native.Mathlib.Nat.{mod-lt}
use xpn.Prelude.{
  ℕ, zero, suc, ◌+◌, ◌/◌, ◌*◌, ◌<◌, ◌≤◌, ◌≡◌, ap, ◌∙◌, Bool, true, false, arith, ◌==◌, some, List,
  if◌then◌else◌, ◌>>=◌, Bool-cases, ℕ_discrete, inl, inr,
}
use xpn.Prelude.Int.{ℤ, pos, lt_ℤ, eq_ℤ}
use xpn.Metadata.{Metadata}
use xpn.Base.Hash.{hash}
use xpn.Policy.Transfer.{File}
use xpn.Policy.Transfer.Plain.{IsPlain, serv}
use xpn.Client.Affected.{
  Servers, call_affected, wait_affected, affected_by, remove_on, remove_resolved, internal_remove,
}
use xpn.Client.Affected.Holders.{check_serv_affected_by_op-serv}

-- `done s j m path` says that server `j` was told to remove this path, as the master of its metadata
-- or not. Each removal brings this about for its server, its flag and its path, and neither another
-- removal nor a wait undoes it.
pub record IsRecorded {S : Type 0} (env : Servers S) (done : S → ℕ → Bool → List ℕ → Bool)
    : Type 0 where
  pub told :
      (i : ℕ) (m : Bool) (path : List ℕ) (s : S) → done (env.do_remove i m path s) i m path ≡ true
  pub kept :
      (i j : ℕ) (m m' : Bool) (path path' : List ℕ) (s : S)
      → done s j m' path' ≡ true
      → done (env.do_remove i m path s) j m' path' ≡ true
  pub waited :
      (i j : ℕ) (m : Bool) (path : List ℕ) (s : S)
      → done s j m path ≡ true
      → done (env.wait i s).0 j m path ≡ true

module _ {S : Type 0} (affected : ℕ → Bool) (done : S → Bool) where
  call_affected_kept :
      (call : ℕ → S → S)
      → ((i : ℕ) (s : S) → done s ≡ true → done (call i s) ≡ true)
      → (k i : ℕ) (s : S) → done s ≡ true
      → done (call_affected affected call k i s) ≡ true
  unfolding call_affected
  call_affected_kept call kept zero i s h = h
  call_affected_kept call kept (suc k) i s h =
      call_affected_kept call kept k (i + 1) (if affected i then call i s else s)
        (elim (Bool-cases (affected i)) [ inl e ↦ rw e (kept i s h) | inr e ↦ rw e h ])

  call_affected_reached :
      (call : ℕ → S → S) (j : ℕ)
      → ((i : ℕ) (s : S) → done s ≡ true → done (call i s) ≡ true)
      → ((s : S) → done (call j s) ≡ true)
      → affected j ≡ true
      → (k i : ℕ) (s : S) → i ≤ j
      → j < i + k
      → done (call_affected affected call k i s) ≡ true
  unfolding call_affected
  call_affected_reached call j kept told is zero i s le lt = absurd (omega arith)
  call_affected_reached call j kept told is (suc k) i s le lt = elim (ℕ_discrete i j) [
    | yes same ↦
        call_affected_kept call kept k (i + 1) (if affected i then call i s else s)
          (rw (ap affected same ∙ is) (ap (λ t. done (call t s)) same ∙ told s))
    | no other ↦
        call_affected_reached call j kept told is k (i + 1) (if affected i then call i s else s)
          (omega arith) (omega arith)
  ]

  wait_affected_kept :
      (wait : ℕ → S → S × ℤ)
      → ((i : ℕ) (s : S) → done s ≡ true → done (wait i s).0 ≡ true)
      → (k i : ℕ) (err : Bool) (s : S) → done s ≡ true
      → done (wait_affected affected wait k i err s).0 ≡ true
  unfolding wait_affected
  wait_affected_kept wait kept zero i err s h = h
  wait_affected_kept wait kept (suc k) i err s h = elim (Bool-cases (affected i)) [
    | inl e ↦ rw e (
        wait_affected_kept wait kept k (i + 1) (if lt_ℤ (wait i s).1 (pos 0) then true else err)
          (wait i s).0 (kept i s h))
    | inr e ↦ rw e (wait_affected_kept wait kept k (i + 1) err s h)
  ]

module _ {S : Type 0} (basename dirname : List ℕ → List ℕ) (env : Servers S) (f : File)
    (bs n fn : ℕ) where
  -- Where the name is found, the partition has as many servers as the file, and the metadata that is
  -- read is the file's, the removal of a file with a settled placement tells each server that has a
  -- replica of a byte of the file to remove the path that the name stands for in the partition, with
  -- the flag of the master for the server that the hash of the path gives, and for no other.
  pub internal_remove-serv :
      (done : S → ℕ → Bool → List ℕ → Bool) (path abs_path : List ℕ) (pd size off rep : ℕ) (s : S)
      → IsRecorded env done
      → IsPlain f bs n fn
      → f.mdata.file_size ≡ pos size
      → off ≤ size
      → rep ≤ f.replication_level
      → (env.get_absolute_path path >>= env.get_partition) ≡ some (pd, abs_path)
      → env.get_servers pd ≡ n
      → (env.read_metadata pd abs_path s).1 ≡ f.mdata
      → done
          (internal_remove basename dirname env path s).0
          (serv f bs n fn off rep)
          (eq_ℤ (hash basename dirname abs_path n 1) (pos (serv f bs n fn off rep)))
          abs_path
        ≡ true
  unfolding internal_remove remove_resolved remove_on
  internal_remove-serv done path abs_path pd size off rep s r h fs inside hr resolved servers read =
      let j : ℕ = serv f bs n fn off rep in
      let mdata : Metadata = (env.read_metadata pd abs_path s).1 in
      let bound : j < n = mod-lt (off / bs * (f.replication_level + 1) + rep + fn) h.servers_pos in
      let some_server : (n == 0) ≡ false = let p : 0 < n = h.servers_pos in ground arith in
      let affected : ℕ → Bool = affected_by basename dirname env mdata abs_path n in
      let is : affected j ≡ true =
        ap (λ m. affected_by basename dirname env m abs_path n j) read
        ∙ check_serv_affected_by_op-serv f bs n fn h size off rep
            (hash basename dirname abs_path n 0) (hash basename dirname abs_path n 1) fs inside
            hr in
      let remove : ℕ → S → S =
        λ i. env.do_remove i (eq_ℤ (hash basename dirname abs_path n 1) (pos i)) abs_path in
      let m : Bool = eq_ℤ (hash basename dirname abs_path n 1) (pos j) in
      let told : done (call_affected affected remove n 0 (env.read_metadata pd abs_path s).0) j m
            abs_path
          ≡ true =
        call_affected_reached affected (λ t. done t j m abs_path) remove j
          (λ i t.
            r.kept i j (eq_ℤ (hash basename dirname abs_path n 1) (pos i)) m abs_path abs_path t)
          (λ t. r.told j (eq_ℤ (hash basename dirname abs_path n 1) (pos j)) abs_path t) is n 0
          (env.read_metadata pd abs_path s).0 (omega arith) (omega arith) in
      rw (resolved, servers, some_server)
        (wait_affected_kept affected (λ t. done t j m abs_path) env.wait
          (λ i t. r.waited i j m abs_path t) n 0 false
          (call_affected affected remove n 0 (env.read_metadata pd abs_path s).0) told)
