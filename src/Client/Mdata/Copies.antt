-- ===== src/Client/Mdata/Copies.antt =====
-- What a failed copy of the metadata does.
use native.Mathlib.Nat.{mod-eq_of_lt}
use xpn.Prelude.{
  ℕ, zero, suc, ◌+◌, ◌%◌, ◌<◌, ◌≤◌, ◌≡◌, refl, ap, ◌∙◌, false, some, List, map, arith,
  get_elem?_total, length, Bool-cases, inl, inr,
}
use xpn.Prelude.Int.{ℤ, pos, ◌+ℤ◌, ◌%ℤ◌, lt_ℤ}
use xpn.Policy.Transfer.{has_failed}
use xpn.Client.Mdata.{copies, any_negative, update_metadata, read_server}

none_negative :
    (answer : ℤ → ℤ) (nserv master : ℤ) (n i : ℕ)
    → ((k : ℕ) → i ≤ k → k < i + n → lt_ℤ (answer ((master +ℤ pos k) %ℤ nserv)) (pos 0) ≡ false)
    → any_negative (map answer (copies nserv master n i)) ≡ false
unfolding copies
none_negative answer nserv master zero i h = refl
none_negative answer nserv master (suc n) i h = rw (
  h i (omega arith) (omega arith),
  none_negative answer nserv master n (i + 1) (λ k lo hi. h k (omega arith) (omega arith)),
)

-- `XpnUpdateMetadata` writes a copy more than it waits for: it returns 0 when the servers of the
-- first `replication_level` copies do not fail, whatever that of the last copy answers.
pub update_metadata_unheard :
    (answer : ℤ → ℤ) (nserv master : ℤ) (replication_level : ℕ)
    → ((k : ℕ) → k < replication_level → lt_ℤ (answer ((master +ℤ pos k) %ℤ nserv)) (pos 0) ≡ false)
    → update_metadata answer nserv master replication_level
      ≡ (copies nserv master (replication_level + 1) 0, pos 0)
unfolding update_metadata
update_metadata_unheard answer nserv master replication_level h =
    rw (none_negative answer nserv master replication_level 0 (λ k lo hi. h k (omega arith)))

-- With one copy besides the master's, `XpnReadMetadata` asks the master in any case, whether it has
-- failed or not.
pub read_server_stuck :
    (errors : List ℤ) (nserv master : ℕ)
    → master < nserv
    → nserv ≤ length errors
    → read_server errors (pos nserv) (pos master) 1 0 ≡ some (pos master)
unfolding read_server
read_server_stuck errors nserv master h known =
    let (e, at) = get_elem?_total errors master (omega arith) in
    rw
      (
        (let t : (master + 0) % nserv ≡ master =
              ap (λ x. x % nserv) (let u : master + 0 ≡ master = omega arith in u)
              ∙ mod-eq_of_lt h in
            t),
        at,
      )
      (elim (Bool-cases (has_failed e)) [ inl failed ↦ rw failed | inr fine ↦ rw fine ])
