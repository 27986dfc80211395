-- ===== src/Client/Affected/Holders.antt =====
-- A server with a block of a file is affected by the operations on the file.
use native.Mathlib.Nat.{
  mod-lt, div-add-mod', mul-add-mod_self_right, mul-le-mul_left, mod-le, div-mul-le_self,
  mul-div_cancel_left,
}
use xpn.Prelude.{
  ℕ, zero, suc, ◌+◌, ◌*◌, ◌/◌, ◌%◌, ◌<◌, ◌≤◌, ◌≡◌, refl, sym, ap, ap₂, ◌∙◌, Bool, true, false, not,
  arith, ltb, if◌then◌else◌, Bool-cases, ℕ_discrete, inl, inr,
}
use xpn.Prelude.Int.{ℤ, pos, ◌+ℤ◌, ◌*ℤ◌, lt_ℤ, eq_ℤ, eq_ℤ_refl}
use xpn.Metadata.{check_magic_number, nserv_at}
use xpn.Policy.Block.RoundTrip.{calculate_block_parts}
use xpn.Policy.Reconfigure.{calculate_block_mdata}
use xpn.Policy.Transfer.{File}
use xpn.Policy.Transfer.Plain.{IsPlain, serv}
use xpn.Client.Affected.{
  unset, rounds, in_copies, holds_replica, holds_data, check_serv_affected_by_op,
}

-- The block after a whole round over the servers is on the same server.
serv_round : (b copies rep fn n : ℕ) → (b % n * copies + rep + fn) % n ≡ (b * copies + rep + fn) % n
serv_round b copies rep fn n =
    let q : ℕ = b / n in
    sym (mul-add-mod_self_right (q * copies) n (b % n * copies + rep + fn))
    ∙ ap (λ t. t % n)
        (let e : q * copies * n + (b % n * copies + rep + fn)
              ≡ (q * n + b % n) * copies + rep + fn =
            grind arith in
          e)
    ∙ ap (λ t. (t * copies + rep + fn) % n) (div-add-mod' b n)

if_true : (t : Bool) {x : Bool} → x ≡ true → (if t then true else x) ≡ true
if_true true e = refl
if_true false e = e

module _ (f : File) (bs n fn : ℕ) (h : IsPlain f bs n fn) where
  plain_serv :
      (off rep : ℕ)
      → (calculate_block_mdata f.mdata (pos off) (pos rep) unset).serv
        ≡ pos (serv f bs n fn off rep)
  unfolding calculate_block_mdata
  plain_serv off rep =
      rw (h.unchanged, h.servers, h.mdata_block, h.mdata_level, h.mdata_first)
        (ap (λ p. p.serv) (calculate_block_parts bs f.replication_level n off rep fn))

  holds_replica_found :
      (off s k j rep : ℕ)
      → j ≤ rep
      → rep < j + k
      → serv f bs n fn off rep ≡ s
      → holds_replica f.mdata (pos off) (pos s) k j ≡ true
  unfolding holds_replica
  holds_replica_found off s zero j rep le lt e = absurd (omega arith)
  holds_replica_found off s (suc k) j rep le lt e = elim (ℕ_discrete j rep) [
    | yes same ↦
        let here : eq_ℤ (calculate_block_mdata f.mdata (pos off) (pos j) unset).serv (pos s)
            ≡ true =
          ap (λ t. eq_ℤ t (pos s)) (plain_serv off j ∙ ap pos (ap (serv f bs n fn off) same ∙ e))
          ∙ eq_ℤ_refl (pos s) in
        rw here refl
    | no other ↦
        let later : holds_replica f.mdata (pos off) (pos s) k (j + 1) ≡ true =
          holds_replica_found off s k (j + 1) rep (omega arith) (omega arith) e in
        elim (Bool-cases
          (eq_ℤ (calculate_block_mdata f.mdata (pos off) (pos j) unset).serv (pos s))) [
            | inl here ↦ rw here refl
            | inr apart ↦ rw apart later
          ]
  ]

  -- The loop over the blocks finds the server of a replica of the block `b`.
  holds_data_found :
      (size s b rep k i : ℕ)
      → f.mdata.file_size ≡ pos size
      → bs * b ≤ size
      → i ≤ b
      → b < i + k
      → rep ≤ f.replication_level
      → serv f bs n fn (bs * b) rep ≡ s
      → holds_data f.mdata (pos s) k i ≡ true
  unfolding holds_data
  holds_data_found size s b rep zero i fs inside le lt hr e = absurd (omega arith)
  holds_data_found size s b rep (suc k) i fs inside le lt hr e =
      let early : ltb size (bs * i) ≡ false =
        let m : bs * i ≤ bs * b = mul-le-mul_left bs le in ground arith in
      let inside_test : lt_ℤ f.mdata.file_size (f.mdata.block_size *ℤ pos i) ≡ false =
        ap₂ (λ t u. lt_ℤ t (u *ℤ pos i)) fs h.mdata_block ∙ early in
      let replicas : holds_replica f.mdata (f.mdata.block_size *ℤ pos i) (pos s)
            (rounds (f.mdata.replication_level +ℤ pos 1)) 0
          ≡ holds_replica f.mdata (pos (bs * i)) (pos s) (f.replication_level + 1) 0 =
        ap₂ (λ t u. holds_replica f.mdata (t *ℤ pos i) (pos s) (rounds (u +ℤ pos 1)) 0)
          h.mdata_block h.mdata_level in
      elim (ℕ_discrete i b) [
        | yes same ↦
            let found : holds_replica f.mdata (pos (bs * i)) (pos s) (f.replication_level + 1) 0
                ≡ true =
              holds_replica_found (bs * i) s (f.replication_level + 1) 0 rep (omega arith)
                (omega arith) (ap (λ t. serv f bs n fn (bs * t) rep) same ∙ e) in
            rw (inside_test, replicas ∙ found) refl
        | no other ↦
            let later : holds_data f.mdata (pos s) k (i + 1) ≡ true =
              holds_data_found size s b rep k (i + 1) fs inside (omega arith) (omega arith) hr e in
            rw (inside_test) (
              if_true
                (holds_replica f.mdata (f.mdata.block_size *ℤ pos i) (pos s)
                  (rounds (f.mdata.replication_level +ℤ pos 1)) 0)
                later)
      ]

  -- On a file with a settled placement, each server that has a replica of a byte of the file is
  -- affected by the operations on the file.
  pub check_serv_affected_by_op-serv :
      (size off rep : ℕ) (master_dir master_node : ℤ)
      → f.mdata.file_size ≡ pos size
      → off ≤ size
      → rep ≤ f.replication_level
      → check_serv_affected_by_op f.mdata master_dir master_node n (serv f bs n fn off rep) ≡ true
  unfolding check_serv_affected_by_op
  check_serv_affected_by_op-serv size off rep master_dir master_node fs inside hr =
      let s : ℕ = serv f bs n fn off rep in
      let b : ℕ = off / bs % n in
      let small : b < n = mod-lt (off / bs) h.servers_pos in
      let start : bs * b ≤ size =
        grind (arith, mul-le-mul_left bs (mod-le (off / bs) n), div-mul-le_self off bs) in
      let same : serv f bs n fn (bs * b) rep ≡ s =
        ap (λ t. (t * (f.replication_level + 1) + rep + fn) % n) (mul-div_cancel_left b h.block_pos)
        ∙ serv_round (off / bs) (f.replication_level + 1) rep fn n in
      let held : holds_data f.mdata (pos s) n 0 ≡ true =
        holds_data_found size s b rep n 0 fs start (omega arith) (omega arith) hr same in
      if_true (not (check_magic_number f.mdata)) (
        if_true
          (in_copies master_dir (pos n) (pos s) (rounds (f.mdata.replication_level +ℤ pos 1)) 0)
          (if_true
            (in_copies master_node (pos n) (pos s) (rounds (f.mdata.replication_level +ℤ pos 1)) 0)
            (if_true (not (eq_ℤ (nserv_at f.mdata 1) (pos 0))) held)))
