-- ===== src/Policy/Block/RoundTrip.antt =====
-- The two block computations of xpn_policy_rw.c are inverse to one another.
use native.Mathlib.Nat.{
  mod-lt, mod-eq_of_lt, mod-add-mod, mul-add-mod_self_right, div-add-mod', add_assoc,
}
use xpn.Prelude.{ℕ, ◌+◌, ◌*◌, ◌/◌, ◌%◌, ◌≤◌, ◌<◌, ◌≡◌, refl, sym, ap, ◌∙◌, arith}
use xpn.Prelude.Int.{pos}
use xpn.Prelude.Euclid.{div_of_parts, mod_of_parts, mod_cancel, step_back}
use xpn.Policy.Block.{calculate_block, calculate_block_invert}

module _ (bs rl n : ℕ) where
  -- `XpnCalculateBlock` on non-negative values, with the block of the replica as a number.
  pub calculate_block_parts :
      (off rep fn : ℕ)
      → calculate_block (pos bs) (pos rl) (pos n) (pos off) (pos rep) (pos fn) ≡ record {
        local_offset = pos ((off / bs * (rl + 1) + rep) / n * bs + off % bs);
        serv = pos ((off / bs * (rl + 1) + rep + fn) % n);
      }
  unfolding calculate_block
  calculate_block_parts off rep fn = refl

  -- `XpnCalculateBlockInvert`, given the place `u` of the replica's block in its line of blocks.
  pub invert_parts :
      (s l fn u : ℕ)
      → s < n
      → u < n
      → (u + fn) % n ≡ s
      → calculate_block_invert (pos bs) (pos rl) (pos n) (pos s) (pos l) (pos fn) ≡ record {
        offset = pos ((l / bs * n + u) / (rl + 1) * bs + l % bs);
        replication = pos ((l / bs * n + u) % (rl + 1));
      }
  unfolding calculate_block_invert
  invert_parts s l fn u s_lt u_lt e =
      let (v, back, v_lt, e') = step_back n s fn s_lt in
      let same : v ≡ u =
        sym (mod-eq_of_lt v_lt)
        ∙ mod_cancel n v u fn (omega arith) (e' ∙ sym e)
        ∙ mod-eq_of_lt u_lt in
      rw (back, same)

module _ (bs rl n : ℕ) (bs_pos : 0 < bs) (n_pos : 0 < n) where
  -- What `XpnCalculateBlock` finds for a byte of the file and one of its replicas,
  -- `XpnCalculateBlockInvert` takes back to that byte and that replica.
  pub invert-calculate_block :
      (off rep fn : ℕ)
      → rep ≤ rl
      → let p = calculate_block (pos bs) (pos rl) (pos n) (pos off) (pos rep) (pos fn) in
        calculate_block_invert (pos bs) (pos rl) (pos n) p.serv p.local_offset (pos fn)
        ≡ record { offset = pos off; replication = pos rep }
  invert-calculate_block off rep fn h = rw (
    calculate_block_parts bs rl n off rep fn,
    invert_parts bs rl n ((br + fn) % n) (br / n * bs + off % bs) fn (br % n)
        (mod-lt (br + fn) n_pos) (mod-lt br n_pos) (mod-add-mod br n fn),
    div_of_parts bs (br / n) (off % bs) (mod-lt off bs_pos),
    mod_of_parts bs (br / n) (off % bs) (mod-lt off bs_pos),
    div-add-mod' br n,
    div_of_parts (rl + 1) (off / bs) rep (omega arith),
    mod_of_parts (rl + 1) (off / bs) rep (omega arith),
    div-add-mod' off bs,
  )
    where
      br : ℕ
      br = off / bs * (rl + 1) + rep

  -- A byte of a server's part of the file goes to a byte of the file and a replica, from which
  -- `XpnCalculateBlock` comes back to that server and that byte.
  pub calculate_block-invert :
      (s l fn : ℕ)
      → s < n
      → let o = calculate_block_invert (pos bs) (pos rl) (pos n) (pos s) (pos l) (pos fn) in
        calculate_block (pos bs) (pos rl) (pos n) o.offset o.replication (pos fn)
        ≡ record { local_offset = pos l; serv = pos s }
  calculate_block-invert s l fn h =
      let (u, _, u_lt, e) = step_back n s fn h in
      let br : ℕ = l / bs * n + u in
      rw (
        invert_parts bs rl n s l fn u h u_lt e,
        calculate_block_parts bs rl n (br / (rl + 1) * bs + l % bs) (br % (rl + 1)) fn,
        div_of_parts bs (br / (rl + 1)) (l % bs) (mod-lt l bs_pos),
        mod_of_parts bs (br / (rl + 1)) (l % bs) (mod-lt l bs_pos),
        div-add-mod' br (rl + 1),
        div_of_parts n (l / bs) u u_lt,
        div-add-mod' l bs,
        add_assoc (l / bs * n) u fn,
        mul-add-mod_self_right (l / bs) n (u + fn),
        e,
      )

  -- Two replicas at one place are the same replica of the same byte.
  pub calculate_block_injective :
      (off rep off' rep' fn : ℕ)
      → rep ≤ rl
      → rep' ≤ rl
      → calculate_block (pos bs) (pos rl) (pos n) (pos off) (pos rep) (pos fn)
        ≡ calculate_block (pos bs) (pos rl) (pos n) (pos off') (pos rep') (pos fn)
      → (off ≡ off') × (rep ≡ rep')
  calculate_block_injective off rep off' rep' fn h h' e =
      let same =
        sym (invert-calculate_block off rep fn h)
        ∙ ap (λ p. calculate_block_invert (pos bs) (pos rl) (pos n) p.serv p.local_offset (pos fn))
            e
        ∙ invert-calculate_block off' rep' fn h' in
      (cc (ap (λ o. o.offset) same), cc (ap (λ o. o.replication) same))
