-- ===== src/Policy/Block/Replicas.antt =====
-- Where `XpnCalculateBlock` puts the replicas of a block, and the bytes of one block.
use native.Mathlib.Nat.{mod-eq_of_lt, add_assoc}
use xpn.Prelude.{ℕ, ◌+◌, ◌*◌, ◌/◌, ◌%◌, ◌≤◌, ◌<◌, ◌≡◌, sym, ◌∙◌, ap, arith}
use xpn.Prelude.Int.{pos, ◌+ℤ◌}
use xpn.Prelude.Euclid.{div_of_block, mod_of_block, mod_cancel}
use xpn.Policy.Block.{calculate_block}
use xpn.Policy.Block.RoundTrip.{calculate_block_parts}

pos_injective : {a b : ℕ} → pos a ≡ pos b → a ≡ b
pos_injective e = cc

-- With fewer replicas of a block than servers, no two of them, the block itself among them, are on
-- one server.
pub serv-calculate_block_injective :
    (bs rl n off fn i j : ℕ)
    → rl < n
    → i ≤ rl
    → j ≤ rl
    → (calculate_block (pos bs) (pos rl) (pos n) (pos off) (pos i) (pos fn)).serv
      ≡ (calculate_block (pos bs) (pos rl) (pos n) (pos off) (pos j) (pos fn)).serv
    → i ≡ j
serv-calculate_block_injective bs rl n off fn i j small hi hj e =
    sym (mod-eq_of_lt {n = i} {m = n} (omega arith))
    ∙ mod_cancel n i j (b + fn) (omega arith) (regroup i ∙ same ∙ sym (regroup j))
    ∙ mod-eq_of_lt (omega arith)
  where
    b : ℕ
    b = off / bs * (rl + 1)

    regroup : (k : ℕ) → (k + (b + fn)) % n ≡ (b + k + fn) % n
    regroup k = ap (λ t. t % n) (let e' : k + (b + fn) ≡ b + k + fn = omega arith in e')

    same : (b + i + fn) % n ≡ (b + j + fn) % n
    same =
        pos_injective
          (rw (calculate_block_parts bs rl n off i fn, calculate_block_parts bs rl n off j fn) at e)

-- The bytes of one block stay together: `k` bytes further on in the block of the file is `k` bytes
-- further on in the same server.
pub calculate_block-add :
    (bs rl n off rep fn k : ℕ)
    → off % bs + k < bs
    → let p = calculate_block (pos bs) (pos rl) (pos n) (pos off) (pos rep) (pos fn) in
      calculate_block (pos bs) (pos rl) (pos n) (pos (off + k)) (pos rep) (pos fn)
      ≡ record { local_offset = p.local_offset +ℤ pos k; serv = p.serv }
calculate_block-add bs rl n off rep fn k h = rw (
  calculate_block_parts bs rl n (off + k) rep fn,
  calculate_block_parts bs rl n off rep fn,
  div_of_block off k bs h,
  mod_of_block off k bs h,
  add_assoc ((off / bs * (rl + 1) + rep) / n * bs) (off % bs) k,
)
