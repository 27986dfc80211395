-- ===== src/Policy/Block/Spread.antt =====
-- How evenly `XpnCalculateBlock` spreads a file.
use native.Mathlib.Nat.{mod-lt, le-div_iff_mul-le, div-mul-le_self, mul-le-mul_right}
use xpn.Prelude.{ℕ, ◌+◌, ◌-◌, ◌*◌, ◌/◌, ◌%◌, ◌≤◌, ◌<◌, ◌≡◌, arith}
use xpn.Prelude.Int.{pos}
use xpn.Prelude.Euclid.{div_of_parts}
use xpn.Policy.Block.{calculate_block}
use xpn.Policy.Block.RoundTrip.{calculate_block_parts}

-- The number of blocks of a file of `size` bytes, a last incomplete one included.
abbrev pub blocks_of : (size bs : ℕ) → ℕ
blocks_of size bs = (size + bs - 1) / bs

-- The replica of every byte of a file of `size` bytes lies on one of the `n` servers, in one of
-- its first ⌈blocks * (rl + 1) / n⌉ blocks: no server holds more than its equal share.
pub calculate_block_balanced :
    (bs rl n off rep fn size : ℕ)
    → 0 < bs
    → 0 < n
    → rep ≤ rl
    → off < size
    → (l s : ℕ) × (calculate_block (pos bs) (pos rl) (pos n) (pos off) (pos rep) (pos fn)
        ≡ record { local_offset = pos l; serv = pos s })
      × (s < n)
      × (l / bs < (blocks_of size bs * (rl + 1) + n - 1) / n)
calculate_block_balanced bs rl n off rep fn size bs_pos n_pos h within = (
  br / n * bs + off % bs,
  (br + fn) % n,
  calculate_block_parts bs rl n off rep fn,
  mod-lt (br + fn) n_pos,
  rw (div_of_parts bs (br / n) (off % bs) (mod-lt off bs_pos))
      ((le-div_iff_mul-le n_pos).1 (omega (arith, total, div-mul-le_self br n))),
)
  where
    br : ℕ
    br = off / bs * (rl + 1) + rep

    in_file : off / bs + 1 ≤ blocks_of size bs
    in_file = (le-div_iff_mul-le bs_pos).1 (omega (arith, div-mul-le_self off bs))

    total : br + 1 ≤ blocks_of size bs * (rl + 1)
    total = omega (arith, mul-le-mul_right (rl + 1) in_file)
