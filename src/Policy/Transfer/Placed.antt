-- ===== src/Policy/Transfer/Placed.antt =====
-- Files whose placement is settled: the interface between the placement of blocks and the
-- splitting of requests.
use native.Mathlib.Nat.{mod-lt}
use xpn.Prelude.{ℕ, ◌+◌, ◌-◌, ◌%◌, ◌≤◌, ◌<◌, ◌≡◌, refl, sym, ap, ◌∙◌, arith, length}
use xpn.Prelude.Int.{pos}
use xpn.Policy.Block.{Placement}
use xpn.Policy.Reconfigure.{calculate_block_mdata}
use xpn.Policy.Transfer.{File, Base, chunk, io_at}
use xpn.Policy.Transfer.Rows.{Carries}

-- `XpnCalculateBlockMdata` finds every replica of every byte of the file on one of `n` servers, at
-- a place that does not depend on what the out parameters held, and the bytes of a block together.
pub record Placed (f : File) (n : ℕ) (local serv : (off rep : ℕ) → ℕ) : Type 0 where
  pub block_pos : 0 < f.block_size
  pub settled :
      (off rep : ℕ) (out : Placement)
      → rep ≤ f.replication_level
      → calculate_block_mdata f.mdata (pos off) (pos rep) out
        ≡ record { local_offset = pos (local off rep); serv = pos (serv off rep) }
  pub in_range : (off rep : ℕ) → rep ≤ f.replication_level → serv off rep < n
  pub known : n ≤ length f.errors
  pub together :
      (off rep k : ℕ)
      → rep ≤ f.replication_level
      → off % f.block_size + k < f.block_size
      → (local (off + k) rep ≡ local off rep + k) × (serv (off + k) rep ≡ serv off rep)

pub chunk_bounds :
    (bs x left : ℕ)
    → 0 < bs
    → 0 < left
    → (0 < chunk bs x left) × (chunk bs x left ≤ left) × (x % bs + chunk bs x left ≤ bs)
unfolding chunk
chunk_bounds bs x left h k = ground (arith, mod-lt x h)

abbrev pub placed_at : (local serv : (off rep : ℕ) → ℕ) (off rep : ℕ) → Placement
placed_at local serv off rep = record {
  local_offset = pos (local off rep);
  serv = pos (serv off rep);
}

module _ (f : File) (base : Base) (size offset n : ℕ) (local serv : (off rep : ℕ) → ℕ)
    (pl : Placed f n local serv) where
  -- The operation for a chunk carries each of its bytes to the place of that byte.
  pub chunk-Carries :
      (c l j k : ℕ)
      → j ≤ f.replication_level
      → (offset + c) % f.block_size + l ≤ f.block_size
      → c ≤ k
      → k < c + l
      → Carries
          (io_at f base size offset (placed_at local serv (offset + c) j) c l)
          k
          (local (offset + k) j)
        × (serv (offset + k) j ≡ serv (offset + c) j)
  chunk-Carries c l j k hj fits lo hi =
      let e : offset + c + (k - c) ≡ offset + k = omega arith in
      let (l_eq, s_eq) = pl.together (offset + c) j (k - c) hj (omega arith) in
      (
        record {
          begins = lo;
          ends = hi;
          start = local (offset + c) j;
          starts = refl;
          local = sym l_eq ∙ ap (λ x. local x j) e;
        },
        ap (λ x. serv x j) (sym e) ∙ s_eq,
      )
