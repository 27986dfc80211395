-- ===== src/Policy/Reconfigure/Disjoint.antt =====
-- No two replicas of a file whose servers were extended share a place.
use native.Mathlib.Nat.{mod-lt, mul-le-mul_right, le-div_iff_mul-le}
use xpn.Prelude.{
  ℕ, ◌+◌, ◌-◌, ◌*◌, ◌/◌, ◌%◌, ◌≤◌, ◌<◌, ◌≡◌, sym, ap, ◌∙◌, inl, inr, arith, leb, leb→le,
  if◌then◌else◌, Bool-cases,
}
use xpn.Prelude.Int.{pos}
use xpn.Prelude.Euclid.{div-le-div}
use xpn.Metadata.{Metadata}
use xpn.Policy.Block.{Placement}
use xpn.Policy.Block.RoundTrip.{calculate_block_parts, calculate_block_injective}
use xpn.Policy.Reconfigure.{calculate_block_mdata}
use xpn.Policy.Reconfigure.Expand.{expanded, calculate_block_mdata_old, calculate_block_mdata_new}

-- A replica up to block `b` stays below what the first segment takes.
old-lt-room :
    (bs rl m b off rep : ℕ)
    → 0 < bs
    → 0 < m
    → rep ≤ rl
    → off / bs ≤ b
    → (off / bs * (rl + 1) + rep) / m * bs + off % bs < (b * (rl + 1) + rl) / m * bs + bs
old-lt-room bs rl m b off rep bs_pos m_pos hr h = omega (
  arith,
  mod-lt off bs_pos,
  mul-le-mul_right bs (
      div-le-div (off / bs * (rl + 1) + rep) (b * (rl + 1) + rl) m m_pos
        (omega (arith, mul-le-mul_right (rl + 1) h))),
)

pos_parts :
    {l s l' s' : ℕ}
    → ◌≡◌ {A = Placement}
        (record { local_offset = pos l; serv = pos s })
        (record { local_offset = pos l'; serv = pos s' })
    → (l ≡ l') × (s ≡ s')
pos_parts e = (cc (ap (λ p. p.local_offset) e), cc (ap (λ p. p.serv) e))

module _ (base : Metadata) (bs rl fn m n b : ℕ) (bs_pos : 0 < bs) (m_pos : 0 < m) (grows : m < n)
    (used : 0 < b) (out : Placement) where
  abbrev place : (off rep : ℕ) → Placement
  place off rep = calculate_block_mdata (expanded base bs rl fn m n b) (pos off) (pos rep) out

  abbrev moved : ℕ → ℕ
  moved off = off - bs * (b + 1)

  abbrev room : ℕ
  room = (b * (rl + 1) + rl) / m * bs + bs

  -- The place of a replica behind block `b` in the file that begins there.
  abbrev local_new : (off rep : ℕ) → ℕ
  local_new off rep = (moved off / bs * (rl + 1) + rep) / n * bs + moved off % bs

  abbrev serv_new : (off rep : ℕ) → ℕ
  serv_new off rep = (moved off / bs * (rl + 1) + rep + fn) % n

  place_old :
      (off rep : ℕ)
      → off / bs ≤ b
      → place off rep ≡ record {
        local_offset = pos ((off / bs * (rl + 1) + rep) / m * bs + off % bs);
        serv = pos ((off / bs * (rl + 1) + rep + fn) % m);
      }
  place_old off rep h =
      calculate_block_mdata_old base bs rl fn m n b bs_pos m_pos grows used out off rep h
      ∙ calculate_block_parts bs rl m off rep fn

  place_new :
      (off rep : ℕ)
      → b < off / bs
      → place off rep ≡ record {
        local_offset =
            pos (if leb m (serv_new off rep) then local_new off rep else local_new off rep + room);
        serv = pos (serv_new off rep);
      }
  place_new off rep h =
      calculate_block_mdata_new base bs rl fn m n b bs_pos m_pos grows used out off rep
        (local_new off rep) (serv_new off rep) h
        (mod-lt (moved off / bs * (rl + 1) + rep + fn) (omega arith))
        (calculate_block_parts bs rl n (moved off) rep fn)

  behind : (off : ℕ) → b < off / bs → bs * (b + 1) ≤ off
  behind off h =
      omega (arith, (le-div_iff_mul-le {k = bs} {x = b + 1} {y = off} bs_pos).0 (omega arith))

  old-ne-new :
      (off rep off' rep' : ℕ)
      → rep ≤ rl
      → off / bs ≤ b
      → b < off' / bs
      → place off rep ≡ place off' rep'
      → ⊥
  old-ne-new off rep off' rep' hr h h' e =
      let (l_eq, s_eq) = pos_parts (sym (place_old off rep h) ∙ e ∙ place_new off' rep' h') in
      ground (
        arith,
        l_eq,
        s_eq,
        old-lt-room bs rl m b off rep bs_pos m_pos hr h,
        mod-lt (off / bs * (rl + 1) + rep + fn) m_pos,
      )

  new_injective :
      (off rep off' rep' : ℕ)
      → rep ≤ rl
      → rep' ≤ rl
      → b < off / bs
      → b < off' / bs
      → place off rep ≡ place off' rep'
      → (off ≡ off') × (rep ≡ rep')
  new_injective off rep off' rep' hr hr' h h' e =
      let (l_eq, s_eq) = pos_parts (sym (place_new off rep h) ∙ e ∙ place_new off' rep' h') in
      let l_same : local_new off rep ≡ local_new off' rep' = ground (arith, l_eq, s_eq) in
      let (moved_same, rep_same) =
        calculate_block_injective bs rl n bs_pos (omega arith) (moved off) rep (moved off') rep' fn
          hr hr'
          (rw (
            calculate_block_parts bs rl n (moved off) rep fn,
            calculate_block_parts bs rl n (moved off') rep' fn,
            l_same,
            s_eq,
          )) in
      (omega (arith, moved_same, behind off h, behind off' h'), rep_same)

  -- After the servers of a file were extended from `m` to `n` behind a block `b` other than
  -- the first, two replicas of bytes of the file that have the same place are the same replica of the
  -- same byte: no block that was there is overwritten by a new one, and no two new ones share a place.
  pub calculate_block_mdata_injective :
      (off rep off' rep' : ℕ)
      → rep ≤ rl
      → rep' ≤ rl
      → calculate_block_mdata (expanded base bs rl fn m n b) (pos off) (pos rep) out
        ≡ calculate_block_mdata (expanded base bs rl fn m n b) (pos off') (pos rep') out
      → (off ≡ off') × (rep ≡ rep')
  calculate_block_mdata_injective off rep off' rep' hr hr' e =
      elim (Bool-cases (leb (off / bs) b)) [
        | inl p ↦ elim (Bool-cases (leb (off' / bs) b)) [
          | inl q ↦ calculate_block_injective bs rl m bs_pos m_pos off rep off' rep' fn hr hr' (
              sym (
                calculate_block_mdata_old base bs rl fn m n b bs_pos m_pos grows used out off rep
                  (leb→le _ _ p))
              ∙ e
              ∙ calculate_block_mdata_old base bs rl fn m n b bs_pos m_pos grows used out off' rep'
                  (leb→le _ _ q))
          | inr q ↦ absurd (old-ne-new off rep off' rep' hr (leb→le _ _ p) (ground arith) e)
        ]
        | inr p ↦ elim (Bool-cases (leb (off' / bs) b)) [
          | inl q ↦ absurd (old-ne-new off' rep' off rep hr' (leb→le _ _ q) (ground arith) (sym e))
          | inr q ↦ new_injective off rep off' rep' hr hr' (ground arith) (ground arith) e
        ]
      ]
