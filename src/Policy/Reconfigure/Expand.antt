-- ===== src/Policy/Reconfigure/Expand.antt =====
-- A file whose servers were extended once: where `XpnCalculateBlockMdata` finds its blocks.
use native.Mathlib.Nat.{le-div_iff_mul-le, add-zero, zero-add, mul-div_cancel, mul-mod_left}
use xpn.Prelude.{
  ℕ, suc, ◌+◌, ◌-◌, ◌*◌, ◌/◌, ◌≤◌, ◌<◌, ◌≡◌, refl, ap, ◌∙◌, true, false, none, some, List, ◌∷◌,
  arith, replicate, get_or, set, leb, ◌==◌, if◌then◌else◌,
}
use xpn.Prelude.Int.{ℤ, pos, eq_ℤ, lt_ℤ}
use xpn.Metadata.{Metadata, max_reconstructions, nserv_at}
use xpn.Policy.Block.{Placement, calculate_block}
use xpn.Policy.Block.RoundTrip.{calculate_block_parts}
use xpn.Policy.Reconfigure.{
  Walk, is_shrink_at, in_segment, prev_block_num, prev_segment, add_segment, substract_offset,
  place_here, recalculate, is_actual, greater_shrink, find_segment, visit, walk,
  calculate_block_mdata,
}

-- The metadata of a file with `m` servers up to block `b`, and `n` from there on.
abbrev pub expanded : Metadata → (bs rl fn m n b : ℕ) → Metadata
expanded base bs rl fn m n b = record base {
  block_size = pos bs;
  replication_level = pos rl;
  first_node = pos fn;
  data_nserv = pos m ∷ pos n ∷ replicate 38 (pos 0);
  offsets = pos 0 ∷ pos b ∷ replicate 38 (pos 0);
}

-- A round at which the loop stops.
walk-suc_stop :
    (mdata : Metadata) (bn rep : ℤ) (k i : ℕ) (w : Walk)
    → eq_ℤ (nserv_at mdata i) (pos 0) ≡ false
    → lt_ℤ (nserv_at mdata i) (pos 0) ≡ false
    → is_actual mdata i (visit mdata bn rep i w) ≡ true
    → greater_shrink mdata (suc k) i ≡ false
    → walk mdata bn rep (suc k) i w ≡ visit mdata bn rep i w
unfolding walk
walk-suc_stop mdata bn rep k i w e1 e2 e3 e4 = rw (e1, e2, e3, e4)

-- A round after which the loop goes on.
walk-suc_next :
    (mdata : Metadata) (bn rep : ℤ) (k i : ℕ) (w : Walk)
    → eq_ℤ (nserv_at mdata i) (pos 0) ≡ false
    → lt_ℤ (nserv_at mdata i) (pos 0) ≡ false
    → is_actual mdata i (visit mdata bn rep i w) ≡ false
    → walk mdata bn rep (suc k) i w ≡ walk mdata bn rep k (i + 1) (visit mdata bn rep i w)
unfolding walk
walk-suc_next mdata bn rep k i w e1 e2 e3 = rw (e1, e2, e3)

module _ (base : Metadata) (bs rl fn m n b : ℕ) (bs_pos : 0 < bs) (m_pos : 0 < m) (grows : m < n)
    (used : 0 < b) (out : Placement) where
  abbrev mdata : Metadata
  mdata = expanded base bs rl fn m n b

  abbrev start : ℤ → Walk
  start off = record {
    offset = off;
    actual_index = none;
    acum_local_offset = pos 0;
    array_local_offset = replicate max_reconstructions (pos 0);
    out = out;
  }

  n_test : (n == 0) ≡ false
  n_test = ground arith

  no_shrink : greater_shrink mdata max_reconstructions 0 ≡ false
  unfolding greater_shrink
  no_shrink = ground arith

  no_shrink_new : greater_shrink mdata 39 1 ≡ false
  unfolding greater_shrink
  no_shrink_new = ground arith

  no_shrink_at : is_shrink_at mdata 1 ≡ false
  unfolding is_shrink_at
  no_shrink_at = ground arith

  in_old : (k : ℕ) → k ≤ b → in_segment mdata 0 (pos k) ≡ true
  unfolding in_segment
  in_old k h = ground arith

  not_in_old : (k : ℕ) → b < k → in_segment mdata 0 (pos k) ≡ false
  unfolding in_segment
  not_in_old k h = ground arith

  in_new : (k : ℕ) → b < k → in_segment mdata 1 (pos k) ≡ true
  unfolding in_segment
  in_new k h = ground arith

  add_segment_first : (w : Walk) → add_segment mdata 0 w ≡ w
  unfolding add_segment prev_segment is_shrink_at
  add_segment_first w = refl

  visit_old :
      (off rep : ℕ)
      → off / bs ≤ b
      → visit mdata (pos (off / bs)) (pos rep) 0 (start (pos off)) ≡ record (start (pos off)) {
        actual_index = some 0;
        out = calculate_block (pos bs) (pos rl) (pos m) (pos off) (pos rep) (pos fn);
      }
  unfolding visit find_segment is_actual place_here substract_offset
  visit_old off rep h =
      rw
        (in_old (off / bs) h, add_segment_first, calculate_block_parts bs rl m off rep fn, add-zero)

  -- Up to block `b` the file lies on the first `m` servers as if it had no others.
  pub calculate_block_mdata_old :
      (off rep : ℕ)
      → off / bs ≤ b
      → calculate_block_mdata mdata (pos off) (pos rep) out
        ≡ calculate_block (pos bs) (pos rl) (pos m) (pos off) (pos rep) (pos fn)
  unfolding calculate_block_mdata is_actual
  calculate_block_mdata_old off rep h =
      let stop =
        walk-suc_stop mdata (pos (off / bs)) (pos rep) 39 0 (start (pos off)) (ground arith)
          (ground arith) (rw (visit_old off rep h)) no_shrink in
      rw n_test (ap (λ w. w.out) stop ∙ ap (λ w. w.out) (visit_old off rep h))

  visit_first_new :
      (off rep : ℕ)
      → b < off / bs
      → visit mdata (pos (off / bs)) (pos rep) 0 (start (pos off)) ≡ start (pos off)
  unfolding visit find_segment is_actual recalculate is_shrink_at
  visit_first_new off rep h = rw (not_in_old (off / bs) h, add_segment_first)

  -- What the first segment takes on each of the `m` servers.
  abbrev pub room : ℕ
  room = (b * (rl + 1) + rl) / m * bs + bs

  abbrev second : ℤ → Walk
  second off = record (start off) {
    actual_index = some 1;
    acum_local_offset = pos room;
    array_local_offset = set (replicate max_reconstructions (pos 0)) 1 (pos room);
  }

  prev_segment_second : prev_segment mdata 1 ≡ some (pos m, pos b)
  unfolding prev_segment prev_block_num
  prev_segment_second = rw no_shrink_at

  add_segment-second :
      (off : ℤ) → add_segment mdata 1 (record (start off) { actual_index = some 1 }) ≡ second off
  unfolding add_segment
  add_segment-second off = rw (
    prev_segment_second,
    add_segment,
    calculate_block_parts bs rl m (b * bs) rl fn,
    mul-div_cancel b bs_pos,
    mul-mod_left b bs,
    add-zero,
    zero-add,
  )

  abbrev moved : ℕ → ℕ
  moved off = off - bs * (b + 1)

  substract_second :
      (l s : ℕ) (lens : List ℤ)
      → s < n
      → get_or lens 1 (pos 0) ≡ pos room
      → substract_offset mdata 1 lens (record { local_offset = pos (l + room); serv = pos s })
        ≡ record { local_offset = pos (if leb m s then l else l + room); serv = pos s }
  unfolding substract_offset
  substract_second l s lens h e = rw (e, no_shrink_at) (ground arith)

  place_second :
      (off rep l s : ℕ)
      → b < off / bs
      → s < n
      → calculate_block (pos bs) (pos rl) (pos n) (pos (moved off)) (pos rep) (pos fn)
        ≡ record { local_offset = pos l; serv = pos s }
      → place_here mdata (pos rep) 1 (second (pos off)) ≡ record (second (pos (moved off))) {
        out = record { local_offset = pos (if leb m s then l else l + room); serv = pos s };
      }
  unfolding place_here
  place_second off rep l s h s_lt e =
      let past : leb (bs * (b + 1)) off ≡ true =
        ground (arith, (le-div_iff_mul-le {k = bs} {x = b + 1} {y = off} bs_pos).0 (omega arith)) in
      rw (
        no_shrink_at,
        past,
        e,
        substract_second l s (second (pos off)).array_local_offset s_lt refl,
      )

  visit-second :
      (off rep l s : ℕ)
      → b < off / bs
      → s < n
      → calculate_block (pos bs) (pos rl) (pos n) (pos (moved off)) (pos rep) (pos fn)
        ≡ record { local_offset = pos l; serv = pos s }
      → visit mdata (pos (off / bs)) (pos rep) 1 (start (pos off))
        ≡ record (second (pos (moved off))) {
          out = record { local_offset = pos (if leb m s then l else l + room); serv = pos s };
        }
  unfolding visit find_segment is_actual
  visit-second off rep l s h s_lt e =
      rw (in_new (off / bs) h, add_segment-second (pos off)) (place_second off rep l s h s_lt e)

  -- Behind block `b` the file goes on as a file on `n` servers that begins there: on the first `m`
  -- servers above what the first segment takes, on the others at their beginning.
  pub calculate_block_mdata_new :
      (off rep l s : ℕ)
      → b < off / bs
      → s < n
      → calculate_block (pos bs) (pos rl) (pos n) (pos (moved off)) (pos rep) (pos fn)
        ≡ record { local_offset = pos l; serv = pos s }
      → calculate_block_mdata mdata (pos off) (pos rep) out
        ≡ record { local_offset = pos (if leb m s then l else l + room); serv = pos s }
  unfolding calculate_block_mdata is_actual
  calculate_block_mdata_new off rep l s h s_lt e = rw (
    n_test,
    walk-suc_next mdata (pos (off / bs)) (pos rep) 39 0 (start (pos off)) (ground arith)
        (ground arith) (rw (visit_first_new off rep h)),
    visit_first_new off rep h,
    walk-suc_stop mdata (pos (off / bs)) (pos rep) 38 1 (start (pos off)) (ground arith)
        (ground arith) (rw (visit-second off rep l s h s_lt e)) no_shrink_new,
    visit-second off rep l s h s_lt e,
  )
