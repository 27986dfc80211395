-- ===== src/Policy/Reconfigure.antt =====
-- `XpnCalculateBlockMdata` of src/xpn_client/xpn/xpn_simple/policy/xpn_policy_rw.c: the placement of
-- a block in a file whose number of servers was changed. Entry `i` of `data_nserv` is a number of
-- servers, or the negative number of a server that was taken away, and `offsets[i]` is the last
-- block that was written before entry `i` came into force.
pub mod Expand
pub mod Disjoint
use xpn.Prelude.{
  ℕ, zero, suc, ◌+◌, ◌-◌, Bool, false, not, ◌&&◌, ◌||◌, Option, none, some, List, ltb, leb, ◌==◌,
  if◌then◌else◌, get_or, set, replicate,
}
use xpn.Prelude.Int.{ℤ, pos, negsuc, ◌+ℤ◌, ◌-ℤ◌, ◌*ℤ◌, ◌/ℤ◌, lt_ℤ, le_ℤ, eq_ℤ, abs}
use xpn.Metadata.{Metadata, max_reconstructions, nserv_at, offset_at}
use xpn.Policy.Block.{Placement, calculate_block}

-- The variables that live across the rounds of the loop. `actual_index` is `none` for -1.
pub record Walk : Type 0 where
  pub offset : ℤ
  pub actual_index : Option ℕ
  pub acum_local_offset : ℤ
  pub array_local_offset : List ℤ
  pub out : Placement

-- `i > 0 && data_nserv[i-1] < 0`
unfoldable pub is_shrink_at : Metadata → ℕ → Bool
is_shrink_at mdata i = ltb 0 i && lt_ℤ (nserv_at mdata (i - 1)) (pos 0)

-- Whether the block belongs to entry `i`, which holds up to the next entry that is in force.
unfoldable pub in_segment : Metadata → ℕ → ℤ → Bool
in_segment mdata i block_num =
    let last =
      if lt_ℤ (pos 0) (nserv_at mdata (i + 1))
      then offset_at mdata (i + 1)
      else offset_at mdata (i + 2) in
    (lt_ℤ (offset_at mdata i) block_num || eq_ℤ block_num (pos 0))
    && (le_ℤ block_num last || eq_ℤ last (pos 0))

-- `prev_block_num` for the entry in force `back` places before `i`.
unfoldable pub prev_block_num : Metadata → (i back : ℕ) → ℤ
prev_block_num mdata i back =
    let base =
      if i == back
      then offset_at mdata i
      else offset_at mdata i -ℤ offset_at mdata (i - back) -ℤ pos 1 in
    if leb (back + 1) i && lt_ℤ (nserv_at mdata (i - (back + 1))) (pos 0)
    then base +ℤ offset_at mdata (i - (back + 1))
    else base

-- `prev_data_nserv` and `prev_block_num`, where `prev_data_nserv` is not -1.
unfoldable pub prev_segment : Metadata → ℕ → Option (ℤ × ℤ)
prev_segment mdata i =
    let back : ℕ = if is_shrink_at mdata i then 2 else 1 in
    let prev = nserv_at mdata (i - back) in
    if leb back i && not (eq_ℤ prev (negsuc 0))
    then some (prev, prev_block_num mdata i back)
    else none

module _ (mdata : Metadata) where
  -- "Calculate offset of segment"
  unfoldable pub add_segment : ℕ → Walk → Walk
  add_segment i w = elim (prev_segment mdata i) [
    | none ↦ w
    | some (prev, blocks) ↦
        let seg =
          calculate_block mdata.block_size mdata.replication_level prev (blocks *ℤ mdata.block_size)
            mdata.replication_level mdata.first_node in
        let acum = w.acum_local_offset +ℤ (seg.local_offset +ℤ mdata.block_size) in
        record w { acum_local_offset = acum; array_local_offset = set w.array_local_offset i acum }
  ]

  -- "Substract offset if necesary": the loop over `j` from `i` down to 0.
  unfoldable pub substract_offset : (j : ℕ) → List ℤ → Placement → Placement
  substract_offset zero lens p = p
  substract_offset (suc k) lens p =
      let rest = substract_offset k lens p in
      let here = nserv_at mdata (suc k) in
      let before = nserv_at mdata k in
      if eq_ℤ here (pos 0)
      then p
      else if is_shrink_at mdata (suc k)
      then (if leb 2 k && lt_ℤ (pos 0) (nserv_at mdata (k - 2)) && eq_ℤ p.serv (here -ℤ pos 1)
          then record p { local_offset = p.local_offset -ℤ get_or lens (k - 1) (pos 0) }
          else rest)
      else if lt_ℤ (before -ℤ pos 1) p.serv && le_ℤ p.serv (here -ℤ pos 1)
      then record p { local_offset = p.local_offset -ℤ get_or lens (suc k) (pos 0) }
      else rest

  -- "Calculate local_offset and serv", at the entry that the block belongs to.
  unfoldable pub place_here : (replication : ℤ) → ℕ → Walk → Walk
  place_here replication i w =
      let moved = w.offset -ℤ mdata.block_size *ℤ (offset_at mdata i +ℤ pos 1) in
      let back =
        if is_shrink_at mdata i
        then moved +ℤ mdata.block_size *ℤ offset_at mdata (i - 1)
        else moved in
      let offset = if i == 0 then w.offset else back in
      let p =
        calculate_block mdata.block_size mdata.replication_level (nserv_at mdata i) offset
          replication mdata.first_node in
      let shifted = record p {
        local_offset = p.local_offset +ℤ get_or w.array_local_offset i (pos 0);
      } in
      record w { offset = offset; out = substract_offset i w.array_local_offset shifted }

  -- "Recalculate to reconfigure shrink", at any other entry that follows a negative one.
  unfoldable pub recalculate : (replication : ℤ) → ℕ → Walk → Walk
  recalculate replication i w =
      let gone = abs (nserv_at mdata (i - 1)) -ℤ pos 1 in
      let p =
        calculate_block mdata.block_size mdata.replication_level (nserv_at mdata i)
          w.out.local_offset replication mdata.first_node in
      let added = p.local_offset +ℤ get_or w.array_local_offset i (pos 0) in
      let reduced =
        if leb 3 i
          && lt_ℤ (pos 0) (nserv_at mdata (i - 3))
          && eq_ℤ p.serv (nserv_at mdata i -ℤ pos 1)
        then added -ℤ get_or w.array_local_offset (i - 2) (pos 0)
        else added in
      if not (is_shrink_at mdata i)
      then w
      else if eq_ℤ w.out.serv gone
      then record w { out = record { local_offset = reduced; serv = p.serv } }
      else if lt_ℤ gone w.out.serv
      then record w { out = record w.out { serv = w.out.serv -ℤ pos 1 } }
      else w

  -- `have_greatter_shrink`, over the `n` entries from `j` on.
  unfoldable pub greater_shrink : (n j : ℕ) → Bool
  greater_shrink zero j = false
  greater_shrink (suc n) j =
      let rest = greater_shrink n (j + 1) in
      if eq_ℤ (nserv_at mdata j) (pos 0) then false else lt_ℤ (nserv_at mdata j) (pos 0) || rest

  -- `i == actual_index`
  unfoldable pub is_actual : ℕ → Walk → Bool
  is_actual i w = elim w.actual_index [ none ↦ false | some k ↦ i == k ]

  -- "calculate if the block is in the actual data_nserv"
  unfoldable pub find_segment : (block_num : ℤ) → ℕ → Walk → Walk
  find_segment block_num i w = elim w.actual_index [
    | none ↦ if in_segment mdata i block_num then record w { actual_index = some i } else w
    | some k ↦ w
  ]

  -- A round of the loop at a positive entry, up to its last test.
  unfoldable pub visit : (block_num replication : ℤ) → ℕ → Walk → Walk
  visit block_num replication i w =
      let w' = add_segment i (find_segment block_num i w) in
      if is_actual i w' then place_here replication i w' else recalculate replication i w'

  -- `for (i = ...; i < XPN_METADATA_MAX_RECONSTURCTIONS; i++)`, with `n` rounds left.
  unfoldable pub walk : (block_num replication : ℤ) → (n i : ℕ) → Walk → Walk
  walk block_num replication zero i w = w
  walk block_num replication (suc n) i w =
      let skipped = walk block_num replication n (i + 1) w in
      let w' = visit block_num replication i w in
      let more = walk block_num replication n (i + 1) w' in
      if eq_ℤ (nserv_at mdata i) (pos 0)
      then w
      else if lt_ℤ (nserv_at mdata i) (pos 0)
      then skipped
      else if is_actual i w' && not (greater_shrink (suc n) i)
      then w'
      else more

-- `out` is what the out parameters hold before the call.
unfoldable pub calculate_block_mdata :
    (mdata : Metadata) (offset replication : ℤ) (out : Placement) → Placement
calculate_block_mdata mdata offset replication out =
    if eq_ℤ (nserv_at mdata 1) (pos 0)
    then calculate_block mdata.block_size mdata.replication_level (nserv_at mdata 0) offset
        replication mdata.first_node
    else (walk mdata (offset /ℤ mdata.block_size) replication max_reconstructions 0 (record {
      offset = offset;
      actual_index = none;
      acum_local_offset = pos 0;
      array_local_offset = replicate max_reconstructions (pos 0);
      out = out;
    })).out
