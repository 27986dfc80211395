-- ===== src/Policy/Transfer/Capacity.antt =====
-- The room in the operation matrix that xpn_pread and xpn_pwrite of
-- src/xpn_client/xpn/xpn_simple/xpncore/xpn_rw.c allocate for each server.
use native.Mathlib.Nat.{div-add-mod', mod-lt, mul-mod_left}
use xpn.Prelude.{
  ℕ, zero, suc, ◌+◌, ◌-◌, ◌*◌, ◌/◌, ◌%◌, ◌≤◌, ◌<◌, ◌≡◌, refl, sym, ap, ◌∙◌, Option, none, some, [],
  ◌∷◌, ◌>>=◌, arith, ltb, ltb→lt, ◌==◌, if◌then◌else◌, length, length-append, replicate, Bool-cases,
  Option-cases, inl, inr, some_injective, some_ne_none, subst,
}
use xpn.Prelude.Int.{ℤ, pos, negsuc}
use xpn.Policy.Block.{Placement}
use xpn.Policy.Transfer.{
  File, Base, Io, Matrix, push_row, push_io, chunk, io_at, read_get_block, write_get_block,
  read_loop, write_replicas, write_loop, read_blocks_block_by_block, write_blocks_block_by_block,
}
use xpn.Policy.Transfer.Placed.{Placed}
use xpn.Policy.Transfer.Rows.{row_at}
use xpn.Policy.Transfer.Read.{read_blocks_block_by_block_complete}
use xpn.Policy.Transfer.Write.{write_blocks_block_by_block_complete}

-- `max` in xpn_pread.
unfoldable pub read_capacity : (block_size size : ℕ) → ℕ
read_capacity block_size size =
    let max = size / block_size + 1 in if size % block_size == 0 then max else max + 1

-- `max` in xpn_pwrite.
unfoldable pub write_capacity : (block_size size replication_level : ℕ) → ℕ
write_capacity block_size size replication_level =
    read_capacity block_size size * (replication_level + 1)

-- The operations of all rows.
abbrev op_count : Matrix → ℕ
op_count [] = 0
op_count (row ∷ rows) = length row + op_count rows

row_at_le : (rows : Matrix) (s : ℕ) → length (row_at rows s) ≤ op_count rows
row_at_le [] zero = omega arith
row_at_le [] (suc s) = omega arith
row_at_le (row ∷ rows) zero = omega arith
row_at_le (row ∷ rows) (suc s) = omega (arith, row_at_le rows s)

op_count-replicate : (n : ℕ) → op_count (replicate n []) ≡ 0
op_count-replicate zero = refl
op_count-replicate (suc n) = omega (arith, op_count-replicate n)

op_count-push_row :
    (i : ℕ) (op : Io) (rows rows' : Matrix)
    → push_row i op rows ≡ some rows'
    → op_count rows' ≡ op_count rows + 1
unfolding push_row
op_count-push_row i op [] rows' e = absurd (some_ne_none (sym e))
op_count-push_row zero op (row ∷ rows) rows' e =
    ap op_count (sym (some_injective e)) ∙ omega (arith, length-append row (op ∷ []))
op_count-push_row (suc i) op (row ∷ rows) rows' e = elim (Option-cases (push_row i op rows)) [
  | inl fails ↦ absurd (some_ne_none (sym e ∙ rw fails refl))
  | inr (more, there) ↦
      let same : row ∷ more ≡ rows' = some_injective (sym (rw there refl) ∙ e) in
      ap op_count (sym same) ∙ omega (arith, op_count-push_row i op rows more there)
]

op_count-push_io :
    (serv : ℤ) (op : Io) (rows rows' : Matrix)
    → push_io serv op rows ≡ some rows'
    → op_count rows' ≡ op_count rows + 1
unfolding push_io
op_count-push_io (pos i) op rows rows' e = op_count-push_row i op rows rows' e
op_count-push_io (negsuc i) op rows rows' e = absurd (some_ne_none (sym e))

-- Enough rounds are left for the bytes from `c` on: with what lies before them in their block, they
-- fit into as many blocks.
abbrev Enough : (bs offset size c rounds : ℕ) → Type 0
Enough bs offset size c rounds = c < size → size - c + (offset + c) % bs ≤ rounds * bs

Enough-read_capacity :
    (bs offset size : ℕ) → 0 < bs → Enough bs offset size 0 (read_capacity bs size)
unfolding read_capacity
Enough-read_capacity bs offset size p lt = elim (Bool-cases (size % bs == 0)) [
  | inl whole ↦ rw whole (
      let none_over : size % bs ≡ 0 = ground arith in
      omega (arith, none_over, div-add-mod' size bs, mod-lt (offset + 0) p))
  | inr part ↦ rw part (omega (arith, div-add-mod' size bs, mod-lt size p, mod-lt (offset + 0) p))
]

-- The byte behind a block begins one.
behind_block : (x bs : ℕ) → 0 < bs → (x + (bs - x % bs)) % bs ≡ 0
behind_block x bs p =
    ap (λ y. y % bs)
      (let e : x + (bs - x % bs) ≡ (x / bs + 1) * bs =
          omega (arith, div-add-mod' x bs, mod-lt x p) in
        e)
    ∙ mul-mod_left (x / bs + 1) bs

Enough-chunk :
    (bs offset size c rounds : ℕ)
    → 0 < bs
    → c < size
    → Enough bs offset size c (suc rounds)
    → Enough bs offset size (c + chunk bs (offset + c) (size - c)) rounds
unfolding chunk
Enough-chunk bs offset size c rounds p lt h =
    elim (Bool-cases (ltb (size - c) (bs - (offset + c) % bs))) [
      | inl last ↦ rw last (λ more. absurd (omega arith))
      | inr whole ↦ rw whole (λ more. ends more)
    ]
  where
    ends :
        c + (bs - (offset + c) % bs) < size
        → size - (c + (bs - (offset + c) % bs)) + (offset + (c + (bs - (offset + c) % bs))) % bs
          ≤ rounds * bs
    ends more =
        let e : offset + (c + (bs - (offset + c) % bs)) ≡ offset + c + (bs - (offset + c) % bs) =
          omega arith in
        let zero_there : (offset + (c + (bs - (offset + c) % bs))) % bs ≡ 0 =
          ap (λ y. y % bs) e ∙ behind_block (offset + c) bs p in
        omega (arith, zero_there, h lt, mod-lt (offset + c) p)

bind_some :
    {A B : Type 0} (o : Option A) (k : A → Option B) (b : B)
    → (o >>= k) ≡ some b
    → (a : A) × (o ≡ some a) × (k a ≡ some b)
bind_some none k b e = absurd (some_ne_none (sym e))
bind_some (some a) k b e = (a, refl, e)

-- While there are bytes left, there is a round left.
rounds_left :
    (bs offset size c rounds : ℕ)
    → c < size
    → Enough bs offset size c rounds
    → (more : ℕ) × (rounds ≡ suc more)
rounds_left bs offset size c zero lt h = absurd (omega (arith, h lt))
rounds_left bs offset size c (suc more) lt h = (more, refl)

module _ (f : File) (base : Base) (size offset : ℕ) where
  -- Each round adds as many operations as `each`: one for a read, one for each replica for a write.
  next_count :
      (rows rows1 rows' : Matrix) (each more : ℕ)
      → op_count rows1 ≡ op_count rows + each
      → op_count rows' ≤ op_count rows1 + more * each
      → op_count rows' ≤ op_count rows + suc more * each
  next_count rows rows1 rows' each more e h = omega (arith, e, h)

  done_count :
      (rows rows' : Matrix) (k : ℕ) → some rows ≡ some rows' → op_count rows' ≤ op_count rows + k
  done_count rows rows' k e = omega (arith, ap op_count (some_injective e))

  read_loop-op_count :
      (serv_client : ℤ) (rand : ℕ → ℕ) (fuel c rounds : ℕ) (out : Placement) (rows rows' : Matrix)
      → 0 < f.block_size
      → Enough f.block_size offset size c rounds
      → read_loop f base size offset serv_client rand fuel c out rows ≡ some rows'
      → op_count rows' ≤ op_count rows + rounds * 1
  unfolding read_loop
  read_loop-op_count serv_client rand zero c rounds out rows rows' p h e =
      elim (Bool-cases (ltb c size)) [
        | inl more ↦ absurd (some_ne_none (sym e ∙ rw more refl))
        | inr done ↦ done_count rows rows' (rounds * 1) (sym (rw done refl) ∙ e)
      ]
  read_loop-op_count serv_client rand (suc fuel) c rounds out rows rows' p h e =
      elim (Bool-cases (ltb c size)) [
        | inr done ↦ done_count rows rows' (rounds * 1) (sym (rw done refl) ∙ e)
        | inl more ↦
            let lt : c < size = ltb→lt c size more in
            let l = chunk f.block_size (offset + c) (size - c) in
            let (left, enough) = rounds_left f.block_size offset size c rounds lt h in
            let next : Placement → Matrix → Option Matrix =
              read_loop f base size offset serv_client rand fuel (c + l) in
            let (q, at, e1) =
              bind_some (read_get_block f (pos (offset + c)) serv_client (rand c) out)
                (λ q. push_io q.serv (io_at f base size offset q c l) rows >>= next q) rows'
                (rw more at e) in
            let (rows1, pushed, e2) =
              bind_some (push_io q.serv (io_at f base size offset q c l) rows) (next q) rows' e1 in
            let h' : Enough f.block_size offset size c (suc left) =
              subst (λ k. Enough f.block_size offset size c k) enough h in
            let rest =
              read_loop-op_count serv_client rand fuel (c + l) left q rows1 rows' p
                (Enough-chunk f.block_size offset size c left p lt h') e2 in
            subst (λ k. op_count rows' ≤ op_count rows + k * 1) (sym enough)
              (next_count rows rows1 rows' 1 left
                (op_count-push_io q.serv (io_at f base size offset q c l) rows rows1 pushed) rest)
      ]

  write_replicas-op_count :
      (n j c l : ℕ) (out q : Placement) (rows rows' : Matrix)
      → write_replicas f base size offset n j c l out rows ≡ some (q, rows')
      → op_count rows' ≡ op_count rows + n
  unfolding write_replicas
  write_replicas-op_count zero j c l out q rows rows' e =
      omega (arith, ap (λ r. op_count r.1) (some_injective e))
  write_replicas-op_count (suc n) j c l out q rows rows' e =
      let next : Placement → Matrix → Option (Placement × Matrix) =
        write_replicas f base size offset n (j + 1) c l in
      let (r, at, e1) =
        bind_some (write_get_block f (pos (offset + c)) j out)
          (λ r. push_io r.0.serv (io_at f base size offset r.0 c l) rows >>= next r.0) (q, rows')
          e in
      let (rows1, pushed, e2) =
        bind_some (push_io r.0.serv (io_at f base size offset r.0 c l) rows) (next r.0) (q, rows')
          e1 in
      omega (
        arith,
        op_count-push_io r.0.serv (io_at f base size offset r.0 c l) rows rows1 pushed,
        write_replicas-op_count n (j + 1) c l r.0 q rows1 rows' e2,
      )

  write_loop-op_count :
      (fuel c rounds : ℕ) (out : Placement) (rows rows' : Matrix)
      → 0 < f.block_size
      → Enough f.block_size offset size c rounds
      → write_loop f base size offset fuel c out rows ≡ some rows'
      → op_count rows' ≤ op_count rows + rounds * (f.replication_level + 1)
  unfolding write_loop
  write_loop-op_count zero c rounds out rows rows' p h e = elim (Bool-cases (ltb c size)) [
    | inl more ↦ absurd (some_ne_none (sym e ∙ rw more refl))
    | inr done ↦ done_count rows rows' (rounds * (f.replication_level + 1)) (sym (rw done refl) ∙ e)
  ]
  write_loop-op_count (suc fuel) c rounds out rows rows' p h e = elim (Bool-cases (ltb c size)) [
    | inr done ↦ done_count rows rows' (rounds * (f.replication_level + 1)) (sym (rw done refl) ∙ e)
    | inl more ↦
        let lt : c < size = ltb→lt c size more in
        let l = chunk f.block_size (offset + c) (size - c) in
        let each = f.replication_level + 1 in
        let (left, enough) = rounds_left f.block_size offset size c rounds lt h in
        let (q, written, e1) =
          bind_some (write_replicas f base size offset each 0 c l out rows)
            (λ q. write_loop f base size offset fuel (c + l) q.0 q.1) rows' (rw more at e) in
        let h' : Enough f.block_size offset size c (suc left) =
          subst (λ k. Enough f.block_size offset size c k) enough h in
        let rest =
          write_loop-op_count fuel (c + l) left q.0 q.1 rows' p
            (Enough-chunk f.block_size offset size c left p lt h') e1 in
        subst (λ k. op_count rows' ≤ op_count rows + k * each) (sym enough)
          (next_count rows q.1 rows' each left
            (write_replicas-op_count each 0 c l out q.0 rows q.1 written) rest)
  ]

-- On a file with a settled placement, `XpnReadBlocksBlockByBlock` and `XpnWriteBlocksBlockByBlock` end
-- with a matrix, and no row of it has more operations than the arrays have room for that xpn_pread
-- and xpn_pwrite allocate.
pub length-blocks_block_by_block :
    (f : File) (base : Base) (size offset n : ℕ) (local serv : (off rep : ℕ) → ℕ)
    → Placed f n local serv
    → (serv_client : ℤ) (rand : ℕ → ℕ) (out : Placement)
    → ((rows : Matrix) × (read_blocks_block_by_block f base size offset serv_client rand n out
          ≡ some rows)
        × ((s : ℕ) → length (row_at rows s) ≤ read_capacity f.block_size size))
      × ((rows : Matrix) × (write_blocks_block_by_block f base size offset n out ≡ some rows)
          × ((s : ℕ)
              → length (row_at rows s) ≤ write_capacity f.block_size size f.replication_level))
unfolding read_blocks_block_by_block write_blocks_block_by_block write_capacity
length-blocks_block_by_block f base size offset n local serv pl serv_client rand out =
    let enough = Enough-read_capacity f.block_size offset size pl.block_pos in
    let max = read_capacity f.block_size size in
    let (read, e, _, _, _) =
      read_blocks_block_by_block_complete f base size offset n local serv pl serv_client rand out in
    let (written, e', _, _, _) =
      write_blocks_block_by_block_complete f base size offset n local serv pl out in
    (
      (
        read,
        e,
        λ s.
            let all =
              read_loop-op_count f base size offset serv_client rand size 0 max out (replicate n [])
                read pl.block_pos enough e in
            omega (arith, all, row_at_le read s, op_count-replicate n),
      ),
      (
        written,
        e',
        λ s.
            let all =
              write_loop-op_count f base size offset size 0 max out (replicate n []) written
                pl.block_pos enough e' in
            omega (arith, all, row_at_le written s, op_count-replicate n),
      ),
    )
