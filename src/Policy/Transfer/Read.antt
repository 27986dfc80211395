-- ===== src/Policy/Transfer/Read.antt =====
-- What `XpnReadBlocksBlockByBlock` puts into the operation matrix.
use xpn.Prelude.{
  ℕ, [], zero, suc, ◌+◌, ◌-◌, ◌%◌, ◌≤◌, ◌<◌, ◌≡◌, sym, ◌∙◌, inl, inr, some, arith, length, ltb,
  ltb→lt, replicate, length-replicate, Bool-cases, subst,
}
use xpn.Prelude.Int.{ℤ, pos}
use xpn.Policy.Block.{Placement}
use xpn.Policy.Transfer.{
  File, Base, Matrix, chunk, io_at, push_io, read_loop, read_blocks_block_by_block,
}
use xpn.Policy.Transfer.Placed.{Placed, chunk_bounds, placed_at, chunk-Carries}
use xpn.Policy.Transfer.Choice.{Alive, read_get_block-Alive}
use xpn.Policy.Transfer.Rows.{
  Carried, matrix_size, matrix_size-replicate, push_io-Pushed, Carried-push, Carried-push_self,
}

module _ (f : File) (base : Base) (size offset n : ℕ) (local serv : (off rep : ℕ) → ℕ)
    (pl : Placed f n local serv) (serv_client : ℤ) (rand : ℕ → ℕ) where
  -- Byte `k` of the buffer is read from its place in replica `r`, on a server that has not failed
  -- if that of any replica has not.
  abbrev pub ReadFrom : Matrix → (k r : ℕ) → Type 0
  ReadFrom rows k r =
      Carried rows (serv (offset + k) r) k (local (offset + k) r)
      × ((r' : ℕ)
          → r' ≤ f.replication_level
          → Alive f (serv (offset + k) r')
          → Alive f (serv (offset + k) r))

  -- The bytes before `c` are read, and nothing else.
  record Progress (c : ℕ) (rows : Matrix) : Type 0 where
    width : length rows ≡ n
    total : matrix_size rows ≡ c
    before : (k : ℕ) → k < c → (r : ℕ) × (r ≤ f.replication_level) × ReadFrom rows k r

  -- One round: the chunk of `l` bytes at `c` is read from replica `r`.
  read_chunk :
      (c l r : ℕ) (rows : Matrix)
      → r ≤ f.replication_level
      → (offset + c) % f.block_size + l ≤ f.block_size
      → ((r' : ℕ)
          → r' ≤ f.replication_level
          → Alive f (serv (offset + c) r')
          → Alive f (serv (offset + c) r))
      → Progress c rows
      → (rows' : Matrix) × (push_io
            (pos (serv (offset + c) r))
            (io_at f base size offset (placed_at local serv (offset + c) r) c l)
            rows
          ≡ some rows')
        × Progress (c + l) rows'
  read_chunk c l r rows hr fits best g =
      let (rows', e, p) =
        push_io-Pushed (serv (offset + c) r)
          (io_at f base size offset (placed_at local serv (offset + c) r) c l) rows
          (omega (arith, g.width, pl.in_range (offset + c) r hr)) in
      (
        rows',
        e,
        record {
          width = p.width ∙ g.width;
          total = omega (arith, p.total, g.total);
          before = λ k hk. elim (Bool-cases (ltb k c)) [
            | inl old ↦
                let (r', hr', (carried, ok)) = g.before k (ltb→lt k c old) in
                (r', hr', (Carried-push p _ k _ carried, ok))
            | inr new ↦
                let same : (r' : ℕ)
                    → r' ≤ f.replication_level
                    → serv (offset + k) r' ≡ serv (offset + c) r' =
                  λ r' hr'.
                    (chunk-Carries f base size offset n local serv pl c l r' k hr' fits
                      (ground arith) hk).1 in
                let carries =
                  (chunk-Carries f base size offset n local serv pl c l r k hr fits (ground arith)
                    hk).0 in
                (
                  r,
                  hr,
                  (
                    subst (λ s. Carried rows' s k (local (offset + k) r)) (sym (same r hr))
                        (Carried-push_self p k _ carries),
                    λ r' hr' ok.
                        subst (Alive f) (sym (same r hr))
                          (best r' hr' (subst (Alive f) (same r' hr') ok)),
                  ),
                )
          ];
        },
      )

  read_loop-Progress :
      (fuel c : ℕ) (out : Placement) (rows : Matrix)
      → c ≤ size
      → size ≤ c + fuel
      → Progress c rows
      → (rows' : Matrix) × (read_loop f base size offset serv_client rand fuel c out rows
          ≡ some rows')
        × Progress size rows'
  unfolding read_loop
  read_loop-Progress zero c out rows lo hi g =
      let e : c ≡ size = omega arith in (rows, ground (arith, e), subst (λ x. Progress x rows) e g)
  read_loop-Progress (suc fuel) c out rows lo hi g = elim (Bool-cases (ltb c size)) [
    | inr done ↦
        let e : c ≡ size = ground arith in (rows, rw done, subst (λ x. Progress x rows) e g)
    | inl more ↦
        let l = chunk f.block_size (offset + c) (size - c) in
        let (l_pos, l_le, fits) =
          chunk_bounds f.block_size (offset + c) (size - c) pl.block_pos (ground arith) in
        let (r, hr, got, best, _) =
          read_get_block-Alive f (offset + c) n local serv pl serv_client (rand c) out in
        let (rows', pushed, g') = read_chunk c l r rows hr fits best g in
        let (rows'', eq, g'') =
          read_loop-Progress fuel (c + l) (placed_at local serv (offset + c) r) rows' (ground arith)
            (omega arith) g' in
        (rows'', rw (more, got, pushed) eq, g'')
  ]

  -- The splitting of a read of `size` bytes ends with an operation matrix in which each byte of the
  -- buffer is read from its place in one of its replicas, on a server that has not failed if that
  -- of any replica has not, and whose operations have `size` bytes in all.
  pub read_blocks_block_by_block_complete :
      (out : Placement)
      → (rows : Matrix) × (read_blocks_block_by_block f base size offset serv_client rand n out
          ≡ some rows)
        × (length rows ≡ n)
        × (matrix_size rows ≡ size)
        × ((k : ℕ) → k < size → (r : ℕ) × (r ≤ f.replication_level) × ReadFrom rows k r)
  unfolding read_blocks_block_by_block
  read_blocks_block_by_block_complete out =
      let (rows, e, g) =
        read_loop-Progress size 0 out (replicate n []) (omega arith) (omega arith) (record {
          width = length-replicate n [];
          total = matrix_size-replicate n;
          before = λ k hk. elim hk [ ];
        }) in
      (rows, e, g.width, g.total, g.before)
