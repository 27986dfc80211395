-- ===== src/Policy/Transfer/Write.antt =====
-- What `XpnWriteBlocksBlockByBlock` puts into the operation matrix.
use xpn.Prelude.{
  ℕ, zero, suc, ◌+◌, ◌-◌, ◌*◌, ◌%◌, ◌≤◌, ◌<◌, ◌≡◌, refl, ◌∙◌, inl, inr, some, [], arith, length,
  get_elem?_total, ltb, leb, leb→le, ltb→lt, sym, subst, replicate, length-replicate, Bool-cases,
}
use xpn.Prelude.Int.{ℤ, pos}
use xpn.Policy.Block.{Placement}
use xpn.Policy.Transfer.{
  File, Base, Matrix, error_at, write_get_block, chunk, io_at, push_io, write_replicas, write_loop,
  write_blocks_block_by_block,
}
use xpn.Policy.Transfer.Placed.{Placed, chunk_bounds, placed_at, chunk-Carries}
use xpn.Policy.Transfer.Rows.{
  Carried, matrix_size, matrix_size-replicate, push_io-Pushed, Carried-push, Carried-push_self,
}

module _ (f : File) (base : Base) (size offset n : ℕ) (local serv : (off rep : ℕ) → ℕ)
    (pl : Placed f n local serv) where
  -- Replica `rep` of byte `k` of the buffer is carried to its place.
  abbrev pub Sent : Matrix → (k rep : ℕ) → Type 0
  Sent rows k rep = Carried rows (serv (offset + k) rep) k (local (offset + k) rep)

  -- Every replica of the bytes before `c`, and the first `j` replicas of those of the chunk of `l`
  -- bytes at `c`, are on their way, and nothing else.
  record Progress (c l j : ℕ) (rows : Matrix) : Type 0 where
    width : length rows ≡ n
    total : matrix_size rows ≡ c * (f.replication_level + 1) + l * j
    before : (k rep : ℕ) → k < c → rep ≤ f.replication_level → Sent rows k rep
    chunk : (k rep : ℕ) → c ≤ k → k < c + l → rep < j → Sent rows k rep

  write_get_block_total :
      (off j : ℕ) (out : Placement)
      → j ≤ f.replication_level
      → (e : ℤ) × (write_get_block f (pos off) j out
          ≡ some (record { local_offset = pos (local off j); serv = pos (serv off j) }, e))
  unfolding write_get_block error_at
  write_get_block_total off j out h =
      let (e, eq) =
        get_elem?_total f.errors (serv off j) (omega (arith, pl.in_range off j h, pl.known)) in
      (e, rw (pl.settled off j out h, eq))

  push_chunk :
      (c l j : ℕ) (rows : Matrix)
      → j ≤ f.replication_level
      → (offset + c) % f.block_size + l ≤ f.block_size
      → Progress c l j rows
      → (rows' : Matrix) × (push_io
            (pos (serv (offset + c) j))
            (io_at f base size offset (placed_at local serv (offset + c) j) c l)
            rows
          ≡ some rows')
        × Progress c l (j + 1) rows'
  push_chunk c l j rows hj fits g =
      let (rows', e, p) =
        push_io-Pushed (serv (offset + c) j)
          (io_at f base size offset (placed_at local serv (offset + c) j) c l) rows
          (omega (arith, g.width, pl.in_range (offset + c) j hj)) in
      (
        rows',
        e,
        record {
          width = p.width ∙ g.width;
          total = omega (arith, p.total, g.total);
          before = λ k rep hk hr. Carried-push p _ k _ (g.before k rep hk hr);
          chunk = λ k rep lo hi hr. elim (Bool-cases (leb j rep)) [
            | inl last ↦
                let same : rep ≡ j = omega (arith, leb→le j rep last) in
                let (carries, s_eq) =
                  chunk-Carries f base size offset n local serv pl c l j k hj fits lo hi in
                subst (λ r. Sent rows' k r) (sym same)
                  (subst (λ s. Carried rows' s k (local (offset + k) j)) (sym s_eq)
                    (Carried-push_self p k _ carries))
            | inr earlier ↦ Carried-push p _ k _ (g.chunk k rep lo hi (ground arith))
          ];
        },
      )

  -- The loop over the replicas sends them all.
  write_replicas-Progress :
      (m j c l : ℕ) (out : Placement) (rows : Matrix)
      → j + m ≡ f.replication_level + 1
      → (offset + c) % f.block_size + l ≤ f.block_size
      → Progress c l j rows
      → (out' : Placement) × (rows' : Matrix) × (write_replicas f base size offset m j c l out rows
          ≡ some (out', rows'))
        × Progress c l (f.replication_level + 1) rows'
  unfolding write_replicas
  write_replicas-Progress zero j c l out rows e fits g = (
    out,
    rows,
    refl,
    subst (λ r. Progress c l r rows) (let e' : j ≡ f.replication_level + 1 = omega arith in e') g,
  )
  write_replicas-Progress (suc m) j c l out rows e fits g =
      let (err, got) = write_get_block_total (offset + c) j out (omega arith) in
      let (rows', pushed, g') = push_chunk c l j rows (omega arith) fits g in
      let (out', rows'', eq, g'') =
        write_replicas-Progress m (j + 1) c l (placed_at local serv (offset + c) j) rows'
          (omega arith) fits g' in
      (out', rows'', rw (got, pushed) eq, g'')

  -- A chunk begins, and a chunk is done.
  begin_chunk : {c : ℕ} {rows : Matrix} (l : ℕ) → Progress c 0 0 rows → Progress c l 0 rows
  begin_chunk l g = record {
    width = g.width;
    total = omega (arith, g.total);
    before = g.before;
    chunk = λ k rep lo hi hr. absurd (omega arith);
  }

  end_chunk :
      {c l : ℕ} {rows : Matrix}
      → Progress c l (f.replication_level + 1) rows
      → Progress (c + l) 0 0 rows
  end_chunk {c} {l} g = record {
    width = g.width;
    total = omega (arith, g.total);
    before = λ k rep hk hr. elim (Bool-cases (ltb k c)) [
      | inl old ↦ g.before k rep (ltb→lt k c old) hr
      | inr new ↦ g.chunk k rep (ground arith) hk (omega arith)
    ];
    chunk = λ k rep lo hi hr. absurd (omega arith);
  }

  write_loop-Progress :
      (fuel c : ℕ) (out : Placement) (rows : Matrix)
      → c ≤ size
      → size ≤ c + fuel
      → Progress c 0 0 rows
      → (rows' : Matrix) × (write_loop f base size offset fuel c out rows ≡ some rows')
        × Progress size 0 0 rows'
  unfolding write_loop
  write_loop-Progress zero c out rows lo hi g =
      let e : c ≡ size = omega arith in
      (rows, ground (arith, e), subst (λ x. Progress x 0 0 rows) e g)
  write_loop-Progress (suc fuel) c out rows lo hi g = elim (Bool-cases (ltb c size)) [
    | inr done ↦
        let e : c ≡ size = ground arith in (rows, rw done, subst (λ x. Progress x 0 0 rows) e g)
    | inl more ↦
        let l = chunk f.block_size (offset + c) (size - c) in
        let (l_pos, l_le, fits) =
          chunk_bounds f.block_size (offset + c) (size - c) pl.block_pos (ground arith) in
        let (out', rows', sent, g') =
          write_replicas-Progress (f.replication_level + 1) 0 c l out rows (omega arith) fits
            (begin_chunk l g) in
        let (rows'', eq, g'') =
          write_loop-Progress fuel (c + l) out' rows' (ground arith) (omega arith) (end_chunk g') in
        (rows'', rw (more, sent) eq, g'')
  ]

  -- The splitting of a write of `size` bytes ends with an operation matrix in which each of the
  -- `rl + 1` replicas of each byte of the buffer is carried to its place in the file, and whose
  -- operations have `size * (rl + 1)` bytes in all.
  pub write_blocks_block_by_block_complete :
      (out : Placement)
      → (rows : Matrix) × (write_blocks_block_by_block f base size offset n out ≡ some rows)
        × (length rows ≡ n)
        × (matrix_size rows ≡ size * (f.replication_level + 1))
        × ((k rep : ℕ) → k < size → rep ≤ f.replication_level → Sent rows k rep)
  unfolding write_blocks_block_by_block
  write_blocks_block_by_block_complete out =
      let (rows, e, g) =
        write_loop-Progress size 0 out (replicate n []) (omega arith) (omega arith) (record {
          width = length-replicate n [];
          total = omega (arith, matrix_size-replicate n);
          before = λ k rep hk hr. elim hk [ ];
          chunk = λ k rep lo hi hr. elim hr [ ];
        }) in
      (rows, e, g.width, omega (arith, g.total), g.before)
