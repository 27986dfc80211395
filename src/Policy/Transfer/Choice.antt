-- ===== src/Policy/Transfer/Choice.antt =====
-- Which replica `XpnReadGetBlock` reads.
use native.Mathlib.Nat.{mod-lt, mod-eq_of_lt, mod-add-mod, add-mod_right}
use xpn.Prelude.{
  ℕ, zero, suc, ◌+◌, ◌-◌, ◌%◌, ◌≤◌, ◌<◌, ◌≡◌, ◌≢◌, refl, sym, ap, ◌∙◌, Bool, true, false, inl, inr,
  some, Option, arith, ◌⊎◌, get_elem?, get_elem?_total, if◌then◌else◌, ◌==◌, leb, leb→le,
  Bool-cases, subst,
}
use xpn.Prelude.Int.{ℤ, pos, negsuc, eq_ℤ, eq_ℤ_sound, eq_ℤ_refl}
use xpn.Policy.Block.{Placement}
use xpn.Policy.Transfer.{
  File, error_at, has_failed, find_local, next_replica, try_replicas, read_get_block,
}
use xpn.Policy.Transfer.Placed.{Placed}

-- Server `s` has not failed.
abbrev pub Alive : File → (s : ℕ) → Type 0
Alive f s = (e : ℤ) × (get_elem? f.errors s ≡ some e) × (e ≢ negsuc 0)

module _ (f : File) (offset n : ℕ) (local serv : (off rep : ℕ) → ℕ)
    (pl : Placed f n local serv) where
  abbrev placed_at : (rep : ℕ) → Placement
  placed_at rep = record { local_offset = pos (local offset rep); serv = pos (serv offset rep) }

  abbrev Healthy : ℕ → Type 0
  Healthy r = Alive f (serv offset r)

  -- The error of the server of replica `r`.
  read_error :
      (r : ℕ) → r ≤ f.replication_level → (e : ℤ) × (get_elem? f.errors (serv offset r) ≡ some e)
  read_error r h =
      get_elem?_total f.errors (serv offset r) (omega (arith, pl.in_range offset r h, pl.known))

  not_failed : (e : ℤ) → has_failed e ≡ false → e ≢ negsuc 0
  not_failed e h same = cc (subst (λ x. has_failed x ≡ false) same h)

  failed_not_Healthy :
      (r : ℕ) {e : ℤ}
      → get_elem? f.errors (serv offset r) ≡ some e
      → has_failed e ≡ true
      → ¬ (Healthy r)
  failed_not_Healthy r {e} got h (e', got', ok) =
      ok (cc (sym got' ∙ got, eq_ℤ_sound e (negsuc 0) h))

  -- What `find_local` says of the replicas from `rep` on, `m` of them.
  abbrev Verdict : (serv_client : ℤ) (rep m : ℕ) → Bool → Placement → Type 0
  Verdict serv_client rep m true p =
      (r : ℕ) × (r ≤ f.replication_level)
      × (p ≡ placed_at r)
      × Healthy r
      × (pos (serv offset r) ≡ serv_client)
  Verdict serv_client rep m false p =
      (r : ℕ) → rep ≤ r → r < rep + m → Healthy r → pos (serv offset r) ≢ serv_client

  -- One more replica in front that is not on the client's server, or whose server has failed.
  Verdict-cons :
      (serv_client : ℤ) (rep m : ℕ) (found : Bool) (p : Placement)
      → (Healthy rep → pos (serv offset rep) ≢ serv_client)
      → Verdict serv_client (rep + 1) m found p
      → Verdict serv_client rep (suc m) found p
  Verdict-cons serv_client rep m true p miss v = v
  Verdict-cons serv_client rep m false p miss v = λ r lo hi ok. elim (Bool-cases (r == rep)) [
    | inl e ↦
        subst (λ x. Healthy x → pos (serv offset x) ≢ serv_client)
          (let e' : rep ≡ r = ground arith in e') miss ok
    | inr ne ↦ v r (ground arith) (omega arith) ok
  ]

  find_local-Verdict :
      (serv_client : ℤ) (m rep : ℕ) (out : Placement)
      → rep + m ≤ f.replication_level + 1
      → (p : Placement) × (found : Bool) × (find_local f (pos offset) serv_client m rep out
          ≡ some (p, found))
        × Verdict serv_client rep m found p
  unfolding find_local error_at
  find_local-Verdict serv_client zero rep out h =
      (out, false, refl, λ r lo hi. absurd (omega arith))
  find_local-Verdict serv_client (suc m) rep out h =
      let (e, got) = read_error rep (omega arith) in
      let (p, found, eq, v) =
        find_local-Verdict serv_client m (rep + 1) (placed_at rep) (omega arith) in
      elim (Bool-cases (eq_ℤ (pos (serv offset rep)) serv_client)) [
        | inr far ↦ (
          p,
          found,
          rw (pl.settled offset rep out (omega arith), far) eq,
          Verdict-cons serv_client rep m found p
              (λ ok same. cc (
                subst (λ c. eq_ℤ (pos (serv offset rep)) c ≡ false) (sym same) far,
                eq_ℤ_refl (pos (serv offset rep)),
              ))
              v,
        )
        | inl near ↦ elim (Bool-cases (has_failed e)) [
          | inl bad ↦ (
            p,
            found,
            rw (pl.settled offset rep out (omega arith), near, got, bad) eq,
            Verdict-cons serv_client rep m found p (λ ok same. failed_not_Healthy rep got bad ok) v,
          )
          | inr good ↦ (
            placed_at rep,
            true,
            rw (pl.settled offset rep out (omega arith), near, got, good),
            (rep, omega arith, refl, (e, got, not_failed e good), eq_ℤ_sound _ _ near),
          )
        ]
      ]

  next_replica-mod :
      (rep : ℕ)
      → rep ≤ f.replication_level
      → next_replica f (pos offset) rep ≡ (rep + 1) % (f.replication_level + 1)
  next_replica-mod rep h = ground arith

  -- What the second loop says of the `m + 1` replicas that it may try, from `rep` on.
  abbrev Tried : (m rep : ℕ) → Placement → Type 0
  Tried m rep p =
      (r : ℕ) × (r ≤ f.replication_level)
      × (p ≡ placed_at r)
      × (Healthy r ⊎ ((i : ℕ) → i ≤ m → ¬ (Healthy ((rep + i) % (f.replication_level + 1)))))

  abbrev after : (rep i : ℕ) → ℕ
  after rep i = (rep + i) % (f.replication_level + 1)

  after-zero : (rep : ℕ) → rep ≤ f.replication_level → after rep 0 ≡ rep
  after-zero rep h =
      ap (λ x. x % (f.replication_level + 1)) (let e : rep + 0 ≡ rep = omega arith in e)
      ∙ mod-eq_of_lt (omega arith)

  after-suc :
      (rep i : ℕ)
      → rep ≤ f.replication_level
      → after rep (suc i) ≡ after (next_replica f (pos offset) rep) i
  after-suc rep i h =
      ap (λ x. x % (f.replication_level + 1)) (let e : rep + suc i ≡ rep + 1 + i = omega arith in e)
      ∙ sym (mod-add-mod (rep + 1) (f.replication_level + 1) i)
      ∙ ap (λ x. after x i) (sym (next_replica-mod rep h))

  none_before :
      (rep m : ℕ)
      → rep ≤ f.replication_level
      → ¬ (Healthy rep)
      → ((i : ℕ) → i ≤ m → ¬ (Healthy (after (next_replica f (pos offset) rep) i)))
      → (i : ℕ) → i ≤ suc m
      → ¬ (Healthy (after rep i))
  none_before rep m h bad rest zero hi ok = bad (subst Healthy (after-zero rep h) ok)
  none_before rep m h bad rest (suc i) hi ok =
      rest i (omega arith) (subst Healthy (after-suc rep i h) ok)

  try_replicas-Tried :
      (m rep : ℕ) (out : Placement)
      → rep ≤ f.replication_level
      → (p : Placement) × (try_replicas f (pos offset) m rep out ≡ some p) × Tried m rep p
  unfolding try_replicas error_at
  try_replicas-Tried zero rep out h =
      let (e, got) = read_error rep h in
      (
        placed_at rep,
        rw (pl.settled offset rep out h, got),
        (
          rep,
          h,
          refl,
          elim (Bool-cases (has_failed e)) [
            | inr good ↦ inl (e, got, not_failed e good)
            | inl bad ↦ inr λ i hi ok. failed_not_Healthy rep got bad (
                subst Healthy (ap (after rep) (let z : i ≡ 0 = omega arith in z) ∙ after-zero rep h)
                  ok)
          ],
        ),
      )
  try_replicas-Tried (suc m) rep out h =
      let (e, got) = read_error rep h in
      let next = next_replica f (pos offset) rep in
      let (p, eq, (r, hr, at, verdict)) = try_replicas-Tried m next (placed_at rep) (
        omega (
          arith,
          next_replica-mod rep h,
          mod-lt (rep + 1) {m = f.replication_level + 1} (omega arith),
        )) in
      elim (Bool-cases (has_failed e)) [
        | inr good ↦ (
          placed_at rep,
          rw (pl.settled offset rep out h, got, good),
          (rep, h, refl, inl (e, got, not_failed e good)),
        )
        | inl bad ↦ (
          p,
          rw (pl.settled offset rep out h, got, bad) eq,
          (
            r,
            hr,
            at,
            elim verdict [
              | inl ok ↦ inl ok
              | inr all ↦ inr (none_before rep m h (failed_not_Healthy rep got bad) all)
            ],
          ),
        )
      ]

  -- From any replica on, `rl + 1` steps reach every replica.
  reach :
      (rep r : ℕ)
      → rep ≤ f.replication_level
      → r ≤ f.replication_level
      → (i : ℕ) × (i ≤ f.replication_level) × (after rep i ≡ r)
  reach rep r h hr = elim (Bool-cases (leb rep r)) [
    | inl le ↦ (
      r - rep,
      omega arith,
      ap (λ x. x % (f.replication_level + 1))
            (let e : rep + (r - rep) ≡ r = omega (arith, leb→le rep r le) in e)
          ∙ mod-eq_of_lt (omega arith),
    )
    | inr gt ↦ (
      r + (f.replication_level + 1) - rep,
      ground arith,
      ap (λ x. x % (f.replication_level + 1))
            (let e : rep + (r + (f.replication_level + 1) - rep) ≡ r + (f.replication_level + 1) =
                omega arith in
              e)
          ∙ add-mod_right r (f.replication_level + 1)
          ∙ mod-eq_of_lt (omega arith),
    )
  ]

  abbrev first_tried : (rand : ℕ) → ℕ
  first_tried rand = if f.replication_level == 0 then 0 else rand % (f.replication_level + 1)

  first_tried-le : (rand : ℕ) → first_tried rand ≤ f.replication_level
  first_tried-le rand = ground (arith, mod-lt rand {m = f.replication_level + 1})

  -- What `read_get_block-Alive` says of a run `got`.
  abbrev Best : (serv_client : ℤ) (got : Option Placement) → Type 0
  Best serv_client got =
      (r : ℕ) × (r ≤ f.replication_level)
      × (got ≡ some (placed_at r))
      × ((r' : ℕ) → r' ≤ f.replication_level → Healthy r' → Healthy r)
      × ((r' : ℕ)
          → r' ≤ f.replication_level
          → Healthy r'
          → pos (serv offset r') ≡ serv_client
          → pos (serv offset r) ≡ serv_client)

  -- The second loop, where no healthy replica lies on the client's server.
  second_choice :
      (serv_client : ℤ) (rand : ℕ) (q : Placement)
      → ((r : ℕ) → r ≤ f.replication_level → Healthy r → pos (serv offset r) ≢ serv_client)
      → Best serv_client (try_replicas f (pos offset) f.replication_level (first_tried rand) q)
  second_choice serv_client rand q none_here =
      let (p, eq, (r, hr, at, verdict)) =
        try_replicas-Tried f.replication_level (first_tried rand) q (first_tried-le rand) in
      (
        r,
        hr,
        eq ∙ ap some at,
        λ r' hr' ok. elim verdict [
          | inl good ↦ good
          | inr all ↦
              let (i, hi, e) = reach (first_tried rand) r' (first_tried-le rand) hr' in
              absurd (all i hi (subst Healthy (sym e) ok))
        ],
        λ r' hr' ok same. absurd (none_here r' hr' ok same),
      )

  by-Verdict :
      (serv_client : ℤ) (rand : ℕ) (p : Placement) (found : Bool)
      → Verdict serv_client 0 (f.replication_level + 1) found p
      → Best serv_client (
          if found
          then some p
          else try_replicas f (pos offset) f.replication_level (first_tried rand) p)
  by-Verdict serv_client rand p true (r, hr, at, ok, near) =
      (r, hr, ap some at, λ _ _ _. ok, λ _ _ _ _. near)
  by-Verdict serv_client rand p false v =
      second_choice serv_client rand p λ r hr ok. v r (omega arith) (omega arith) ok

  -- `XpnReadGetBlock` returns the place of a replica of the block. Its server has not failed, if
  -- that of any replica has not; and it is the client's own, if a replica lies there and that
  -- server has not failed.
  pub read_get_block-Alive :
      (serv_client : ℤ) (rand : ℕ) (out : Placement)
      → (r : ℕ) × (r ≤ f.replication_level)
        × (read_get_block f (pos offset) serv_client rand out
            ≡ some (record { local_offset = pos (local offset r); serv = pos (serv offset r) }))
        × ((r' : ℕ) → r' ≤ f.replication_level → Alive f (serv offset r') → Alive f (serv offset r))
        × ((r' : ℕ)
            → r' ≤ f.replication_level
            → Alive f (serv offset r')
            → pos (serv offset r') ≡ serv_client
            → pos (serv offset r) ≡ serv_client)
  unfolding read_get_block
  read_get_block-Alive serv_client rand out = elim (Bool-cases (eq_ℤ serv_client (negsuc 0))) [
    | inl anywhere ↦ rw anywhere (
        second_choice serv_client rand out
          λ r' hr' ok same. cc (same, eq_ℤ_sound serv_client (negsuc 0) anywhere))
    | inr here ↦
        let (p, found, eq, v) =
          find_local-Verdict serv_client (f.replication_level + 1) 0 out (omega arith) in
        rw (here, eq) (by-Verdict serv_client rand p found v)
  ]
