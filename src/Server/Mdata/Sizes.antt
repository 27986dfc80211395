-- ===== src/Server/Mdata/Sizes.antt =====
-- The size of a file in its metadata, under the updates of `xpn_server_op_write_mdata_file_size` of
-- src/xpn_server/xpn_server_ops.c.
use xpn.Prelude.{
  ℕ, ◌<◌, ◌≡◌, ◌⊎◌, inl, inr, refl, ◌∙◌, true, false, some, List, [], ◌∷◌, ltb, length, Bool-cases,
  arith,
}
use xpn.Prelude.Int.{ℤ, pos, negsuc, lt_ℤ, le_ℤ}
use xpn.Policy.Grouping.{Bytes}
use xpn.Server.{Host}
use xpn.Server.Mdata.{Layout, store_size}

-- What is documented of a descriptor of a file of metadata, when `Inv size s` says that in the state
-- `s` the file has this size in its metadata: reading the field gives it, and writing the field
-- replaces it.
pub record SizeField {S : Type 0} (h : Host S) (l : Layout) (fd : ℤ) (Inv : ℤ → S → Type 0)
    : Type 0 where
  pub reads :
      (size : ℤ) (s : S)
      → Inv size s
      → (s' : S) × (bs : Bytes) × (h.read (h.lseek s fd l.offset_of_file_size).0 fd l.sizeof_size
          ≡ (s', some bs))
        × (0 < length bs)
        × (l.decode_size bs ≡ size)
        × Inv size s'
  pub writes :
      (size new : ℤ) (s : S)
      → Inv size s
      → (s' : S) × (n : ℕ) × (h.write (h.lseek s fd l.offset_of_file_size).0 fd (l.encode_size new)
          ≡ (s', some n))
        × Inv new s'

-- The updates of several clients, one after the other.
abbrev pub store_sizes : {S : Type 0} → Host S → Layout → (fd : ℤ) → S → List ℤ → S
store_sizes h l fd s [] = s
store_sizes h l fd s (size ∷ sizes) = store_sizes h l fd (store_size h l s fd size).0 sizes

-- `m` is the largest of the list and `size`.
abbrev pub AtLeast : ℤ → List ℤ → Type 0
AtLeast m [] = Unit
AtLeast m (size ∷ sizes) = (le_ℤ size m ≡ true) × AtLeast m sizes

abbrev pub IsOneOf : ℤ → List ℤ → Type 0
IsOneOf m [] = ⊥
IsOneOf m (size ∷ sizes) = (m ≡ size) ⊎ IsOneOf m sizes

le_ℤ_refl : (a : ℤ) → le_ℤ a a ≡ true
le_ℤ_refl (pos m) = ground arith
le_ℤ_refl (negsuc m) = ground arith

le_ℤ_trans : (a b c : ℤ) → le_ℤ a b ≡ true → le_ℤ b c ≡ true → le_ℤ a c ≡ true
le_ℤ_trans (pos a) (pos b) (pos c) h k = ground arith
le_ℤ_trans (pos a) (pos b) (negsuc c) h k = cc
le_ℤ_trans (pos a) (negsuc b) c h k = cc
le_ℤ_trans (negsuc a) (pos b) (pos c) h k = refl
le_ℤ_trans (negsuc a) (pos b) (negsuc c) h k = cc
le_ℤ_trans (negsuc a) (negsuc b) (pos c) h k = refl
le_ℤ_trans (negsuc a) (negsuc b) (negsuc c) h k = ground arith

lt→le : (a b : ℤ) → lt_ℤ a b ≡ true → le_ℤ a b ≡ true
lt→le (pos m) (pos n) h = ground arith
lt→le (pos m) (negsuc n) h = cc
lt→le (negsuc m) (pos n) h = refl
lt→le (negsuc m) (negsuc n) h = ground arith

not-lt→le : (a b : ℤ) → lt_ℤ a b ≡ false → le_ℤ b a ≡ true
not-lt→le (pos m) (pos n) h = ground arith
not-lt→le (pos m) (negsuc n) h = refl
not-lt→le (negsuc m) (pos n) h = cc
not-lt→le (negsuc m) (negsuc n) h = ground arith

positive : (n : ℕ) → 0 < n → ltb 0 n ≡ true
positive n h = ground arith

module _ {S : Type 0} (h : Host S) (l : Layout) (fd : ℤ) (Inv : ℤ → S → Type 0) where
  -- After an update the size is the larger of the old one and the new one.
  store_size-larger :
      (size new : ℤ) (s : S)
      → SizeField h l fd Inv
      → Inv size s
      → (m : ℤ) × Inv m (store_size h l s fd new).0
        × (le_ℤ size m ≡ true)
        × (le_ℤ new m ≡ true)
        × ((m ≡ size) ⊎ (m ≡ new))
  unfolding store_size
  store_size-larger size new s law inv =
      let (s1, bs, got, some_read, decoded, inv1) = law.reads size s inv in
      let (s2, n, put, inv2) = law.writes size new s1 inv1 in
      elim (Bool-cases (lt_ℤ size new)) [
        | inl larger ↦ (
          new,
          rw (got, positive (length bs) some_read, decoded, larger, put) inv2,
          lt→le size new larger,
          le_ℤ_refl new,
          inr refl,
        )
        | inr smaller ↦ (
          size,
          rw (got, positive (length bs) some_read, decoded, smaller) inv1,
          le_ℤ_refl size,
          not-lt→le size new smaller,
          inl refl,
        )
      ]

  -- Whatever the order in which clients update the size of a file, it ends up as the largest of the
  -- sizes that were stored and of the one that was there: none of them is larger, and it is one of
  -- them.
  pub store_sizes-largest :
      (sizes : List ℤ) (size : ℤ) (s : S)
      → SizeField h l fd Inv
      → Inv size s
      → (m : ℤ) × Inv m (store_sizes h l fd s sizes)
        × AtLeast m (size ∷ sizes)
        × IsOneOf m (size ∷ sizes)
  store_sizes-largest [] size s law inv = (size, inv, (le_ℤ_refl size, _), inl refl)
  store_sizes-largest (new ∷ sizes) size s law inv =
      let (m, inv1, le_old, le_new, one) = store_size-larger size new s law inv in
      let (k, inv2, (le_m, rest), one') =
        store_sizes-largest sizes m (store_size h l s fd new).0 law inv1 in
      (
        k,
        inv2,
        (le_ℤ_trans size m k le_old le_m, (le_ℤ_trans new m k le_new le_m, rest)),
        elim one' [
          | inl e ↦ elim one [ inl e' ↦ inl (e ∙ e') | inr e' ↦ inr (inl (e ∙ e')) ]
          | inr among ↦ inr (inr among)
        ],
      )
