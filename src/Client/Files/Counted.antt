-- ===== src/Client/Files/Counted.antt =====
-- The links of an open file are the entries of the table that point to it.
use xpn.Prelude.{
  sum_of, sum_of-set, ℕ, zero, suc, ◌+◌, ◌<◌, ◌≡◌, ◌≢◌, refl, sym, ap, ◌∙◌, Option, none, some,
  List, [], ◌∷◌, ◌++◌, replicate, ◌==◌, if◌then◌else◌, arith, get_elem?, set, length,
  get_elem?-set_self, get_elem?-set_ne, get_elem?-append_end, get_elem?-none, subst, some_injective,
  some_ne_none, ℕ_discrete,
}
use xpn.Prelude.Int.{pos, pos_injective, ◌+ℤ◌}
use xpn.Client.Files.{Desc, flat, at}

-- Whether an entry points to an address, as a number.
abbrev pub one : (a : ℕ) → Option ℕ → ℕ
one a none = 0
one a (some b) = if b == a then 1 else 0

-- The number of entries that point to an address.
abbrev pub count : (a : ℕ) → List (Option ℕ) → ℕ
count a table = sum_of (one a) table

pub one_self : (a : ℕ) → one a (some a) ≡ 1
one_self a = ground arith

pub one_ne : (a b : ℕ) → a ≢ b → one a (some b) ≡ 0
one_ne a b h = ground arith

pub count_entry :
    (a : ℕ) (table : List (Option ℕ)) (i : ℕ)
    → get_elem? table i ≡ some (some a)
    → 0 < count a table
count_entry a [] i h = cc
count_entry a (e ∷ table) zero h = rw (some_injective h) (omega (arith, one_self a))
count_entry a (e ∷ table) (suc i) h = omega (arith, count_entry a table i h)

pub count_free : (a n : ℕ) → count a (replicate n none) ≡ 0
count_free a zero = refl
count_free a (suc n) = omega (arith, count_free a n)

at-bound : (heap : List (Option Desc)) (a : ℕ) (d : Desc) → at heap a ≡ some d → a < length heap
at-bound [] a d h = cc
at-bound (e ∷ heap) zero d h = omega arith
at-bound (e ∷ heap) (suc a) d h = omega (arith, at-bound heap a d h)

pub at-set_self :
    (heap : List (Option Desc)) (a : ℕ) (d : Desc) (new : Option Desc)
    → at heap a ≡ some d
    → at (set heap a new) a ≡ new
at-set_self heap a d new h = ap flat (get_elem?-set_self heap a new (at-bound heap a d h))

pub at-set_ne :
    (heap : List (Option Desc)) (a c : ℕ) (new : Option Desc)
    → a ≢ c
    → at (set heap a new) c ≡ at heap c
at-set_ne heap a c new h = ap flat (get_elem?-set_ne heap new h)

at-append :
    (heap : List (Option Desc)) (c : ℕ) (d : Desc)
    → c ≢ length heap
    → at (heap ++ some d ∷ []) c ≡ at heap c
at-append [] zero d h = absurd (h refl)
at-append [] (suc c) d h = refl
at-append (e ∷ heap) zero d h = refl
at-append (e ∷ heap) (suc c) d h = at-append heap c d (λ e'. h (ap suc e'))

-- The links of each description are the number of its entries, of which there is one, and no entry
-- points to memory that was freed.
pub record IsCounted (heap : List (Option Desc)) (table : List (Option ℕ)) : Type 0 where
  pub live :
      (a : ℕ) (d : Desc)
      → at heap a ≡ some d
      → (d.links ≡ pos (count a table)) × (0 < count a table)
  pub dead : (a : ℕ) → at heap a ≡ none → count a table ≡ 0

module _ (heap : List (Option Desc)) (table : List (Option ℕ)) (i : ℕ)
    (h : IsCounted heap table) where
  -- A change of one entry, and of the description at one address, leaves the others counted.
  others-IsCounted :
      (heap' : List (Option Desc)) (a : ℕ) (old new : Option ℕ)
      → get_elem? table i ≡ some old
      → ((c : ℕ) → c ≢ a → at heap' c ≡ at heap c)
      → ((c : ℕ) → c ≢ a → (one c old ≡ 0) × (one c new ≡ 0))
      → ((d : Desc)
          → at heap' a ≡ some d
          → (d.links ≡ pos (count a (set table i new))) × (0 < count a (set table i new)))
      → (at heap' a ≡ none → count a (set table i new) ≡ 0)
      → IsCounted heap' (set table i new)
  others-IsCounted heap' a old new there same apart live' dead' =
      let kept : (c : ℕ) → c ≢ a → count c (set table i new) ≡ count c table = λ c ne.
        omega (arith, sum_of-set (one c) table i old new there, (apart c ne).0, (apart c ne).1) in
      record {
        live = λ c d is. elim (ℕ_discrete c a) [
          | yes e ↦
              subst
                (λ k.
                  at heap' k ≡ some d
                  → (d.links ≡ pos (count k (set table i new))) × (0 < count k (set table i new)))
                (sym e) (live' d) is
          | no ne ↦ rw (kept c ne) (h.live c d (sym (same c ne) ∙ is))
        ];
        dead = λ c is. elim (ℕ_discrete c a) [
          | yes e ↦ subst (λ k. at heap' k ≡ none → count k (set table i new) ≡ 0) (sym e) dead' is
          | no ne ↦ kept c ne ∙ h.dead c (sym (same c ne) ∙ is)
        ];
      }

  -- A new description, in a free entry.
  pub append-IsCounted :
      (d : Desc)
      → get_elem? table i ≡ some none
      → d.links ≡ pos 1
      → IsCounted (heap ++ some d ∷ []) (set table i (some (length heap)))
  append-IsCounted d there linked =
      let n : ℕ = length heap in
      let unused : count n table ≡ 0 = h.dead n (ap flat (get_elem?-none heap n (omega arith))) in
      let once : count n (set table i (some n)) ≡ 1 =
        omega (arith, sum_of-set (one n) table i none (some n) there, unused, one_self n) in
      let new : at (heap ++ some d ∷ []) n ≡ some d =
        ap flat (get_elem?-append_end heap (some d) [] n refl) in
      others-IsCounted (heap ++ some d ∷ []) n none (some n) there (λ c ne. at-append heap c d ne)
        (λ c ne. (refl, one_ne c n ne))
        (λ d' is. (
          ap (λ k. k.links) (sym (some_injective (sym new ∙ is))) ∙ linked ∙ ap pos (sym once),
          omega (arith, once),
        ))
        (λ is. absurd (some_ne_none (sym new ∙ is)))

  -- One more entry for a description.
  pub link-IsCounted :
      (a : ℕ) (d d' : Desc)
      → get_elem? table i ≡ some none
      → at heap a ≡ some d
      → d'.links ≡ d.links +ℤ pos 1
      → IsCounted (set heap a (some d')) (set table i (some a))
  link-IsCounted a d d' there is linked =
      let more : count a (set table i (some a)) ≡ count a table + 1 =
        omega (arith, sum_of-set (one a) table i none (some a) there, one_self a) in
      let new : at (set heap a (some d')) a ≡ some d' = at-set_self heap a d (some d') is in
      others-IsCounted (set heap a (some d')) a none (some a) there
        (λ c ne. at-set_ne heap a c (some d') (λ e. ne (sym e))) (λ c ne. (refl, one_ne c a ne))
        (λ u at_a. (
          ap (λ k. k.links) (sym (some_injective (sym new ∙ at_a)))
              ∙ linked
              ∙ ap (λ k. k +ℤ pos 1) (h.live a d is).0
              ∙ ap pos (sym more),
          omega (arith, more),
        ))
        (λ at_a. absurd (some_ne_none (sym new ∙ at_a)))

  -- The only entry of a description is closed, and the description freed.
  pub free-IsCounted :
      (a : ℕ) (d : Desc)
      → get_elem? table i ≡ some (some a)
      → at heap a ≡ some d
      → d.links ≡ pos 1
      → IsCounted (set heap a none) (set table i none)
  free-IsCounted a d there is linked =
      let last : count a table ≡ 1 = pos_injective (sym (h.live a d is).0 ∙ linked) in
      let gone : count a (set table i none) ≡ 0 =
        omega (arith, sum_of-set (one a) table i (some a) none there, one_self a, last) in
      let freed : at (set heap a none) a ≡ none = at-set_self heap a d none is in
      others-IsCounted (set heap a none) a (some a) none there
        (λ c ne. at-set_ne heap a c none (λ e. ne (sym e))) (λ c ne. (one_ne c a ne, refl))
        (λ u at_a. absurd (some_ne_none (sym at_a ∙ freed))) (λ at_a. gone)
