-- ===== src/Base/Raid/Places.antt =====
-- Blocks and parity in their places.
use native.Mathlib.Nat.{mod-lt, mod-add-div'}
use xpn.Prelude.{
  some_injective, ℕ, ◌+◌, ◌-◌, ◌*◌, ◌/◌, ◌%◌, ◌≤◌, ◌<◌, ◌≡◌, ◌≢◌, sym, ap, ap₂, ◌∙◌, true, false,
  some, arith, ltb, leb, if◌then◌else◌, Bool-cases, inl, inr,
}
use xpn.Prelude.Int.{pos_injective, pos}
use xpn.Base.Raid.{Location, locate_internal}

-- The places of parity and data, for `d` + 1 servers.
abbrev pub parity : (i d : ℕ) → ℕ
parity i d = d - i / d % (d + 1)

abbrev pub data_serv : (i d : ℕ) → ℕ
data_serv i d = if leb (parity i d) (i % d) then i % d + 1 else i % d

abbrev pub place : (i d : ℕ) → Location
place i d = record {
  sp = pos (parity i d);
  ip = pos (i / d);
  sd = pos (data_serv i d);
  id = pos (i / d);
}

locate_internal-place : (i d : ℕ) → 0 < d → locate_internal (pos i) (pos (d + 1)) ≡ some (place i d)
unfolding locate_internal
locate_internal-place i d h =
    rw
      (
        (let e : leb 1 (d + 1) ≡ true = ground arith in e),
        (let e : d + 1 - 1 ≡ d = omega arith in e),
        (let e : leb (i / d % (d + 1)) d ≡ true =
              ground (arith, mod-lt (i / d) {m = d + 1} (omega arith)) in
            e),
        (let e : ltb i 0 ≡ false = ground arith in e),
        (let e : ltb (d + 1) 2 ≡ false = ground arith in e),
      )
      (elim (Bool-cases (leb (parity i d) (i % d))) [
        | inl moved ↦ rw moved
        | inr not_moved ↦ rw (not_moved, (let e : i % d + 0 ≡ i % d = omega arith in e))
      ])

-- `MATH_MISC_locateInRAID5withInternalParity` puts each block and the parity of its row on two
-- different servers of the `d` + 1.
pub locate_internal-apart :
    (i d : ℕ)
    → 0 < d
    → (p s r : ℕ) × (locate_internal (pos i) (pos (d + 1))
        ≡ some (record { sp = pos p; ip = pos r; sd = pos s; id = pos r }))
      × (p ≤ d)
      × (s ≤ d)
      × (p ≢ s)
locate_internal-apart i d h = (
  parity i d,
  data_serv i d,
  i / d,
  locate_internal-place i d h,
  omega arith,
  ground (arith, mod-lt i h),
  (λ e. ground (arith, e)),
)

same_block : (i j d : ℕ) → 0 < d → i / d ≡ j / d → data_serv i d ≡ data_serv j d → i ≡ j
same_block i j d h row serv =
    let same_parity : parity i d ≡ parity j d = ap (λ q. d - q % (d + 1)) row in
    let rest : i % d ≡ j % d = ground (arith, same_parity, serv) in
    sym (mod-add-div' i d) ∙ ap₂ (λ a b. a + b * d) rest row ∙ mod-add-div' j d

-- Two blocks that `MATH_MISC_locateInRAID5withInternalParity` puts at the same index of the same
-- server, of the `d` + 1, are the same block.
pub locate_internal_injective :
    (i j d : ℕ) (l k : Location)
    → 0 < d
    → locate_internal (pos i) (pos (d + 1)) ≡ some l
    → locate_internal (pos j) (pos (d + 1)) ≡ some k
    → l.sd ≡ k.sd
    → l.id ≡ k.id
    → i ≡ j
locate_internal_injective i j d l k h at_i at_j serv row =
    let l_is = some_injective (sym (locate_internal-place i d h) ∙ at_i) in
    let k_is = some_injective (sym (locate_internal-place j d h) ∙ at_j) in
    same_block i j d h (pos_injective (ap (λ x. x.id) l_is ∙ row ∙ sym (ap (λ x. x.id) k_is)))
      (pos_injective (ap (λ x. x.sd) l_is ∙ serv ∙ sym (ap (λ x. x.sd) k_is)))
