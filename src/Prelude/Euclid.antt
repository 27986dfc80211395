-- ===== src/Prelude/Euclid.antt =====
-- Division with remainder by a variable, and C's way to count backwards round a ring.
use native.Mathlib.Nat.{
  mod-lt, mod-eq_of_lt, mod-add-mod, div-add-mod', mul-add-div_right, div-eq_of_lt,
  mul-add-mod_self_right, add-mul-mod_self_right, add-mod_right, mod-mod, add-zero,
  le-div_iff_mul-le, div-mul-le_self,
}
use xpn.Prelude.{
  ℕ, suc, ◌+◌, ◌-◌, ◌*◌, ◌/◌, ◌%◌, ◌≤◌, ◌<◌, ◌≡◌, sym, ap, ◌∙◌, inl, inr, arith, leb, leb→le,
  Bool-cases,
}
use xpn.Prelude.Int.{pos, neg, ◌+ℤ◌, ◌-ℤ◌, ◌%ℤ◌}

-- A quotient and a remainder are determined by what they recompose.
pub div_of_parts : (n q r : ℕ) → r < n → (q * n + r) / n ≡ q
div_of_parts n q r h = rw (mul-add-div_right {m = n} (omega arith) q r, div-eq_of_lt h, add-zero)

pub mod_of_parts : (n q r : ℕ) → r < n → (q * n + r) % n ≡ r
mod_of_parts n q r h = rw (mul-add-mod_self_right q n r, mod-eq_of_lt h)

-- Adding the same number on both sides of a congruence can be undone.
pub mod_cancel : (n x b f : ℕ) → 0 < n → (x + f) % n ≡ (b + f) % n → x % n ≡ b % n
mod_cancel n x b f h e = sym (shift x) ∙ ap (λ t. (t + c) % n) e ∙ shift b
  where
    c : ℕ
    c = n - f % n

    whole : f + c ≡ (f / n + 1) * n
    whole = omega (arith, mod-lt f h, div-add-mod' f n)

    shift : (y : ℕ) → ((y + f) % n + c) % n ≡ y % n
    shift y =
        mod-add-mod (y + f) n c
        ∙ ap (λ t. t % n) (let e' : y + f + c ≡ y + (f / n + 1) * n = omega (arith, whole) in e')
        ∙ add-mul-mod_self_right y (f / n + 1) n

-- A remainder below zero is lifted by the modulus.
neg_add : (r n : ℕ) → r < n → neg r +ℤ pos n ≡ pos (n - r)
neg_add r n h = ground arith

-- `((s - f) % n + n) % n` is the place from which `f` steps forward lead to `s`.
pub step_back :
    (n s f : ℕ)
    → s < n
    → (u : ℕ) × (((pos s -ℤ pos f) %ℤ pos n +ℤ pos n) %ℤ pos n ≡ pos u)
      × (u < n)
      × ((u + f) % n ≡ s)
step_back n s f h = elim (Bool-cases (leb f s)) [
  | inl e ↦ (
    ((s - f) % n + n) % n,
    rw e,
    mod-lt ((s - f) % n + n) {m = n} (omega arith),
    rw (add-mod_right ((s - f) % n) n, mod-mod, mod-add-mod)
        (ap (λ t. t % n) (let e' : s - f + f ≡ s = omega (arith, leb→le f s e) in e')
          ∙ mod-eq_of_lt h),
  )
  | inr e ↦ (
    (n - suc (f - s - 1) % n) % n,
    rw (e, neg_add (suc (f - s - 1) % n) n (mod-lt (suc (f - s - 1)) (omega arith))),
    mod-lt (n - suc (f - s - 1) % n) {m = n} (omega arith),
    rw mod-add-mod (round (ground arith) ∙ mod-eq_of_lt h),
  )
]
  where
    round : s < f → (n - suc (f - s - 1) % n + f) % n ≡ s % n
    round lt =
        ap (λ t. t % n)
          (let e' : n - suc (f - s - 1) % n + f ≡ s + (suc (f - s - 1) / n + 1) * n =
              omega (arith, div-add-mod' (suc (f - s - 1)) n, mod-lt (suc (f - s - 1)) {m = n}) in
            e')
        ∙ add-mul-mod_self_right s (suc (f - s - 1) / n + 1) n

pub div-le-div : (a b m : ℕ) → 0 < m → a ≤ b → a / m ≤ b / m
div-le-div a b m h le = (le-div_iff_mul-le h).1 (omega (arith, div-mul-le_self a m))

-- Moving on within a block.
module _ (x k m : ℕ) (h : x % m + k < m) where
  whole_of_block : x + k ≡ x / m * m + (x % m + k)
  whole_of_block = omega (arith, div-add-mod' x m)

  pub div_of_block : (x + k) / m ≡ x / m
  div_of_block = ap (λ t. t / m) whole_of_block ∙ div_of_parts m (x / m) (x % m + k) h

  pub mod_of_block : (x + k) % m ≡ x % m + k
  mod_of_block = ap (λ t. t % m) whole_of_block ∙ mod_of_parts m (x / m) (x % m + k) h
