-- ===== src/Client/Rw/Seek.antt =====
-- Where a seek leaves a file and what it reports.
use xpn.Prelude.{
  ℕ, ◌^◌, ◌%◌, ◌<◌, ◌≤◌, ◌≡◌, ◌≢◌, true, false, Option, none, arith, ltb, Bool-cases, ltb→lt, ◌↔◌,
  inl, inr,
}
use xpn.Prelude.Int.{pos_injective, ℤ, pos}
use xpn.Client.Rw.{Filedesc, seek_set, lseek, to_int}

to_int_large : (n : ℕ) → 2 ^ 31 ≤ n → to_int (pos n) ≢ pos n
unfolding to_int
to_int_large n h = elim (Bool-cases (ltb (n % 2 ^ 32) (2 ^ 31))) [
  | inl small ↦ rw small (λ e. absurd (
      let low : n % 2 ^ 32 < 2 ^ 31 = ground (arith, small) in omega (arith, pos_injective e, low)))
  | inr large ↦ rw large (λ e. cc e)
]

pub to_int_small : (n : ℕ) → n < 2 ^ 31 → to_int (pos n) ≡ pos n
unfolding to_int
to_int_small n h =
    let e : n % 2 ^ 32 ≡ n = omega arith in
    rw (e, (let t : ltb n (2 ^ 31) ≡ true = ground arith in t))

-- `xpn_simple_lseek` with SEEK_SET to an offset that is not negative moves the file there and sets
-- no error; it returns the offset if, and only if, this is below 2 GiB.
pub lseek_reports :
    (st_size : Option ℤ) (d : Filedesc) (n : ℕ)
    → (r : ℤ) × (lseek st_size d (pos n) seek_set ≡ (r, none, record d { offset = pos n }))
      × ((r ≡ pos n) ↔ (n < 2 ^ 31))
unfolding lseek
lseek_reports st_size d n = (
  to_int (pos n),
  rw (let e : ltb n 0 ≡ false = ground arith in e),
  (
    λ e. elim (Bool-cases (ltb n (2 ^ 31))) [
      | inl small ↦ ltb→lt n (2 ^ 31) small
      | inr large ↦ absurd (to_int_large n (ground (arith, large)) e)
    ],
    to_int_small n,
  ),
)
