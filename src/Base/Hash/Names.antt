-- ===== src/Base/Hash/Names.antt =====
-- The servers that the hash of a name gives.
use native.Mathlib.Nat.{mod-mod, zero-div}
use xpn.Prelude.{
  ℕ, suc, ◌+◌, ◌-◌, ◌*◌, ◌/◌, ◌^◌, ◌%◌, ◌≤◌, ◌<◌, ◌≡◌, ◌≢◌, ap, ◌∙◌, true, false, List, [], ◌∷◌,
  arith, ltb, leb,
}
use xpn.Prelude.Int.{pos, negsuc}
use xpn.Base.Hash.{add_chars, as_int, hash_name}
use xpn.Policy.Block.{calculate_block}

abbrev pub sum : List ℕ → ℕ
sum [] = 0
sum (b ∷ bs) = b + sum bs

-- Every byte is a character of ASCII.
abbrev pub AllAscii : List ℕ → Type 0
AllAscii [] = Unit
AllAscii (b ∷ bs) = (b < 128) × AllAscii bs

-- No byte is.
abbrev pub NoneAscii : List ℕ → Type 0
NoneAscii [] = Unit
NoneAscii (b ∷ bs) = ((128 ≤ b) × (b < 256)) × NoneAscii bs

-- What the signed characters of such a name take away.
abbrev pub deficit : List ℕ → ℕ
deficit [] = 0
deficit (b ∷ bs) = 256 - b + deficit bs

add_chars-ascii :
    (bs : List ℕ) (num : ℕ)
    → AllAscii bs
    → num + sum bs < 2 ^ 31
    → add_chars 32 bs num ≡ num + sum bs
unfolding add_chars
add_chars-ascii [] num h small = omega arith
add_chars-ascii (b ∷ bs) num h small =
    rw
      (
        (let e : ltb b 128 ≡ true = ground (arith, h.0) in e),
        (let e : (num + b) % 2 ^ 32 ≡ num + b = omega (arith, small) in e),
        add_chars-ascii bs (num + b) h.1 (omega (arith, small)),
      )
      (omega arith)

-- `hash` of a name in ASCII, whose characters add up to less than 2^31, is the sum of the
-- characters modulo the number of servers.
pub hash_name-ascii :
    (bs : List ℕ) (n : ℕ) → AllAscii bs → sum bs < 2 ^ 31 → hash_name bs n ≡ pos (sum bs % n)
unfolding hash_name as_int
hash_name-ascii bs n h small = rw (
  add_chars-ascii bs 0 h (omega (arith, small)),
  (let e : (0 + sum bs) % 2 ^ 32 ≡ sum bs = omega (arith, small) in e),
  (let e : ltb (sum bs) (2 ^ 31) ≡ true = ground (arith, small) in e),
)

add_chars-none :
    (bs : List ℕ) (d : ℕ)
    → NoneAscii bs
    → 0 < d
    → d + deficit bs ≤ 2 ^ 31
    → add_chars 32 bs (2 ^ 32 - d) ≡ 2 ^ 32 - (d + deficit bs)
unfolding add_chars
add_chars-none [] d h pos_d small = omega arith
add_chars-none (b ∷ bs) d h pos_d small =
    rw
      (
        (let e : ltb b 128 ≡ false = ground (arith, h.0.0) in e),
        (let e : (2 ^ 32 - d + (2 ^ 32 - 256 + b)) % 2 ^ 32 ≡ 2 ^ 32 - (d + (256 - b)) =
              omega (arith, small, h.0.0, h.0.1) in
            e),
        add_chars-none bs (d + (256 - b)) h.1 (omega (arith, pos_d)) (omega (arith, small)),
      )
      (ap (λ x. 2 ^ 32 - x) (omega arith))

hash_name-none :
    (b : ℕ) (bs : List ℕ) (n : ℕ)
    → NoneAscii (b ∷ bs)
    → deficit (b ∷ bs) ≤ 2 ^ 31
    → deficit (b ∷ bs) % n ≢ 0
    → hash_name (b ∷ bs) n ≡ negsuc (deficit (b ∷ bs) % n - 1)
unfolding hash_name as_int add_chars
hash_name-none b bs n h small ne =
    let d = deficit (b ∷ bs) in
    rw (
      (let e : ltb b 128 ≡ false = ground (arith, h.0.0) in e),
      (let e : (0 + (2 ^ 32 - 256 + b)) % 2 ^ 32 ≡ 2 ^ 32 - (256 - b) =
            omega (arith, h.0.0, h.0.1) in
          e),
      add_chars-none bs (256 - b) h.1 (omega (arith, h.0.1)) (omega (arith, small)),
      (let e : (2 ^ 32 - d) % 2 ^ 32 ≡ 2 ^ 32 - d = omega (arith, small, h.0.1) in e),
      (let e : ltb (2 ^ 32 - d) (2 ^ 31) ≡ false = ground (arith, small) in e),
      (let e : suc (2 ^ 32 - 1 - (2 ^ 32 - d)) ≡ d = omega (arith, small, h.0.1) in e),
      (let e : leb (d % n) 0 ≡ false = ground (arith, ne) in e),
      (let e : d % n - 0 - 1 ≡ d % n - 1 = omega arith in e),
    )

-- A name without any character of ASCII, whose signed characters come to -2^31 or more, has a
-- negative hash unless their sum is a multiple of the number of servers; as the first node of a
-- file without copies, that hash puts the first block of the file on a negative server.
pub calculate_block-hash_name :
    (b : ℕ) (bs : List ℕ) (n block_size : ℕ)
    → NoneAscii (b ∷ bs)
    → deficit (b ∷ bs) ≤ 2 ^ 31
    → deficit (b ∷ bs) % n ≢ 0
    → 0 < n
    → 0 < block_size
    → (k : ℕ) × (hash_name (b ∷ bs) n ≡ negsuc k)
      × ((calculate_block
            (pos block_size)
            (pos 0)
            (pos n)
            (pos 0)
            (pos 0)
            (hash_name (b ∷ bs) n)).serv
          ≡ negsuc k)
unfolding calculate_block
calculate_block-hash_name b bs n block_size h small ne servers size =
    let d = deficit (b ∷ bs) in
    let e = hash_name-none b bs n h small ne in
    (
      d % n - 1,
      e,
      rw (
        e,
        (let t : 0 / block_size * (0 + 1) + 0 ≡ 0 = rw (zero-div block_size) (omega arith) in t),
        (let t : leb (suc (d % n - 1)) 0 ≡ false = ground arith in t),
        (let t : suc (suc (d % n - 1) - 0 - 1) % n ≡ d % n =
              (let f : suc (suc (d % n - 1) - 0 - 1) ≡ d % n = ground (arith, ne) in
                ap (λ x. x % n) f ∙ mod-mod d n) in
            t),
        (let t : leb (d % n) 0 ≡ false = ground (arith, ne) in t),
        (let t : d % n - 0 - 1 ≡ d % n - 1 = omega arith in t),
      ),
    )
