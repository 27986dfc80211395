-- ===== src/Remote/Paths.antt =====
-- A path on its way from the client to the server.
use xpn.Prelude.{
  ℕ, ◌-◌, ◌<◌, ◌≤◌, ◌≡◌, sym, ap, subst, ◌∙◌, some, List, [], ◌++◌, arith, ltb, leb, true, false,
  if◌then◌else◌, take, drop, length, inl, inr, Bool-cases, take-append-drop, length-take,
  length-drop, take-append_left, take_over, drop_over,
}
use mathlib.Core.List.{append-nil}
use xpn.Policy.Grouping.{Bytes}
use xpn.Protocol.{Token, raw, take_bytes-raw, xpn_path_max, path_max}
use xpn.Server.{World, c_string, read_path}
use xpn.Nfi.{path_field}

-- A string holds no zero.
abbrev pub IsString : Bytes → Type 0
IsString dir = c_string dir ≡ dir

-- The characters that the client copies and the server takes.
abbrev copied : ℕ → ℕ
copied n = if ltb n xpn_path_max then n else xpn_path_max

copied_le : (n : ℕ) → copied n ≤ n
copied_le n = ground arith

taken_eq : (n : ℕ) → (if ltb xpn_path_max n then xpn_path_max else n) ≡ copied n
taken_eq n = ground arith

take-take_append : (n : ℕ) (xs ys : Bytes) → n ≤ length xs → take n (take n xs ++ ys) ≡ take n xs
take-take_append n xs ys h =
    subst (λ (k : ℕ). take k (take n xs ++ ys) ≡ take n xs)
      (let e : length (take n xs) ≡ n = omega (arith, length-take n xs) in e)
      (take-append_left (take n xs) ys)

front_eq :
    (dir : Bytes)
    → take (if ltb xpn_path_max (length dir) then xpn_path_max else length dir) (path_field dir)
      ≡ take (copied (length dir)) dir
unfolding path_field
front_eq dir =
    rw (taken_eq (length dir))
      (take-take_append (copied (length dir)) dir _ (copied_le (length dir)))

copied_long : (n : ℕ) → ltb xpn_path_max n ≡ true → copied n ≡ xpn_path_max
copied_long n e = ground arith

copied_short : (n : ℕ) → ltb xpn_path_max n ≡ false → copied n ≡ n
copied_short n e = ground arith

tail_eq : (dir : Bytes) → length dir - xpn_path_max ≡ length (drop xpn_path_max dir)
tail_eq dir = sym (length-drop xpn_path_max dir)

-- The server puts a path together again from the message and from the characters that the client
-- sends behind it, and takes no more than those from the stream, when the path is a string that is
-- shorter than PATH_MAX.
pub read_path-path_field :
    {S : Type 0} (w : World S) (dir : Bytes) (ts : List Token)
    → IsString dir
    → length dir < path_max
    → read_path
        (record w { incoming = raw (drop xpn_path_max dir) ++ ts })
        (length dir)
        (path_field dir)
      ≡ some (dir, record w { incoming = ts })
unfolding read_path
read_path-path_field w dir ts string short =
    rw (front_eq dir, fits)
      (elim (Bool-cases (ltb xpn_path_max (length dir))) [
        | inl e ↦ rw (e, copied_long (length dir) e, tail_eq dir, take_bytes-raw, whole)
        | inr e ↦ rw (
          e,
          copied_short (length dir) e,
          take_over (length dir) dir (omega arith),
          string,
          drop_over xpn_path_max dir (let k : length dir ≤ 128 = ground arith in k),
        )
      ])
  where
    fits : leb path_max (length dir) ≡ false
    fits = ground arith

    whole : c_string (take xpn_path_max dir ++ drop xpn_path_max dir) ≡ dir
    whole = ap c_string (take-append-drop xpn_path_max dir) ∙ string

-- With nothing behind it in the stream.
pub read_path_alone :
    {S : Type 0} (s : S) (dir : Bytes) (out : List Token)
    → IsString dir
    → length dir < path_max
    → read_path
        (record { host = s; incoming = raw (drop xpn_path_max dir); outgoing = out })
        (length dir)
        (path_field dir)
      ≡ some (dir, record { host = s; incoming = []; outgoing = out })
read_path_alone s dir out string short =
    subst
      (λ ts.
        read_path (record { host = s; incoming = ts; outgoing = out }) (length dir) (path_field dir)
        ≡ some (dir, record { host = s; incoming = []; outgoing = out }))
      (append-nil (raw (drop xpn_path_max dir)))
      (read_path-path_field (record { host = s; incoming = []; outgoing = out }) dir [] string
        short)
