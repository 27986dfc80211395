-- ===== src/Client/Names/Parts.antt =====
-- A path of Expand is a slash, the name of a partition, and a path in the partition.
use xpn.Prelude.{
  take_over, ℕ, zero, suc, ◌+◌, ◌≤◌, ◌≡◌, ◌↔◌, refl, sym, subst, ap, ◌∙◌, true, false, arith, ◌==◌,
  some, List, [], ◌∷◌, ◌++◌, length, take, Bool-cases, inl, inr, some_injective, some_ne_none,
  length-append,
}
use xpn.Client.Names.{slash, is_absolute, get_absolute_path, to_slash, get_name_part}

-- A name without a slash.
abbrev pub NoSlash : List ℕ → Type 0
NoSlash [] = Unit
NoSlash (c ∷ name) = ((c == slash) ≡ false) × NoSlash name

-- Nothing, or a text that begins with a slash.
abbrev pub FromSlash : List ℕ → Type 0
FromSlash [] = Unit
FromSlash (c ∷ path) = (c == slash) ≡ true

to_slash-append :
    (name rest : List ℕ) → NoSlash name → FromSlash rest → to_slash (name ++ rest) ≡ (name, rest)
unfolding to_slash
to_slash-append [] [] h h' = refl
to_slash-append [] (c ∷ rest) h h' = rw h' refl
to_slash-append (c ∷ name) rest h h' = rw (h.0, to_slash-append name rest h.1 h') refl

to_slash_back :
    (path : List ℕ)
    → ((to_slash path).0 ++ (to_slash path).1 ≡ path)
      × NoSlash (to_slash path).0
      × FromSlash (to_slash path).1
unfolding to_slash
to_slash_back [] = (refl, tt, tt)
to_slash_back (c ∷ path) = elim (Bool-cases (c == slash)) [
  | inl e ↦ rw e (refl, tt, e)
  | inr e ↦
      let (back, name, rest) = to_slash_back path in rw e (ap (λ p. c ∷ p) back, (e, name), rest)
]

-- `getNamePart` of a path finds a name without a slash and what is behind it, exactly where the path
-- is a slash, that name and, behind it, nothing or a slash with the rest.
pub get_name_part-append :
    (path name rest : List ℕ)
    → (get_name_part path ≡ some (name, rest))
      ↔ ((path ≡ slash ∷ name ++ rest) × NoSlash name × FromSlash rest)
unfolding get_name_part
get_name_part-append path name rest = (parts path, λ (e, h, h'). whole e h h')
  where
    parts :
        (p : List ℕ)
        → get_name_part p ≡ some (name, rest)
        → (p ≡ slash ∷ name ++ rest) × NoSlash name × FromSlash rest
    parts [] e = absurd (some_ne_none (sym e))
    parts (c ∷ p) e = elim (Bool-cases (c == slash)) [
      | inr other ↦ absurd (some_ne_none (sym (sym (rw other refl) ∙ e)))
      | inl is ↦
          let same : to_slash p ≡ (name, rest) = some_injective (sym (rw is refl) ∙ e) in
          let first : c ≡ slash = ground arith in
          let back : (slash ∷ p ≡ slash ∷ (to_slash p).0 ++ (to_slash p).1)
              × NoSlash (to_slash p).0
              × FromSlash (to_slash p).1 =
            let (b, n, r) = to_slash_back p in (ap (λ q. slash ∷ q) (sym b), n, r) in
          subst (λ q. (c ∷ p ≡ slash ∷ q.0 ++ q.1) × NoSlash q.0 × FromSlash q.1) same
            (ap (λ d. d ∷ p) first ∙ back.0, back.1, back.2)
    ]

    whole :
        path ≡ slash ∷ name ++ rest
        → NoSlash name
        → FromSlash rest
        → get_name_part path ≡ some (name, rest)
    whole e h h' = rw e (ap some (to_slash-append name rest h h'))

length-take_le : {A : Type 0} (n : ℕ) (xs : List A) → length (take n xs) ≤ n
length-take_le zero xs = omega arith
length-take_le (suc n) [] = omega arith
length-take_le (suc n) (x ∷ xs) = omega (arith, length-take_le n xs)

-- `XpnGetAbsolutePath` leaves an absolute path as it is. To a relative one it puts the working
-- directory in front, without a loss where, and only where, that directory is the empty text.
pub get_absolute_path-cwd :
    (cwd path : List ℕ)
    → (is_absolute path ≡ true → get_absolute_path cwd path ≡ path)
      × (is_absolute path ≡ false
          → (get_absolute_path cwd path ≡ slash ∷ cwd ++ path) ↔ (length cwd ≡ 0))
unfolding get_absolute_path
get_absolute_path-cwd cwd path = (
  λ e. rw e (take_over (length path + 1) path (omega arith)),
  λ e. (
    λ same.
        (let cut : length (slash ∷ cwd ++ path) ≤ length path + 1 =
            subst (λ t. length t ≤ length path + 1) (sym (rw e refl) ∙ same)
              (length-take_le (length path + 1) (slash ∷ cwd ++ path)) in
          omega (arith, cut, length-append cwd path)),
    λ none_left. rw e (
        take_over (length path + 1) (slash ∷ cwd ++ path)
          (omega (arith, none_left, length-append cwd path))),
  ),
)
