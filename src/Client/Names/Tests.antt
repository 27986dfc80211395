-- ===== src/Client/Names/Tests.antt =====
-- The theorems about names at inputs that meet their hypotheses.
use xpn.Prelude.{ℕ, ◌≡◌, ◌↔◌, some, List, [], ◌∷◌, ◌++◌}
use xpn.Client.Names.{slash, get_name_part}
use xpn.Client.Names.Parts.{NoSlash, FromSlash, get_name_part-append}

-- The name of a partition, and a path in it.
abbrev part_name : List ℕ
part_name = b'x' ∷ b'p' ∷ b'n' ∷ []

abbrev inner_path : List ℕ
inner_path = b'/' ∷ b'a' ∷ []

abbrev whole_path : List ℕ
whole_path = b'/' ∷ b'x' ∷ b'p' ∷ b'n' ∷ b'/' ∷ b'a' ∷ []

get_name_part-append_example :
    (get_name_part whole_path ≡ some (part_name, inner_path))
    ↔ ((whole_path ≡ slash ∷ part_name ++ inner_path) × NoSlash part_name × FromSlash inner_path)
get_name_part-append_example = get_name_part-append whole_path part_name inner_path
