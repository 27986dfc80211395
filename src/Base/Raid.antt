-- ===== src/Base/Raid.antt =====
-- The location of blocks and their parity of src/base/math_misc.c.
pub mod Places
use xpn.Prelude.{ℕ, Bool, Option, none, some, if◌then◌else◌}
use xpn.Prelude.Int.{ℤ, pos, ◌+ℤ◌, ◌-ℤ◌, ◌/ℤ◌, ◌%ℤ◌, lt_ℤ, le_ℤ, eq_ℤ}

-- The out parameters `*SP`, `*IP`, `*SD` and `*ID`.
pub record Location : Type 0 where
  pub sp : ℤ
  pub ip : ℤ
  pub sd : ℤ
  pub id : ℤ

-- `MATH_MISC_locateInRAID5withInternalParity`; a `none` is the result -1.
unfoldable pub locate_internal : (i m : ℤ) → Option Location
locate_internal i m =
    let aux1 = i /ℤ (m -ℤ pos 1) in
    let aux2 = i %ℤ (m -ℤ pos 1) in
    let sp = (m -ℤ pos 1) -ℤ (aux1 %ℤ m) in
    let reorder = if le_ℤ sp aux2 then pos 1 else pos 0 in
    if lt_ℤ i (pos 0)
    then none
    else if lt_ℤ m (pos 2)
    then none
    else some (record { sp = sp; ip = aux1; sd = aux2 +ℤ reorder; id = aux1 })

-- `MATH_MISC_locateInRAID5withExternalParity`. For `m` = 1 the code divides by zero.
unfoldable pub locate_external : (i m : ℤ) → Option Location
locate_external i m =
    let aux1 = i /ℤ (m -ℤ pos 1) in
    if lt_ℤ i (pos 0)
    then none
    else if lt_ℤ m (pos 0)
    then none
    else if eq_ℤ m (pos 0)
    then none
    else some
        (record { sp = (m -ℤ pos 1) -ℤ (aux1 %ℤ m); ip = aux1 /ℤ m; sd = i %ℤ m; id = i /ℤ m })
