-- ===== src/Base/Rows.antt =====
-- A table of SQLite as the list of its rows, and the statements that the stores issue.
pub mod Laws
use mathlib.Core.Bool.{Bool, not}
use mathlib.Core.List.{List, [], ◌∷◌, ◌++◌}
use mathlib.Core.Option.{Option, none, some}
use shard_net.Base.Tests.{if◌then◌else◌}
use shard_net.Base.Lists.{any}

module _ {ℓ} {R : Type ℓ} where
  -- `SELECT … WHERE at(row)` and `fetchone()`.
  abbrev pub find_row : (R → Bool) → List R → Option R
  find_row at [] = none
  find_row at (r ∷ rs) = if at r then some r else find_row at rs

  -- `SELECT … WHERE at(row)` and `fetchall()`.
  abbrev pub select_where : (R → Bool) → List R → List R
  select_where at [] = []
  select_where at (r ∷ rs) = let rest = select_where at rs in if at r then r ∷ rest else rest

  -- `UPDATE … SET … WHERE at(row)`.
  abbrev pub update_where : (R → Bool) → (R → R) → List R → List R
  update_where at set [] = []
  update_where at set (r ∷ rs) = (if at r then set r else r) ∷ update_where at set rs

  -- `DELETE … WHERE at(row)`.
  abbrev pub delete_where : (R → Bool) → List R → List R
  delete_where at = select_where (λ r. not (at r))

  -- `INSERT INTO … ON CONFLICT(key) DO UPDATE SET …`: `at` says which rows have the new row's key.
  abbrev pub upsert : (R → Bool) → (R → R) → R → List R → List R
  upsert at set new rs = if any at rs then update_where at set rs else rs ++ new ∷ []
