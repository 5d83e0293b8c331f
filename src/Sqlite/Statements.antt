-- ===== src/Sqlite/Statements.antt =====
-- The SQL statements of src/keziah/queue/sqlite.py on one table, a list of rows in the order of
-- insertion: `UPDATE ... WHERE`, `DELETE ... WHERE` and the first row of a `SELECT`.
use keziah.Base.{Bool, true, false, not, Option, none, some, List, [], ◌∷◌, if◌then◌else◌, keep}

module _ {ℓ} {A : Type ℓ} where
  -- The rows that an `UPDATE` hits are counted by `count`.
  unfoldable pub update_where : (A → Bool) → (A → A) → List A → List A
  update_where p f [] = []
  update_where p f (row ∷ rows) = (if p row then f row else row) ∷ update_where p f rows

  abbrev pub delete_where : (A → Bool) → List A → List A
  delete_where p = keep (λ row. not (p row))

  unfoldable pub first_where : (A → Bool) → List A → Option A
  first_where p [] = none
  first_where p (row ∷ rows) = let later = first_where p rows in if p row then some row else later

  abbrev pub any_row : (A → Bool) → List A → Bool
  any_row p rows = elim (first_where p rows) [ none ↦ false | some row ↦ true ]
