-- ===== src/Base/Sort.antt =====
-- `list.sort` with a key, as a stable insertion sort by the strict order of the keys.
use mathlib.Core.Bool.{Bool}
use mathlib.Core.List.{List, [], ◌∷◌}
use keziah.Base.Tests.{if◌then◌else◌}

module _ {ℓ} {A : Type ℓ} (before : A → A → Bool) where
  unfoldable pub insert_by : A → List A → List A
  insert_by x [] = x ∷ []
  insert_by x (y ∷ ys) = if before x y then x ∷ y ∷ ys else y ∷ insert_by x ys

  unfoldable pub sort_onto : List A → List A → List A
  unfolding insert_by
  sort_onto [] sorted = sorted
  sort_onto (x ∷ xs) sorted = sort_onto xs (insert_by x sorted)

  unfoldable pub sort_by : List A → List A
  unfolding sort_onto
  sort_by xs = sort_onto xs []
