-- ===== src/Prelude/Sort.antt =====
-- Sorting by a text, as the agent's calls of sort.Slice do.
use mathlib.Core.List.{List, [], ◌∷◌}
use Prim.Native.String.{String}
use ovn_network_agent.Prelude.Tests.{if◌then◌else◌}
use ovn_network_agent.Prelude.Text.{str_leb}

module _ {ℓ} {A : Type ℓ} (f : A → String) where
  unfoldable pub insert_by : A → List A → List A
  insert_by x [] = x ∷ []
  insert_by x (y ∷ ys) =
      let rest = insert_by x ys in if str_leb (f x) (f y) then x ∷ y ∷ ys else y ∷ rest

  -- sort.Slice by a text
  unfoldable pub sort_by : List A → List A
  unfolding insert_by
  sort_by [] = []
  sort_by (x ∷ xs) = insert_by x (sort_by xs)
