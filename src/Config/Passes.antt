-- ===== src/Config/Passes.antt =====
-- The checks of validateSettings pass exactly on sound settings.
use ovn_network_agent.Prelude.{
  ◌≡◌, refl, Bool, true, false, ◌&&◌, not, List, [], ◌∷◌, ◌++◌, arith, is_some, Comparable, nat_eq,
  string_eq, bool_eq, pair_eq, all, contains, int_eq,
}
use ovn_network_agent.Config.{Check, first_error}
use ovn_network_agent.Config.Sound.{distinct}

abbrev pub passes : List Check → Bool
passes [] = true
passes ((failed, e) ∷ checks) = not failed && passes checks

pub first_error-passes : (checks : List Check) → is_some (first_error checks) ≡ not (passes checks)
unfolding first_error
first_error-passes [] = refl
first_error-passes ((true, e) ∷ checks) = refl
first_error-passes ((false, e) ∷ checks) = first_error-passes checks

pub passes-append : (xs ys : List Check) → passes (xs ++ ys) ≡ (passes xs && passes ys)
passes-append [] ys = refl
passes-append ((true, e) ∷ xs) ys = refl
passes-append ((false, e) ∷ xs) ys = passes-append xs ys

-- A loop that asks each element whether it was seen before.
module _ {ℓ} {A : Type ℓ} ⦃e : Comparable A⦄ where
  abbrev pub fresh : List A → List A → Bool
  fresh seen [] = true
  fresh seen (x ∷ xs) = not (contains seen x) && fresh (x ∷ seen) xs

  abbrev unseen : List A → List A → Bool
  unseen seen xs = all (λ x. not (contains seen x)) xs

  unseen-cons :
      (a : A) (seen xs : List A) → unseen (a ∷ seen) xs ≡ (not (contains xs a) && unseen seen xs)
  unseen-cons a seen [] = refl
  unseen-cons a seen (x ∷ xs) =
      ground (arith, unseen-cons a seen xs, e.same_iff x a, e.same_iff a x)

  fresh-unseen : (seen xs : List A) → fresh seen xs ≡ (unseen seen xs && distinct xs)
  fresh-unseen seen [] = refl
  fresh-unseen seen (x ∷ xs) = ground (arith, fresh-unseen (x ∷ seen) xs, unseen-cons x seen xs)

  unseen-nil : (xs : List A) → unseen [] xs ≡ true
  unseen-nil [] = refl
  unseen-nil (x ∷ xs) = unseen-nil xs

  pub fresh-distinct : (xs : List A) → fresh [] xs ≡ distinct xs
  fresh-distinct xs = ground (arith, fresh-unseen [] xs, unseen-nil xs)
