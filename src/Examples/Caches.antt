-- ===== src/Examples/Caches.antt =====
-- The theorem on references into the cache of group names, at a full one.
use rsb_spread_cpp.Base.{
  ℕ, zero, suc, ◌≤◌, ◌≡◌, refl, some, none, List, [], ◌∷◌, arith, length, Text,
}
use rsb_spread_cpp.Examples.Fixtures.{env, naming}
use rsb_spread_cpp.GroupNameCache.{IsCoherent, groups_of, scope_to_groups}
use rsb_spread_cpp.GroupNameCache.References.{referenced, scope_to_groups-scope_to_groups}

-- So many scopes, each with its groups.
filled : ℕ → List (Text × List Text)
filled zero = []
filled (suc n) = (n ∷ [], groups_of env naming (n ∷ [])) ∷ filled n

filled-IsCoherent : (n : ℕ) → IsCoherent env naming (filled n)
unfolding filled
filled-IsCoherent zero = tt
filled-IsCoherent (suc n) = (refl, filled-IsCoherent n)

length-filled : (n : ℕ) → length (filled n) ≡ n
unfolding filled
length-filled zero = refl
length-filled (suc n) = omega (arith, length-filled n)

filled_new : (n k : ℕ) → n ≤ k → referenced env naming (k ∷ []) (filled n) ≡ none
unfolding filled
filled_new zero k h = refl
filled_new (suc n) k h = ground (arith, filled_new n k)

-- The scope that was added last is found at once.
query_last : (n : ℕ) → (scope_to_groups env naming (n ∷ []) (filled (suc n))).1 ≡ filled (suc n)
unfolding filled scope_to_groups
query_last n = ground arith

scope_to_groups-scope_to_groups_example :
    let after = (scope_to_groups env naming (300 ∷ []) (filled 301)).1 in
    (referenced env naming (300 ∷ []) after ≡ some (groups_of env naming (300 ∷ [])))
    × (referenced env naming (300 ∷ []) (scope_to_groups env naming (400 ∷ []) after).1 ≡ none)
scope_to_groups-scope_to_groups_example =
    scope_to_groups-scope_to_groups env naming (300 ∷ []) (400 ∷ []) (filled 301)
      (filled-IsCoherent 301) (omega (arith, length-filled 301))
      (rw (query_last 300) (omega (arith, length-filled 301)))
      (rw (query_last 300) (filled_new 301 400 (omega arith))) (λ same. ground arith)
