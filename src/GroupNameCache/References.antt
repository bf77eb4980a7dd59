-- ===== src/GroupNameCache/References.antt =====
-- The lifetime of what `scopeToGroups` returns: a reference to the entry of a scope, which its
-- caller reads when the lock is released.
use rsb_spread_cpp.Base.{◌<◌, ◌≤◌, ◌≡◌, ◌≢◌, Option, none, some, List, arith, length, Text, lookup}
use rsb_spread_cpp.Spread.{Env}
use rsb_spread_cpp.GroupNameCache.{
  Naming, scope_to_groups, groups_of, IsCoherent, scope_to_groups-Serves,
}

module _ {Scope : Type 0} (env : Env) (naming : Naming Scope) where
  -- What a reference to the entry of a scope shows, if it is still there.
  abbrev pub referenced : Scope → List (Scope × List Text) → Option (List Text)
  referenced scope cache = lookup naming.scope_discrete scope cache

  cleared :
      (s t : Scope) (cache : List (Scope × List Text))
      → 300 < length cache
      → referenced t cache ≡ none
      → s ≢ t
      → referenced s (scope_to_groups env naming t cache).1 ≡ none
  unfolding scope_to_groups
  cleared s t cache many new other = ground arith

  -- Let the cache be right and hold more than 300 scopes after a query of one. The reference that
  -- it returned shows the groups of that scope; but if another thread queries a scope that the
  -- cache does not hold, before the reference is read, then the entry that it refers to is gone.
  pub scope_to_groups-scope_to_groups :
      (s t : Scope) (cache : List (Scope × List Text))
      → IsCoherent env naming cache
      → length cache ≤ 301
      → let after = (scope_to_groups env naming s cache).1 in
        300 < length after
        → referenced t after ≡ none
        → s ≢ t
        → (referenced s after ≡ some (groups_of env naming s))
          × (referenced s (scope_to_groups env naming t after).1 ≡ none)
  scope_to_groups-scope_to_groups s t cache right few many new other = (
    (scope_to_groups-Serves env naming s cache right few).remembered,
    cleared s t _ many new other,
  )
