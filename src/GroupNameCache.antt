-- ===== src/GroupNameCache.antt =====
-- src/rsb/transport/spread/GroupNameCache.{h,cpp}: the Spread groups of a scope, and a cache for
-- them. The mutex makes a call atomic. A scope, its super-scopes and the digest come from other
-- libraries.
pub mod References
use rsb_spread_cpp.Base.{
  Result, ◌-◌, ◌≤◌, ◌≡◌, refl, sym, ap, ◌∙◌, inl, inr, Bool, true, Option, none, some, List, [],
  ◌∷◌, ◌++◌, map, arith, ltb, if◌then◌else◌, Bool-cases, length, take, length-take, All, Text,
  lookup, insert, lookup-insert_self, length-insert-le,
}
use mathlib.Core.List.{append-nil, append_assoc}
use rsb_spread_cpp.Spread.{Env}

-- What the program uses of rsb::Scope and rsb::util::MD5.
pub record Naming (Scope : Type 0) : Type 0 where
  pub scope_discrete : Discrete Scope
  pub to_string : Scope → Text
  -- With `true`, the scope itself is one of them.
  pub super_scopes : Scope → Bool → List Scope
  pub md5_hex : Text → Text
  -- The constructor from a string, which may throw.
  pub parse_scope : Text → Result Scope

module _ {Scope : Type 0} (env : Env) (naming : Naming Scope) where
  open naming use {scope_discrete, to_string, super_scopes, md5_hex}

  abbrev pub Cache : Type 0
  Cache = List (Scope × List Text)

  unfoldable pub scope_to_group : Scope → Text
  scope_to_group scope = take (env.max_group_name - 1) (md5_hex (to_string scope))

  -- The loop that appends the group of each scope.
  unfoldable pub push_groups : List Text → List Scope → List Text
  push_groups item [] = item
  push_groups item (s ∷ scopes) = push_groups (item ++ scope_to_group s ∷ []) scopes

  -- `cache[scope]`, which is empty at a new key.
  abbrev item_at : Option (List Text) → List Text
  item_at none = []
  item_at (some item) = item

  abbrev pub bounded_cache : Cache → Cache
  bounded_cache cache = if ltb 300 (length cache) then [] else cache

  unfoldable pub compute_groups : Scope → Cache → List Text × Cache
  unfolding push_groups
  compute_groups scope cache =
      let item =
        push_groups (item_at (lookup scope_discrete scope (bounded_cache cache)))
          (super_scopes scope true) in
      (item, insert scope_discrete scope item (bounded_cache cache))

  unfoldable pub groups_at : Option (List Text) → Scope → Cache → List Text × Cache
  unfolding compute_groups
  groups_at (some item) scope cache = (item, cache)
  groups_at none scope cache = compute_groups scope cache

  unfoldable pub scope_to_groups : Scope → Cache → List Text × Cache
  unfolding groups_at
  scope_to_groups scope cache = groups_at (lookup scope_discrete scope cache) scope cache

  -- The groups that the documentation promises.
  abbrev pub groups_of : Scope → List Text
  groups_of scope = map scope_to_group (super_scopes scope true)

  abbrev pub IsCoherent : Cache → Type 0
  IsCoherent [] = Unit {0}
  IsCoherent ((s, item) ∷ cache) = (item ≡ groups_of s) × IsCoherent cache

  push_groups-append :
      (scopes : List Scope) (item : List Text)
      → push_groups item scopes ≡ item ++ map scope_to_group scopes
  unfolding push_groups
  push_groups-append [] item = sym (append-nil item)
  push_groups-append (s ∷ scopes) item =
      push_groups-append scopes (item ++ scope_to_group s ∷ [])
      ∙ append_assoc item (scope_to_group s ∷ []) (map scope_to_group scopes)

  insert-IsCoherent :
      (scope : Scope) (cache : Cache)
      → IsCoherent cache
      → IsCoherent (insert scope_discrete scope (groups_of scope) cache)
  insert-IsCoherent scope [] c = (refl, tt)
  insert-IsCoherent scope ((s, item) ∷ cache) c = ground (arith, insert-IsCoherent scope cache c.1)

  lookup-IsCoherent :
      (scope : Scope) (cache : Cache) (item : List Text)
      → IsCoherent cache
      → lookup scope_discrete scope cache ≡ some item
      → item ≡ groups_of scope
  lookup-IsCoherent scope [] item c e = cc
  lookup-IsCoherent scope ((s, other) ∷ cache) item c e =
      ground (arith, lookup-IsCoherent scope cache item c.1)

  -- What a call of `scopeToGroups` leaves and returns.
  pub record Serves (scope : Scope) (r : List Text × Cache) : Type 0 where
    pub right : r.0 ≡ groups_of scope
    pub coherent : IsCoherent r.1
    pub remembered : lookup scope_discrete scope r.1 ≡ some (groups_of scope)
    pub few : length r.1 ≤ 301

  compute_groups-Serves :
      (scope : Scope) (cache : Cache)
      → lookup scope_discrete scope cache ≡ none
      → IsCoherent cache
      → Serves scope (compute_groups scope cache)
  unfolding compute_groups
  compute_groups-Serves scope cache e c = elim (Bool-cases (ltb 300 (length cache))) [
    | inl full ↦
        rw (full, push_groups-append (super_scopes scope true) [])
          (record {
            right = refl;
            coherent = (refl, tt);
            remembered = ground arith;
            few = omega arith;
          })
    | inr free ↦
        rw (free, e, push_groups-append (super_scopes scope true) [])
          (record {
            right = refl;
            coherent = insert-IsCoherent scope cache c;
            remembered = lookup-insert_self scope_discrete scope _ cache;
            few = ground (arith, length-insert-le scope_discrete scope (groups_of scope) cache);
          })
  ]

  groups_at-Serves :
      (scope : Scope) (cache : Cache) (o : Option (List Text))
      → lookup scope_discrete scope cache ≡ o
      → IsCoherent cache
      → length cache ≤ 301
      → Serves scope (groups_at o scope cache)
  unfolding groups_at
  groups_at-Serves scope cache none e c few = compute_groups-Serves scope cache e c
  groups_at-Serves scope cache (some item) e c few =
      let right = lookup-IsCoherent scope cache item c e in
      record { right = right; coherent = c; remembered = e ∙ ap some right; few = few }

  pub scope_to_groups-Serves :
      (scope : Scope) (cache : Cache)
      → IsCoherent cache
      → length cache ≤ 301
      → Serves scope (scope_to_groups scope cache)
  unfolding scope_to_groups
  scope_to_groups-Serves scope cache c few =
      groups_at-Serves scope cache (lookup scope_discrete scope cache) refl c few

  -- A cache after queries.
  pub queried : List Scope → Cache → Cache
  queried [] cache = cache
  queried (s ∷ scopes) cache = queried scopes (scope_to_groups s cache).1

  queried-IsCoherent :
      (scopes : List Scope) (cache : Cache)
      → IsCoherent cache
      → length cache ≤ 301
      → IsCoherent (queried scopes cache) × (length (queried scopes cache) ≤ 301)
  unfolding queried
  queried-IsCoherent [] cache c few = (c, few)
  queried-IsCoherent (s ∷ scopes) cache c few =
      let v = scope_to_groups-Serves s cache c few in queried-IsCoherent scopes _ v.coherent v.few

  scope_to_group-fits : (scope : Scope) → length (scope_to_group scope) ≤ env.max_group_name - 1
  unfolding scope_to_group
  scope_to_group-fits scope =
      omega (arith, length-take (env.max_group_name - 1) (md5_hex (to_string scope)))

  pub groups_of-fit :
      (scopes : List Scope)
      → All (λ g. length g ≤ env.max_group_name - 1) (map scope_to_group scopes)
  groups_of-fit [] = tt
  groups_of-fit (s ∷ scopes) = (scope_to_group-fits s, groups_of-fit scopes)

-- After any queries of a new cache, a query returns the groups of the scope and its super-scopes in
-- their order, none of them too long for `addGroup`; the cache then holds the answer, nothing wrong
-- beside it, and at most 301 scopes.
pub scope_to_groups-queried :
    {Scope : Type 0} (env : Env) (naming : Naming Scope) (scopes : List Scope) (scope : Scope)
    → Serves env naming scope (scope_to_groups env naming scope (queried env naming scopes []))
      × All
          (λ g. length g ≤ env.max_group_name - 1)
          (scope_to_groups env naming scope (queried env naming scopes [])).0
scope_to_groups-queried env naming scopes scope =
    let before = queried-IsCoherent env naming scopes [] tt (omega arith) in
    let v = scope_to_groups-Serves env naming scope _ before.0 before.1 in
    (v, rw v.right (groups_of-fit env naming (naming.super_scopes scope true)))
