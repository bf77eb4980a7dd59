-- ===== src/Pool/Pruning.antt =====
-- Pruning: which assemblies a run of the task removes, and when the task runs.
use rsb_spread_cpp.Base.{
  ℕ, ◌+◌, ◌-◌, ◌*◌, ◌/◌, ◌^◌, ◌≤◌, ◌<◌, ◌≡◌, refl, ap, ◌∙◌, ◌≢◌, Bool, true, false, Option, none,
  some, List, [], ◌∷◌, arith, ltb, if◌then◌else◌, Text, Text_discrete, lookup, insert, erase,
  lookup-insert_ne, lookup-erase_ne, Result, ok, throw, fault,
}
use rsb_spread_cpp.Spread.{Env}
use rsb_spread_cpp.Protocol.{Fragment}
use rsb_spread_cpp.Assembly.{Assembly, age, new_assembly}
use rsb_spread_cpp.Assembly
use rsb_spread_cpp.Pool.{
  Pool, Assemblies, running, finished, prune, execute_pruning, tick, is_pruning, set_pruning,
  key_of, add, add_at, finish, store_assembly, after_add, after_new,
}

-- No key has two entries.
abbrev pub IsUnique : Assemblies → Type 0
IsUnique [] = Unit {0}
IsUnique ((key, a) ∷ m) = (lookup Text_discrete key m ≡ none) × IsUnique m

insert-IsUnique :
    (key : Text) (a : Assembly) (m : Assemblies)
    → IsUnique m
    → IsUnique (insert Text_discrete key a m)
insert-IsUnique key a [] u = (refl, tt)
insert-IsUnique key a ((k, b) ∷ m) u =
    ground (arith, insert-IsUnique key a m u.1, lookup-insert_ne Text_discrete k key a m)

erase-IsUnique : (key : Text) (m : Assemblies) → IsUnique m → IsUnique (erase Text_discrete key m)
erase-IsUnique key [] u = tt
erase-IsUnique key ((k, b) ∷ m) u =
    ground (arith, erase-IsUnique key m u.1, lookup-erase_ne Text_discrete k key m)

-- An entry that is not too old.
abbrev pub if_young : ℕ → ℕ → Option Assembly → Option Assembly
if_young max_age now none = none
if_young max_age now (some a) = if ltb max_age (age now a) then none else some a

lookup-prune-none :
    (max_age now : ℕ) (key : Text) (m : Assemblies)
    → lookup Text_discrete key m ≡ none
    → lookup Text_discrete key (prune max_age now m) ≡ none
unfolding prune
lookup-prune-none max_age now key [] e = refl
lookup-prune-none max_age now key ((k, b) ∷ m) e =
    ground (arith, lookup-prune-none max_age now key m)

lookup-prune :
    (max_age now : ℕ) (key : Text) (m : Assemblies)
    → IsUnique m
    → lookup Text_discrete key (prune max_age now m)
      ≡ if_young max_age now (lookup Text_discrete key m)
unfolding prune
lookup-prune max_age now key [] u = refl
lookup-prune max_age now key ((k, b) ∷ m) u =
    ground (arith, lookup-prune max_age now key m u.1, lookup-prune-none max_age now key m)

prune-IsUnique : (max_age now : ℕ) (m : Assemblies) → IsUnique m → IsUnique (prune max_age now m)
unfolding prune
prune-IsUnique max_age now [] u = tt
prune-IsUnique max_age now ((k, b) ∷ m) u =
    ground (arith, prune-IsUnique max_age now m u.1, lookup-prune-none max_age now k m)

module _ (env : Env) (key : Text) where
  finish-IsUnique :
      (a : Assembly) (p : Pool) → IsUnique p.assemblies → IsUnique (finish env key a p).1.assemblies
  unfolding finish
  finish-IsUnique a p u = ground (arith, erase-IsUnique key p.assemblies u)

  after_add-IsUnique :
      (r : Result Bool) (a : Assembly) (p : Pool)
      → IsUnique p.assemblies
      → IsUnique (after_add env key r a p).1.assemblies
  after_add-IsUnique (ok done) a p u =
      finish-IsUnique a (store_assembly key a p) (insert-IsUnique key a p.assemblies u)
  after_add-IsUnique (throw e) a p u = insert-IsUnique key a p.assemblies u
  after_add-IsUnique (fault x) a p u = insert-IsUnique key a p.assemblies u

  after_new-IsUnique :
      (r : Result Assembly) (p : Pool)
      → IsUnique p.assemblies
      → IsUnique (after_new env key r p).1.assemblies
  after_new-IsUnique (ok a) p u =
      finish-IsUnique a (store_assembly key a p) (insert-IsUnique key a p.assemblies u)
  after_new-IsUnique (throw e) p u = u
  after_new-IsUnique (fault x) p u = u

  add_at-IsUnique :
      (now : ℕ) (f : Fragment) (o : Option Assembly) (p : Pool)
      → IsUnique p.assemblies
      → IsUnique (add_at env now f key o p).1.assemblies
  unfolding add_at
  add_at-IsUnique now f none p u = after_new-IsUnique (new_assembly env now f) p u
  add_at-IsUnique now f (some a) p u =
      let (r, b) = Assembly.add env f a in after_add-IsUnique r b p u

-- Adding a fragment and a run of the task leave no key with two entries.
pub add-tick-IsUnique :
    (env : Env) (now : ℕ) (f : Fragment) (p : Pool)
    → IsUnique p.assemblies
    → IsUnique (add env now f p).1.assemblies × IsUnique (tick now p).assemblies
unfolding add tick
add-tick-IsUnique env now f p u = (
  add_at-IsUnique env (key_of f) now f _ p u,
  ground (arith, prune-IsUnique p.pruning_age now p.assemblies u),
)

tick_young :
    (now : ℕ) (p : Pool) (key : Text)
    → IsUnique p.assemblies
    → p.pruning_task ≡ some running
    → lookup Text_discrete key (tick now p).assemblies
      ≡ if_young p.pruning_age now (lookup Text_discrete key p.assemblies)
unfolding tick execute_pruning
tick_young now p key u on = ground (arith, lookup-prune p.pruning_age now key p.assemblies u)

-- The entry that is left, if so many whole seconds at most, of a million microseconds each, have
-- passed since its birth.
abbrev pub kept_for : ℕ → ℕ → Option Assembly → Option Assembly
kept_for seconds now none = none
kept_for seconds now (some a) =
    if ltb (now - a.birth_time) ((seconds + 1) * 1000000) then some a else none

-- The clock has not been set back since the assembly began, and its seconds fit into an unsigned int.
abbrev pub IsTimed : ℕ → Option Assembly → Type 0
IsTimed now none = Unit {0}
IsTimed now (some a) = (a.birth_time ≤ now) × (now - a.birth_time < 2 ^ 32 * 1000000)

age-IsTimed :
    (now : ℕ) (a : Assembly) → IsTimed now (some a) → age now a ≡ (now - a.birth_time) / 1000000
unfolding age
age-IsTimed now a v = ground (arith, v.0, v.1)

if_young-kept_for :
    (seconds now : ℕ) (o : Option Assembly)
    → IsTimed now o
    → if_young seconds now o ≡ kept_for seconds now o
if_young-kept_for seconds now none v = refl
if_young-kept_for seconds now (some a) v = let same = age-IsTimed now a v in ground (arith, same)

-- What a run of the pruning task leaves. While the task runs, an entry of the pool is left, as it
-- is, exactly if no more whole seconds than the maximal age have passed since it was begun, and
-- removed otherwise. When the task has never been started or has been stopped, nothing changes.
-- This asks that no key of the pool has two entries, that the clock has not been set back behind
-- the time at which the entry was begun, and that less than 2^32 seconds have passed since.
pub tick_lem :
    (now : ℕ) (p : Pool) (key : Text)
    → IsUnique p.assemblies
    → IsTimed now (lookup Text_discrete key p.assemblies)
    → (p.pruning_task ≡ some running
        → lookup Text_discrete key (tick now p).assemblies
          ≡ kept_for p.pruning_age now (lookup Text_discrete key p.assemblies))
      × (p.pruning_task ≢ some running → tick now p ≡ p)
unfolding tick execute_pruning
tick_lem now p key u timed = (
  λ on.
      tick_young now p key u on
      ∙ if_young-kept_for p.pruning_age now (lookup Text_discrete key p.assemblies) timed,
  λ off. ground arith,
)

-- Calls of `setPruning` one after the other.
abbrev pub set_pruning_all : List Bool → Pool → Pool
set_pruning_all [] p = p
set_pruning_all (b ∷ bs) p = set_pruning_all bs (set_pruning b p)

stays_finished :
    (bs : List Bool) (p : Pool)
    → p.pruning_task ≡ some finished
    → (set_pruning_all bs p).pruning_task ≡ some finished
unfolding set_pruning
stays_finished [] p e = e
stays_finished (b ∷ bs) p e = stays_finished bs (set_pruning b p) (ground arith)

-- Once pruning has been started and then stopped, it cannot be started again: whatever calls of
-- `setPruning` follow, no run of the task changes the pool, while `isPruning` keeps saying `true`.
pub set_pruning_once :
    (p : Pool) (bs : List Bool) (now : ℕ)
    → is_pruning p ≡ true
    → let q = set_pruning_all bs (set_pruning false p) in (is_pruning q ≡ true) × (tick now q ≡ q)
unfolding tick
set_pruning_once p bs now on =
    let e = stays_finished bs (set_pruning false p) (unfold set_pruning in ground arith) in
    (ground arith, ground arith)

-- A pool that has not been pruning is not pruned until `setPruning` is called with `true`; from
-- then on a run of the task prunes it.
pub set_pruning_start :
    (p : Pool) (now : ℕ)
    → p.pruning_task ≡ none
    → (tick now (set_pruning false p) ≡ p)
      × (tick now (set_pruning true p) ≡ execute_pruning now (set_pruning true p))
unfolding tick set_pruning
set_pruning_start p now off = (ground arith, ground arith)

-- Where the local clock has been set back behind the birth of an assembly by a second or more, but
-- by less than 2^32 seconds less the maximal age, a run of the task removes the assembly, however
-- little time has passed.
pub prune_clock_set_back :
    (p : Pool) (key : Text) (a : Assembly) (now : ℕ)
    → IsUnique p.assemblies
    → p.pruning_task ≡ some running
    → lookup Text_discrete key p.assemblies ≡ some a
    → now + 1000000 ≤ a.birth_time
    → (a.birth_time - now) / 1000000 + p.pruning_age < 2 ^ 32
    → lookup Text_discrete key (tick now p).assemblies ≡ none
prune_clock_set_back p key a now u on found back within =
    tick_young now p key u on ∙ ap (if_young p.pruning_age now) found ∙ old
  where
    aged : p.pruning_age < age now a
    aged = unfold age in ground arith

    old : if_young p.pruning_age now (some a) ≡ none
    old = ground (arith, aged)
