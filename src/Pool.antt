-- ===== src/Pool.antt =====
-- src/rsb/transport/spread/Assembly.{h,cpp}, class AssemblyPool: the assemblies of the
-- notifications that are under way, by sender and sequence number, and the pruning of old ones.
-- Each call holds the pool's mutex, so calls come one after the other.
pub mod Keys
pub mod Bounds
pub mod Isolation
pub mod Reassembly
pub mod Pruning
use rsb_spread_cpp.Base.{
  ℕ, ◌/◌, ◌%◌, ◌^◌, Bool, true, false, ◌&&◌, not, Option, none, some, List, [], ◌∷◌, ◌++◌, ltb,
  ◌==◌, if◌then◌else◌, Text, bytes, Text_discrete, lookup, insert, erase, domain_error, Result, ok,
  throw, fault, Action,
}
use rsb_spread_cpp.Spread.{Env}
use rsb_spread_cpp.Protocol.{Notification, Fragment}
use rsb_spread_cpp.Assembly
use rsb_spread_cpp.Assembly.{Assembly, new_assembly, is_complete, get_complete_notification, age}

-- A periodic task runs until it is cancelled.
pub data TaskState : Type 0 where
  running finished : TaskState

abbrev pub Assemblies : Type 0
Assemblies = List (Text × Assembly)

pub record Pool : Type 0 where
  pub assemblies : Assemblies
  pub pruning_age : ℕ
  pub pruning_interval : ℕ
  pub pruning_task : Option TaskState

unfoldable pub new_pool : ℕ → ℕ → Result Pool
new_pool age_s interval_ms =
    if age_s == 0
    then throw (domain_error (bytes "Age must not be 0."))
    else if interval_ms == 0
    then throw (domain_error (bytes "Pruning interval must not be 0"))
    else ok (record {
      assemblies = [];
      pruning_age = age_s;
      pruning_interval = interval_ms;
      pruning_task = none;
    })

-- The default arguments.
abbrev pub default_pool : Result Pool
default_pool = new_pool 20 4000

-- The sender, and the lowest four bytes of the sequence number, which has 64 bits: `x & 0xff <<
-- 8k`, shifted back, is the byte `x / 256 ^ k % 256`.
unfoldable pub key_of : Fragment → Text
key_of f =
    f.sender_id
    ++ (f.sequence_number % 256)
      ∷ (f.sequence_number / 2 ^ 8 % 256)
      ∷ (f.sequence_number / 2 ^ 16 % 256)
      ∷ (f.sequence_number / 2 ^ 24 % 256)
      ∷ []

abbrev pub store_assembly : Text → Assembly → Pool → Pool
store_assembly key a p = record p { assemblies = insert Text_discrete key a p.assemblies }

abbrev pub drop_assembly : Text → Pool → Pool
drop_assembly key p = record p { assemblies = erase Text_discrete key p.assemblies }

abbrev pub taken_out : Text → Result Notification → Pool → Result (Option Notification) × Pool
taken_out key (ok n) p = (ok (some n), drop_assembly key p)
taken_out key (throw e) p = (throw e, p)
taken_out key (fault x) p = (fault x, p)

-- The end of `add`: what a complete assembly gives, which then leaves the pool.
unfoldable pub finish : Env → Text → Assembly → Action Pool (Option Notification)
finish env key a p =
    if is_complete a then taken_out key (get_complete_notification env a).0 p else (ok none, p)

abbrev pub after_add : Env → Text → Result Bool → Assembly → Action Pool (Option Notification)
after_add env key (ok _) a p = finish env key a (store_assembly key a p)
after_add env key (throw e) a p = (throw e, store_assembly key a p)
after_add env key (fault x) a p = (fault x, store_assembly key a p)

abbrev pub after_new : Env → Text → Result Assembly → Action Pool (Option Notification)
after_new env key (ok a) p = finish env key a (store_assembly key a p)
after_new env key (throw e) p = (throw e, p)
after_new env key (fault x) p = (fault x, p)

-- `add` with what the pool holds under the fragment's key. The assembly is shared with the pool, so
-- what `Assembly::add` writes is seen there.
unfoldable pub add_at :
    Env → ℕ → Fragment → Text → Option Assembly → Action Pool (Option Notification)
unfolding finish
add_at env now f key (some a) p = let (r, b) = Assembly.add env f a in after_add env key r b p
add_at env now f key none p = after_new env key (new_assembly env now f) p

unfoldable pub add : Env → ℕ → Fragment → Action Pool (Option Notification)
unfolding add_at key_of
add env now f p = add_at env now f (key_of f) (lookup Text_discrete (key_of f) p.assemblies) p

-- The loop of `PruningTask::execute`, in which the clock does not move on.
unfoldable pub prune : ℕ → ℕ → Assemblies → Assemblies
prune max_age now [] = []
prune max_age now ((key, a) ∷ m) =
    if ltb max_age (age now a) then prune max_age now m else (key, a) ∷ prune max_age now m

unfoldable pub execute_pruning : ℕ → Pool → Pool
unfolding prune
execute_pruning now p = record p { assemblies = prune p.pruning_age now p.assemblies }

-- The executor runs the task as long as it is not cancelled.
unfoldable pub tick : ℕ → Pool → Pool
unfolding execute_pruning
tick now p = elim p.pruning_task [
  | none ↦ p
  | some t ↦ elim t [ running ↦ execute_pruning now p | finished ↦ p ]
]

abbrev pub is_pruning : Pool → Bool
is_pruning p = elim p.pruning_task [ none ↦ false | some _ ↦ true ]

-- Stopping cancels the task and waits for its end.
unfoldable pub set_pruning : Bool → Pool → Pool
set_pruning on p =
    if not (is_pruning p) && on
    then record p { pruning_task = some running }
    else if is_pruning p && not on
    then record p { pruning_task = some finished }
    else p

-- The destructor.
unfoldable pub destroy : Pool → Pool
unfolding set_pruning
destroy = set_pruning false
