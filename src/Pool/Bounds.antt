-- ===== src/Pool/Bounds.antt =====
-- A fragment's number of parts and its own number come over the network, and what becomes of
-- numbers that do not fit.
use rsb_spread_cpp.Base.{
  ℕ, zero, suc, ◌≤◌, ◌≡◌, refl, ap, ◌∙◌, Option, none, arith, get_elem?, replicate,
  length-replicate, Text_discrete, lookup, out_of_bounds, fault, check_ok,
}
use rsb_spread_cpp.Spread.{Env}
use rsb_spread_cpp.Protocol.{Fragment}
use rsb_spread_cpp.Assembly.{Assembly, created, new_assembly, empty_assembly}
use rsb_spread_cpp.Assembly
use rsb_spread_cpp.Pool.{Pool, key_of, add, add_at, after_new}

get_elem?-replicate :
    (k i : ℕ) → k ≤ i → get_elem? {A = Option Fragment} (replicate k none) i ≡ none
get_elem?-replicate zero i h = refl
get_elem?-replicate (suc k) zero h = absurd (omega arith)
get_elem?-replicate (suc k) (suc i) h = get_elem?-replicate k i (omega arith)

add_behind_end :
    (env : Env) (now : ℕ) (f : Fragment)
    → f.num_data_parts ≤ f.data_part
    → Assembly.add env f (empty_assembly f.num_data_parts now)
      ≡ (fault out_of_bounds, empty_assembly f.num_data_parts now)
unfolding Assembly.add Assembly.add_at
add_behind_end env now f bad =
    let a = empty_assembly f.num_data_parts now in
    check_ok env.ndebug _ (Assembly.add_at env f (get_elem? a.store f.data_part)) a
      (ground (arith, length-replicate {A = Option Fragment} f.num_data_parts none))
    ∙ ap (λ o. Assembly.add_at env f o a) (get_elem?-replicate f.num_data_parts f.data_part bad)

-- A fragment of a new notification whose number is not below its number of parts reaches behind the
-- end of the vector, in a build with asserts too: nothing checks the number.
pub add_out_of_range :
    (env : Env) (now : ℕ) (f : Fragment) (p : Pool)
    → f.num_data_parts ≤ f.data_part
    → lookup Text_discrete (key_of f) p.assemblies ≡ none
    → add env now f p ≡ (fault out_of_bounds, p)
unfolding add add_at new_assembly
add_out_of_range env now f p bad free =
    ap (λ o. add_at env now f (key_of f) o p) free
    ∙ ap (λ r. after_new env (key_of f) (created r) p) (add_behind_end env now f bad)
