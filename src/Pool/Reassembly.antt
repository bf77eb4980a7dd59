-- ===== src/Pool/Reassembly.antt =====
-- Fragments of a notification reach the pool in any order and among others, and come out joined.
use rsb_spread_cpp.Base.{
  ℕ, zero, suc, ◌^◌, ◌≤◌, ◌<◌, ◌≡◌, sym, ap, ◌∙◌, Bool, true, false, Option, none, some, List, [],
  ◌∷◌, map, arith, length, length-map, All, Text, Text_discrete, lookup, Result, ok,
}
use rsb_spread_cpp.Spread.{Env}
use rsb_spread_cpp.Protocol.{Notification, Fragment}
use rsb_spread_cpp.Assembly
use rsb_spread_cpp.Assembly.{created, Assembly, new_assembly, empty_assembly}
use rsb_spread_cpp.Assembly.Slots.{placed}
use rsb_spread_cpp.Assembly.Payload.{concat}
use rsb_spread_cpp.Assembly.Joining.{
  IsPart, Distinct, IsPending, is_last, placed-IsPending, complete_if_last, add_pending,
  get_complete_notification-pending, empty_assembly-IsPending,
}
use rsb_spread_cpp.Pool.{Pool}
use rsb_spread_cpp.Pool.Isolation.{
  slot_after_new, deliver, Arrivals, of_key, answers, slot_answers, answers-slot_answers,
  slot_finish,
}

-- Nothing for all but the last of so many fragments, and the notification for that one.
abbrev pub joined_last : Notification → ℕ → List (Result (Option Notification))
joined_last n zero = []
joined_last n (suc zero) = ok (some n) ∷ []
joined_last n (suc (suc k)) = ok none ∷ joined_last n (suc k)

abbrev pub fragments : Arrivals → List Fragment
fragments = map (λ e. e.1)

module _ (env : Env) (n : Notification) (ps : List Text) (some_part : 1 ≤ length ps) where
  whole : Notification
  whole = record n { payload = concat ps }

  abbrev outcome : Bool → Assembly → Result (Option Notification) × Option Assembly
  outcome true a = (ok (some whole), none)
  outcome false a = (ok none, some a)

  finish_pending :
      (fs : List Fragment) (a : Assembly)
      → IsPending n ps fs a
      → slot_finish env a ≡ outcome (is_last fs) a
  unfolding whole
  finish_pending [] a v =
      rw
        (complete_if_last env n ps [] a v, get_complete_notification-pending env n ps a some_part v)
  finish_pending (f ∷ fs) a v = rw (complete_if_last env n ps (f ∷ fs) a v)

  deliver_pending :
      (now : ℕ) (f : Fragment) (fs : List Fragment) (a : Assembly)
      → IsPending n ps (f ∷ fs) a
      → deliver env now f (some a) ≡ outcome (is_last fs) (placed f a)
  unfolding deliver
  deliver_pending now f fs a v =
      rw (add_pending env n ps f fs a v)
        (finish_pending fs (placed f a) (placed-IsPending env n ps f fs a v))

  deliver_first :
      (now : ℕ) (f : Fragment) (fs : List Fragment)
      → IsPending n ps (f ∷ fs) (empty_assembly (length ps) now)
      → deliver env now f none ≡ outcome (is_last fs) (placed f (empty_assembly (length ps) now))
  unfolding deliver new_assembly
  deliver_first now f fs v =
      ap (λ k. slot_after_new env (created (Assembly.add env f (empty_assembly k now)))) v.parts.0.0
      ∙ ap (λ r. slot_after_new env (created r)) (add_pending env n ps f fs _ v)
      ∙ finish_pending fs _ (placed-IsPending env n ps f fs _ v)

  slot_answers_pending :
      (now : ℕ) (f : Fragment) (es : Arrivals) (a : Assembly) (o : Option Assembly)
      → IsPending n ps (f ∷ fragments es) a
      → deliver env now f o ≡ outcome (is_last (fragments es)) (placed f a)
      → slot_answers env ((now, f) ∷ es) o ≡ joined_last whole (suc (length es))
  unfolding slot_answers
  slot_answers_pending now f [] a o v e = rw e
  slot_answers_pending now f ((later, g) ∷ es) a o v e = rw e (
      ap (◌∷◌ (ok none)) (
        slot_answers_pending later g es (placed f a) (some (placed f a))
          (placed-IsPending env n ps f _ a v)
          (deliver_pending later g (fragments es) (placed f a)
            (placed-IsPending env n ps f _ a v))))

-- If the pool holds nothing under a key, and the fragments of that key among those that arrive are
-- the parts of one notification, each once and in any order, then the pool answers nothing to all
-- of them but the last, and to that one the notification with the payload put together. Fragments
-- of other keys may arrive in between. There is at least one part and there are fewer than 2^32.
pub answers-joined_last :
    (env : Env) (key : Text) (n : Notification) (ps : List Text) (es : Arrivals) (p : Pool)
    → lookup Text_discrete key p.assemblies ≡ none
    → 1 ≤ length ps
    → length ps < 2 ^ 32
    → All (IsPart n ps) (fragments (of_key key es))
    → Distinct (fragments (of_key key es))
    → length (fragments (of_key key es)) ≡ length ps
    → answers env key es p ≡ joined_last (record n { payload = concat ps }) (length ps)
unfolding whole
answers-joined_last env key n ps es p free some_part small parts distinct complete =
    answers-slot_answers env key es p
    ∙ ap (slot_answers env (of_key key es)) free
    ∙ alone (of_key key es) parts distinct complete
  where
    alone :
        (ds : Arrivals)
        → All (IsPart n ps) (fragments ds)
        → Distinct (fragments ds)
        → length (fragments ds) ≡ length ps
        → slot_answers env ds none ≡ joined_last (record n { payload = concat ps }) (length ps)
    alone [] parts distinct complete = absurd (omega arith)
    alone ((now, f) ∷ ds) parts distinct complete =
        let v =
          empty_assembly-IsPending env n ps now (fragments ((now, f) ∷ ds)) small parts distinct
            complete in
        slot_answers_pending env n ps some_part now f ds _ none v
          (deliver_first env n ps some_part now f (fragments ds) v)
        ∙ ap (joined_last (record n { payload = concat ps }))
            (ap suc (sym (length-map (λ (e : ℕ × Fragment). e.1) ds)) ∙ complete)
