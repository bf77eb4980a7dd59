-- ===== src/Pool/Isolation.antt =====
-- Notifications under way do not disturb each other: what the pool answers to the fragments of one
-- key depends on these fragments alone.
use rsb_spread_cpp.Base.{
  ℕ, ◌≡◌, refl, sym, ap, ap₂, ◌∙◌, ◌≢◌, ite, if_pos, if_neg, Bool, Option, none, some, List, [],
  ◌∷◌, arith, if◌then◌else◌, Text, Text_discrete, lookup, lookup-insert_self, lookup-insert_ne,
  lookup-erase_self, lookup-erase_ne, Result, ok, throw, fault,
}
use rsb_spread_cpp.Spread.{Env}
use rsb_spread_cpp.Protocol.{Notification, Fragment}
use rsb_spread_cpp.Assembly
use rsb_spread_cpp.Assembly.{Assembly, new_assembly, is_complete, get_complete_notification}
use rsb_spread_cpp.Pool.{after_add, after_new, store_assembly, Pool, key_of, add_at, add, finish}

-- One entry of the pool, if it is there.
abbrev pub Slot : Type 0
Slot = Option Assembly

abbrev pub slot_taken : Assembly → Result Notification → Result (Option Notification) × Slot
slot_taken a (ok n) = (ok (some n), none)
slot_taken a (throw e) = (throw e, some a)
slot_taken a (fault x) = (fault x, some a)

abbrev pub slot_finish : Env → Assembly → Result (Option Notification) × Slot
slot_finish env a =
    if is_complete a then slot_taken a (get_complete_notification env a).0 else (ok none, some a)

abbrev pub slot_after_add : Env → Result Bool → Assembly → Result (Option Notification) × Slot
slot_after_add env (ok _) a = slot_finish env a
slot_after_add env (throw e) a = (throw e, some a)
slot_after_add env (fault x) a = (fault x, some a)

abbrev pub slot_after_new : Env → Result Assembly → Result (Option Notification) × Slot
slot_after_new env (ok a) = slot_finish env a
slot_after_new env (throw e) = (throw e, none)
slot_after_new env (fault x) = (fault x, none)

-- What a fragment does to the entry of its key.
unfoldable pub deliver : Env → ℕ → Fragment → Slot → Result (Option Notification) × Slot
deliver env now f (some a) = let (r, b) = Assembly.add env f a in slot_after_add env r b
deliver env now f none = slot_after_new env (new_assembly env now f)

-- Fragments as they come in, each with its time.
abbrev pub Arrivals : Type 0
Arrivals = List (ℕ × Fragment)

-- Those of one key.
unfoldable pub of_key : Text → Arrivals → Arrivals
of_key key [] = []
of_key key ((now, f) ∷ es) =
    ite (Text_discrete (key_of f) key) ((now, f) ∷ of_key key es) (of_key key es)

of_key_idem : (key : Text) (es : Arrivals) → of_key key (of_key key es) ≡ of_key key es
unfolding of_key
of_key_idem key [] = refl
of_key_idem key ((now, f) ∷ es) = elim (Text_discrete (key_of f) key) [
  | yes e ↦ rw (if_pos _ e) (rw (if_pos _ e) (ap (◌∷◌ (now, f)) (of_key_idem key es)))
  | no ne ↦ rw (if_neg _ ne) (of_key_idem key es)
]

module _ (env : Env) where
  module _ (key : Text) (p : Pool) where
    finish-slot :
        (a : Assembly) (q : Pool)
        → lookup Text_discrete key q.assemblies ≡ some a
        → ((finish env key a q).0 ≡ (slot_finish env a).0)
          × (lookup Text_discrete key (finish env key a q).1.assemblies ≡ (slot_finish env a).1)
    unfolding finish
    finish-slot a q e = ground (arith, lookup-erase_self Text_discrete key q.assemblies)

    finish-others :
        (j : Text) (a : Assembly) (q : Pool)
        → j ≢ key
        → lookup Text_discrete j (finish env key a q).1.assemblies
          ≡ lookup Text_discrete j q.assemblies
    unfolding finish
    finish-others j a q ne = ground (arith, lookup-erase_ne Text_discrete j key q.assemblies ne)

    -- The answer and the entry of the key are these.
    abbrev Does : Result (Option Notification) × Slot → Result (Option Notification) × Pool → Type 0
    Does d r = (r.0 ≡ d.0) × (lookup Text_discrete key r.1.assemblies ≡ d.1)

    abbrev KeepsOthers : Result (Option Notification) × Pool → Type 0
    KeepsOthers r =
        (j : Text)
        → j ≢ key
        → lookup Text_discrete j r.1.assemblies ≡ lookup Text_discrete j p.assemblies

    after_add-slot :
        (r : Result Bool) (a : Assembly) → Does (slot_after_add env r a) (after_add env key r a p)
    after_add-slot (ok done) a =
        finish-slot a (store_assembly key a p) (lookup-insert_self Text_discrete key a p.assemblies)
    after_add-slot (throw e) a = (refl, lookup-insert_self Text_discrete key a p.assemblies)
    after_add-slot (fault x) a = (refl, lookup-insert_self Text_discrete key a p.assemblies)

    after_new-slot :
        (r : Result Assembly)
        → lookup Text_discrete key p.assemblies ≡ none
        → Does (slot_after_new env r) (after_new env key r p)
    after_new-slot (ok a) e =
        finish-slot a (store_assembly key a p) (lookup-insert_self Text_discrete key a p.assemblies)
    after_new-slot (throw x) e = (refl, e)
    after_new-slot (fault x) e = (refl, e)

    add_at-slot :
        (now : ℕ) (f : Fragment) (o : Slot)
        → lookup Text_discrete key p.assemblies ≡ o
        → Does (deliver env now f o) (add_at env now f key o p)
    unfolding add_at deliver
    add_at-slot now f none e = after_new-slot (new_assembly env now f) e
    add_at-slot now f (some a) e = let (r, b) = Assembly.add env f a in after_add-slot r b

    after_add-others : (r : Result Bool) (a : Assembly) → KeepsOthers (after_add env key r a p)
    after_add-others (ok done) a j ne =
        finish-others j a (store_assembly key a p) ne
        ∙ lookup-insert_ne Text_discrete j key a p.assemblies ne
    after_add-others (throw e) a j ne = lookup-insert_ne Text_discrete j key a p.assemblies ne
    after_add-others (fault x) a j ne = lookup-insert_ne Text_discrete j key a p.assemblies ne

    after_new-others : (r : Result Assembly) → KeepsOthers (after_new env key r p)
    after_new-others (ok a) j ne =
        finish-others j a (store_assembly key a p) ne
        ∙ lookup-insert_ne Text_discrete j key a p.assemblies ne
    after_new-others (throw e) j ne = refl
    after_new-others (fault x) j ne = refl

    add_at-others : (now : ℕ) (f : Fragment) (o : Slot) → KeepsOthers (add_at env now f key o p)
    unfolding add_at
    add_at-others now f none = after_new-others (new_assembly env now f)
    add_at-others now f (some a) = let (r, b) = Assembly.add env f a in after_add-others r b

  add-slot :
      (now : ℕ) (f : Fragment) (p : Pool)
      → Does
          (key_of f)
          p
          (deliver env now f (lookup Text_discrete (key_of f) p.assemblies))
          (add env now f p)
  unfolding add
  add-slot now f p = add_at-slot (key_of f) p now f _ refl

  add-others : (now : ℕ) (f : Fragment) (p : Pool) → KeepsOthers (key_of f) p (add env now f p)
  unfolding add
  add-others now f p = add_at-others (key_of f) p now f _

  -- What the pool answers to the fragments of the key among these.
  unfoldable pub answers : Text → Arrivals → Pool → List (Result (Option Notification))
  answers key [] p = []
  answers key ((now, f) ∷ es) p =
      let (r, q) = add env now f p in
      let rest = answers key es q in ite (Text_discrete (key_of f) key) (r ∷ rest) rest

  -- The same, by the entry of the key alone.
  unfoldable pub slot_answers : Arrivals → Slot → List (Result (Option Notification))
  slot_answers [] o = []
  slot_answers ((now, f) ∷ es) o = let (r, o') = deliver env now f o in r ∷ slot_answers es o'

  pub answers-slot_answers :
      (key : Text) (es : Arrivals) (p : Pool)
      → answers key es p ≡ slot_answers (of_key key es) (lookup Text_discrete key p.assemblies)
  unfolding answers slot_answers of_key
  answers-slot_answers key [] p = refl
  answers-slot_answers key ((now, f) ∷ es) p =
      let q = (add env now f p).1 in
      let d = λ (k : Text). deliver env now f (lookup Text_discrete k p.assemblies) in
      elim (Text_discrete (key_of f) key) [
        | yes e ↦
            rw (if_pos _ e, if_pos _ e)
              (ap₂ ◌∷◌ ((add-slot now f p).0 ∙ ap (λ k. (d k).0) e) (
                answers-slot_answers key es q
                ∙ ap (slot_answers (of_key key es)) (
                    ap (λ k. lookup Text_discrete k q.assemblies) (sym e)
                    ∙ (add-slot now f p).1
                    ∙ ap (λ k. (d k).1) e)))
        | no ne ↦
            rw (if_neg _ ne, if_neg _ ne)
              (answers-slot_answers key es q
                ∙ ap (slot_answers (of_key key es)) (add-others now f p key (λ e. ne (sym e))))
      ]

-- What the pool answers to the fragments of one key, in whatever order they come between others, is
-- what it would answer to these fragments alone, exceptions and faults included.
pub answers-of_key :
    (env : Env) (key : Text) (es : Arrivals) (p : Pool)
    → answers env key es p ≡ answers env key (of_key key es) p
answers-of_key env key es p =
    answers-slot_answers env key es p
    ∙ ap (λ fs. slot_answers env fs (lookup Text_discrete key p.assemblies))
        (sym (of_key_idem key es))
    ∙ sym (answers-slot_answers env key (of_key key es) p)
