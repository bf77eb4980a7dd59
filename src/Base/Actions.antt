-- ===== src/Base/Actions.antt =====
-- How a call ends, and calls that change a state. A thrown exception leaves what was written.
use mathlib.Core.Path.{◌≡◌, refl}
use native.Mathlib.Omega.{arith}
use mathlib.Core.Bool.{Bool, true, false, ◌||◌}
use rsb_spread_cpp.Base.Tests.{if◌then◌else◌}
use rsb_spread_cpp.Base.Bytes.{Text}

pub data Exception : Type 0 where
  illegal_state : Text → Exception
  comm_error : Text → Exception
  protocol_error : Text → Exception
  invalid_argument : Text → Exception
  domain_error : Text → Exception
  thread_interrupted : Exception
  other_exception : Text → Exception

-- No exception: a failed `assert`, an access outside an array or behind the end of a container, a
-- call of `exit`, or a loop that does not end within its fuel.
pub data Fault : Type 0 where
  assertion_failed out_of_bounds end_dereferenced null_dereferenced endless exited : Fault

pub data Result (A : Type 0) : Type 0 where
  ok : A → Result A
  throw : Exception → Result A
  fault : Fault → Result A

abbrev pub Action : Type 0 → Type 0 → Type 0
Action S A = S → Result A × S

infixl 5 ◌>>=◌ ◌>>◌
abbrev pub ◌>>=◌ : {S A B : Type 0} → Action S A → (A → Action S B) → Action S B
◌>>=◌ m f s =
    let (r, t) = m s in elim r [ ok a ↦ f a t | throw e ↦ (throw e, t) | fault x ↦ (fault x, t) ]

abbrev pub ◌>>◌ : {S B : Type 0} → Action S (Unit {0}) → Action S B → Action S B
m >> k = m >>= λ _. k

module _ {S : Type 0} where
  abbrev pub pure : {A : Type 0} → A → Action S A
  pure a s = (ok a, s)

  abbrev pub raise : {A : Type 0} → Exception → Action S A
  raise e s = (throw e, s)

  abbrev pub crash : {A : Type 0} → Fault → Action S A
  crash x s = (fault x, s)

  abbrev pub get : Action S S
  get s = (ok s, s)

  abbrev pub modify : (S → S) → Action S (Unit {0})
  modify f s = (ok tt, f s)

  -- `if (!b) throw e`.
  abbrev pub require : Bool → Exception → Action S (Unit {0})
  require b e s = (if b then ok tt else throw e, s)

  -- `assert`, which a build with NDEBUG leaves out.
  abbrev pub check : Bool → Bool → Action S (Unit {0})
  check ndebug b s = (if ndebug || b then ok tt else fault assertion_failed, s)

-- A call on a part of the state.
abbrev pub zoom : {S T A : Type 0} → (S → T) → (S → T → S) → Action T A → Action S A
zoom part put m s = let (r, t) = m (part s) in (r, put s t)

module _ {S A B : Type 0} where
  -- Running a sequence whose first part is known to end well.
  pub >>=-ok :
      (m : Action S A) (f : A → Action S B) (s : S) {a : A} {t : S}
      → m s ≡ (ok a, t)
      → (m >>= f) s ≡ f a t
  >>=-ok m f s e = ground arith

  pub >>=-throw :
      (m : Action S A) (f : A → Action S B) (s : S) {x : Exception} {t : S}
      → m s ≡ (throw x, t)
      → (m >>= f) s ≡ (throw x, t)
  >>=-throw m f s e = ground arith

  pub >>=-fault :
      (m : Action S A) (f : A → Action S B) (s : S) {x : Fault} {t : S}
      → m s ≡ (fault x, t)
      → (m >>= f) s ≡ (fault x, t)
  >>=-fault m f s e = ground arith

-- The kind of an exception, whatever its text.
abbrev pub IsIllegalState : Exception → Type 0
IsIllegalState (illegal_state t) = Unit {0}
IsIllegalState _ = ⊥

abbrev pub IsCommError : Exception → Type 0
IsCommError (comm_error t) = Unit {0}
IsCommError _ = ⊥

abbrev pub IsInvalidArgument : Exception → Type 0
IsInvalidArgument (invalid_argument t) = Unit {0}
IsInvalidArgument _ = ⊥

-- An `IllegalStateException`, and the state is as it was.
abbrev pub Refused : {S A : Type 0} → S → Result A × S → Type 0
Refused s (throw e, t) = IsIllegalState e × (t ≡ s)
Refused s (ok a, t) = ⊥
Refused s (fault x, t) = ⊥

module _ {S T A B : Type 0} where
  -- What follows a call on a part of the state, by how that call ended.
  abbrev pub settle : (S → T → S) → (A → Action S B) → S → Result A × T → Result B × S
  settle put f s (ok a, t) = f a (put s t)
  settle put f s (throw e, t) = (throw e, put s t)
  settle put f s (fault x, t) = (fault x, put s t)

  pub zoom->>= :
      (part : S → T) (put : S → T → S) (m : Action T A) (f : A → Action S B) (s : S)
      → (zoom part put m >>= f) s ≡ settle put f s (m (part s))
  zoom->>= part put m f s = settle-eq (m (part s))
    where
      settle-eq :
          (r : Result A × T)
          → elim r.0 [
            | ok a ↦ f a (put s r.1)
            | throw e ↦ (throw e, put s r.1)
            | fault x ↦ (fault x, put s r.1)
          ]
            ≡ settle put f s r
      settle-eq (ok a, t) = refl
      settle-eq (throw e, t) = refl
      settle-eq (fault x, t) = refl

module _ {S B : Type 0} (ndebug b : Bool) (m : Action S B) (s : S) where
  pub check_ok : (ndebug || b) ≡ true → (check ndebug b >> m) s ≡ m s
  check_ok h = ground arith

  pub check_fails : (ndebug || b) ≡ false → (check ndebug b >> m) s ≡ (fault assertion_failed, s)
  check_fails h = ground arith

-- The next step of a call that returned.
abbrev pub and_then : {A B : Type 0} → Result A → (A → Result B) → Result B
and_then (ok a) f = f a
and_then (throw e) f = throw e
and_then (fault x) f = fault x

-- Both parts of a sequence that returned have returned.
pub >>-returns :
    {S B : Type 0} (m : Action S (Unit {0})) (k : Action S B) (s : S) {a : B}
    → ((m >> k) s).0 ≡ ok a
    → ((m s).0 ≡ ok tt) × ((m >> k) s ≡ k (m s).1)
>>-returns m k s h = ground arith
