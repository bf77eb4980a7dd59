-- ===== src/OutConnector/Counting.antt =====
-- How many fragments the loop makes at most.
use rsb_spread_cpp.Base.{
  ℕ, zero, suc, ◌+◌, ◌^◌, ◌<◌, ◌≡◌, subst, inl, inr, ◌||◌, List, arith, ltb, ◌==◌, Bool-cases,
  length, Text, Result, ok, throw, fault,
}
use rsb_spread_cpp.Spread.{Env}
use rsb_spread_cpp.Protocol.{Fragment}
use rsb_spread_cpp.OutConnector.{Events, Connector, cut_one, cons_cut, cut, cut_wire, uint_add}
use rsb_spread_cpp.OutConnector.Cutting.{Fits}

module _ {Scope Event : Type 0} (env : Env) (events : Events Scope Event) (c : Connector Scope)
    (e : Event) (schema wire : Text) where
  -- If it returns fragments, they are fewer than this.
  abbrev Fewer : ℕ → Result (List Fragment) → Type 0
  Fewer n (ok fs) = length fs < n
  Fewer n (throw x) = Unit {0}
  Fewer n (fault x) = Unit {0}

  consed-Fewer :
      (n : ℕ) (r : Result (Fragment × ℕ)) (rest : ℕ → Result (List Fragment))
      → ((next : ℕ) → Fewer n (rest next))
      → Fewer (suc n) (cons_cut env events c e schema wire r rest)
  consed-Fewer n (ok (f, next)) rest h = ground (arith, h next)
  consed-Fewer n (throw x) rest h = tt
  consed-Fewer n (fault x) rest h = tt

  cut-Fewer : (fuel i offset : ℕ) → Fewer fuel (cut env events c e schema wire fuel i offset)
  unfolding cut
  cut-Fewer zero i offset = tt
  cut-Fewer (suc fuel) i offset = elim (Bool-cases (i == 0 || ltb offset (length wire))) [
    | inl more ↦ rw more (
        consed-Fewer fuel (cut_one env events c e schema wire i offset)
          (λ next. cut env events c e schema wire fuel (uint_add i 1) next)
          (λ next. cut-Fewer fuel (uint_add i 1) next))
    | inr ends ↦ rw ends (omega arith)
  ]

  -- The number of fragments does not wrap around where no size does.
  pub length-cut_wire :
      (fs : List Fragment)
      → Fits env events c e schema wire
      → cut_wire env events c e (schema, wire) ≡ ok fs
      → length fs < 2 ^ 32
  unfolding cut_wire
  length-cut_wire fs fits h =
      let few : length fs < length wire + 2 =
        subst (Fewer (length wire + 2)) h (cut-Fewer (length wire + 2) 0 0) in
      omega (arith, few, fits.small, fits.headers 0)
