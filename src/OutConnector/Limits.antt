-- ===== src/OutConnector/Limits.antt =====
-- Events whose meta data do not fit, and limits that are too small for the loop's guard.
use rsb_spread_cpp.Base.{
  ℕ, zero, suc, ◌+◌, ◌-◌, ◌^◌, ◌≤◌, ◌<◌, ◌≡◌, refl, sym, ap, ◌∙◌, subst, ◌⊎◌, true, false, List, [],
  ◌∷◌, arith, length, take, drop, Text, Exception, protocol_error, assertion_failed, Result, ok,
  throw, fault,
}
use rsb_spread_cpp.Spread.{Env}
use rsb_spread_cpp.Protocol.{Fragment}
use rsb_spread_cpp.OutConnector.{
  Events, Connector, populate, with_part, data_space, substr, cut_one, cut, cut_wire,
}

module _ {Scope Event : Type 0} (env : Env) (events : Events Scope Event) (c : Connector Scope)
    (e : Event) (schema wire : Text) where
  -- The size of the first fragment without its payload.
  abbrev pub first_header : ℕ
  first_header = events.byte_size (populate env events e schema 0)

  abbrev IsProtocolError : Exception → Type 0
  IsProtocolError (protocol_error t) = Unit {0}
  IsProtocolError _ = ⊥

  -- How the loop ends if the first fragment has no space.
  abbrev pub Rejects : Result (List Fragment) → Type 0
  Rejects (ok fs) = ⊥
  Rejects (throw x) =
      IsProtocolError x
      × ((env.ndebug ≡ true) ⊎ (first_header + c.min_data_space ≡ c.max_fragment_size))
  Rejects (fault x) =
      (env.ndebug ≡ false)
      × (x ≡ assertion_failed)
      × (c.max_fragment_size < first_header + c.min_data_space)

  cut_too_big :
      (fuel : ℕ)
      → c.min_data_space ≤ c.max_fragment_size
      → c.max_fragment_size < 2 ^ 32
      → c.max_fragment_size ≤ first_header + c.min_data_space
      → Rejects (cut env events c e schema wire (suc fuel) 0 0)
  unfolding cut cut_one data_space
  cut_too_big fuel fits small big = ground arith

  -- The differences wrap around.
  wrapped_space :
      c.max_fragment_size < c.min_data_space
      → c.min_data_space < 2 ^ 31
      → c.max_fragment_size < first_header
      → first_header < 2 ^ 31
      → data_space env c first_header ≡ ok (c.max_fragment_size + 2 ^ 32 - first_header)
  unfolding data_space
  wrapped_space tiny min header header_small = ground arith

  take_all : (n : ℕ) (t : Text) → length t ≤ n → take n (drop 0 t) ≡ t
  take_all zero [] h = refl
  take_all (suc n) [] h = refl
  take_all zero (x ∷ t) h = absurd (omega arith)
  take_all (suc n) (x ∷ t) h = ap (◌∷◌ x) (take_all n t (omega arith))

  cut_whole :
      (fuel : ℕ)
      → c.max_fragment_size < c.min_data_space
      → c.min_data_space < 2 ^ 31
      → c.max_fragment_size < first_header
      → first_header < 2 ^ 31
      → length wire < 2 ^ 31
      → cut env events c e schema wire (suc (suc fuel)) 0 0
        ≡ ok (with_part env events (populate env events e schema 0) 0 wire ∷ [])
  unfolding cut cut_one substr
  cut_whole fuel tiny min header header_small wire_small =
      rw (wrapped_space tiny min header header_small) (
        rw (take_all (c.max_fragment_size + 2 ^ 32 - first_header) wire (omega arith))
          (ground arith))

-- If the meta data of the first fragment leave no more than the minimal space, no fragment is
-- made. The end is the documented exception in a build without asserts, and where exactly the
-- minimal space is left; in a build with asserts and less space it is the failed assert before the
-- test. This asks that the minimal space is within the maximal size of a fragment, which is below
-- 2^32.
pub cut_wire-Rejects :
    {Scope Event : Type 0} (env : Env) (events : Events Scope Event) (c : Connector Scope)
    (e : Event) (schema wire : Text)
    → c.min_data_space ≤ c.max_fragment_size
    → c.max_fragment_size < 2 ^ 32
    → c.max_fragment_size ≤ first_header env events c e schema wire + c.min_data_space
    → Rejects env events c e schema wire (cut_wire env events c e (schema, wire))
unfolding cut_wire
cut_wire-Rejects env events c e schema wire fits small big =
    let more : length wire + 2 ≡ suc (length wire + 1) = omega arith in
    subst (λ k. Rejects env events c e schema wire (cut env events c e schema wire k 0 0))
      (sym more) (cut_too_big env events c e schema wire (length wire + 1) fits small big)

-- With a limit below the minimal space, and meta data above the limit, the unsigned
-- differences wrap around: the event becomes one fragment with the whole payload, which
-- exceeds the limit however long the payload is. The sizes are below 2^31.
pub cut_wire_wraps :
    {Scope Event : Type 0} (env : Env) (events : Events Scope Event) (c : Connector Scope)
    (e : Event) (schema wire : Text)
    → c.max_fragment_size < c.min_data_space
    → c.min_data_space < 2 ^ 31
    → c.max_fragment_size < first_header env events c e schema wire
    → first_header env events c e schema wire < 2 ^ 31
    → length wire < 2 ^ 31
    → cut_wire env events c e (schema, wire)
      ≡ ok (with_part env events (populate env events e schema 0) 0 wire ∷ [])
unfolding cut_wire
cut_wire_wraps env events c e schema wire tiny min header header_small wire_small =
    let more : length wire + 2 ≡ suc (suc (length wire)) = omega arith in
    ap (λ k. cut env events c e schema wire k 0 0) more
    ∙ cut_whole env events c e schema wire (length wire) tiny min header header_small wire_small
