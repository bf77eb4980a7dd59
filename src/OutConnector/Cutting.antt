-- ===== src/OutConnector/Cutting.antt =====
-- The fragments that an event is cut into, where the sizes fit.
use rsb_spread_cpp.Base.{
  ℕ, zero, suc, ◌+◌, ◌-◌, ◌^◌, ◌≤◌, ◌<◌, ◌≡◌, refl, sym, ap, ap₂, ◌∙◌, subst, inl, inr, ◌||◌, List,
  [], ◌∷◌, ◌++◌, map, arith, ltb, ◌==◌, Bool-cases, length, take, drop, length-take,
  take-append-drop, drop_of_length-le, drop-drop, Text, Result, ok, throw, fault, and_then,
}
use rsb_spread_cpp.Spread.{Env}
use rsb_spread_cpp.Protocol.{Fragment}
use rsb_spread_cpp.Assembly.Payload.{concat}
use rsb_spread_cpp.OutConnector.{
  Events, Connector, populate, with_part, data_space, substr, cut_one, cons_cut, cut, cut_wire,
  uint_add,
}

unfoldable pub payloads : List Fragment → List Text
payloads = map (λ f. f.payload)

module _ {Scope Event : Type 0} (env : Env) (events : Events Scope Event) (c : Connector Scope)
    (e : Event) (schema wire : Text) where
  -- The size of a fragment without its payload, and the space that this leaves.
  abbrev pub header : ℕ → ℕ
  header i = events.byte_size (populate env events e schema i)

  abbrev pub room : ℕ → ℕ
  room i = c.max_fragment_size - header i

  -- The meta data leave more than the minimal space in every fragment, and no size wraps around.
  pub record Fits : Type 0 where
    pub headers : (i : ℕ) → header i + c.min_data_space < c.max_fragment_size
    pub small : length wire + c.max_fragment_size < 2 ^ 32

  -- These are the fragments from number `i` on, for the wire from the offset on.
  abbrev pub Cuts : ℕ → ℕ → List Fragment → Type 0
  Cuts i offset [] = length wire ≤ offset
  Cuts i offset (f ∷ fs) =
      (f
        ≡ with_part env events (populate env events e schema i) i
            (take (room i) (drop offset wire)))
      × Cuts (i + 1) (offset + room i) fs

  abbrev pub AreCut : ℕ → ℕ → Result (List Fragment) → Type 0
  AreCut i offset (ok fs) = Cuts i offset fs
  AreCut i offset (throw x) = ⊥
  AreCut i offset (fault x) = ⊥

  module _ (fits : Fits) where
    data_space_fits :
        (h : ℕ)
        → h + c.min_data_space < c.max_fragment_size
        → data_space env c h ≡ ok (c.max_fragment_size - h)
    unfolding data_space
    data_space_fits h fit = ground (arith, fits.small)

    cut_one_fits :
        (i offset : ℕ)
        → offset ≤ length wire
        → cut_one env events c e schema wire i offset
          ≡ ok (
            with_part env events
                (populate env events e schema i)
                i
                (take (room i) (drop offset wire)),
            offset + room i,
          )
    unfolding cut_one substr
    cut_one_fits i offset le =
        ground (arith, data_space_fits (header i) (fits.headers i), fits.small)

    abbrev AreSome : ℕ → ℕ → Result (List Fragment) → Type 0
    AreSome i offset (ok []) = ⊥
    AreSome i offset (ok (f ∷ fs)) = Cuts i offset (f ∷ fs)
    AreSome i offset (throw x) = ⊥
    AreSome i offset (fault x) = ⊥

    AreSome-AreCut :
        (i offset : ℕ) (r : Result (List Fragment)) → AreSome i offset r → AreCut i offset r
    AreSome-AreCut i offset (ok []) h = absurd h
    AreSome-AreCut i offset (ok (f ∷ fs)) h = h
    AreSome-AreCut i offset (throw x) h = h
    AreSome-AreCut i offset (fault x) h = h

    consed :
        (i offset : ℕ) (r : Result (List Fragment))
        → AreCut (i + 1) (offset + room i) r
        → AreSome i offset (
            and_then r (λ fs. ok (
              with_part env events
                (populate env events e schema i)
                i
                (take (room i) (drop offset wire))
              ∷ fs)))
    consed i offset (ok fs) k = (refl, k)
    consed i offset (throw x) k = k
    consed i offset (fault x) k = k

    cons_cut-AreSome :
        (i offset i' offset' : ℕ) (rest : ℕ → Result (List Fragment))
        → offset ≤ length wire
        → i' ≡ i + 1
        → offset' ≡ offset + room i
        → AreCut i' offset' (rest offset')
        → AreSome i offset
            (cons_cut env events c e schema wire (cut_one env events c e schema wire i offset) rest)
    cons_cut-AreSome i offset i' offset' rest le next_i next h =
        let h1 : AreCut (i + 1) offset' (rest offset') =
          subst (λ k. AreCut k offset' (rest offset')) next_i h in
        let h2 : AreCut (i + 1) (offset + room i) (rest (offset + room i)) =
          subst (λ k. AreCut (i + 1) k (rest k)) next h1 in
        rw (cut_one_fits i offset le) (consed i offset (rest (offset + room i)) h2)

    cut-AreCut :
        (fuel i offset : ℕ)
        → 1 ≤ i
        → length wire - offset < fuel
        → i + (length wire - offset) < 2 ^ 32
        → AreCut i offset (cut env events c e schema wire fuel i offset)
    unfolding cut
    cut-AreCut zero i offset later enough few = absurd (omega arith)
    cut-AreCut (suc fuel) i offset later enough few =
        elim (Bool-cases (i == 0 || ltb offset (length wire))) [
          | inl more ↦ rw more (
              AreSome-AreCut i offset _ (
                cons_cut-AreSome i offset (uint_add i 1) (offset + room i)
                  (λ next. cut env events c e schema wire fuel (uint_add i 1) next) (ground arith)
                  (ground arith) refl
                  (cut-AreCut fuel (uint_add i 1) (offset + room i) (ground arith)
                    (ground (arith, fits.headers i)) (ground (arith, fits.headers i)))))
          | inr done ↦ rw done (ground arith)
        ]

    cut_wire-AreSome : AreSome 0 0 (cut_wire env events c e (schema, wire))
    unfolding cut_wire cut
    cut_wire-AreSome =
        let one_more : suc (length wire + 1) ≡ length wire + 2 = omega arith in
        subst (λ k. AreSome 0 0 (cut env events c e schema wire k 0 0)) one_more
          (cons_cut-AreSome 0 0 1 (room 0)
            (λ next. cut env events c e schema wire (length wire + 1) 1 next) (omega arith)
            (omega arith) (omega arith)
            (cut-AreCut (length wire + 1) 1 (room 0) (omega arith) (ground (arith, fits.headers 0))
              (ground (arith, fits.headers 0, fits.small))))

    concat-Cuts :
        (fs : List Fragment) (i offset : ℕ)
        → Cuts i offset fs
        → concat (payloads fs) ≡ drop offset wire
    unfolding payloads
    concat-Cuts [] i offset h = sym (drop_of_length-le offset wire h)
    concat-Cuts (f ∷ fs) i offset h =
        ap₂ ◌++◌ (ap (λ (g : Fragment). g.payload) h.0)
          (concat-Cuts fs (i + 1) (offset + room i) h.1)
        ∙ ap (λ t. take (room i) (drop offset wire) ++ t) (sym (drop-drop offset (room i) wire))
        ∙ take-append-drop (room i) (drop offset wire)

    -- The size of the fragment, and its numbers.
    abbrev pub Sized : ℕ → Fragment → Type 0
    Sized i f =
        (f.data_part ≡ i)
        × (f.num_data_parts ≡ 1)
        × (header i + length f.payload ≤ c.max_fragment_size)

    abbrev pub AllSized : ℕ → List Fragment → Type 0
    AllSized i [] = Unit {0}
    AllSized i (f ∷ fs) = Sized i f × AllSized (i + 1) fs

    Cuts-AllSized : (fs : List Fragment) (i offset : ℕ) → Cuts i offset fs → AllSized i fs
    Cuts-AllSized [] i offset h = tt
    Cuts-AllSized (f ∷ fs) i offset h = (
      subst (Sized i) (sym h.0)
          (refl, refl, omega (arith, length-take (room i) (drop offset wire), fits.headers i)),
      Cuts-AllSized fs (i + 1) (offset + room i) h.1,
    )

    -- What the loop makes of an event.
    abbrev pub Delivers : Result (List Fragment) → Type 0
    Delivers (ok fs) = (concat (payloads fs) ≡ wire) × (1 ≤ length fs) × AllSized 0 fs
    Delivers (throw x) = ⊥
    Delivers (fault x) = ⊥

    AreSome-Delivers : (r : Result (List Fragment)) → AreSome 0 0 r → Delivers r
    AreSome-Delivers (ok []) h = absurd h
    AreSome-Delivers (ok (f ∷ fs)) h =
        (concat-Cuts (f ∷ fs) 0 0 h, omega arith, Cuts-AllSized (f ∷ fs) 0 0 h)
    AreSome-Delivers (throw x) h = h
    AreSome-Delivers (fault x) h = h

    -- Where the meta data leave more than the minimal space in every fragment and no size
    -- wraps around, the loop ends, throws nothing, and cuts the payload into at least one
    -- fragment: the payloads of the fragments, one after the other, are the payload, the
    -- fragments are numbered from 0 on, and the size of each without its
    -- payload, plus the length of its payload, is within the limit.
    pub cut_wire-Delivers : Delivers (cut_wire env events c e (schema, wire))
    cut_wire-Delivers = AreSome-Delivers _ cut_wire-AreSome

    pub cut_wire-Cuts :
        (fs : List Fragment) → cut_wire env events c e (schema, wire) ≡ ok fs → Cuts 0 0 fs
    cut_wire-Cuts fs h = AreSome-AreCut 0 0 (ok fs) (subst (AreSome 0 0) h cut_wire-AreSome)

    pub Cuts-concat : (fs : List Fragment) → Cuts 0 0 fs → concat (payloads fs) ≡ wire
    Cuts-concat fs h = concat-Cuts fs 0 0 h
