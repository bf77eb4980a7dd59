-- ===== src/Factory/Sharing.antt =====
-- A bus is shared as long as it lives.
use rsb_spread_cpp.Base.{
  ℕ, zero, suc, ◌<◌, ◌≡◌, refl, sym, ap, ◌∙◌, subst, ◌⊎◌, inl, inr, Option, none, some, List, [],
  ◌∷◌, ◌++◌, arith, length, get_elem?, length-append, lookup, insert, erase, lookup-insert_self,
  lookup-insert_ne, lookup-erase_self, lookup-erase_ne, Result, ok, throw, fault, IsCommError,
}
use rsb_spread_cpp.Spread.{Env}
use rsb_spread_cpp.Connection.{new_connection}
use rsb_spread_cpp.GroupNameCache.{Naming}
use rsb_spread_cpp.Bus.{Dispatching, Bus, new_bus, connection}
use rsb_spread_cpp.Bus
use rsb_spread_cpp.Connection
use rsb_spread_cpp.Factory.{
  HostAndPort, HostAndPort_discrete, Factory, lock, keep_bus, create_bus, obtain_at, obtain_bus,
}

get_elem?-last {ℓ} :
    {A : Type ℓ} (xs : List A) (x : A) → get_elem? (xs ++ x ∷ []) (length xs) ≡ some x
get_elem?-last [] x = refl
get_elem?-last (y ∷ xs) x = get_elem?-last xs x

-- The bus is there, and is for this daemon.
abbrev pub IsFor : {Sinks : Type 0} → HostAndPort → Option (Bus Sinks) → Type 0
IsFor o none = ⊥
IsFor o (some b) = ((connection b).host ≡ o.0) × ((connection b).port ≡ o.1)

-- Every bus that the factory knows was created, and if it lives, it is for the daemon that it is
-- known for.
abbrev pub IsRight : {Sinks : Type 0} → Factory Sinks → Type 0
IsRight f =
    (o : HostAndPort) (i : ℕ)
    → lookup HostAndPort_discrete o f.buses ≡ some i
    → (i < length f.heap) × ((lock f.heap i ≡ none) ⊎ IsFor o (lock f.heap i))

get_elem?-append :
    {A : Type 0} (xs : List A) (x : A) (i : ℕ)
    → i < length xs
    → get_elem? (xs ++ x ∷ []) i ≡ get_elem? xs i
get_elem?-append [] x i h = absurd (omega arith)
get_elem?-append (y ∷ xs) x zero h = refl
get_elem?-append (y ∷ xs) x (suc i) h = get_elem?-append xs x i (omega arith)

module _ {Sinks : Type 0} (heap : List (Option (Bus Sinks))) (b : Option (Bus Sinks)) where
  lock_last : lock (heap ++ b ∷ []) (length heap) ≡ b
  unfolding lock
  lock_last = ap (λ s. elim s [ none ↦ none | some slot ↦ slot ]) (get_elem?-last heap b)

  lock_earlier : (i : ℕ) → i < length heap → lock (heap ++ b ∷ []) i ≡ lock heap i
  unfolding lock
  lock_earlier i h =
      ap (λ s. elim s [ none ↦ none | some slot ↦ slot ]) (get_elem?-append heap b i h)

abbrev pub Obtains : {Sinks : Type 0} → HostAndPort → Result ℕ × Factory Sinks → Type 0
Obtains o (ok i, f) = (lookup HostAndPort_discrete o f.buses ≡ some i) × IsFor o (lock f.heap i)
Obtains o (throw e, f) = IsCommError e
Obtains o (fault x, f) = ⊥

module _ {Scope Sink Sinks : Type 0} (env : Env) (naming : Naming Scope)
    (dispatching : Dispatching Scope Sink Sinks) where
  abbrev pub IsKept : HostAndPort → Result (Unit {0}) × Bus Sinks → Type 0
  IsKept o (ok _, b) = IsFor o (some b)
  IsKept o (throw e, b) = IsCommError e
  IsKept o (fault x, b) = ⊥

  pub activate-IsKept :
      (o : HostAndPort)
      → IsKept o (
          Bus.activate env (
            new_bus env naming dispatching
              (record { connection = new_connection env o.0 o.1; history = [] })))
  unfolding Bus.activate new_bus new_connection Connection.activate
  activate-IsKept o = ground arith

  pub keep_bus-Obtains :
      (o : HostAndPort) (r : Result (Unit {0}) × Bus Sinks) (f : Factory Sinks)
      → IsKept o r
      → Obtains o (keep_bus env naming dispatching o r f)
  keep_bus-Obtains o (ok _, b) f h = (
    lookup-insert_self HostAndPort_discrete o (length f.heap) f.buses,
    subst (IsFor o) (sym (lock_last f.heap (some b))) h,
  )
  keep_bus-Obtains o (throw e, b) f h = h
  keep_bus-Obtains o (fault x, b) f h = h

  -- The bus is there, and whoever asks again gets the same.
  abbrev pub Shares : HostAndPort → Result ℕ × Factory Sinks → Type 0
  Shares o (ok i, f) =
      Obtains o (ok i, f) × IsRight f × (obtain_bus env naming dispatching o f ≡ (ok i, f))
  Shares o (throw e, f) = IsCommError e × IsRight f
  Shares o (fault x, f) = ⊥

  pub again :
      (o : HostAndPort) (i : ℕ) (f : Factory Sinks)
      → Obtains o (ok i, f)
      → obtain_bus env naming dispatching o f ≡ (ok i, f)
  unfolding obtain_bus obtain_at
  again o i f h = ap (λ k. obtain_at env naming dispatching o k f) h.0 ∙ alive (lock f.heap i) h.1
    where
      alive :
          (b : Option (Bus Sinks))
          → IsFor o b
          → elim b [
            | none ↦
                create_bus env naming dispatching o
                  (record f { buses = erase HostAndPort_discrete o f.buses })
            | some c ↦ (ok i, f)
          ]
            ≡ (ok i, f)
      alive none g = absurd g
      alive (some c) g = refl

  pub kept-IsRight :
      (o : HostAndPort) (b : Bus Sinks) (f : Factory Sinks)
      → IsFor o (some b)
      → IsRight f
      → IsRight (record f {
        buses = insert HostAndPort_discrete o (length f.heap) f.buses;
        heap = f.heap ++ some b ∷ [];
        ended = f.ended;
      })
  kept-IsRight o b f h right o' i e =
      let longer = length-append f.heap (some b ∷ []) in
      elim (HostAndPort_discrete o' o) [
        | yes same ↦
            let new : some (length f.heap) ≡ some i =
              sym (lookup-insert_self HostAndPort_discrete o (length f.heap) f.buses)
              ∙ ap
                  (λ k.
                    lookup HostAndPort_discrete k
                      (insert HostAndPort_discrete o (length f.heap) f.buses))
                  (sym same)
              ∙ e in
            let number : length f.heap ≡ i = cc in
            (
              omega (arith, number, longer),
              inr (
                  subst (λ k. IsFor k (lock (f.heap ++ some b ∷ []) i)) (sym same)
                    (subst (λ k. IsFor o (lock (f.heap ++ some b ∷ []) k)) number
                      (subst (IsFor o) (sym (lock_last f.heap (some b))) h))),
            )
        | no other ↦
            let old = right o' i (
              sym (lookup-insert_ne HostAndPort_discrete o' o (length f.heap) f.buses other) ∙ e) in
            (
              omega (arith, old.0, longer),
              subst (λ s. (s ≡ none) ⊎ IsFor o' s) (sym (lock_earlier f.heap (some b) i old.0))
                  old.1,
            )
      ]

  pub erase-IsRight :
      (o : HostAndPort) (f : Factory Sinks)
      → IsRight f
      → IsRight (record f { buses = erase HostAndPort_discrete o f.buses })
  erase-IsRight o f right o' i e = elim (HostAndPort_discrete o' o) [
    | yes same ↦
        let gone : lookup HostAndPort_discrete o' (erase HostAndPort_discrete o f.buses) ≡ none =
          ap (λ k. lookup HostAndPort_discrete k (erase HostAndPort_discrete o f.buses)) same
          ∙ lookup-erase_self HostAndPort_discrete o f.buses in
        absurd (cc)
    | no other ↦ right o' i (sym (lookup-erase_ne HostAndPort_discrete o' o f.buses other) ∙ e)
  ]

  keep_bus-Shares :
      (o : HostAndPort) (r : Result (Unit {0}) × Bus Sinks) (f : Factory Sinks)
      → IsKept o r
      → IsRight f
      → Shares o (keep_bus env naming dispatching o r f)
  keep_bus-Shares o (ok _, b) f h right =
      let obtained = keep_bus-Obtains o (ok tt, b) f h in
      (obtained, kept-IsRight o b f h right, again o _ _ obtained)
  keep_bus-Shares o (throw e, b) f h right = (h, right)
  keep_bus-Shares o (fault x, b) f h right = h

  obtain_at-Shares :
      (o : HostAndPort) (f : Factory Sinks) (k : Option ℕ)
      → lookup HostAndPort_discrete o f.buses ≡ k
      → IsRight f
      → Shares o (obtain_at env naming dispatching o k f)
  unfolding obtain_at create_bus
  obtain_at-Shares o f none e right = keep_bus-Shares o _ f (activate-IsKept o) right
  obtain_at-Shares o f (some i) e right = alive (lock f.heap i) refl
    where
      alive :
          (b : Option (Bus Sinks))
          → lock f.heap i ≡ b
          → Shares o (elim b [
            | none ↦
                create_bus env naming dispatching o
                  (record f { buses = erase HostAndPort_discrete o f.buses })
            | some c ↦ (ok i, f)
          ])
      alive none h = keep_bus-Shares o _ _ (activate-IsKept o) (erase-IsRight o f right)
      alive (some c) h =
          let good : IsFor o (lock f.heap i) = elim (right o i e).1 [
            | inl dead ↦ absurd (cc)
            | inr good ↦ good
          ] in
          ((e, good), right, again o i f (e, good))

-- Where the factory's pointers are right, obtaining a bus gives one that lives and is for the
-- daemon that was asked for, and asking again at once gives the same; or it throws
-- `CommException`. The pointers are right afterwards in both cases.
pub obtain_bus-Shares :
    {Scope Sink Sinks : Type 0} (env : Env) (naming : Naming Scope)
    (dispatching : Dispatching Scope Sink Sinks) (o : HostAndPort) (f : Factory Sinks)
    → IsRight f
    → Shares env naming dispatching o (obtain_bus env naming dispatching o f)
unfolding obtain_bus
obtain_bus-Shares env naming dispatching o f right =
    obtain_at-Shares env naming dispatching o f (lookup HostAndPort_discrete o f.buses) refl right
