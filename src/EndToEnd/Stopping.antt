-- ===== src/EndToEnd/Stopping.antt =====
-- What a receiver makes of an event whose sending ended early.
use rsb_spread_cpp.Base.{
  ℕ, ◌<◌, ◌^◌, ◌≡◌, refl, sym, ap, ◌∙◌, subst, none, some, Option, List, [], ◌∷◌, ◌++◌, map, arith,
  length, length-append, length-map, All, Text, Text_discrete, lookup, Result, ok,
}
use rsb_spread_cpp.Spread.{Env}
use rsb_spread_cpp.Protocol.{Fragment}
use rsb_spread_cpp.GroupNameCache.{Naming}
use rsb_spread_cpp.Pool.{Pool, key_of}
use rsb_spread_cpp.Pool.Isolation.{Arrivals, of_key}
use rsb_spread_cpp.Pool.Reassembly.{fragments}
use rsb_spread_cpp.Deserializing.Reception.{receptions}
use rsb_spread_cpp.OutConnector.{Events, Connector, cut_wire}
use rsb_spread_cpp.OutConnector.Cutting.{Fits}
use rsb_spread_cpp.Message.{Message}
use rsb_spread_cpp.Connection.{Link}
use rsb_spread_cpp.Bus.{numbered}
use rsb_spread_cpp.Bus.Outbound.{Stopped, not_written, not_sent, stopped_later}
use rsb_spread_cpp.EndToEnd.Processes.{Permᴰ-refl}
use mathlib.Core.List.{Permᴰ, append_assoc, map-append}
use rsb_spread_cpp.EndToEnd.Losing.{Silent, receptions-Silent}
use rsb_spread_cpp.Spread.{Call, History, Env}
use rsb_spread_cpp.Message.{set_data}
use rsb_spread_cpp.Connection.Sending.{Called, Sends, answer, send-Sends}
use rsb_spread_cpp.Bus.{send_fragments}
use rsb_spread_cpp.Bus.Outbound.{SentAll, IsReturn, send_fragments-SentAll}
use rsb_spread_cpp.EndToEnd.Calls.{Carry, made, made-onto, onto, length-Carry}
use rsb_spread_cpp.Base.{
  inl, inr, true, false, none, Bool, if◌then◌else◌, is_negative, ◌≤◌, throw, fault, take, ◌+◌,
}

Permᴰ-append :
    {xs ys : List Fragment} → Permᴰ xs ys → (zs : List Fragment) → Permᴰ (xs ++ zs) (ys ++ zs)
Permᴰ-append Permᴰ.nil zs = Permᴰ-refl zs
Permᴰ-append (Permᴰ.cons e d) zs = Permᴰ.cons e (Permᴰ-append d zs)
Permᴰ-append (Permᴰ.swap e d) zs = Permᴰ.trans (Permᴰ.swap e d) (Permᴰ-refl _)
Permᴰ-append (Permᴰ.trans d e) zs = Permᴰ.trans (Permᴰ-append d zs) (Permᴰ-append e zs)

-- Writes the fragments that can be written.
abbrev pub write_if : (Fragment → Bool) → (Fragment → Text) → Fragment → Option Text
write_if can_write serialize f = if can_write f then some (serialize f) else none

-- The calls that were not answered by a negative number.
abbrev pub accepted : Env → History → List Call → List Call
accepted env h [] = []
accepted env h (c ∷ cs) =
    let rest = accepted env (c ∷ h) cs in if is_negative (answer env h c) then rest else c ∷ rest

module _ (env : Env) (write : Fragment → Option Text) (n : ℕ) (m : Message) where
  -- At most one call was made, and refused.
  abbrev Refused : Link → Link → Type 0
  Refused l j =
      (failed : List Call) × (j.history ≡ onto failed l.history)
      × (accepted env l.history failed ≡ [])
      × (length failed ≤ 1)

  Called-Refused : (l j : Link) (o : Option Call) → Called env l o true j → Refused l j
  Called-Refused l j none h = absurd h
  Called-Refused l j (some c) h =
      (c ∷ [], ap (λ (x : Link). x.history) h.1, ground (arith, h.0), omega arith)

  unmade-Refused : (l j : Link) → j ≡ l → Refused l j
  unmade-Refused l j same = ([], ap (λ (x : Link). x.history) same, refl, omega arith)

  Sends-Refused :
      (l j : Link) (x : Message) (gs : List Text) (r : Result (Unit {0}))
      → ¬ IsReturn env write n r
      → Sends env l x gs (r, j)
      → Refused l j
  Sends-Refused l j x gs (ok tt) other h = absurd (other tt)
  Sends-Refused l j x gs (throw e) other (inl h) = unmade-Refused l j h.2
  Sends-Refused l j x gs (throw e) other (inr (inl h)) = unmade-Refused l j h.4
  Sends-Refused l j x gs (throw e) other (inr (inr h)) = Called-Refused l j _ h.4
  Sends-Refused l j x gs (fault y) other h = unmade-Refused l j h.1

  -- What was sent, and what was not.
  abbrev Split : List Fragment → Link → Link → Type 0
  Split fs l k =
      (before : List Fragment) × (after : List Fragment) × (cs : List Call) × (failed : List Call)
      × (fs ≡ before ++ after)
      × (0 < length after)
      × (k.history ≡ onto (cs ++ failed) l.history)
      × Carry env write n m before cs
      × (accepted env l.history (cs ++ failed) ≡ cs)
      × (length failed ≤ 1)

  logged :
      (l j : Link) (o : Option Call)
      → Called env l o false j
      → (c : Call) × (o ≡ some c)
        × (j.history ≡ c ∷ l.history)
        × (is_negative (answer env l.history c) ≡ false)
  logged l j none h = absurd h
  logged l j (some c) h = (c, refl, ap (λ (x : Link). x.history) h.1, h.0)

  Stopped-Split :
      (r : Result (Unit {0})) {fs : List Fragment} {l k : Link}
      → Stopped env write n m r fs l k
      → Split fs l k
  Stopped-Split r (not_written {f} {fs} unwritten same) =
      ([], f ∷ fs, [], [], refl, omega arith, refl, tt, refl, omega arith)
  Stopped-Split r (not_sent {f} {fs} {l} {j} {d} written same other) =
      let (failed, h, refused, few) =
        Sends-Refused l j (set_data d m) m.groups r other
          (subst (Sends env l (set_data d m) m.groups) same (send-Sends env l (set_data d m))) in
      ([], f ∷ fs, [], failed, refl, omega arith, h, tt, refused, few)
  Stopped-Split r (stopped_later {f} {fs} {l} {j} {k} {d} written called rest) =
      let (c, sent, step, good) = logged l j _ called in
      let (before, after, cs, failed, all, some_left, h, v, kept, few) = Stopped-Split r rest in
      (
        f ∷ before,
        after,
        c ∷ cs,
        failed,
        ap (◌∷◌ f) all,
        some_left,
        h ∙ ap (onto (cs ++ failed)) step,
        ((l, d, written, sent), v),
        ground (arith, good, subst (λ h. accepted env h (cs ++ failed) ≡ cs) step kept),
        few,
      )

  SentAll-Split :
      (fs : List Fragment) (l : Link) (r : Result (Unit {0}) × Link)
      → SentAll env write n m fs l r
      → ¬ IsReturn env write n r.0
      → Split fs l r.1
  SentAll-Split fs l (ok tt, k) h other = absurd (other tt)
  SentAll-Split fs l (throw e, k) h other = Stopped-Split (throw e) h
  SentAll-Split fs l (fault x, k) h other = Stopped-Split (fault x) h

take-append : {A : Type 0} (xs ys : List A) → take (length xs) (xs ++ ys) ≡ xs
take-append [] ys = take_none ys
  where
    take_none : {A : Type 0} (ys : List A) → take 0 ys ≡ []
    take_none [] = refl
    take_none (y ∷ ys) = refl
take-append (x ∷ xs) ys = ap (◌∷◌ x) (take-append xs ys)

-- What the daemon took of the fragments between two states of the connection: the first ones, each in
-- one call, and at most one call more, which it refused.
abbrev pub Stops : Env → (Fragment → Option Text) → Message → List Fragment → Link → Link → Type 0
Stops env write m fs l k =
    let sent = accepted env l.history (made l k) in
    (length sent < length fs)
    × Carry env write (length fs) m (take (length sent) fs) sent
    × (length (made l k) ≤ length sent + 1)

-- An event whose sending ends early is never handed on. Let the bus send the fragments of an event,
-- and not return, since a fragment cannot be written or its sending throws or ends in a fault. Then the
-- calls that were not refused sent the first fragments, fewer than all, one in each call; and at most
-- one call more was made, which was refused. Let any of these fragments reach a receiver, in any order
-- and among others: nothing is handed on there for them and nothing is thrown. This asks that the meta
-- data leave more than the minimal space in every fragment and no size wraps around, that there are
-- fewer than 2^32 fragments, that all have the same key, that what is written of a fragment is read
-- back, and that the receiver's pool holds nothing under the key.
pub send_fragments-Silent :
    {Scope Event : Type 0} (env : Env) (events : Events Scope Event) (naming : Naming Scope)
    (can_write : Fragment → Bool) (serialize : Fragment → Text) (parse : Text → Option Fragment)
    (c : Connector Scope) (e : Event) (schema wire : Text) (fs : List Fragment) (groups : List Text)
    (key : Text) (es : Arrivals) (p : Pool) (m : Message) (l : Link) (lost : List Fragment)
    → (round_trip : (f : Fragment) → parse (serialize f) ≡ some f) → Fits env events c e schema wire
    → cut_wire env events c e (schema, wire) ≡ ok fs
    → length fs < 2 ^ 32
    → let write = write_if can_write serialize in
      let number : Fragment → Fragment = numbered env write (length fs) in
      let r = send_fragments env write (length fs) m fs l in
      ¬ IsReturn env write (length fs) r.0
      → All (λ f. key_of f ≡ key) (map number fs)
      → lookup Text_discrete key p.assemblies ≡ none
      → Permᴰ
          (take (length (accepted env l.history (made l r.1))) (map number fs))
          (fragments (of_key key es) ++ lost)
      → Stops env write m fs l r.1
        × Silent env naming parse serialize (receptions env naming parse serialize groups key es p)
send_fragments-Silent env events naming can_write serialize parse c e schema wire fs groups key es p
      m l lost round_trip fits cut small ended keys free arrived =
    let write = write_if can_write serialize in
    let n = length fs in
    let number = numbered env write n in
    let r = send_fragments env write n m fs l in
    let (before, after, cs, failed, all, some_left, h, v, kept, few) =
      SentAll-Split env write n m fs l r (send_fragments-SentAll env write n m fs l) ended in
    let calls = made-onto l r.1 (cs ++ failed) h in
    let sent : accepted env l.history (made l r.1) ≡ cs =
      ap (accepted env l.history) calls ∙ kept in
    let count = length-Carry env write n m before cs v in
    let total = ap length all ∙ length-append before after in
    let size : length (accepted env l.history (made l r.1)) ≡ length before =
      ap length sent ∙ sym count in
    let firsts : take (length (accepted env l.history (made l r.1))) fs ≡ before =
      ap (λ k. take k fs) size ∙ ap (take (length before)) all ∙ take-append before after in
    let numbers : map number fs ≡ map number before ++ map number after =
      ap (map number) all ∙ map-append number before after in
    let taken : take (length (accepted env l.history (made l r.1))) (map number fs)
        ≡ map number before =
      ap (λ k. take k (map number fs)) (size ∙ sym (length-map number before))
      ∙ ap (take (length (map number before))) numbers
      ∙ take-append (map number before) (map number after) in
    let came = fragments (of_key key es) in
    let rest = map number after in
    (
      (
        omega (arith, size, total, some_left),
        subst (λ gs. Carry env write n m gs (accepted env l.history (made l r.1))) (sym firsts)
            (subst (Carry env write n m before) (sym sent) v),
        omega (arith, ap length calls, length-append cs failed, size, count, few),
      ),
      receptions-Silent env events naming serialize parse c e schema wire fs groups key es
          (lost ++ rest) p round_trip fits cut small keys free
          (subst (Permᴰ (map number fs)) (append_assoc came lost rest) (
            subst (λ gs. Permᴰ gs ((came ++ lost) ++ rest)) (sym numbers)
              (Permᴰ-append (subst (λ gs. Permᴰ gs (came ++ lost)) taken arrived) rest)))
          (omega (arith, some_left, length-append lost rest, length-map number after)),
    )
