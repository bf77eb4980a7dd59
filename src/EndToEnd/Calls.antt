-- ===== src/EndToEnd/Calls.antt =====
-- The calls that one process has made, handed over to the receiver of another.
use rsb_spread_cpp.Base.{
  ℕ, zero, suc, ◌+◌, ◌-◌, ◌≡◌, refl, sym, ap, ◌∙◌, subst, false, Option, none, some, List, [], ◌∷◌,
  ◌++◌, map, arith, length, All, Text, ok,
}
use rsb_spread_cpp.Spread.{Call, History, Received, Env}
use rsb_spread_cpp.Protocol.{Fragment}
use rsb_spread_cpp.Message.{Message, set_data}
use rsb_spread_cpp.GroupNameCache.{Naming}
use rsb_spread_cpp.Connection.{Link, log_call}
use rsb_spread_cpp.Connection.Sending.{transmission, Called}
use rsb_spread_cpp.Connection.Delivery.{Delivers}
use rsb_spread_cpp.Receiver.{Handler}
use rsb_spread_cpp.Bus.{numbered}
use rsb_spread_cpp.Bus.Outbound.{
  Sent, none_left, one_sent, Stopped, not_written, not_sent, stopped_later,
}
use rsb_spread_cpp.Pool.Isolation.{Arrivals}
use rsb_spread_cpp.EndToEnd.Rounds.{Arrives}
use mathlib.Core.List.{append-nil}

-- The latest of so many calls, in the order in which they were made, before those that are known.
abbrev since : ℕ → History → List Call → List Call
since zero h cs = cs
since (suc n) [] cs = cs
since (suc n) (c ∷ h) cs = since n h (c ∷ cs)

-- The calls that were made between two states of a connection.
abbrev pub made : Link → Link → List Call
made l k = since (length k.history - length l.history) k.history []

-- A history after further calls.
abbrev pub onto : List Call → History → History
onto [] h = h
onto (c ∷ cs) h = onto cs (c ∷ h)

pub onto-append : (cs ds : List Call) (h : History) → onto ds (onto cs h) ≡ onto (cs ++ ds) h
onto-append [] ds h = refl
onto-append (c ∷ cs) ds h = onto-append cs ds (c ∷ h)

since-onto :
    (cs : List Call) (n : ℕ) (h : History) (ds : List Call)
    → since (length cs + n) (onto cs h) ds ≡ since n h (cs ++ ds)
since-onto [] n h ds = ap (λ k. since k h ds) (omega arith)
since-onto (c ∷ cs) n h ds =
    let e : suc (length cs) + n ≡ length cs + suc n = omega arith in
    ap (λ k. since k (onto cs (c ∷ h)) ds) e ∙ since-onto cs (suc n) (c ∷ h) ds

length-onto : (cs : List Call) (h : History) → length (onto cs h) ≡ length cs + length h
length-onto [] h = omega arith
length-onto (c ∷ cs) h = omega (arith, length-onto cs (c ∷ h))

pub made-onto : (l k : Link) (cs : List Call) → k.history ≡ onto cs l.history → made l k ≡ cs
made-onto l k cs e =
    let n : length (onto cs l.history) - length l.history ≡ length cs + 0 =
      omega (arith, length-onto cs l.history) in
    ap (λ h. since (length h - length l.history) h []) e
    ∙ ap (λ n. since n (onto cs l.history) []) n
    ∙ since-onto cs 0 l.history []
    ∙ append-nil cs

module _ (env : Env) (serialize : Fragment → Option Text) (n : ℕ) (m : Message) where
  -- Each call sends its fragment.
  abbrev pub Carry : List Fragment → List Call → Type 0
  Carry [] [] = Unit {0}
  Carry (f ∷ fs) (c ∷ cs) =
      ((l : Link) × (d : Text) × (serialize (numbered env serialize n f) ≡ some d)
        × (transmission env l (set_data d m) m.groups ≡ some c))
      × Carry fs cs
  Carry _ _ = ⊥

  pub length-Carry : (fs : List Fragment) (cs : List Call) → Carry fs cs → length fs ≡ length cs
  length-Carry [] [] v = refl
  length-Carry [] (c ∷ cs) v = absurd v
  length-Carry (f ∷ fs) [] v = absurd v
  length-Carry (f ∷ fs) (c ∷ cs) v = ap suc (length-Carry fs cs v.1)

  Called-log :
      (l j : Link) (o : Option Call)
      → Called env l o false j
      → (c : Call) × (o ≡ some c) × (j ≡ log_call c l)
  Called-log l j none h = absurd h
  Called-log l j (some c) h = (c, refl, h.1)

  pub Sent-Carry :
      {fs : List Fragment} {l k : Link}
      → Sent env serialize n m fs l k
      → (cs : List Call) × (k.history ≡ onto cs l.history) × Carry fs cs
  Sent-Carry none_left = ([], refl, tt)
  Sent-Carry (one_sent {f} {fs} {l} {j} {k} {d} e called rest) =
      let (c, t, step) = Called-log l j _ called in
      let (cs, h, v) = Sent-Carry rest in
      (c ∷ cs, h ∙ ap (λ (x : Link). onto cs x.history) step, ((l, d, e, t), v))

  pub not_Stopped : {fs : List Fragment} {l k : Link} → Stopped env serialize n m (ok tt) fs l k → ⊥
  not_Stopped (not_written e h) = absurd (cc)
  not_Stopped (not_sent e h returned) = returned tt
  not_Stopped (stopped_later e called rest) = not_Stopped rest

module _ {Scope H : Type 0} (env : Env) (naming : Naming Scope) (parse : Text → Option Fragment)
    (serialize : Fragment → Text) (handler : Handler Scope H) where
  abbrev pub written : Fragment → Option Text
  written f = some (serialize f)

  -- The daemon hands these calls over, one at each call of `SP_receive` from here on.
  abbrev pub Handed : List Call → Link → Type 0
  Handed [] l = Unit {0}
  Handed (c ∷ cs) l =
      Delivers env (some c) (env.sp_receive l.history l.mailbox)
      × Handed cs (log_call (Call.receive l.mailbox) l)

  -- The fragments at these times.
  abbrev pub arrivals : List ℕ → List Fragment → Arrivals
  arrivals [] fs = []
  arrivals (t ∷ ts) [] = []
  arrivals (t ∷ ts) (f ∷ fs) = (t, f) ∷ arrivals ts fs

  module _ (n : ℕ) (m : Message) (sender : Link) where
    -- Whose session it was does not show.
    Delivers-anyone :
        (l : Link) (x : Message) (gs : List Text) (r : Received)
        → Delivers env (transmission env l x gs) r
        → Delivers env (transmission env sender x gs) r
    Delivers-anyone l x [] r d = d
    Delivers-anyone l x (g ∷ []) r d = d
    Delivers-anyone l x (g ∷ h ∷ gs) r d = d

    pub Carry-Arrives :
        (ts : List ℕ) (fs : List Fragment) (cs : List Call) (l : Link)
        → Carry env written n m fs cs
        → Handed cs l
        → Arrives env naming parse serialize handler m sender
            (arrivals ts (map (numbered env written n) fs))
            l
    Carry-Arrives [] fs cs l v h = tt
    Carry-Arrives (t ∷ ts) [] cs l v h = tt
    Carry-Arrives (t ∷ ts) (f ∷ fs) [] l v h = absurd v
    Carry-Arrives (t ∷ ts) (f ∷ fs) (c ∷ cs) l ((j, d, e, sent), v) (h, hs) =
        let g = numbered env written n f in
        let same : serialize g ≡ d = ground (arith, e) in
        let call = ap (λ t. transmission env j (set_data t m) m.groups) same ∙ sent in
        (
          Delivers-anyone j (set_data (serialize g) m) m.groups _
              (subst (λ o. Delivers env o (env.sp_receive l.history l.mailbox)) (sym call) h),
          Carry-Arrives ts fs cs _ v hs,
        )

  pub fragments-arrivals :
      (ts : List ℕ) (fs : List Fragment)
      → length ts ≡ length fs
      → map (λ a. a.1) (arrivals ts fs) ≡ fs
  fragments-arrivals [] [] e = refl
  fragments-arrivals [] (f ∷ fs) e = absurd (omega (arith, e))
  fragments-arrivals (t ∷ ts) [] e = absurd (omega (arith, e))
  fragments-arrivals (t ∷ ts) (f ∷ fs) e = ap (◌∷◌ f) (fragments-arrivals ts fs (omega (arith, e)))

  pub times-arrivals :
      (ts : List ℕ) (fs : List Fragment)
      → length ts ≡ length fs
      → map (λ a. a.0) (arrivals ts fs) ≡ ts
  times-arrivals [] [] e = refl
  times-arrivals [] (f ∷ fs) e = absurd (omega (arith, e))
  times-arrivals (t ∷ ts) [] e = absurd (omega (arith, e))
  times-arrivals (t ∷ ts) (f ∷ fs) e = ap (◌∷◌ t) (times-arrivals ts fs (omega (arith, e)))

  pub arrivals-All :
      (P : Fragment → Type 0) (ts : List ℕ) (fs : List Fragment)
      → All P fs
      → All (λ a. P a.1) (arrivals ts fs)
  arrivals-All P [] fs h = tt
  arrivals-All P (t ∷ ts) [] h = tt
  arrivals-All P (t ∷ ts) (f ∷ fs) h = (h.0, arrivals-All P ts fs h.1)
