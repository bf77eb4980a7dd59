-- ===== src/EndToEnd/Traffic.antt =====
-- A receiver that gets the messages of several events, one among the other.
use rsb_spread_cpp.Base.{
  ◌>>◌, ℕ, zero, suc, ◌≡◌, ◌≢◌, refl, sym, ap, ◌∙◌, subst, ite, if_pos, if_neg, true, false, ◌==◌,
  if◌then◌else◌, Bool, Option, none, some, List, [], ◌∷◌, map, arith, length, All, All-map, Text,
  Text_discrete, Result, ok, Action, pure, >>=-ok,
}
use rsb_spread_cpp.Spread.{Call, Env}
use rsb_spread_cpp.Protocol.{Fragment}
use rsb_spread_cpp.Message.{Message, set_data}
use rsb_spread_cpp.Message.Groups.{IsSorted}
use rsb_spread_cpp.Notifications.{Transported}
use rsb_spread_cpp.GroupNameCache.{Naming}
use rsb_spread_cpp.Connection.{Link, log_call}
use rsb_spread_cpp.Connection.Sending.{transmission}
use rsb_spread_cpp.Connection.Delivery.{Whole, Delivers}
use rsb_spread_cpp.Pool.{Pool, key_of}
use rsb_spread_cpp.Pool.Isolation.{Arrivals}
use rsb_spread_cpp.Deserializing.{handle_message}
use rsb_spread_cpp.Deserializing.Reception.{receptions, received_last, message_of}
use rsb_spread_cpp.Receiver.{Handler, Receiver, execute}
use rsb_spread_cpp.EndToEnd.Rounds.{rounds, execute_complete, execute_incomplete}
use rsb_spread_cpp.EndToEnd.Calls.{Handed}

-- A fragment, and what the whole event that it belongs to is handed on as.
abbrev pub Tagged : Type 0 → Type 0
Tagged Scope = Fragment × Transported Scope

module _ {Scope : Type 0} where
  -- Those of one key.
  abbrev pub with_key : Text → List (Tagged Scope) → List (Tagged Scope)
  with_key key [] = []
  with_key key (f ∷ fs) =
      ite (Text_discrete (key_of f.0) key) (f ∷ with_key key fs) (with_key key fs)

  -- The events in the order in which their last fragments come.
  abbrev pub completions : List (Tagged Scope) → List (Transported Scope)
  completions [] = []
  completions (f ∷ fs) =
      if length (with_key (key_of f.0) fs) == 0 then f.1 ∷ completions fs else completions fs

  -- Fragments with the times at which they come.
  abbrev pub untagged : List (ℕ × Tagged Scope) → Arrivals
  untagged = map (λ a. (a.0, a.1.0))

  abbrev pub tags : List (ℕ × Tagged Scope) → List (Tagged Scope)
  tags = map (λ a. a.1)

-- A call sends this fragment, and not to the private group `own` alone.
abbrev pub Brings : Env → (Fragment → Text) → Text → Call → Fragment → Type 0
Brings env serialize own call f =
    (m : Message) × (j : Link) × IsSorted m.groups
    × Whole env m.groups
    × (m.groups ≢ own ∷ [])
    × (transmission env j (set_data (serialize f) m) m.groups ≡ some call)

abbrev pub AllBring :
    {Scope : Type 0} → Env → (Fragment → Text) → Text → List Call → List (Tagged Scope) → Type 0
AllBring env serialize own [] [] = Unit {0}
AllBring env serialize own (c ∷ cs) (f ∷ fs) =
    Brings env serialize own c f.0 × AllBring env serialize own cs fs
AllBring env serialize own _ _ = ⊥

module _ {Scope H : Type 0} (handler : Handler Scope H) where
  -- Calls of the handler, one after the other.
  abbrev pub tell : List (Transported Scope) → Action H (Unit {0})
  tell [] = pure tt
  tell (n ∷ ns) = handler.handle_incoming n >> tell ns

-- The session after so many calls of `SP_receive`.
abbrev pub polled : ℕ → Link → Link
polled zero l = l
polled (suc n) l = polled n (log_call (Call.receive l.mailbox) l)

module _ {Scope H : Type 0} (env : Env) (naming : Naming Scope) (parse : Text → Option Fragment)
    (serialize : Fragment → Text) (handler : Handler Scope H) where
  -- What the pool and its handler make of the fragments of a key among these.
  abbrev pub received_of :
      Text → List (ℕ × Tagged Scope) → Pool → List (Result (Option (Transported Scope)))
  received_of key es p = receptions env naming parse serialize [] key (untagged es) p

  -- The last one completes the event.
  abbrev pub Answered : List (ℕ × Tagged Scope) → Pool → Text → Transported Scope → Type 0
  Answered es p key n =
      received_of key es p
      ≡ received_last env naming parse serialize (ok (some n)) (length (with_key key (tags es)))

  abbrev pub AllAnswered : List (ℕ × Tagged Scope) → Pool → List (ℕ × Tagged Scope) → Type 0
  AllAnswered es p = All (λ a. Answered es p (key_of a.1.0) a.1.1)

  cons_last :
      (r x : Result (Option (Transported Scope))) (rs : List (Result (Option (Transported Scope))))
      (m : ℕ)
      → r ∷ rs ≡ received_last env naming parse serialize x (suc m)
      → (r ≡ (if m == 0 then x else ok none)) × (rs ≡ received_last env naming parse serialize x m)
  cons_last r x rs zero e = ground arith
  cons_last r x rs (suc m) e = ground arith

  module _ (now : ℕ) (f : Tagged Scope) (es : List (ℕ × Tagged Scope)) (p : Pool) where
    -- What becomes of the message.
    abbrev handled : Result (Option (Transported Scope)) × Pool
    handled = handle_message env naming parse now (message_of env naming parse serialize [] f.0) p

    received_hit :
        (key : Text)
        → key_of f.0 ≡ key
        → received_of key ((now, f) ∷ es) p ≡ handled.0 ∷ received_of key es handled.1
    unfolding receptions
    received_hit key e = if_pos (Text_discrete (key_of f.0) key) e _ _

    received_miss :
        (key : Text)
        → key_of f.0 ≢ key
        → received_of key ((now, f) ∷ es) p ≡ received_of key es handled.1
    unfolding receptions
    received_miss key ne = if_neg (Text_discrete (key_of f.0) key) ne _ _

    with_key_hit :
        (key : Text)
        → key_of f.0 ≡ key
        → with_key key (tags ((now, f) ∷ es)) ≡ f ∷ with_key key (tags es)
    with_key_hit key e = if_pos (Text_discrete (key_of f.0) key) e _ _

    with_key_miss :
        (key : Text)
        → key_of f.0 ≢ key
        → with_key key (tags ((now, f) ∷ es)) ≡ with_key key (tags es)
    with_key_miss key ne = if_neg (Text_discrete (key_of f.0) key) ne _ _

    Answered-first :
        (key : Text) (n : Transported Scope)
        → key_of f.0 ≡ key
        → Answered ((now, f) ∷ es) p key n
        → (handled.0 ≡ (if length (with_key key (tags es)) == 0 then ok (some n) else ok none))
          × Answered es handled.1 key n
    Answered-first key n e h =
        cons_last handled.0 (ok (some n)) (received_of key es handled.1)
          (length (with_key key (tags es)))
          (sym (received_hit key e)
            ∙ h
            ∙ ap (λ fs. received_last env naming parse serialize (ok (some n)) (length fs))
                (with_key_hit key e))

    Answered-step :
        (key : Text) (n : Transported Scope)
        → Answered ((now, f) ∷ es) p key n
        → Answered es handled.1 key n
    Answered-step key n h = elim (Text_discrete (key_of f.0) key) [
      | yes e ↦ (Answered-first key n e h).1
      | no ne ↦
          sym (received_miss key ne)
          ∙ h
          ∙ ap (λ fs. received_last env naming parse serialize (ok (some n)) (length fs))
              (with_key_miss key ne)
    ]

  -- Rounds that get such messages call the handler for each event once, in the order in which the
  -- last fragments come.
  abbrev pub Tells :
      ℕ → List (Transported Scope) → Receiver H → Result (Unit {0}) × Receiver H → Type 0
  Tells k ns s r =
      (r.0 ≡ ok tt)
      × (r.1.handled ≡ (tell handler ns s.handled).1)
      × (r.1.cancelled ≡ s.cancelled)
      × (r.1.link ≡ polled k s.link)

  module _ (now : ℕ) (c : Call) (f : Tagged Scope) (s : Receiver H)
      (brings : Brings env serialize s.link.private_group c f.0)
      (d : Delivers env (some c) (env.sp_receive s.link.history s.link.mailbox))
      (on : s.link.connected ≡ true) where
    -- The receiver after this message; `last` says whether it completes the event.
    abbrev after : Bool → Receiver H
    after last = record s {
      link = log_call (Call.receive s.link.mailbox) s.link;
      pool =
          (handle_message env naming parse now (message_of env naming parse serialize [] f.0)
            s.pool).1;
      handled = if last then (handler.handle_incoming f.1 s.handled).1 else s.handled;
    }

    execute_Brings :
        (last : Bool)
        → (handle_message env naming parse now
            (message_of env naming parse serialize [] f.0)
            s.pool).0
          ≡ (if last then ok (some f.1) else ok none)
        → (last ≡ true → (handler.handle_incoming f.1 s.handled).0 ≡ ok tt)
        → execute env naming parse handler now s ≡ (ok tt, after last)
    unfolding handle_message
    execute_Brings true h told =
        let (m, j, sorted, whole, other, sent) = brings in
        execute_complete env naming parse serialize handler m j sorted whole now f.0 s
          (subst (λ o. Delivers env o (env.sp_receive s.link.history s.link.mailbox)) (sym sent) d)
          other on f.1 h (told refl)
    execute_Brings false h told =
        let (m, j, sorted, whole, other, sent) = brings in
        execute_incomplete env naming parse serialize handler m j sorted whole now f.0 s
          (subst (λ o. Delivers env o (env.sp_receive s.link.history s.link.mailbox)) (sym sent) d)
          other on h

  told_first :
      (n : Transported Scope) (ns : List (Transported Scope)) (h : H)
      → (handler.handle_incoming n h).0 ≡ ok tt
      → tell handler (n ∷ ns) h ≡ tell handler ns (handler.handle_incoming n h).1
  told_first n ns h e = ground arith

  -- The rest of the messages, once the first one has been handled.
  Tells-step :
      (now k : ℕ) (times : List ℕ) (n : Transported Scope) (ns : List (Transported Scope))
      (last : Bool) (s t : Receiver H)
      → execute env naming parse handler now s ≡ (ok tt, t)
      → t.cancelled ≡ s.cancelled
      → t.link ≡ log_call (Call.receive s.link.mailbox) s.link
      → (last ≡ true → (handler.handle_incoming n s.handled).0 ≡ ok tt)
      → t.handled ≡ (if last then (handler.handle_incoming n s.handled).1 else s.handled)
      → Tells k ns t (rounds env naming parse serialize handler times t)
      → Tells
          (suc k)
          (if last then n ∷ ns else ns)
          s
          (rounds env naming parse serialize handler (now ∷ times) s)
  unfolding rounds
  Tells-step now k times n ns last s t e same link told h rest =
      subst (Tells (suc k) (if last then n ∷ ns else ns) s)
        (sym (
          >>=-ok (execute env naming parse handler now)
            (λ _. rounds env naming parse serialize handler times) s e))
        (rest.0, rest.1 ∙ all_told last told h, rest.2 ∙ same, rest.3 ∙ ap (polled k) link)
    where
      all_told :
          (last : Bool)
          → (last ≡ true → (handler.handle_incoming n s.handled).0 ≡ ok tt)
          → t.handled ≡ (if last then (handler.handle_incoming n s.handled).1 else s.handled)
          → (tell handler ns t.handled).1 ≡ (tell handler (if last then n ∷ ns else ns) s.handled).1
      all_told true told h =
          ap (λ g. (tell handler ns g).1) h
          ∙ ap (λ r. r.1) (sym (told_first n ns s.handled (told refl)))
      all_told false told h = ap (λ g. (tell handler ns g).1) h

  told_rest :
      (last : Bool) (n : Transported Scope) (ns : List (Transported Scope)) (h : H)
      → (tell handler (if last then n ∷ ns else ns) h).0 ≡ ok tt
      → (last ≡ true → (handler.handle_incoming n h).0 ≡ ok tt)
        × ((tell handler ns (if last then (handler.handle_incoming n h).1 else h)).0 ≡ ok tt)
  told_rest true n ns h e = (λ same. ground arith, ground arith)
  told_rest false n ns h e = (λ same. cc, e)

  pub rounds-Tells :
      (es : List (ℕ × Tagged Scope)) (cs : List Call) (s : Receiver H)
      → AllBring env serialize s.link.private_group cs (tags es)
      → Handed env naming parse serialize handler cs s.link
      → s.link.connected ≡ true
      → AllAnswered es s.pool es
      → (tell handler (completions (tags es)) s.handled).0 ≡ ok tt
      → Tells
          (length es)
          (completions (tags es))
          s
          (rounds env naming parse serialize handler (map (λ a. a.0) es) s)
  unfolding rounds
  rounds-Tells [] cs s brings handed on answered told = (refl, refl, refl, refl)
  rounds-Tells ((now, f) ∷ es) [] s brings handed on answered told = absurd brings
  rounds-Tells ((now, f) ∷ es) (c ∷ cs) s brings handed on answered told =
      let last = length (with_key (key_of f.0) (tags es)) == 0 in
      let t = after now c f s brings.0 handed.0 on last in
      let first = (Answered-first now f es s.pool (key_of f.0) f.1 refl answered.0).0 in
      let handles = told_rest last f.1 (completions (tags es)) s.handled told in
      let rest =
        rounds-Tells es cs t brings.1 handed.1 on
          (All-map (λ a. Answered-step now f es s.pool (key_of a.1.0) a.1.1) es answered.1)
          handles.1 in
      Tells-step now (length es) (map (λ a. a.0) es) f.1 (completions (tags es)) last s t
        (execute_Brings now c f s brings.0 handed.0 on last first handles.0) refl refl handles.0
        refl rest
