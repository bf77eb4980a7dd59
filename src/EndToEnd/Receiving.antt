-- ===== src/EndToEnd/Receiving.antt =====
-- A receiver that gets all fragments of some events, one among the other.
use rsb_spread_cpp.Base.{
  ℕ, suc, ◌≡◌, refl, sym, ap, ap₂, ◌∙◌, subst, if_pos, if_neg, true, Option, some, List, [], ◌∷◌,
  map, arith, length, length-map, All, All-map, Text, Text_discrete, ok, and_then,
}
use mathlib.Core.List.{Permᴰ}
use rsb_spread_cpp.Spread.{Call, Env}
use rsb_spread_cpp.Protocol.{Fragment}
use rsb_spread_cpp.Notifications.{Transported}
use rsb_spread_cpp.GroupNameCache.{Naming}
use rsb_spread_cpp.Pool.{Pool, key_of}
use rsb_spread_cpp.Pool.Isolation.{of_key}
use rsb_spread_cpp.Pool.Reassembly.{fragments}
use rsb_spread_cpp.Deserializing.{incoming, transport}
use rsb_spread_cpp.Deserializing.Reception.{received_last}
use rsb_spread_cpp.Receiver.{Handler, Receiver}
use rsb_spread_cpp.Bus.{numbered}
use rsb_spread_cpp.OutConnector.{Events, populate}
use rsb_spread_cpp.OutConnector.Counting.{length-cut_wire}
use rsb_spread_cpp.EndToEnd.Answers.{receptions-whole}
use rsb_spread_cpp.EndToEnd.Rounds.{rounds}
use rsb_spread_cpp.EndToEnd.Traffic.{
  Tagged, with_key, completions, untagged, tags, tell, AllBring, Answered, AllAnswered, Tells,
  rounds-Tells,
}
use rsb_spread_cpp.EndToEnd.Gathering.{Gather}
use rsb_spread_cpp.EndToEnd.Calls.{Handed}
use rsb_spread_cpp.EndToEnd.Processes.{Permᴰ-refl}
use rsb_spread_cpp.EndToEnd.Publications.{IsWhole, notification_of, told_of, sent_event, write}

fragments-of_key :
    {Scope : Type 0} (key : Text) (es : List (ℕ × Tagged Scope))
    → fragments (of_key key (untagged es)) ≡ map (λ f. f.0) (with_key key (tags es))
unfolding of_key
fragments-of_key key [] = refl
fragments-of_key key ((now, f) ∷ es) =
    let later = of_key key (untagged es) in
    let others = with_key key (tags es) in
    elim (Text_discrete (key_of f.0) key) [
      | yes e ↦
          ap fragments (if_pos (Text_discrete (key_of f.0) key) e ((now, f.0) ∷ later) later)
          ∙ ap (◌∷◌ f.0) (fragments-of_key key es)
          ∙ ap (map (λ f. f.0))
              (sym (if_pos (Text_discrete (key_of f.0) key) e (f ∷ others) others))
      | no ne ↦
          ap fragments (if_neg (Text_discrete (key_of f.0) key) ne ((now, f.0) ∷ later) later)
          ∙ fragments-of_key key es
          ∙ ap (map (λ f. f.0))
              (sym (if_neg (Text_discrete (key_of f.0) key) ne (f ∷ others) others))
    ]

-- Fragments at these times.
timed :
    {A : Type 0} (ts : List ℕ) (xs : List A)
    → length ts ≡ length xs
    → (es : List (ℕ × A)) × (map (λ e. e.0) es ≡ ts) × (map (λ e. e.1) es ≡ xs)
timed [] [] e = ([], refl, refl)
timed [] (x ∷ xs) e = absurd (omega (arith, e))
timed (t ∷ ts) [] e = absurd (omega (arith, e))
timed (t ∷ ts) (x ∷ xs) e =
    let (es, v, w) = timed ts xs (omega (arith, e)) in ((t, x) ∷ es, ap (◌∷◌ t) v, ap (◌∷◌ x) w)

All-tags :
    {Scope : Type 0} (P : Tagged Scope → Type 0) (es : List (ℕ × Tagged Scope))
    → All P (tags es)
    → All (λ a. P a.1) es
All-tags P [] h = tt
All-tags P (a ∷ es) h = (h.0, All-tags P es h.1)

pub length-AllBring :
    {Scope : Type 0} (env : Env) (serialize : Fragment → Text) (own : Text) (cs : List Call)
    (fs : List (Tagged Scope))
    → AllBring env serialize own cs fs
    → length cs ≡ length fs
length-AllBring env serialize own [] [] v = refl
length-AllBring env serialize own [] (f ∷ fs) v = absurd v
length-AllBring env serialize own (c ∷ cs) [] v = absurd v
length-AllBring env serialize own (c ∷ cs) (f ∷ fs) v =
    ap suc (length-AllBring env serialize own cs fs v.1)

module _ {Scope Event H : Type 0} (env : Env) (events : Events Scope Event) (naming : Naming Scope)
    (serialize : Fragment → Text) (parse : Text → Option Fragment) (handler : Handler Scope H) where
  module _ (round_trip : (f : Fragment) → parse (serialize f) ≡ some f) (pool : Pool) where
    IsWhole-Answered :
        (key : Text) (n : Transported Scope) (es : List (ℕ × Tagged Scope))
        → IsWhole env events naming serialize parse pool key (with_key key (tags es)) n
        → Answered env naming parse serialize handler es pool key n
    unfolding incoming populate
    IsWhole-Answered key n es w =
        let p = w.publication in
        let count : length w.cuts ≡ length (with_key key (tags es)) =
          sym (length-map (numbered env (write serialize) (length w.cuts)) w.cuts)
          ∙ ap length (sym w.all_sent)
          ∙ length-map (λ f. f.0) (with_key key (tags es)) in
        receptions-whole env events naming serialize parse round_trip w.connector
          (sent_event events p) p.schema p.wire w.fits [] key w.cuts (untagged es) pool w.cut
          (length-cut_wire env events w.connector (sent_event events p) p.schema p.wire w.cuts
            w.fits w.cut)
          w.unknown
          (subst (Permᴰ (map (numbered env (write serialize) (length w.cuts)) w.cuts))
            (sym w.all_sent ∙ sym (fragments-of_key key es)) (Permᴰ-refl _))
        ∙ ap₂ (received_last env naming parse serialize)
            (ap
                (λ r. and_then r (λ s. ok (
                  some (
                    transport env naming parse (notification_of env events naming serialize parse p)
                      s))))
                w.parsed
              ∙ ap
                  (λ t. ok (
                    some
                      (record (told_of env events naming serialize parse p) { wire_schema = t })))
                  w.titled
              ∙ ap (λ n. ok (some n)) (sym w.same_told))
            count

    Gather-AllAnswered :
        (es : List (ℕ × Tagged Scope))
        → Gather (IsWhole env events naming serialize parse pool) (tags es) (tags es)
        → AllAnswered env naming parse serialize handler es pool es
    Gather-AllAnswered es v =
        All-map (λ a w. IsWhole-Answered (key_of a.1.0) a.1.1 es w) es
          (All-tags
            (λ f.
              IsWhole env events naming serialize parse pool (key_of f.0)
                (with_key (key_of f.0) (tags es)) f.1)
            es v)

  -- The rounds for these messages call the handler for the events in the order of their last
  -- fragments.
  pub rounds-gathered :
      (round_trip : (f : Fragment) → parse (serialize f) ≡ some f) (hs : List (Tagged Scope))
      (handed : List Call) (ts : List ℕ) (s : Receiver H)
      → length ts ≡ length hs
      → AllBring env serialize s.link.private_group handed hs
      → Handed env naming parse serialize handler handed s.link
      → s.link.connected ≡ true
      → Gather (IsWhole env events naming serialize parse s.pool) hs hs
      → (tell handler (completions hs) s.handled).0 ≡ ok tt
      → Tells env naming parse serialize handler
          (length ts)
          (completions hs)
          s
          (rounds env naming parse serialize handler ts s)
  rounds-gathered round_trip hs handed ts s count brings arriving on gathered returns =
      let (es, times, tagged) = timed ts hs count in
      let whole = IsWhole env events naming serialize parse s.pool in
      let size : length es ≡ length ts = sym (length-map (λ e. e.0) es) ∙ ap length times in
      let r =
        rounds-Tells env naming parse serialize handler es handed s
          (subst (AllBring env serialize s.link.private_group handed) (sym tagged) brings) arriving
          on
          (Gather-AllAnswered round_trip s.pool es
            (subst (λ fs. Gather whole fs fs) (sym tagged) gathered))
          (subst (λ fs. (tell handler (completions fs) s.handled).0 ≡ ok tt) (sym tagged)
            returns) in
      subst
        (λ k.
          Tells env naming parse serialize handler k (completions hs) s
            (rounds env naming parse serialize handler ts s))
        size
        (subst
          (λ fs.
            Tells env naming parse serialize handler (length es) (completions fs) s
              (rounds env naming parse serialize handler ts s))
          tagged
          (subst
            (λ ts.
              Tells env naming parse serialize handler (length es) (completions (tags es)) s
                (rounds env naming parse serialize handler ts s))
            times r))
