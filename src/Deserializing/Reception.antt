-- ===== src/Deserializing/Reception.antt =====
-- The fragments of a notification reach the receiver as messages and leave it as one notification.
use rsb_spread_cpp.Base.{
  ℕ, zero, suc, ◌^◌, ◌≤◌, ◌<◌, ◌≡◌, refl, sym, ap, ◌∙◌, subst, ◌≢◌, inl, inr, ite, if_pos, if_neg,
  true, false, Option, none, some, List, [], ◌∷◌, map, arith, ltb, if◌then◌else◌, Bool-cases,
  length, All, Text, Text_discrete, lookup, Result, ok, and_then,
}
use rsb_spread_cpp.Spread.{Env}
use rsb_spread_cpp.Protocol.{Notification, Fragment}
use rsb_spread_cpp.Message.{Message, regular, unreliable}
use rsb_spread_cpp.Notifications.{Transported}
use rsb_spread_cpp.GroupNameCache.{Naming}
use rsb_spread_cpp.Pool.{Pool, key_of}
use rsb_spread_cpp.Pool
use rsb_spread_cpp.Pool.Isolation.{Arrivals, of_key, answers}
use rsb_spread_cpp.Pool.Reassembly.{joined_last, fragments, answers-joined_last}
use rsb_spread_cpp.Assembly.Payload.{concat}
use rsb_spread_cpp.Assembly.Joining.{IsPart, Distinct}
use rsb_spread_cpp.Deserializing.{maybe_join_fragments, incoming, handle_fragment, handle_message}

module _ {Scope : Type 0} (env : Env) (naming : Naming Scope) (parse : Text → Option Fragment)
    (serialize : Fragment → Text) where
  -- The message that brings a fragment to these groups.
  abbrev pub message_of : List Text → Fragment → Message
  message_of groups f = record {
    type = regular;
    qos = unreliable;
    payload = serialize f;
    groups = groups;
  }

  -- What `handleMessage` returns for the fragments of one key, as they all come in.
  unfoldable pub receptions :
      List Text → Text → Arrivals → Pool → List (Result (Option (Transported Scope)))
  unfolding handle_message
  receptions groups key [] p = []
  receptions groups key ((now, f) ∷ es) p =
      let (r, q) = handle_message env naming parse now (message_of groups f) p in
      let rest = receptions groups key es q in ite (Text_discrete (key_of f) key) (r ∷ rest) rest

  -- Those that go through the pool.
  unfoldable pub pooled : Arrivals → Arrivals
  pooled [] = []
  pooled ((now, f) ∷ es) = if ltb 1 f.num_data_parts then (now, f) ∷ pooled es else pooled es

  abbrev Several : List Fragment → Type 0
  Several = All (λ f. 1 < f.num_data_parts)

  abbrev pub handed_on : Result (Option Notification) → Result (Option (Transported Scope))
  handed_on r = and_then r (incoming env naming parse)

  module _ (key : Text) (now : ℕ) (f : Fragment) (es : Arrivals) where
    of_key_hit : key_of f ≡ key → of_key key ((now, f) ∷ es) ≡ (now, f) ∷ of_key key es
    unfolding of_key
    of_key_hit e = rw (if_pos _ e) refl

    of_key_miss : key_of f ≢ key → of_key key ((now, f) ∷ es) ≡ of_key key es
    unfolding of_key
    of_key_miss ne = rw (if_neg _ ne) refl

    answers_hit :
        (p : Pool)
        → key_of f ≡ key
        → answers env key ((now, f) ∷ es) p
          ≡ (Pool.add env now f p).0 ∷ answers env key es (Pool.add env now f p).1
    unfolding answers
    answers_hit p e = if_pos (Text_discrete (key_of f) key) e _ _

    answers_miss :
        (p : Pool)
        → key_of f ≢ key
        → answers env key ((now, f) ∷ es) p ≡ answers env key es (Pool.add env now f p).1
    unfolding answers
    answers_miss p ne = if_neg (Text_discrete (key_of f) key) ne _ _

    pooled_yes : ltb 1 f.num_data_parts ≡ true → pooled ((now, f) ∷ es) ≡ (now, f) ∷ pooled es
    unfolding pooled
    pooled_yes e = rw e refl

    pooled_no : ltb 1 f.num_data_parts ≡ false → pooled ((now, f) ∷ es) ≡ pooled es
    unfolding pooled
    pooled_no e = rw e refl

  of_key-pooled :
      (key : Text) (es : Arrivals)
      → Several (fragments (of_key key es))
      → of_key key (pooled es) ≡ of_key key es
  unfolding pooled of_key
  of_key-pooled key [] h = refl
  of_key-pooled key ((now, f) ∷ es) h = elim (Text_discrete (key_of f) key) [
    | yes e ↦
        let h' = subst (λ ds. Several (fragments ds)) (of_key_hit key now f es e) h in
        ap (of_key key) (pooled_yes key now f es (ground (arith, h'.0)))
        ∙ of_key_hit key now f (pooled es) e
        ∙ ap (◌∷◌ (now, f)) (of_key-pooled key es h'.1)
        ∙ sym (of_key_hit key now f es e)
    | no ne ↦
        let h' = subst (λ ds. Several (fragments ds)) (of_key_miss key now f es ne) h in
        elim (Bool-cases (ltb 1 f.num_data_parts)) [
          | inl e ↦
              ap (of_key key) (pooled_yes key now f es e)
              ∙ of_key_miss key now f (pooled es) ne
              ∙ of_key-pooled key es h'
              ∙ sym (of_key_miss key now f es ne)
          | inr e ↦
              ap (of_key key) (pooled_no key now f es e)
              ∙ of_key-pooled key es h'
              ∙ sym (of_key_miss key now f es ne)
        ]
  ]

  module _ (round_trip : (f : Fragment) → parse (serialize f) ≡ some f) (groups : List Text)
      (now : ℕ) (f : Fragment) (p : Pool) where
    unfoldable pub handle_one : Result (Option (Transported Scope)) × Pool
    handle_one = handle_message env naming parse now (message_of groups f) p

    handle_pooled :
        ltb 1 f.num_data_parts ≡ true
        → handle_one ≡ (handed_on (Pool.add env now f p).0, (Pool.add env now f p).1)
    unfolding handle_one handle_message handle_fragment maybe_join_fragments
    handle_pooled several = rw (round_trip f, several) refl

    pub handle_direct :
        ltb 1 f.num_data_parts ≡ false
        → handle_one ≡ (incoming env naming parse (some f.notification), p)
    unfolding handle_one handle_message handle_fragment maybe_join_fragments
    handle_direct single = rw (round_trip f, single) refl

  receptions-answers :
      (round_trip : (f : Fragment) → parse (serialize f) ≡ some f)
      → (groups : List Text) (key : Text) (es : Arrivals) (p : Pool)
      → Several (fragments (of_key key es))
      → receptions groups key es p ≡ map handed_on (answers env key (pooled es) p)
  unfolding receptions answers pooled of_key handle_one
  receptions-answers round_trip groups key [] p h = refl
  receptions-answers round_trip groups key ((now, f) ∷ es) p h =
      elim (Text_discrete (key_of f) key) [
        | yes e ↦
            let h' = subst (λ ds. Several (fragments ds)) (of_key_hit key now f es e) h in
            let several : ltb 1 f.num_data_parts ≡ true = ground (arith, h'.0) in
            if_pos (Text_discrete (key_of f) key) e _ _
            ∙ ap (λ r. r.0 ∷ receptions groups key es r.1)
                (handle_pooled round_trip groups now f p several)
            ∙ ap (◌∷◌ (handed_on (Pool.add env now f p).0))
                (receptions-answers round_trip groups key es _ h'.1)
            ∙ sym (
                ap (map handed_on) (
                  ap (λ ds. answers env key ds p) (pooled_yes key now f es several)
                  ∙ answers_hit key now f (pooled es) p e))
        | no ne ↦
            let h' = subst (λ ds. Several (fragments ds)) (of_key_miss key now f es ne) h in
            if_neg (Text_discrete (key_of f) key) ne _ _
            ∙ elim (Bool-cases (ltb 1 f.num_data_parts)) [
              | inl e ↦
                  ap (λ r. receptions groups key es r.1) (handle_pooled round_trip groups now f p e)
                  ∙ receptions-answers round_trip groups key es _ h'
                  ∙ sym (
                      ap (map handed_on) (
                        ap (λ ds. answers env key ds p) (pooled_yes key now f es e)
                        ∙ answers_miss key now f (pooled es) p ne))
              | inr e ↦
                  ap (λ r. receptions groups key es r.1) (handle_direct round_trip groups now f p e)
                  ∙ receptions-answers round_trip groups key es p h'
                  ∙ sym (ap (λ ds. map handed_on (answers env key ds p)) (pooled_no key now f es e))
            ]
      ]

  -- The results for all but the last, and for the last.
  abbrev pub received_last :
      Result (Option (Transported Scope)) → ℕ → List (Result (Option (Transported Scope)))
  received_last r zero = []
  received_last r (suc zero) = r ∷ []
  received_last r (suc (suc k)) = ok none ∷ received_last r (suc k)

  map-joined_last :
      (n : Notification) (k : ℕ)
      → map handed_on (joined_last n k) ≡ received_last (incoming env naming parse (some n)) k
  unfolding incoming
  map-joined_last n zero = refl
  map-joined_last n (suc zero) = refl
  map-joined_last n (suc (suc k)) = ap (◌∷◌ (ok none)) (map-joined_last n (suc k))

  All-mono :
      (n : Notification) (ps : List Text) (fs : List Fragment)
      → 2 ≤ length ps
      → All (IsPart n ps) fs
      → Several fs
  All-mono n ps [] two h = tt
  All-mono n ps (f ∷ fs) two h = (omega (arith, h.0.0), All-mono n ps fs two h.1)

-- If the pool holds nothing under a key, and the messages with that key's fragments carry the
-- parts of one notification, two or more and fewer than 2^32, each once and in any order, then
-- handling the messages gives nothing for all but the last of them, and for that one the
-- notification with the payload put together, or the exception of parsing its scope. Messages
-- with other fragments may come in between. This asks that what is written of a fragment is
-- read back.
pub receptions-received_last :
    {Scope : Type 0} (env : Env) (naming : Naming Scope) (parse : Text → Option Fragment)
    (serialize : Fragment → Text)
    → (round_trip : (f : Fragment) → parse (serialize f) ≡ some f)
    → (groups : List Text) (key : Text) (n : Notification) (ps : List Text) (es : Arrivals)
      (p : Pool)
    → lookup Text_discrete key p.assemblies ≡ none
    → 2 ≤ length ps
    → length ps < 2 ^ 32
    → All (IsPart n ps) (fragments (of_key key es))
    → Distinct (fragments (of_key key es))
    → length (fragments (of_key key es)) ≡ length ps
    → receptions env naming parse serialize groups key es p
      ≡ received_last env naming parse serialize
          (incoming env naming parse (some (record n { payload = concat ps })))
          (length ps)
receptions-received_last env naming parse serialize round_trip groups key n ps es p free two small
      parts distinct complete =
    let several = All-mono env naming parse serialize n ps _ two parts in
    let same = of_key-pooled env naming parse serialize key es several in
    receptions-answers env naming parse serialize round_trip groups key es p several
    ∙ ap (map (handed_on env naming parse serialize)) (
        answers-joined_last env key n ps (pooled env naming parse serialize es) p free (omega arith)
          small (subst (λ ds. All (IsPart n ps) (fragments ds)) (sym same) parts)
          (subst (λ ds. Distinct (fragments ds)) (sym same) distinct)
          (ap (λ ds. length (fragments ds)) same ∙ complete))
    ∙ map-joined_last env naming parse serialize _ (length ps)
