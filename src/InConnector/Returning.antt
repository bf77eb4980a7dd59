-- ===== src/InConnector/Returning.antt =====
-- What returns from the handling of a notification, whatever converters and handlers throw.
use rsb_spread_cpp.Base.{
  ◌>>◌, ◌≡◌, ◌≢◌, refl, true, List, [], ◌∷◌, arith, All, Text, Exception, Result, ok, throw, fault,
  Action, pure, zoom, bytes,
}
use rsb_spread_cpp.Notifications.{Transported}
use rsb_spread_cpp.InConnector.{
  World, Consuming, InConnector, ErrorStrategy, log, print, exit, try_with, is_std_exception,
  convert, notification_to_event, dispatch, handle_error_in, handle_notification,
}

-- It returns or throws what `catch (const std::exception&)` takes.
abbrev pub Calm : {A : Type 0} → Result A → Type 0
Calm (ok a) = Unit {0}
Calm (throw e) = is_std_exception e ≡ true
Calm (fault x) = ⊥

module _ {W : Type 0} where
  error_returns :
      (strategy : ErrorStrategy) (context : Text) (x : Exception) (on off : Text) (w : World W)
      → strategy ≢ exit
      → (handle_error_in strategy context x on off w).0 ≡ ok tt
  unfolding handle_error_in
  error_returns log context x on off w goes_on = refl
  error_returns print context x on off w goes_on = refl
  error_returns exit context x on off w goes_on = absurd (goes_on refl)

  -- A `try` whose handler returns.
  try_returns :
      (on_error : Exception → Action (World W) (Unit {0})) (m : Action (World W) (Unit {0}))
      (w : World W)
      → Calm (m w).0
      → ((x : Exception) (v : World W) → (on_error x v).0 ≡ ok tt)
      → (try_with on_error m w).0 ≡ ok tt
  try_returns on_error m w v h = tried (m w) refl v
    where
      tried :
          (r : Result (Unit {0}) × World W) → m w ≡ r → Calm r.0 → (try_with on_error m w).0 ≡ ok tt
      tried (ok a, t) e v = ground arith
      tried (throw x, t) e v = ground (arith, h x t)
      tried (fault x, t) e v = absurd v

  error_outside :
      (strategy : ErrorStrategy) (context : Text) (x : Exception) (on off : Text) (w : World W)
      → (handle_error_in strategy context x on off w).1.outside ≡ w.outside
  unfolding handle_error_in
  error_outside log context x on off w = refl
  error_outside print context x on off w = refl
  error_outside exit context x on off w = refl

  -- A `try` whose handler only reports.
  try_outside :
      (on_error : Exception → Action (World W) (Unit {0})) (m : Action (World W) (Unit {0}))
      (w : World W)
      → ((x : Exception) (v : World W) → (on_error x v).1.outside ≡ v.outside)
      → (try_with on_error m w).1.outside ≡ (m w).1.outside
  try_outside on_error m w h = tried (m w) refl
    where
      tried :
          (r : Result (Unit {0}) × World W)
          → m w ≡ r
          → (try_with on_error m w).1.outside ≡ (m w).1.outside
      tried (ok a, t) e = ground arith
      tried (throw x, t) e = ground (arith, h x t)
      tried (fault x, t) e = ground arith

module _ {Scope Data Event Taker W : Type 0} (consuming : Consuming Scope Data Event Taker W) where
  -- So do the converters and the handlers.
  pub record IsCalm : Type 0 where
    pub deserializes : (n : Transported Scope) → Calm (consuming.deserialize n)
    pub fills : (n : Transported Scope) (d : Data) (e : Event) → Calm (consuming.fill_event n d e).0
    pub handles : (h : Taker) (e : Event) (w : W) → Calm (consuming.handle h e w).0

  -- The notifications of these connectors, one after the other.
  abbrev pub notify_each :
      List (InConnector Scope Taker) → Transported Scope → Action (World W) (Unit {0})
  notify_each [] n = pure tt
  notify_each (c ∷ cs) n = handle_notification consuming c n >> notify_each cs n

  -- The event that the handlers get: the converted one, or what the converter had made of an empty one
  -- when it threw.
  abbrev pub event_of : Transported Scope → Event
  event_of n = elim (consuming.deserialize n) [
    | ok d ↦ filled (consuming.fill_event n d consuming.new_event)
    | throw x ↦ consuming.new_event
    | fault x ↦ consuming.new_event
  ]
    where
      filled : Result (Unit {0}) × Event → Event
      filled (ok _, e) = consuming.set_receive_time e
      filled (throw x, e) = e
      filled (fault x, e) = e

  -- The handlers get it in their order, until one throws.
  abbrev pub hand_over : List Taker → Event → W → W
  hand_over [] e w = w
  hand_over (h ∷ hs) e w = handed (λ v. hand_over hs e v) (consuming.handle h e w)
    where
      handed : (W → W) → Result (Unit {0}) × W → W
      handed next (ok _, v) = next v
      handed next (throw x, v) = v
      handed next (fault x, v) = v

  -- So does each connector.
  abbrev pub hand_over_each : List (InConnector Scope Taker) → Transported Scope → W → W
  hand_over_each [] n w = w
  hand_over_each (c ∷ cs) n w = hand_over_each cs n (hand_over c.handlers (event_of n) w)

  module _ (calm : IsCalm) where
    convert-Calm : (n : Transported Scope) (e : Event) → Calm (convert consuming n e).0
    unfolding convert
    convert-Calm n e = converted (consuming.deserialize n) refl (calm.deserializes n)
      where
        converted :
            (r : Result Data)
            → consuming.deserialize n ≡ r
            → Calm r
            → Calm (convert consuming n e).0
        converted (ok d) h v = ground (arith, calm.fills n d e)
        converted (throw x) h v = ground arith
        converted (fault x) h v = absurd v

    dispatch-Calm : (hs : List Taker) (e : Event) (w : W) → Calm (dispatch consuming hs e w).0
    unfolding dispatch
    dispatch-Calm [] e w = tt
    dispatch-Calm (h ∷ hs) e w =
        ground (arith, calm.handles h e w, dispatch-Calm hs e (consuming.handle h e w).1)

    event_returns :
        (strategy : ErrorStrategy) (n : Transported Scope) (w : World W)
        → strategy ≢ exit
        → (notification_to_event consuming strategy n w).0
          ≡ ok (convert consuming n consuming.new_event).1
    unfolding notification_to_event
    event_returns strategy n w goes_on =
        let (r, e) = convert consuming n consuming.new_event in
        ground (
          arith,
          try_returns
              (λ x.
                handle_error_in strategy (bytes "deserializing notification") x
                  (bytes "Continue with next notification") (bytes "Terminating"))
              (λ v. (r, v)) w (convert-Calm n consuming.new_event)
              (λ x v. error_returns strategy _ x _ _ v goes_on),
        )

    dispatching-Calm :
        (hs : List Taker) (e : Event) (w : World W)
        → Calm
            (zoom (λ w. w.outside) (λ w o. record w { outside = o }) (dispatch consuming hs e) w).0
    dispatching-Calm hs e w = dispatch-Calm hs e w.outside

    notification_returns :
        (c : InConnector Scope Taker) (n : Transported Scope) (w : World W)
        → c.error_strategy ≢ exit
        → (handle_notification consuming c n w).0 ≡ ok tt
    unfolding handle_notification
    notification_returns c n w goes_on =
        let e = (convert consuming n consuming.new_event).1 in
        let v = (notification_to_event consuming c.error_strategy n w).1 in
        ground (
          arith,
          event_returns c.error_strategy n w goes_on,
          try_returns
              (λ x.
                handle_error_in c.error_strategy (bytes "dispatching event to handlers") x
                  (bytes "Continuing with next event") (bytes "Terminating"))
              (zoom (λ w. w.outside) (λ w o. record w { outside = o })
                (dispatch consuming c.handlers e))
              v (dispatching-Calm c.handlers e v)
              (λ x v. error_returns c.error_strategy _ x _ _ v goes_on),
        )

    pub each_returns :
        (cs : List (InConnector Scope Taker)) (n : Transported Scope) (w : World W)
        → All (λ c. c.error_strategy ≢ exit) cs
        → (notify_each cs n w).0 ≡ ok tt
    each_returns [] n w v = refl
    each_returns (c ∷ cs) n w v = ground (
      arith,
      notification_returns c n w v.0,
      each_returns cs n (handle_notification consuming c n w).1 v.1,
    )

    convert-event_of :
        (n : Transported Scope) → (convert consuming n consuming.new_event).1 ≡ event_of n
    unfolding convert
    convert-event_of n = ground arith

    dispatch-hand_over :
        (hs : List Taker) (e : Event) (w : W) → (dispatch consuming hs e w).1 ≡ hand_over hs e w
    unfolding dispatch
    dispatch-hand_over [] e w = refl
    dispatch-hand_over (h ∷ hs) e w =
        ground (arith, dispatch-hand_over hs e (consuming.handle h e w).1)

    event_outside :
        (strategy : ErrorStrategy) (n : Transported Scope) (w : World W)
        → (notification_to_event consuming strategy n w).1.outside ≡ w.outside
    unfolding notification_to_event
    event_outside strategy n w =
        let r = (convert consuming n consuming.new_event).0 in
        ground (
          arith,
          try_outside
              (λ x.
                handle_error_in strategy (bytes "deserializing notification") x
                  (bytes "Continue with next notification") (bytes "Terminating"))
              (λ v. (r, v)) w (λ x v. error_outside strategy _ x _ _ v),
        )

    notification-hand_over :
        (c : InConnector Scope Taker) (n : Transported Scope) (w : World W)
        → c.error_strategy ≢ exit
        → (handle_notification consuming c n w).1.outside
          ≡ hand_over c.handlers (event_of n) w.outside
    unfolding handle_notification
    notification-hand_over c n w goes_on =
        let e = (convert consuming n consuming.new_event).1 in
        let v = (notification_to_event consuming c.error_strategy n w).1 in
        ground (
          arith,
          event_returns c.error_strategy n w goes_on,
          try_outside
              (λ x.
                handle_error_in c.error_strategy (bytes "dispatching event to handlers") x
                  (bytes "Continuing with next event") (bytes "Terminating"))
              (zoom (λ w. w.outside) (λ w o. record w { outside = o })
                (dispatch consuming c.handlers e))
              v (λ x v. error_outside c.error_strategy _ x _ _ v),
          dispatch-hand_over c.handlers e v.outside,
          event_outside c.error_strategy n w,
          convert-event_of n,
        )

    pub each-hand_over_each :
        (cs : List (InConnector Scope Taker)) (n : Transported Scope) (w : World W)
        → All (λ c. c.error_strategy ≢ exit) cs
        → (notify_each cs n w).1.outside ≡ hand_over_each cs n w.outside
    each-hand_over_each [] n w v = refl
    each-hand_over_each (c ∷ cs) n w v = ground (
      arith,
      notification_returns c n w v.0,
      notification-hand_over c n w v.0,
      each-hand_over_each cs n (handle_notification consuming c n w).1 v.1,
    )
