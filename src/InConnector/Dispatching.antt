-- ===== src/InConnector/Dispatching.antt =====
-- What becomes of exceptions on the way of a notification to the handlers.
use rsb_spread_cpp.Base.{◌≡◌, ◌≢◌, true, false, arith, Exception, Result, ok, throw, fault}
use rsb_spread_cpp.Notifications.{Transported}
use rsb_spread_cpp.InConnector.{
  exit, World, Consuming, InConnector, is_std_exception, handle_error_in, convert,
  notification_to_event, dispatch, handle_notification,
}

-- No exception that a `catch (const std::exception&)` takes leaves the call.
abbrev Contains : {W : Type 0} → Result (Unit {0}) × World W → Type 0
Contains (ok _, w) = Unit {0}
Contains (throw e, w) = is_std_exception e ≡ false
Contains (fault x, w) = Unit {0}

-- Whatever the converter and the handlers throw, no exception of the standard library leaves
-- the handling of a notification: the only exceptions that do are interruptions of the thread.
handle_notification-Contains :
    {Scope Data Event Receiver W : Type 0} (consuming : Consuming Scope Data Event Receiver W)
    (c : InConnector Scope Receiver) (n : Transported Scope) (w : World W)
    → Contains (handle_notification consuming c n w)
unfolding handle_notification notification_to_event handle_error_in
handle_notification-Contains consuming c n w = ground arith

-- When a notification cannot be converted and the strategy is to go on, the handlers are
-- called all the same, with an event that holds nothing: the test of the event's pointer never
-- fails.
pub handle_notification_undecoded :
    {Scope Data Event Receiver W : Type 0} (consuming : Consuming Scope Data Event Receiver W)
    (c : InConnector Scope Receiver) (n : Transported Scope) (w : World W) (x : Exception)
    → consuming.deserialize n ≡ throw x
    → is_std_exception x ≡ true
    → c.error_strategy ≢ exit
    → (handle_notification consuming c n w).1.outside
      ≡ (dispatch consuming c.handlers consuming.new_event w.outside).1
unfolding handle_notification notification_to_event convert handle_error_in
handle_notification_undecoded consuming c n w x bad std goes_on = ground arith
