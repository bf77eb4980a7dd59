-- ===== src/EndToEnd/Interleaving.antt =====
-- What a receiver hands on of the events that several processes send, one among the other.
use rsb_spread_cpp.Base.{ℕ, ◌≡◌, ◌∙◌, subst, true, Option, some, List, map, length, All, Text, ok}
use rsb_spread_cpp.Spread.{Call, Env}
use rsb_spread_cpp.Protocol.{Fragment}
use rsb_spread_cpp.Notifications.{Transported}
use rsb_spread_cpp.GroupNameCache.{Naming}
use rsb_spread_cpp.Receiver.{Handler, Receiver}
use rsb_spread_cpp.EndToEnd.Receiving.{length-AllBring, rounds-gathered}
use rsb_spread_cpp.Bus.{Dispatching}
use rsb_spread_cpp.OutConnector.{Events}
use rsb_spread_cpp.EndToEnd.Rounds.{rounds}
use rsb_spread_cpp.EndToEnd.Traffic.{completions, tell, Tells}
use rsb_spread_cpp.EndToEnd.Merging.{Merges}
use rsb_spread_cpp.EndToEnd.Gathering.{Gather-Merges, completions-Merges, AllBring-Merges}
use rsb_spread_cpp.EndToEnd.Calls.{Handed}
use rsb_spread_cpp.EndToEnd.Publications.{IsWhole}
use rsb_spread_cpp.EndToEnd.Network.{Sender, calls_of, told_by, IsReady, AllDiffer, senders-Pieces}

-- Several processes each publish events with their connectors and return, and the daemon hands
-- over what all of them have sent to a receiver, in any order that keeps that of each sender.
-- Then as many rounds of that receiver, at any times, return, and what they have called is its
-- handler, exactly once for each event of each sender, with the schema and the payload that the
-- sender's converter wrote and the scope of the event, and for the events of each sender in the
-- order in which it published them; each round made one call of `SP_receive` and nothing else of
-- the session changed; the task is cancelled only if it was. This asks of the senders that their
-- caches of group names are right, that the events can be serialized, that the meta data leave
-- more than the minimal space in every fragment and no size wraps around, that every fragment
-- carries its event's identification and no two events have the same, and that the header which
-- the core library fills in holds the schema, and a text of the scope that is read back as it; of
-- the receiver that its pool holds nothing under these identifications, that no message is for
-- its private group alone, and that the handler returns, in whatever order it gets the events;
-- that what is written of a fragment is read back; and that no group name is too long or holds a
-- NUL byte.
pub rounds-publish :
    {Scope Event Sink Sinks H : Type 0} (env : Env) (events : Events Scope Event)
    (naming : Naming Scope) (dispatching : Dispatching Scope Sink Sinks)
    (serialize : Fragment → Text) (parse : Text → Option Fragment) (handler : Handler Scope H)
    (senders : List (Sender Scope Event Sinks)) (handed : List Call) (ts : List ℕ) (s : Receiver H)
    → (round_trip : (f : Fragment) → parse (serialize f) ≡ some f)
    → All
        (IsReady env events naming dispatching serialize parse s.link.private_group s.pool)
        senders
    → AllDiffer env events naming dispatching serialize parse senders
    → Merges (map (calls_of env events naming dispatching serialize) senders) handed
    → length ts ≡ length handed
    → Handed env naming parse serialize handler handed s.link
    → s.link.connected ≡ true
    → let events_told = map (told_by env events naming dispatching serialize parse) senders in
      ((ns : List (Transported Scope))
        → Merges events_told ns
        → (tell handler ns s.handled).0 ≡ ok tt)
      → (ns : List (Transported Scope)) × Merges events_told ns
        × Tells env naming parse serialize handler
            (length ts)
            ns
            s
            (rounds env naming parse serialize handler ts s)
rounds-publish env events naming dispatching serialize parse handler senders handed ts s round_trip
      ready differ merged count arriving on returns =
    let own = s.link.private_group in
    let whole = IsWhole env events naming serialize parse s.pool in
    let v =
      senders-Pieces env events naming dispatching serialize parse own s.pool senders ready
        differ in
    let (hs, m, brings) =
      AllBring-Merges env serialize own
        (map (calls_of env events naming dispatching serialize) senders) v.pieces handed v.brings
        merged in
    let told =
      subst (λ nss. Merges nss (completions hs)) v.told
        (completions-Merges v.pieces hs v.apart m) in
    (
      completions hs,
      told,
      rounds-gathered env events naming serialize parse handler round_trip hs handed ts s
          (count ∙ length-AllBring env serialize own handed hs brings) brings arriving on
          (Gather-Merges whole v.pieces hs v.apart m v.gathered) (returns (completions hs) told),
    )
