-- ===== src/Lib.antt =====
-- The Spread transport of the Robotics Service Bus: a model of src/rsb/transport/spread/.
--
-- The program sends and receives events over the group communication system Spread. An
-- OutConnector serializes an event, cuts the bytes into fragments and hands them to a Bus. The Bus
-- sends each fragment as a SpreadMessage over a SpreadConnection, to the groups of the event's scope
-- and its super-scopes, and to the sinks of its own process. A ReceiverTask receives messages from
-- the same connection; its DeserializingHandler parses them and joins fragments in an AssemblyPool,
-- and what is complete goes through the Bus to the InConnectors of the scope, which convert it to
-- an event and call their handlers. A Factory lets connectors for the same daemon share a Bus.
--
-- Files, and the code that each is about (paths below src/rsb/transport/spread/):
--   Base              lists and maps of the standard library over native numbers, texts as lists
--                     of bytes, and calls: a call takes a state and ends with a value, an exception
--                     or a fault, and gives the state as it is then, in each case
--   Spread            the client library's calls and constants, which are parameters (`Env`): the
--                     answer to a call may depend on all calls before it
--   Protocol          the two protobuf messages, as records
--   ErrorMessages     ErrorMessages.cpp: spreadErrorString
--   Message           SpreadMessage.{h,cpp}; the set of groups, sorted (Groups), filled (Adding) and
--                     as a quotient of lists (Sets)
--   Connection        SpreadConnection.{h,cpp}; the order of its calls (Sessions), its guards
--                     (Inactive), sending (Sending) and what arrives (Delivery)
--   Membership        MembershipManager.{h,cpp}; its counts (Counting), the daemon's view
--                     (Daemon) and the bag of groups that it implements (Refining)
--   GroupNameCache    GroupNameCache.{h,cpp}; what it returns a reference to (References)
--   Assembly          class Assembly of Assembly.{h,cpp}; its slots (Slots), the joined payload
--                     (Payload) and all fragments of a notification (Joining)
--   Pool              class AssemblyPool of Assembly.{h,cpp}; keys (Keys), numbers out of range
--                     (Bounds), notifications side by side (Isolation), joining (Reassembly) and the
--                     pruning task (Pruning)
--   Deserializing     DeserializingHandler.{h,cpp}; Deserializing/Reception
--   Receiver          ReceiverTask.{h,cpp}: execute is one round; Receiver/Rounds
--   Notifications     Notifications.h
--   Bus               Bus.h, BusImpl.{h,cpp}; deactivation (Lifecycle), its state against the
--                     connection's (Consistency, Daemons), what it sends (Outbound) and to whom
--                     (Addressing), and a second activation (Reactivation)
--   System            BusImpl.cpp and ReceiverTask.cpp as threads: the owners of a bus, its
--                     receiver and its destructor take steps in any order. What always holds
--                     (Soundness, Safety), the end of the destructor's wait (Closing), the destructor
--                     on the receiver's thread (Destruction), and the receiver's steps as rounds
--                     (Rounds)
--   ConnectorBase     ConnectorBase.{h,cpp}
--   OutConnector      OutConnector.{h,cpp}; the fragments (Cutting), their number (Counting), what
--                     does not fit (Limits), what the bus is handed (Preparing) and what it sends
--                     (Publishing)
--   InConnector       InConnector.{h,cpp}; its handlers (Dispatching, Returning) and its use of the
--                     bus (Connecting), and several on one bus (Shares, Sharing)
--   Factory           Factory.{h,cpp}; one request (Sharing), and a process that creates
--                     connectors, uses their buses and lets go of them (Lifetimes, Creating,
--                     Uniqueness)
--   Registration      registration.{h,cpp} and ../../Plugin.cpp; Registration/Repeating
--   EndToEnd          from one process to another. One event: its fragments in the receiver's
--                     pool (Answers), the rounds of the receiver (Rounds), the calls that its
--                     sender makes (Calls), what they do to a receiver (Processes), which
--                     receivers get it (Recipients, Routing), and what becomes of it if a
--                     fragment is lost (Losing) or not sent (Stopping). Several events of several
--                     processes: what a sender sends (Publications, Senders, Network), how the
--                     daemon mixes it (Merging, Gathering), what a receiver makes of the mixture
--                     (Traffic, Receiving, Interleaving), and its connectors (Subscribers)
--   Examples          concrete inputs for the theorems
-- A function has the source's name with underscores (scopeToGroups is scope_to_groups), and a
-- method's guards, calls and early returns stand in the source's order. Loops that hold a piece of a
-- method are functions of their own (add_received, copy_groups, cut, send_fragments, prune). The
-- fields of a class are those of its record; loggers and mutexes are left out, and a call is atomic
-- where the source locks.
--
-- Integers are natural numbers; where the source's type is an unsigned int the wrap-around is
-- written out: the counts of the groups, the counter of an assembly, its age, and the offsets, sizes
-- and numbers in the loop that cuts an event. This loop runs on fuel, the length of the payload and
-- two, which is enough: the first fragment takes one round and every other at least one byte. Every
-- other loop is a recursion on a list or a count. At most 100 groups go into one message
-- (SPREAD_MAX_GROUPS), and the cache of group names is cleared above 300 entries.
--
-- Parameters, since their code is not in this repository: the Spread client library and its daemon;
-- protobuf's reading and writing of fragments; scopes, MD5, converters, events, the dispatcher of
-- sinks and the registries of the core library; and the executor, of which the model has single
-- rounds (`tick`, `execute`) that may come at any time.
--
-- Threads: in System the receiver's thread stops between the parts of a round (the test of the
-- cancellation, the wait for a message, its handling, the lock of the weak pointer, the dispatch, the
-- release), and the destructor between its calls; a use of the bus by an owner is one step. A step of
-- the receiver that waits for a message may be taken when a parameter says so of the calls made before.
-- The destructor runs on the thread that releases the last pointer; nothing else deactivates the bus.
--
-- Not modelled: logging; interleavings inside a call of threads that the source does not lock against
-- each other; the time that a run of the pruning task takes, which reads the clock once for all
-- assemblies where the source reads it for each.
pub mod Base
pub mod Spread
pub mod ErrorMessages
pub mod Message
pub mod Connection
pub mod Membership
pub mod GroupNameCache
pub mod Protocol
pub mod Assembly
pub mod Pool
pub mod Notifications
pub mod ConnectorBase
pub mod OutConnector
pub mod Deserializing
pub mod Receiver
pub mod Bus
pub mod EndToEnd
pub mod InConnector
pub mod Factory
pub mod Registration
pub mod Examples
pub mod System
