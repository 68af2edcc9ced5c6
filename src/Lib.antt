-- ===== src/Lib.antt =====
-- Verification of the group membership service: a program that keeps, on each machine, a list of
-- the members of a group, and finds out which of them have failed.
--
-- The parts and how they interact. A controller (main.go) sets up a membership list
-- (utils/membership.go), a suspicion manager (utils/suspicion.go), and two failure detectors
-- that share both: one that gossips heartbeats (detectors/gossip.go) and one that probes as SWIM
-- does (detectors/pingack.go). The detectors write the list and report to the suspicion manager;
-- it counts the reports on a member, turns the member Suspected and, after a timeout, Failed,
-- and calls back the controller, which writes the list and tells the other members. Messages go
-- through the network layer (utils/network.go), whose queue hands each to the handler that is
-- registered for its type. A client on the command line (main.go) asks the node's HTTP control
-- server, or queries the logs of all machines (logquerier).
--
-- The files:
--   Common      integers of Go (int32, int64, durations), maps as association lists, lists
--   Types       utils/types.go: identities, their texts, statuses, messages, timeouts
--   Membership  utils/membership.go: `MembershipList`, one function for each method
--   Node        the state that the goroutines of a process share, and the calls of `Send`; Node/Ticking
--               is a goroutine that loops on a ticker
--   Suspicion   utils/suspicion.go: `SuspicionManager`; Suspicion/Racing is its `check` in two critical
--               sections, Suspicion/Ticker the goroutine that runs it
--   Gossip      detectors/gossip.go: the handlers; Gossip/Group joins and leaves, Gossip/Rounds is the
--               periodic work, Gossip/Loops the goroutines that do it
--   PingAck     detectors/pingack.go, with Updates, Probes, Group and Loops
--   Controller  main.go: the callbacks and the initial state
--   Network     utils/network.go: the table of handlers and the receive queue
--   System      main.go with the `Start` and `Stop` of both detectors: the state of a whole process, the
--               handlers of its messages, the switch; System/Steps has every step it can take
--   Control     main.go: the HTTP control server; Control/Client is the command line, Control/Status the
--               status that a node logs
--   Startup     main.go: `main`, from the flags to a client, a child process or a node; Startup/Meeting
--               is a node that `main` has started and another that joins by it
--   LogQuerier  logquerier: Words for the functions on texts, Server and Serving, Hosts, DefaultHosts and
--               Client
--   Scenarios   the theorems at work on concrete states
-- The children of these modules prove what their names say. A function has the name of its source
-- function in lower case; a part of a long function that has a state of its own is a function too.
--
-- How the code is modelled. A handler is a function from the state, a message and the time to
-- the state. It runs as one step at one time: the source takes the locks of the list and of the
-- manager several times in a handler, and what other goroutines do in between is modelled for
-- `check` of the suspicion manager only. A callback that the source starts with `go` is put on
-- the list `spawned`; running it is a step of its own, at any time and in any order. A message
-- that is sent is put on the list `sent`; the network may lose, delay, repeat or forge messages,
-- so a handler's message is arbitrary. A protocol period of the prober waits on channels and
-- timers: its parts between the waits are functions of their own. Times are nanoseconds, and 0
-- is the zero time, so where a theorem depends on it the clock is positive. The map iterations
-- of Go visit a map in the order of its association list, about which nothing is assumed. A
-- random shuffle is a parameter, which where it matters is assumed to permute.
--
-- The steps of a process are a relation: packets, messages, ticks, the parts of a protocol
-- period, callbacks and calls of the control server come in any order, also those of a loop that
-- a switch has stopped or started twice. A panic in a handler of the control server ends the
-- request and not the process, so a switch that panics returns what it has done until then.
--
-- The loops that `Start` runs are modelled apart from the work that they do: how many there are,
-- where each of them waits, and which channel ends it. For the gossip detector the calls of
-- `Start`, `JoinGroup` and `LeaveGroup` may come while one of `Stop` waits, which no lock
-- prevents, and some theorems ask that they do not. The loops go on between any two steps of a
-- call.
--
-- What is outside the code is a parameter: what JSON makes of a packet or a line, whether a
-- packet is dropped, `strings.ToLower`, how a duration is printed, what `flag.Parse` makes of
-- arguments, what the operating system answers to `main` (local IP, clock, ports, log files),
-- the file system, what `Accept` returns, which lines fit the buffer of a `bufio.Scanner`, and
-- the lines that grep prints. The functions of the package `strings` that the log querier uses
-- are written out, on code points.
--
-- Bounds. Incarnations are int32 with their wrap-around, sequence numbers are uint64, durations
-- are int64, and time differences saturate. The only fuel is that of the decimal digits, which
-- is the number plus one, above the count of its digits.
--
-- Not modelled: the sockets and the HTTP transport (`Start` and `GetLocalIP` of the network
-- layer, `Close` of the log server), the signals and the logging of main.go, since they are I/O,
-- and the scripts. `ChangeType` of utils/types.go is used nowhere.
--
pub mod Common
pub mod Types
pub mod Membership
pub mod Node
pub mod Suspicion
pub mod Gossip
pub mod PingAck
pub mod Controller
pub mod Network
pub mod System
pub mod Control
pub mod Startup
pub mod LogQuerier
pub mod Scenarios
