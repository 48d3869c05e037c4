-- ===== src/Lib.antt =====
-- go-test-cluster: a small cluster manager of two processes. The controller (controller/) starts
-- its child processes, talks to Corosync, and asks the resource manager (rmanager/) over a Unix
-- socket to start a resource and to monitor it. The resource manager runs the resource agent for
-- every request, repeats monitors by timers, and answers on the socket. Each process is one event
-- loop (chhandler/chhandler.go) over Go channels, with goroutines around it that fill or drain
-- those channels.
--
-- Which file models which part, with the functions of the source that its definitions follow:
--   Consts         consts/consts.go: ids, return codes, `ProcessId.String`, `StatusId.String`.
--   Message        message/message.go: the message types and `ParametersToString`. encoding/json is
--                  the record `Json`, whose round trips are hypotheses (`IsHelloCoded`,
--                  `IsRequestCoded`, `IsResponseCoded`).
--   Ipcc           ipcc/ipcc.go: `GetSeqno`, `SendRecv`, `SendRecvAsync`, `receiver`, `sender`,
--                  `Run`. The state `Client` holds the channels, the map of waiting calls, the
--                  receiver's one buffer and the bytes on the socket. A step (`Op`) is one goroutine
--                  going on to its next channel operation. Ipcc/Seqno, Delivery, Match, Order,
--                  Buffer, Exchange and Greeting are about its numbers, replies, pairing, order,
--                  buffer, and about one call with its answer, waited for or not; Ipcc/Socket is
--                  `Connect` and `Disconnect`.
--   Ipcs           ipcs/ipcs.go: `SendIpcToClient`, `clientReceive`, `ipcServerStart`; Ipcs/Order has
--                  many connections at once.
--   Chhandler      chhandler/chhandler.go: `SetChannelHandler`, `New` and the loop of `ProcessRun`
--                  with its `select`, over any state. Chhandler/Turn and Pass are about one turn and
--                  one pass of the loop.
--   Base           base/base.go: the channels that `InitBase` makes and `TerminateBase` closes, with
--                  the `Init` and `Terminate` of both processes on them.
--   Recipe         recipe/recipe.go and configure/config.go: the reading of the two files.
--   Debug          debug/debug.go and envs/: the output of a debug build.
--   Rmanager       rmanager/rman.go and rmanager/main.go. Table is `ExecrscMap`, Env the environment
--                  that `ExecRscOp` builds, Exec the parts of `ExecRscOp` and `setMonitor`, Step
--                  their interleaving as steps of jobs, Handlers the handlers of the event loop,
--                  Process the three channels as `_initialize` wires them, Startup `_initialize`,
--                  `NewRmanager`, `Run` and `main`. Taken, OneShot, Cases, Quiet, Stop, Monitor, Round,
--                  Repeat, Race, LateCall, Numbers, Sound, Reached, Waits and Progress are about runs of Step,
--                  Turns, Way, Service, Followed, Welcome and Session about runs of Process, from
--                  one turn to the messages of a whole session, Refine relates the two, Wired, Stopped and
--                  Final carry results on Step over to Process. View is `ExecrscMap` as a function,
--                  Locks is its methods under `mapMutex`, access by access,
--                  with Guard and Apart about the goroutines that call them.
--   Controller     Control is `Controll`, `_resourceControl` and the event handlers of
--                  controller/main.go, as steps in any order, with the reads into the socket client's
--                  buffer among them; Childs and ChildControll are
--                  controller/childs.go, Clients the handlers for the controller's own clients,
--                  Process the seven channels as `_initialize` and `main` wire them, Startup
--                  `NewControll`, `_initialize`, `_terminate` and `main`. Requests, Overflow,
--                  Plan, Blocked and Identity are about runs of Control, Refine relates Process to
--                  it, Wired carries results over, and Pass is one pass of the seven channels. Broadcast joins it with Corosync.
--   Exchange       The two processes joined: the first request of `_resourceControl` on its way
--                  through Ipcc, Ipcs and Rmanager, and its answer on the way back; Exchange/Session
--                  (with Parts) is the hello and both requests, from the start of the two processes
--                  to the end of the plan.
--   Corosync       corosync/corosync.go: Retry is the macros `cs_repeat_init` and `cs_repeat`,
--                  Session `connect_quorum` and the main loop of `runs`, Callback the Go callbacks,
--                  Node the C callbacks and `Init`, Send `SendClusterMessage` and `GetLocalId`. Join
--                  and Rejoin are about runs of the main loop. The answers of the library are inputs.
--   TestIpcClient  test_ipc_client/main.go and errs/errs.go: the client for trials by hand. Dispatch
--                  is about its handling of messages, Connect about its retries.
--   Prelude        Shared types and lemmas: tests on ℕ, lists, integers, byte strings, maps as
--                  association lists (Dict) and buffered channels as lists (Channel).
--   Samples        A small codec and messages; the Tests modules run the code on them.
--
-- How the state is kept. A Go channel is the list of its values, and `push cap` is `none` where
-- the sender would block; the capacities are those of the source: 12 in ipcc, 128 in corosync and
-- for the channels of the resource manager, 2 for `Status_ch`. An unbuffered channel on which
-- `SendRecv` waits is a number, and a value handed over on it is an entry of `replies`. A slice of
-- the receiver's buffer is its length, so what it shows changes with the buffer. A timer of
-- `setMonitor` is a number in `armed` until it fires or is stopped. A step that is `none` is a
-- goroutine that waits; a run (`run`) takes any list of steps and passes over those that wait.
-- Loops are recursion on lists or on the list of steps; the retry macros of corosync.go count down
-- from their bound of 30 turns. A `uint64` is an ℕ, and its addition in `GetSeqno` wraps (`% 2 ^ 64`);
-- `int` and `int64` values are ℤ, as the code does no arithmetic on them. The event loop of
-- `ProcessRun` is a `Loop`: its place in the list of channels, the signal channel, what the main
-- goroutine has got from `Exit_ch`, and the state that the handlers change; in Process, a handler
-- that has not returned makes the loop wait (`blocked`).
--
-- Bounds of the model. One write and one read on a socket carry one whole message, as the code
-- assumes; a message longer than BUFF_MAX = 1024 is not read in one piece, and `receiver_read`
-- takes none. Where the exit and the timeout of an agent have both come, either step may be the
-- last before `report`, as `select` takes either. The delay of a request belongs to the stage
-- `starting` of its job, and during the delay of an asynchronous request other steps may go on,
-- where the source sleeps in the event loop: the model has more runs here. Time is not modelled:
-- timers and timeouts come in any order, and a sleep is only noted. A panic ends the process
-- (`crashed`); in `ParametersToString`, and in the start and the end of a process, it is `none`.
-- The start and the end are functions of what the operating system answers. `ProcessRun` is taken to
-- have returned in between; its polling goroutine goes on, and whether it takes the closed signal
-- channel before the process exits is an argument (`late`).
--
-- How fine the steps are. In Rmanager, the function of a monitor's timer can be taken as one step
-- (`fires`) or as its check and its call (`checks`, `calls`), and the report of a result as one step
-- (`report`) or as the part up to the send on `rscOp_ch` and the rest (`sends`, `settles`), with any steps
-- in between. The start of `ExecRscOp` (`stopTimer`, `RecordRscOp` and the new job) is one step of its
-- caller, and so is `setMonitor` with its two records, though the source takes the lock for
-- each; what may come between `stopTimer` and `RecordRscOp` of a stop is an argument of the theorem
-- on stops. Locks has the accesses to the table one by one.
--
-- Not modelled: the calls of the Corosync library itself (what it answers and delivers is an
-- argument), the set of descriptors that `runs` gives to `select`, what is printed and logged outside
-- debug/, the mutexes of base/ and ipcc/, the methods that only pass on a field, and the making and removal
-- of the socket files. What the code asks of the operating system (the process id, the files, whether
-- a process starts, whether a socket can be reached, whether a write succeeds) is an argument.
pub mod Prelude
pub mod Consts
pub mod Message
pub mod Samples
pub mod Ipcc
pub mod Rmanager
pub mod Controller
pub mod Ipcs
pub mod Corosync
pub mod Chhandler
pub mod Base
pub mod Recipe
pub mod Debug
pub mod TestIpcClient
pub mod Exchange
pub mod Tests
