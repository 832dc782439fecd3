-- ===== src/Lib.antt =====
-- Verification of the game server: the gate, the auth service and the containers of basal.
--
-- The program. Clients open a socket to the gate (server/src/service/gate/module) and log in on it
-- with a connect token, a login ticket or a session id, which the auth service
-- (server/src/service/auth/module) gives out and checks. The gate keeps a table of connections and
-- sessions, served over TCP, WebSocket, HTTP and gRPC. The auth service keeps accounts in MongoDB, and
-- sessions, tickets and tokens in Redis. server/deps/basal is the base library that servers share;
-- server/deps/fastid makes identifiers, and server/deps/netmgr keeps the sessions of a server in tables
-- that one goroutine changes, task by task, and reads and writes the frames of each connection.
--
-- The files.
-- - Prelude: Boolean tests, lists and maps over the native numbers, integers, texts with `TrimSpace`
--   and `hex`, `sort.Search`, and predicates on lists.
-- - Gate/Model is model.go, token.go and errors.go. Gate/Manager/Defs is manager.go: the maps of
--   `GamerManager` are association lists, its gamers a heap of addresses, and `closed` lists the closers
--   that were called. Each method, from `Open` to `Stats`, is one function in snake_case; the parts of
--   `BindSession` are `kick_old` and `attach`. The mutex makes the calls atomic, so that an
--   interleaving of the servers is a sequence of calls. Gate/Manager/Invariant, Reach, Calls, Rebind,
--   Owned and Ids prove facts of the table.
-- - Gate/Service is service.go over the interface `AuthClient`; Gate/Sockets is `handleConn` of
--   tcp_server.go and `handleWS` of ws_server.go, where calls of other sockets may stand before each
--   line; Gate/Http is handler.go; Gate/Grpc is grpc_server.go.
-- - Auth/Model is model.go, token.go and errors.go; Auth/Stores the interfaces of the two stores;
--   Auth/Accounts and Auth/Repository are repository.go; Auth/Service is service.go, `Login` in its
--   parts `login_bound` and `save_login`; Auth/Handler is handler.go. Auth/Sessions, Saving, Tickets,
--   Writes, Logins, Redeem, Calls, Histories, Once, Conflict and Statuses prove facts of them. Auth/Example is
--   an instance of the stores and of the codecs.
-- - Basal/SortedList/Defs is sortedlist.go, Basal/SortedSet/Defs is sortedset.go, Basal/Next next.go,
--   Basal/Slice a part of slice.go, Basal/Padding the padding of util.go
--   and Basal/Words sensitive_words_matcher.go, whose tree of pointers is a tree of values.
-- - Prelude/Bits has the laws of masks and shifts that identifiers need. FastId/Defs is fastid.go: an
--   identifier is packed from a time, a machine and a number, and calls of `GenInt64ID` that run at
--   once are a sequence of loads and swaps. FastId/Fields, Order, Times and Repeats prove facts of them.
-- - Net/Options is options.go, Net/Agent is connagt.go. Net/Model is the queue of a session
--   (msgque.go), Net/Manager/Defs the tables of netmgr.go with a heap of queues, Net/Manager/Tasks its
--   tasks and the loop `run`, whose steps are `Event`s. Net/Manager/Moves, Effects, Kept, Removals,
--   TaskMoves, Made, Ending, Runs, Logins and Stale prove facts of them. `addTask` is two steps, the look at the
--   flag (`post`) and the channel (`send_task`), so that `Stop` and the drain may stand between them.
--   A `stop` that is handed on, by `SafeGo` or to `stopSync`, is entered in `stops` and runs as a step
--   of its own; the task that `StopFront` runs itself once the manager stops is the step `front_inline`,
--   which may stand anywhere and is taken to be atomic.
-- - Net/Framing/Defs is the reader of msgque_tcp.go, Net/Delay its pauses before a write, Net/Writing
--   its writer and Net/Accept its acceptance of a socket. Net/Framing/Rounds and Room prove facts of the reader.
--
-- What is assumed. Redis, MongoDB and `encoding/json` are parameters. `IsRedis` says that a command acts
-- on its own keys alone and at once, that a transaction is done as a whole or not at all, and that a
-- command that fails may have acted. `RefusesConflicts` says that MongoDB refuses an update in which two
-- operators name one path. `RoundTrips` says that a value that was encoded is decoded again. That a key
-- expires is no command; the theorems on several calls are about keys that have not expired.
-- `strings.ToLower` is a parameter too, and the random bytes and the time of each call are arguments.
-- In Net the parser of heads, the encoding and the compressors are parameters, the order of an
-- association list stands for the order in which Go runs through a map, a queue holds no nil, and a
-- write to a socket does not fail. That identifiers differ is a hypothesis of the theorems on sessions,
-- and that the clock does not go back one of the theorem on their order.
--
-- Bounds. `sort.Search` runs on as much fuel as the list is long, which is enough since each round
-- makes the range smaller. `numbers` of next.go runs on fuel; each round that goes on moves the reader
-- towards the end of the text, so that as much fuel as the text is long and one more is enough. The
-- loop of `consumeReadBuffer` runs on one more than the number of filled bytes, since each message takes
-- at least a byte. Every other loop is structural. Scores and keys of a list are integers, of which the
-- methods only compare any two, so that the width of int64 does not matter. The count of a word is a
-- uint32 that wraps, and the theorem on `Has` is about fewer than 2 ^ 32 words. The elapsed time of fastid
-- is a word of 64 bits, which a time before the epoch wraps; the times themselves are below 2 ^ 63.
--
-- Not modelled: bytes of the protocols but the frames of netmgr, log lines, the texts of messages, the
-- start and stop of servers, the HTTP client of the gate, dialling, the key exchange and the flags of
-- stopping in netmgr, and the other files of basal.
pub mod Prelude
pub mod Gate
pub mod Auth
pub mod Basal
pub mod FastId
pub mod Net
