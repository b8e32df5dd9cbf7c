-- ===== src/Lib.antt =====
-- due: sessions, their ownership, and the frames between gates and nodes
--
-- A cluster of due has gates, which hold the connections of the users, and nodes, which serve the
-- requests. A client sends frames (packet) to a gate. A gate keeps a registry of its connections
-- (session/session.go) and says through an ownership store (session/ownership.go) which session
-- owns a user across all gates. A node reaches a session with a frame of the transporter protocol
-- (internal/transporter/internal/protocol), which core/buffer writes and reads, and which the gate
-- answers by calls on its registry. A node gives a request to a handler of its router
-- (cluster/node/router.go) or to an actor that its scheduler keeps (cluster/node/scheduler.go,
-- cluster/node/actor.go). The instances of the cluster are found through a dispatcher
-- (internal/dispatcher).
--
-- Base: the names of the libraries, tests, lists, maps (Dict), machine words (Words), signed
--   integers (Ints) and decimal texts (Decimals: strconv.FormatUint and ParseUint) that all files
--   share.
-- Errors: errors/error.go, and Go's pair of a value and an error.
-- Session: session/session.go. The record `Session` has the maps of the Go type and the heap of
--   the connection objects, since the registry and the servers share these. `bind` is `Bind`,
--   `bind_external` is `BindToken`, `bind_token` is `bindToken`, `get_conn` is `conn`, `token_of`
--   is `Token`; the other functions have the methods' names. Session/Channels holds `Subscribe`
--   and `Unsubscribe`, Session/Delivery the methods that send and close; its `Network` says what
--   each connection answers and, for a fan-out, in which order the pushes return. `send_locked`
--   and `send_unlocked` are `SendCurrent` before and after it gives the lock back. Rebind,
--   Invariant, Numbering, Consistent, History, Fencing and Binding are proofs: what a binding
--   rewrites, the invariant, the histories of calls and the retired tokens.
-- Ownership: the interface of session/ownership.go as a record of operations and laws, and
--   Ownership/Memory, the store of session/ownership_memory.go, which fills it. Ownership/Redis
--   has the scripts of session/redis/script.go, one function for each, and Redis/Store the store
--   of session/redis/store.go over them. The server is a parameter with what Redis documents of
--   HGET, HSET, HDEL and HINCRBY, and so is the allocator of ranges. Compare, Numbers, Scripts,
--   Granting, Store/Reserving and Store/Acquiring are proofs, from the comparison of texts to the
--   store.
-- Gate: cluster/gate/ownership.go and `handleDisconnect` of cluster/gate/gate.go over any store.
--   `bind_session` is `bindSession`, in one function for each stretch between two calls of the
--   registry or the store; `Others` is what others do to the gate and the store before each of
--   these calls. `handle_disconnect` is run with nothing of others in between.
--   Gate/Ownership/Soundness and Gate/Ownership/Agreement are proofs.
-- Buffer: core/buffer/writer.go, core/buffer/reader.go and the byte orders; Buffer/Codec relates
--   the two.
-- Protocol: the constants of def.go and internal/transporter/internal/route, the header of a
--   frame, `ParseBuffer`, in Protocol/Requests the frames of bind.go, unbind.go and push.go, in
--   Protocol/Groups the requests of multicast.go, broadcast.go, publish.go, subscribe.go and
--   unsubscribe.go, in Protocol/Totals the responses that count the users, in Protocol/Counts the
--   frames of stat.go, and in Protocol/Calls those of disconnect.go and trigger.go, and in
--   Protocol/Deliver the request of deliver.go.
-- Packet: packet/packer.go, options.go and message.go, the frames between clients and gates.
--   `unpack_message` and the heartbeats are in Packet/Unpack, `ReadMessage` is in Packet/Stream,
--   over the bytes that a connection will still bring. Packet/Outcome says where the fields of a
--   frame stand.
-- Node: Node/Actor is cluster/node/actor.go, Node/Scheduler is cluster/node/scheduler.go with
--   `finishDestroy` and `destroy` of an actor, Scheduler/Relations the relations of users and
--   actors, Node/Router is cluster/node/router.go. `spawn` is `spawnObserved`, `remove_named` is
--   `remove`, `remove_actor` is `removeActor`, `commit_idle` what `killIdleActor` does under its
--   two locks, `add_route` is `AddRouteHandler`; the other functions have the methods' names. An
--   actor is a number that names an object of a heap. Scheduler/Invariant has the steps: `World`
--   adds to the scheduler the actors that a call has taken out and not yet destroyed, so a removal
--   and the end that follows it are two steps with any others between.
-- Dispatcher: abstract.go, route.go and dispatcher.go of internal/dispatcher.
--
-- An int64 is its bit pattern below 2^64, and a test for a positive number is written on the
-- pattern; unsigned words wrap around where the code does. A method of the registry or of the
-- store holds its lock while it reads and writes the state, so it is one step on the state, and an
-- interleaving is a list of steps; where the scheduler takes its lock twice, or `SendCurrent` closes
-- the connection after it unlocks, there are two steps, and `bindSession` is a sequence of calls with
-- any actions of others before each.
-- The channels of an actor are lists that are never full. The loops are recursive on lists; only
-- the printing of a number has fuel, one more than the number, and no number has more digits than
-- that. A panic is `none`. The order of a map's iteration is the order of its entries; the pushes
-- of a fan-out return in any order, each goroutine of golang.org/x/sync/errgroup running once.
--
-- Not modelled: the sockets, goroutines, queues and timers of the network servers and the
-- transporter, the adapters of services (registry, locate, lock, cache, eventbus, log, config),
-- which call other libraries; of the protocol, the frames of state.go, getip.go, isonline.go,
-- handshake.go and heartbeat.go; of a node, the request's context with its versions, the calls of
-- the middlewares among each other, the trigger, the proxy and the provider; the links between
-- gates and nodes; and the weighted and random choice of the dispatcher.
pub mod Base
pub mod Errors
pub mod Buffer
pub mod Session
pub mod Node
pub mod Ownership
pub mod Gate
pub mod Packet
pub mod Protocol
pub mod Dispatcher
