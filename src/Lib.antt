-- ===== src/Lib.antt =====
-- dheart, the daemon with which a group of validators makes threshold signatures: a node takes
-- requests for keys and signatures, queues them, and agrees with the other nodes who takes part in
-- each; the messages of the threshold protocol then go between the nodes through it. This library
-- models the daemon's own logic, with the theorems that make it correct.
--
-- Parts, and how they interact:
--   * Party: party ids, look-up by id and the threshold (utils/party.go, utils/misc.go,
--     worker/helper/misc.go).
--   * Work: the types of work and the requests (worker/types/work_type.go,
--     worker/types/work_request.go).
--   * Message: the messages between nodes, their constructors and keys
--     (types/common/tss_message.go, and the structs that tss_message.pb.go declares).
--   * Queue: the queue of requests, by priority (core/request_queue.go).
--   * Ring: the circular queue with look-up by key (tools/circular_queue.go).
--   * Cache: the messages kept for a worker that has not started (core/cache/message_cache.go, in
--     Cache/Prework), and those of running works, a Ring for each sender
--     (core/cache/work_message_cache.go, in Cache/Works).
--   * Leader: the choice of the leader of a work (ChooseLeader of worker/prework_selection.go).
--   * Available: the parties that said they are available (worker/available_parties.go).
--   * Selection: how leader and members agree on the parties of a work
--     (worker/prework_selection.go): the leader in Selection/Lead, the members in Selection/Member,
--     and the start of a run in Selection/Run.
--   * Presigns: the presigns that wait to be used (core/components/available_presign_manager.go, with
--     the joined ids of utils/party.go). The search and the removal are steps of their own.
--   * Engine: the works that run and the messages to and from them (core/engine.go,
--     core/engine_ecdsa.go, core/engine_eddsa.go, utils/crypto.go): it takes requests from Queue, keeps
--     messages in the two caches of Cache, and starts a worker, which runs Selection. Engine/Works has
--     the works, Engine/Network the messages, and Engine/Calls the calls of both, one after the other.
--   * Rounds: the messages of the threshold protocol, by work and round
--     (core/message/tss_phase_messages.go).
--   * Job: one run of the protocol (worker/job.go): the loop over what comes on its channels.
--   * Monitor: which messages a worker has, and which it asks for again
--     (worker/components/message_monitor.go).
--   * Executor: the jobs of a batch side by side (worker/worker_executor.go), with their start in
--     Executor/Start, the messages of other nodes and the steps of an executor in Executor/Update. It
--     feeds a Monitor, and reaches tss-lib through the record TssLib.
--   * Worker: one work (worker/default_worker.go, worker/helper.go): it keeps messages in
--     Cache/Prework until its Selection is done, and then runs an Executor; Worker/Running has what
--     concerns the executor.
--   * Heart: the requests of Sisu (core/heart.go): it makes works of them, hands these to the Engine, and
--     sends the results back with the requests; Heart/Keys has the private key and the peers.
--   * Blame: who is to blame for a round (blame/manager.go); the rest of the daemon does not use it.
--   * Stream: messages on a stream (p2p/helper.go, and handleStream of p2p/connection_manager.go). A
--     stream is the segments in which its bytes arrive.
--   * Peers: the peers of the configuration and the listeners (p2p/connection_manager.go), with the
--     streams to one peer (p2p/connection.go) in Peers/Streams.
--
-- How state and operations correspond: each Go struct is a record with its fields, each method a
-- function of the same name in snake case from the old state to the new one, with the messages it
-- sends and the callbacks it makes as a list of effects. A nil pointer is `none`; where the code
-- would panic the model says so. A Go map is an association list in the order in which a loop may
-- visit it, so a theorem for every list holds for every order. Locks are left out, but for the
-- two that the code may fail to give back (in Presigns and Engine): an operation is one step, and the
-- orders in which steps meet are lists of events.
--
-- Bounds: numbers are natural numbers where the code keeps them non-negative (lengths, indices,
-- counters), and integers with a sign elsewhere. Every loop is structural recursion on the list it
-- runs over, and every function is total. Fuel is used for the digits of a number n, where n + 1 steps
-- are more than n has digits, and for the turns of handleStream, which runs until an error.
--
-- Not modelled: the cryptography of tss-lib, the network of libp2p, JSON, the database and hashes
-- are parameters where a component uses them. libp2p's host and streams are the record
-- Host of Peers/Streams; how the daemon makes its host (Start and discover of
-- p2p/connection_manager.go) is not modelled. Logs, the HTTP servers, the configuration
-- and the tests are left out.

pub mod Available
pub mod Blame
pub mod Cache
pub mod Common
pub mod Engine
pub mod Examples
pub mod Executor
pub mod Heart
pub mod Job
pub mod Leader
pub mod Message
pub mod Monitor
pub mod Party
pub mod Peers
pub mod Presigns
pub mod Queue
pub mod Ring
pub mod Rounds
pub mod Selection
pub mod Stream
pub mod Work
pub mod Worker
