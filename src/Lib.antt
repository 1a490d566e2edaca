-- ===== src/Lib.antt =====
-- The core of keelmesh: what the gate, the loop, the agent and the channel core do with tasks, runs,
-- events and messages, modelled from the Go sources, with the theorems that make it correct.
--
-- A message of a platform comes in through a channel (internal/infrastructure/persistence/memory/
-- channel), which hands it to its subscribers and forwards it to the gate. The gate
-- (internal/application/gate) keeps a task for it, starts a goroutine that gives the task to an
-- executor, and records every change of state in an audit trail. The executor runs an agent
-- (internal/application/agent), whose events are stored, numbered and streamed; a run of several
-- steps is kept by the loop (internal/application/loop), which a bridge
-- (internal/bootstrap/loopcore) starts for a message and moves by the agent's events. Answers go
-- through an outbox and a router of deliveries to the client of the channel core, and out through a
-- channel's send, which asks the gate for its authorization, and which queues, splits and retries.
--
-- Files, by the code that they are about:
--   Prelude and below: tests on the native numbers, strings, lists, maps as association lists, the
--     64-bit numbers as integers, and Go's errors as a data type.
--   Gate/Types, Store: the records of internal/application/gate, and its interfaces over any stored
--     world. Gate/Memory: memoryTaskRepository (repository.go) and memoryAuditStore (audit.go).
--   Gate/Service, Handlers, Admission, Execution: internal/application/gate/service.go, a function
--     for each method, with the method's name in lower case. A handler takes the service and the
--     request (none is nil) and returns the new service and the response. startExecution records a
--     goroutine in the field spawned; execute is begin, then the executor, then finish, so that
--     other calls may come in between.
--   Gate/Shared, Changes, Refinement, Invariants: the service of New() among others that use its
--     stores: each handler is one of the audited steps of Changes, which writes what comes of an
--     earlier read, and what these steps keep. Gate/Moves: runs in which they interleave, a move at a time.
--     Gate/System: what these runs keep. Gate/Local, Guarantees: what single calls promise, from the
--     read to the append with nothing in between.
--   Gate/Postgres: the task repository of internal/application/gate/postgres_repository.go. Its Laws
--     say what the SQL statements do; Atomic, Written, Refinement: an audited transition. Audit:
--     PostgresAuditStore (audit.go).
--   Loop/Types, Service: internal/application/loop/service.go over any run repository.
--     Loop/Invariant, Stored: when a run is valid, and that the stored runs are. Loop/Postgres:
--     PostgresRepository of service.go.
--   Agent/Events, Service: the memory event store of internal/application/agent/events.go, and
--     service.go. Agent/Laws: numbering, listing and streaming. Agent/Postgres: the event store of
--     events.go on a database. Agent/Backends: echo_backend.go and openai_backend.go.
--   Channel/Types: internal/domain/channel.go. Channel/Repository, Send, Worker, Split, Inbound,
--     Actions: the files of internal/infrastructure/persistence/memory/channel, each with its Laws.
--     Channel/Prepare: PrepareInbound (init.go). Channel/Lifecycle: start.go and stop.go.
--     Channel/Janitor: a round of runJanitor (start.go). Channel/Status: status.go and list.go.
--   Delivery/Outbox: internal/application/gate/outbox_dispatcher.go. Delivery/Router:
--     internal/infrastructure/messaging/delivery/router.go. Delivery/Laws: from one to the other.
--   Api: internal/application/channel. Messages: the requests and responses; Send: send_message.go,
--     send_media.go, edit_message.go, get_delivery_status.go; Info: list_channels.go and
--     get_channel.go; Stream: subscribe_inbound.go; Actions: the files of typing, reactions,
--     placeholders, streaming messages, notifications and prepare_inbound.go.
--   Clients/Gate, Channel, Agent: client.go of internal/infrastructure/gateclient, channelclient and
--     agentclient, and the projector of internal/bootstrap/gatecore/run.go. Their Laws put the
--     client of one part on the service of the other.
--   Bridge/Inbound, Receive, Project: internal/bootstrap/loopcore/bridge.go: the conversion of a
--     message, a round of the receiver, and the projection of agent events on a run.
--   Tests: the theorems at concrete inputs.
--
-- Parameters: uuid.NewString and the clock (Outside, and arguments named now); how an error reads
-- (render, text_of); the repository, the audit store and the dispatcher of a gate service; the
-- executor's answer; the backend that an agent service is given; the authorizer of a channel
-- repository; and the platform adapters, which are functions on a state of the platforms. The
-- limiter and the backoff of a worker answer by a script, one round for each attempt, without any
-- assumption. The SQL statements of the Postgres stores and the JSON encoding are fields of
-- records (Sql, Codec, EventSql, EventCodec, RunSql, RunCodec, AuditSql, Model, Json), the outbox
-- runtime is OutboxStore, and remote calls are GateApi, ChannelApi and Clients; sorting is an
-- argument.
--
-- Bounds. Numbers of 64 bits are integers, and the counter of attempts wraps at 2^63. Sequence
-- numbers of agent events are natural numbers. The loop of splitOutbound is on fuel: the length of
-- the text, since a round takes at least one character. Retries are recursion on the number
-- that is left, so they end.
--
-- Concurrency. What a mutex protects is one step. The operations of the gate hold the locks of its
-- stores one at a time: in Gate/Moves the read of a handler, of either part of execute or of a
-- progress report may be older than its write by any number of other writes, and its audit event
-- waits for an append of its own, in any order; only an admission holds the service's lock from its
-- read to its write. What follows a write in the same call (the answer, the cancel function, the
-- start of a goroutine, the dispatch) is taken together with the write, since it does not touch
-- the stores. All other theorems on the gate are about a call by itself. A progress report
-- writes without a comparison, so the theorems on the audit trail and on cancelled tasks assume
-- that nothing comes between its read and its write; Tests/Gate has a run that loses a cancellation.
--
-- Not modelled: the schemas of the databases; the platform adapters (remote services); the rate
-- limiter, the forwarder and the media store of the channel repository; of the
-- handlers of internal/application/channel the ones on commands, the media store and the probe; the
-- connections of the clients; the configuration, the transport and the observability of the processes.
pub mod Prelude
pub mod Gate
pub mod Loop
pub mod Agent
pub mod Channel
pub mod Delivery
pub mod Api
pub mod Clients
pub mod Bridge
pub mod Tests
