-- ===== src/Lib.antt =====
-- thiam-api: the core of a Go back end, in the parts that hold state or decide something.
--
-- The program keeps domain events in an outbox table, from which a worker sends them to a RabbitMQ
-- exchange; it stores notifications, preferences, push tokens and delivery logs in PostgreSQL and
-- sends e-mails and pushes; it answers HTTP requests, and remote calls over RabbitMQ and NATS; its
-- errors are application errors with a kind, wrapped on the way up. `Run` connects, starts and stops
-- these parts in their order.
--
-- How calls are read. Everything outside the process (database, broker, mail server, clock, UUIDs)
-- is an argument: `Exec.Env` says for the n-th call since the start whether it goes through, is
-- refused, or has its effect while its answer is lost, and what the clock shows. A function that
-- returns a Go error is a function from a `World` (the state and the number of calls made) to a
-- `Result` and the next `World`. A panic is a result. Contexts are not modelled: a context that
-- is cancelled is a call that fails. Log lines are left out but where logging is the subject.
--
--   Base          names of the library, Boolean tests, lists and signed integers on native numbers
--   Errors        Go's error values, errors.Is, errors.As; Kind and the fields of pkg/apperror
--   AppError      pkg/apperror/error.go: constructors, options, tests for kinds
--   Exec          calls and their faults; Exec.Preserves: invariants; Exec.Faults: what returns
--   Event         internal/entity/event: events, the events an aggregate raises, outbox rows
--   Outbox        internal/repo/persistent/outbox_postgres.go: Store, FetchUnpublished,
--                 MarkPublished, MarkFailed (store, fetch_unpublished, mark_published, mark_failed)
--   Outbox.Worker pkg/eventbus/worker.go and pkg/eventbus/rabbitmq.go: NewWorker, run,
--                 processOutbox, Publish (new_worker, run, process_outbox, publish); `sent` is what the
--                 channel was handed, which is not in confirm mode
--   Bus           pkg/eventbus/rabbitmq.go and rabbitmq_subscriber.go: the constructors, Close, and
--                 Subscribe up to its goroutine
--   Subscriber    pkg/eventbus/rabbitmq_subscriber.go: the goroutine of Subscribe, as a step
--                 relation; Reader: internal/usecase/notification/worker.go, which reads from it;
--                 Reader.Raised: the way of an event from the aggregate to this reader
--   Notification  internal/entity/notification, and the tables of the migrations
--     Inbox         internal/repo/persistent/notification_postgres.go
--     Preferences   internal/repo/persistent/notification_preferences_postgres.go; Abstract: the
--                   map that it and its use case stand for
--     PushTokens    internal/repo/persistent/push_token_postgres.go
--     DeliveryLogs  internal/repo/persistent/delivery_log_postgres.go
--     Service       internal/usecase/notification/service.go: SendInApp, SendPush, SendEmail
--     UseCases      internal/usecase/notification/inapp.go, preferences.go and push_token.go
--   Http          internal/controller/http/v1/error.go and health.go; Pipeline: router.go and the
--                 middlewares requestid.go, logger.go and recovery.go, around any routes
--   Logger        pkg/logger/sampler.go (Sampler, Sampled; Sampled.Derived: around a Zerolog logger),
--                 redact.go (Redact), logger.go (Zerolog)
--   Notify        pkg/notify/smtp.go and pkg/notify/fcm.go: the text of an e-mail, the SMTP
--                 commands, the request and the results of a push; Sender: what the users of a
--                 sender rely on (interfaces.go)
--   Postgres      pkg/postgres/postgres.go and options.go: New
--   Rpc           pkg/rabbitmq/rmq_rpc and pkg/nats/nats_rpc: connecting, serving a call, the
--                 client's table of pending calls, and calls from end to end (Client.Remote for
--                 RabbitMQ, Client.RoundTrip for NATS); Lifecycle: the goroutine of a server or client with Shutdown; Setup: New with its options
--   Servers       pkg/httpserver/server.go, pkg/grpcserver/server.go and the NATS server: Start and
--                 Shutdown; Setup: New with the options, and that of the NATS client
--   Config        config/config.go: the configuration, and the variables that its fields are read from
--   App           internal/app/app.go: Run, with the worker and the servers that it makes;
--                 Migrate: internal/app/migrate.go; Main: cmd/app/main.go, behind the init of a
--                 build with the tag migrate
--
-- Tables are lists of rows in the order of insertion. The order of a query is a parameter `order`,
-- with the laws that a theorem needs as hypotheses (Outbox.Rows.OrderLaws, Notification.Inbox.Order).
-- Unique constraints are tests that make a statement fail. What a JSONB or a TIME column gives back for
-- what was written is a parameter of the statements that write the outbox and the preferences; other
-- columns keep their values. Ids and times are natural numbers, 0 being the nil id and the
-- zero time.
--
-- Recursion. The worker's loop and the interleavings of goroutines run over a list of signals or
-- steps, so that a statement for all lists is one for every time at which they are observed; the
-- connection loop runs over its number of attempts; all other loops run over their rows. No
-- function has fuel.
--
-- Machine integers. The sampler's counter is the bit pattern of an int64, with its wrap written
-- out. The limit of a batch, the rate, the attempts and the poll interval may be negative and are ℤ;
-- the interval in milliseconds is multiplied in an int64.
--
-- Not modelled. What memory can hold: a capacity that is too large for `make` panics. The parser of the configuration is a parameter: what its documentation says of a
-- field is a hypothesis. The RPC routers are empty. The generated code of docs/ and the SQL of
-- migrations/ are not Go code of the program; the constraints of the tables are taken from the
-- latter. The interfaces of internal/repo/contracts.go and internal/usecase/contracts.go have no
-- code. JSON encoding, regular expressions, strings.ToLower, fiber's matching of routes and what
-- zerolog writes are parameters, or as their documentation says.
pub mod Base
pub mod Errors
pub mod AppError
pub mod Exec
pub mod Event
pub mod Outbox
pub mod Bus
pub mod Subscriber
pub mod Notification
pub mod Http
pub mod Logger
pub mod Notify
pub mod Postgres
pub mod Rpc
pub mod Servers
pub mod Config
pub mod App
