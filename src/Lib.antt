-- ===== src/Lib.antt =====
-- SenseGrid: sensors publish readings over MQTT; the bridge (cmd/ingest) checks them and puts them on a
-- JetStream stream; the processor (cmd/processor) has two consumers of it, one that stores rows in the
-- database and one that keeps sliding windows, runs the detectors and opens and closes alerts; control
-- keeps the desired configuration of each device (internal/shadow) and rolls configurations out in
-- stages (internal/rollout). A device applies such a configuration and reports what it did, and the
-- reconciler puts the report where the rollouts read it. Devices get their identity from a claim
-- (cmd/control, internal/provisioning). cmd/fleet simulates devices, and cmd/hostagent is one.
--
-- Which file models which code:
--   Telemetry/Schema, Topics       internal/telemetry/schema.go: Reading, Validate, the topics
--   Ingest/Limiter, Handler        cmd/ingest/ratelimit.go and handler.go: Allow, handle, publishDLQ
--   Persist/Rows, Consumer         cmd/processor/consumer.go: flatten, insertBatch, onMessage, flush
--   Window/Stats, Buffer, Registry internal/window: Welford and EWMA, Insert and evict, the registry
--   Rules/Rule, Watch              internal/rules: Matches, ForSensor, Load, the Watcher
--   Anomaly/Detectors, Evaluator   internal/anomaly: the three detectors, Update and Forget
--   Alerts/Machine, Store, Queries internal/alerts: Machine.Next, every query of the store
--   Windowed/Consumer              cmd/processor/windowed.go and internal/alerts/publisher.go
--   Shadow/Types, Drift, Store     internal/shadow: Desired and Reported, Drift, the store
--   Rollout/Types, Cohort, Health, Validate, Services, Signals, Engine, Commands
--                                  internal/rollout: the engine and what it is built against
--   Rollout/Tables, Store, Backed  internal/rollout/store.go: its tables and statements, the engine over them
--   Shadow/Reconciler              internal/shadow/reconciler.go and publisher.go: onMessage, PublishDesired
--   Device/Config, Handler         cmd/fleet/device.go: appliedConfig, applyPartial, configHandler
--   Device/Signal                  cmd/fleet/signal.go: sensorSignal and its samples
--   Device/Sampler, Sampling, Loop cmd/fleet/device.go: virtualDevice, publishOne, collect, sampleLoop
--   Fleet/Runtime, Tokens, Manager, Status
--                                  cmd/fleet/runtime_config.go and manager.go: the pool of tokens, Scale,
--                                  startSlot, Partition, Status
--   Fleet/Api                      cmd/fleet/controlapi.go: its four handlers
--   Fleet/Provisioning             internal/provisioning: LoadOrClaim, claim, load, save
--   Hostagent/Config, Agent        cmd/hostagent: its sensors, configHandler and runSamplingLoop
--   Control/Devices, Tokens        internal/devices and internal/devicestore: the registry and the tokens
--   Control/Claim, Auth            cmd/control/claim.go and auth.go: the claim handler, requireRole
--   Control/Login                  internal/users and cmd/control/auth_login.go: users and their logins
--   Control/Http, ShadowApi, RolloutApi, AlertApi
--                                  cmd/control/devices_handlers.go, rollout_handlers.go, alerts_handlers.go
--   Control/Relay                  cmd/control/ws_handler.go: the live feed of a console
--   Dynsec/Client, Commands        internal/dynsec/client.go: do, handleResponse, EnsureRole, CreateClient
--   Dynsec/Bootstrap               cmd/control/main.go: connectDynsec and attemptDynsecBootstrap
--   Migrations/Split, Run          internal/migrations: splitStatements, Run
--   Config/Env, Load               internal/config: Load and the readers of environment variables
-- The other files hold proofs and are named for what they prove; Examples has the runs at concrete
-- inputs, and Common what the parts share.
--
-- How state is modelled. A method that holds a mutex for its whole body is a function from state to
-- state, and concurrent use is a sequence of such calls in any order. A flush of the persistence consumer,
-- a message and a silence sweep of the windowed consumer are each one step too. A write through a shared pointer
-- is a write to the map that holds it (`put`, `put_window`). What lies behind an interface is a world
-- that calls pass on: JetStream, the key-value bucket, the database, the clock, the source of ids,
-- encoding/json, uuid.Parse, the YAML parser, the token bucket, the JWT library, bcrypt, files, HTTP and
-- math/rand are parameters, and what a theorem relies on of them stands in a record of laws (BucketLaws,
-- Apart, StreamLaws, HostLaws, JwtLaws, RoleLaws, NoRace) or a named predicate (Claimable, IsStocked,
-- ReadsBack). Of encoding/json a theorem relies on the value at hand only: that this configuration, or
-- this report, is read back as it was written, but for an empty list of sensors, which omitempty leaves
-- out. A fleet claims its devices with tokens of which each is good for one claim. The tables of
-- alerts, readings and rollouts are lists of rows with the unique indexes of deploy/migrations; a query
-- that is not answered is a flag of the call and changes nothing.
--
-- The engine of the rollouts is built against an interface (Rollout/Services), and Rollout/Backed fills
-- that interface with the tables of the store; Rollout/Reverting fills it with the shadow store and its
-- publisher too. A control plane that restarts is a new engine over the tables that the old one left; it
-- stops between two calls, and what an interrupted call leaves is not modelled. Rollouts are compared up to the times created_at and updated_at, which only the table sets.
-- In internal/dynsec the goroutines in `do` and the callback of the MQTT client are events in any order:
-- a call is entered, a message comes in, a call ends by one of the cases of its select. So are the
-- messages of NATS and the writer of a console. The database of the migrations is a parameter but for
-- the rows of schema_migrations.
--
-- A device's sampling loop and what other goroutines do to it are steps: a tick, a partition command, a
-- callback of the MQTT client, a new configuration. Scale is one call that no other call of it
-- overlaps, and its workers, which claim for different slots, start them in the order of the slots.
-- The broker's clients, the registry and Redis are lists, and what each call of the claim handler
-- meets outside (a failure, a lost answer) is a record of its own. An id of a device is compared as the
-- text of its request, so it is taken to be in the canonical form.
--
-- Bounds. Times and durations are numbers of nanoseconds; an int that the code treats alike for every
-- value below 1 is 0 there; float64 is an interface of operations (Common/Floats) of which no law is
-- assumed; counters do not overflow. A time.Duration that is made of a number of seconds or milliseconds
-- (bake times, intervals of the fleet's devices, environment variables) keeps the wrap-around of its
-- 64 bits, and a ticker that is reset to a period below 1 is a panic of the device's loop. FNV-1a keeps its 32 bits, and the int64 of a sequence number its
-- wrap-around. The only fuel is that of the binary search (Window/Buffer.search), which gets the
-- length of the buffer, as each round narrows the interval by one at least.
-- An index out of range in the rollout engine is a flag of its state.
--
-- Not modelled: log lines, metrics and spans; timeouts and contexts; the loops of Run, which are lists
-- of ticks and messages; the rounding of times by the database; reading and writing of HTTP bodies,
-- which are values, or none where they do not decode; white space beyond ASCII in splitStatements; a
-- percentage of a rollout request below 0; fractions of a second in the bake time that the API shows; how a device first connects; how the host agent reads its
-- machine; the wiring of the processes (the main functions, streams, servers, certificates); the
-- commands that create users and tokens; the web clients and the firmware.
pub mod Common
pub mod Anomaly
pub mod Alerts
pub mod Window
pub mod Shadow
pub mod Rollout
pub mod Telemetry
pub mod Ingest
pub mod Persist
pub mod Rules
pub mod Windowed
pub mod Device
pub mod Fleet
pub mod Control
pub mod Hostagent
pub mod Config
pub mod Migrations
pub mod Dynsec
mod Examples
