-- ===== src/Lib.antt =====
-- YuSui, a gateway for temporary access to the assets of a project: a requester asks for a ticket,
-- an approver grants it, a project agent opens the way for its lifetime, and the server holds the
-- shell. The library models the logic behind these, from server/internal and agent/internal.
--
-- Store (server/internal/store): Rows has the rows of models.go, Conn a database connection with
-- failing calls and transactions (pool.go), Tickets and Catalog the queries of the *.sql.go files
-- with the constraints of the first migration. Laws and Lookup say what queries, transactions and
-- lookups by id promise. Any database call may fail, as the numbers in `fails` choose; a transaction
-- that fails leaves the tables as it found them. What happens within one transaction on a locked row
-- happens alone, so the calls of the engine are modelled one after the other.
--
-- Pool opens the connection with its retries, Audit has the listings of the audit log.
-- Users, Agents and Inventory have the queries of the login, of registration and of the catalog; a
-- row that an INSERT adds stands at the end of its table.
--
-- Exec has the calls themselves: a result, or an error, and the state after either. After has the
-- rules by which a property of a call is put together from its parts.
--
-- Policy (server/internal/policy/engine.go): World has what an operation may change, the database,
-- the map of forward addresses, the state behind the gateway and the sessions. Transition is the
-- guarded status change, Tx the transactions of the operations with their pure helpers, Engine the
-- operations of a request and Scheduler those of the background: Submit is `submit`, ExpireDue is
-- `expire_due`, and so on. Service runs any sequence of them, with restarts, passing time and
-- foreign changes between. Step is the abstract workflow, and Commits, Moves, Changes, Submission
-- and Refines show that each transaction is a step of it; Workflow and Passes lift this to whole
-- operations and History to whole runs. Log, LogKept and Fate have the properties of the workflow,
-- Outcomes and Approval what an operation that succeeds has achieved, Failing what one that fails
-- leaves behind, and Progress what gets done when the database and the gateway answer. Exec/Gives has
-- the rules for calls that are bound to succeed.
--
-- Gateway (server/internal/agentgw/gateway.go) is the interface between the engine and the agents,
-- a record that the engine takes; Memory is its mock, and Agent/Control, from
-- server/internal/agentctl/controller.go, the real one, where commands and acks may be lost.
-- Agent/Forward is the agent's forwarder, agent/internal/forward/forward.go, with handleApply of
-- agent/internal/control/client.go. Rules and Delivery say what a command has done there. Registry is
-- the other half of the controller, Register and the connection that each control stream stands for;
-- Enlisting and Registering have what they change. Messages, Client and Routing have the messages of a
-- stream, the session of agent/internal/control/client.go, and the waiting calls of the controller;
-- Exchange puts them together, and Refinement shows that Control says what they do. Nft is the kernel
-- enforcer, agent/internal/nft/nft.go, whose set is told from the commands that were run; Overlay is
-- agent/internal/overlay/overlay.go, Main the start of agent/cmd/yusui-agent/main.go. The overlay's wait
-- has fuel, and is shown to end with as many rounds as it takes until the interface is up or the
-- context is done.
--
-- WebShell: Filter is server/internal/webshell/filter.go, Gate the stdin loop of `terminal` in
-- server/internal/httpapi/webshell.go and scanRaw of server/internal/webshell/session.go, Remote a
-- plain terminal to judge it by. Strictest, Gating and Confirming have the properties. Manager is
-- server/internal/webshell/manager.go with Close of session.go, over the rows of
-- server/internal/store/sessions.sql.go in Store/Sessions; it is a session closer for the engine, and
-- its forwards are the engine's. Sessions and Revoked say what opening and revoking do to it. Output is
-- Subscribe and broadcast of session.go in their steps, Broadcasting what the subscribers get. Recorder
-- is server/internal/webshell/recorder.go with pumpStdout of session.go, Pumping what a file then has.
--
-- Auth (server/internal/auth): Password is the password policy, Identity the login with its lockout
-- and the step-up, Jwt the tokens and Guards the middleware that a route puts before its handler.
-- Policy, Login and Lockout have the properties.
--
-- Catalog: Service is server/internal/services/catalog.go and Secrets
-- server/internal/secrets/secrets.go. Enrollment says what a change of enrollment leaves behind, Vault
-- that a credential stored is the one that is opened.
--
-- Http (server/internal/httpapi): Tickets, Accounts and Catalog are the handlers of tickets.go,
-- auth.go and catalog.go with their routes of router.go: functions from what the request carries and
-- the world to an answer and the world after it. Admission, Owners, Sessions and Admins say who gets
-- past the routes and what a token is good for. Terminal is the first half of `terminal` in
-- webshell.go, up to the loops, and Attaching says who gets one. One request is served after the other.
--
-- Netbird is server/internal/netbird/adapter.go over a service that answers its requests, Config
-- server/internal/config/config.go, and Startup what server/cmd/yusui-server/main.go does to the
-- database and to NetBird when the server starts.
--
-- Numbers are natural numbers; a signed 32-bit field is an integer and becomes unsigned as Go
-- converts it. A time is in nanoseconds, an identifier, a ULID and a rule id are the number in them,
-- an address its text. Loops over rows and bytes are recursions on lists, so only the waits for
-- the overlay and for the database need fuel; one round more than it takes to a stop is enough.
-- Regular expressions, netip.ParseAddr and ParsePrefix, the ULID generator, net.Listen, bcrypt, the
-- JWT library, AES-GCM, rand.Reader, the unicode classes, time.ParseDuration, the nft and netbird
-- commands, the network interfaces and the API of NetBird are parameters.
--
-- Not modelled: log lines; error texts beyond their sentinel; JSON, headers, request ids and time
-- limits of the HTTP server; the frames in which a terminal is sent its output, and the relaying of bytes
-- by the forwarder; the wiring of the programs and their shutdown; the audit sink, which writes log
-- lines; key material (base64 and a hash); generated code, the web console, the deployment files.
pub mod Prelude
pub mod Exec
pub mod Store
pub mod WebShell
pub mod Gateway
pub mod Agent
pub mod Policy
pub mod Auth
pub mod Catalog
pub mod Http
pub mod Netbird
pub mod Config
pub mod Startup
pub mod Examples
