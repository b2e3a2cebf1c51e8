-- ===== src/Lib.antt =====
-- CraftControl manages a Minecraft Bedrock server. A control plane (apps/server/controlplane) keeps
-- the operations, players and accounts of a panel; a host agent (services/bedrock-proxy) carries
-- out one operation at a time on the host: it writes server.properties, restarts the container and
-- waits until the server answers.
--
-- Files and the code they model:
-- + Base: the tests, dictionaries, integers and JSON values that the parts share. A Python dict is
--   an association list with one entry for each key.
-- + Agent (services/bedrock-proxy/src): Record and Store are store/store.py, Settings and Executor
--   are runtime/operations.py, Queue is runtime/queue_worker.py, Handler is http/handler.py and
--   Router is http/router.py with auth/auth.py. A request goes from Router to Handler, which
--   creates a record in the Store and puts an item on the Queue; a worker round takes the item and
--   runs the Executor, which updates the record.
-- + Operation (apps/server/controlplane/src/operations): Lifecycle is lifecycle.py; Machine makes a
--   method call a value, so that a history is a list of calls; Dicts is `from_dict`. Service
--   has the table of repository.py, and the requests of service.py that create an operation or a
--   retry of one; its Listing has the pages. Worker is the rest of service.py: State is what a
--   thread sees and changes, Observe the comparison of the server with what was asked, Stages
--   `_run`, Health its wait, Reclaim the end of an operation whose thread has died, and Reconcile
--   the reconciliation that an operator asks for. A thread holds its own copy of the operation
--   beside the row of the table; Threads has the threads of one process together, with the requests.
-- + Schema (apps/server/controlplane/src/core/schema.py): the settings, and the validation of a
--   value, with which REVIEW normalizes the changes of an operation.
-- + Auth (apps/server/controlplane/src/auth/service.py): Tables holds the rows, Transaction is
--   `_connect`, Access has invitations and claims, Logins has logins and suspensions, Sessions has
--   authentication and the revocation of sessions.
-- + Events (apps/server/controlplane/src/core/events.py, and the event table of core/repository.py):
--   the broker that fans out the events of the services to the streams of the browsers. Its threads
--   interleave between the write of an event and its offer, and between the replay of a stream and
--   its queue. An offer puts the event into all queues at once.
-- + Players (apps/server/controlplane/src/players): the tables, the identities and the daily counters of
--   sqlite.py; Presence and Marks are the methods of repository.py that change the tables. A player is
--   known by a temporary identity, of the name, until an account id comes.
-- + Telemetry (apps/server/controlplane/src/telemetry): the ingestion of service.py, and in Ingest the
--   event table of repository.py.
-- + Runtime (apps/server/controlplane/src/runtime/reconciliation.py): the threads that refresh the
--   observed state of the server, their lock and their pending requests.
-- + Migrations (apps/server/controlplane/src/core/migrations.py, and `initialize` of core/repository.py):
--   the versions of the database, whose contents are a parameter.
-- + Backup (apps/server/controlplane/src/operations/backup.py): the listing and the pruning of backups;
--   Hold has the console commands of a creation.
-- + Exports (apps/server/controlplane/src/core/exports.py): the cells of an exported CSV file.
-- + Scenarios, in each part, runs the definitions and the theorems on concrete inputs.
--
-- A method that changes its object returns the new one. Times are numbers of microseconds, and each
-- reading of a clock, each random token and the success of each write to SQLite is an argument.
-- A lock makes the method that holds it one step; the steps of threads interleave as whole steps.
-- A block on a connection to SQLite is one step as well, in Auth and in Players: the code does not begin
-- its transactions before their first write, so that another connection can commit between the reads
-- of a block and its writes. What such an overlap does is left out, and so are other processes on the
-- same database.
-- Loops are structural recursion on the list that they go through. The one loop on a clock, the wait
-- of Operation.Worker.Health, has one round of fuel for each second of its timeout and one more, and
-- takes its value from the proof that this is enough. Its clock moves with each observation, by the
-- argument `delay`, and with each sleep, by at least the time asked for; no other step moves it. The
-- allocation of play time to days, in Players, has a round for each millionth of a second, and each of
-- its rounds moves its cursor.
--
-- Not modelled: sockets, JSON parsing, Docker, the file system and the health probe (parameters),
-- logging, the digests of passwords and tokens (the parameter `Crypto`), the other services of the
-- control plane, the web client, and the start-up of the processes.
pub mod Agent
pub mod Auth
pub mod Backup
pub mod Base
pub mod Events
pub mod Exports
pub mod Migrations
pub mod Operation
pub mod Players
pub mod Runtime
pub mod Schema
pub mod Telemetry
