-- ===== src/Lib.antt =====
-- Models and theorems of TetherDB, an offline-first database whose server merges the changes of many
-- clients by the last write.
--
-- The parts and how they interact. A client sends a batch of changes; the server validates it,
-- stages it against the stored records under the tables' permissions and the conflict rule, and
-- commits it to the user's partition or the shared one, with an entry in that partition's changelog
-- under a global sequence number. A client that was away catches up from the changelog, or by a
-- snapshot if entries that it lacks were compacted away; either is filtered by what the user may
-- read. Rate limiters guard connections, logins and registrations. A client writes to its own storage
-- first and queues the change in an outbox, from which it sends batches while it is connected; an
-- acknowledged batch leaves the outbox.
--
-- The files, and the code that each is about:
--   Base        names from the library and lemmas on tests, lists, strings and maps. A string is the
--               list of its UTF-16 code units, and a `Map` the list of its entries in insertion order
--   Shared/Clock        src/shared/clock.ts: `shouldOverwrite`
--   Shared/Types        src/shared/types/records.ts, permissions.ts and tables.ts
--   Server/Errors       src/server/errors.ts: the codes; an exception is a `Result`
--   Server/Validate     src/server/shared/validate.ts, and the table names of src/shared/validate.ts
--   Server/User         src/server/storage/user.ts: the three kinds of user
--   Server/Security     src/server/security/types.ts and `isPermissionAllowed` of filter.ts
--   Server/Table        src/server/storage/table.ts: settings and permissions
--   Server/TableRecords src/server/storage/table.ts: `getRecord`, `getAllRecords`, `applyChanges` and
--                       `insertRows`, with Reading
--   Server/Storage      src/server/storage/storage.ts: `validateBatchChanges`, `isSnapshotRequired`,
--                       `createAppliedRecords`
--   Server/Memory       src/server/storage/memory.ts: the state, with Tables, Users, History (reading
--                       and pruning the changelogs) and Apply (`applyChanges`, phase by phase)
--   Server/Resolver     src/server/security/resolver.ts
--   Server/Filter       src/server/security/filter.ts: snapshots and changes for a user; Audience tells
--                       who may see what without the code's tests, and Sent that this is what goes out
--   Server/RateLimiter  src/server/shared/rate-limiter.ts
--   Server/Synchronize  src/server/sync.ts: `performSync`
--   Server/Broadcast    src/server/sync.ts: `broadcastChanges`
--   Server/Sessions     src/server/sync.ts: connections, authentication and the limit per user; Steps
--                       has what may happen to them
--   Shared/Messages     src/shared/types/client-messages.ts, server-messages.ts and protocol.ts
--   Client/ObjectStore  the browser's object stores, as far as the storage uses them
--   Client/Storage      src/client/storage/storage.ts: records, outbox, metadata and batches, with
--                       Outbox, Reading and Remote
--   Client/Table        src/client/table.ts: writes and deletions, with the mutations that they queue
--   Client/Connection   src/client/sync/connection.ts: sockets, timers and backoff; Steps has what may
--                       happen to a manager
--   Client/Sync         src/client/sync/sync.ts: pushes, requests and the server's messages; Steps has
--                       what may happen to a client
--   Examples            concrete inputs
--
-- An operation takes the state and returns the next one; one that may throw returns a `Result`, with
-- the state beside it where the code has changed it before it throws. `applyChanges` stages on copies
-- of the tables and writes only the sequence counter before its commit. Its staging and its commit run
-- without a wait; the validation before them awaits the look-up of each table and is taken as one step
-- with them, so that a table that is deleted in between is out of the model's reach. `createUser`
-- waits for the password's hash between its test and its writes, and is two steps. A push of the
-- client is three, its start, the reading of the outbox and the sending, and the handler of a message
-- is one. The client's storage applies a batch of the server as one step, though its reading and its
-- writing are a transaction each, so that a local write in between is out of reach. So are a broadcast
-- and a synchronisation, which wait for the look-up of tables, names and records. The connection and
-- the client are step relations: their steps may come in any order. Loops
-- are structural recursion; no fuel is needed.
--
-- Parameters stand for what is not in the repository: the clock, new ids, the password hash, the size
-- of a payload, trimming and lower case, the text of a message, whether a socket can be made or is open, and the
-- type of the payloads with its `null` and `undefined`. Numbers that
-- the code checks to be non-negative integers are natural numbers.
--
-- Not modelled: the file and SQLite engines, the change batches of the server's coordinator, the
-- client's indexes, subscriptions and facade, HTTP, the command line and cryptography.
pub mod Base
pub mod Shared
pub mod Server
pub mod Client
pub mod Examples
