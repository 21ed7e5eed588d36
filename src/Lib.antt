-- ===== src/Lib.antt =====
-- MKK Luna: teams, tasks, comments and sessions over MySQL, in Go.
--
-- The program. HTTP handlers (internal/api) call the services (internal/service), which check the
-- caller's place in a team and call the repositories (internal/repository), one method for each SQL
-- statement or transaction. The team service also asks a Redis lock (internal/infra/redislock) and a
-- mail sender (internal/infra/email).
--
-- The files.
-- - Schema: the rows, as the structs of internal/repository, and the tables together.
-- - World: the state that the services act on, and what a call of MySQL, of the lock or of the mail
--   service does to it; World/Rules: how such a call ends, for an arbitrary claim on the outcome.
-- - Text: the parts of Go's packages strings and time that the services use.
-- - Repository/Users, Teams, Members, Tasks, Comments, History, Sessions: the files user_repo.go,
--   team_repo.go, team_member_repo.go, task_repo.go, task_comment_repo.go, task_history_repo.go and
--   session_repo.go of internal/repository, a definition for each method.
-- - Task: internal/service/task.go. Fields has the enumerations and the rights of roles, Patch has
--   parseTaskPatch, Diff has buildTaskDiffEntries, Access has the steps with which the methods begin,
--   and Service has the methods. Rules has a lemma for each method that lists how it ends;
--   Atomicity, Rights, Records, Audit and Reading have the theorems.
-- - Team: internal/service/team.go. Service has the methods, Rules the lemmas, Laws and
--   Owners the theorems.
-- - Auth: internal/service/auth.go. Config has the settings that the service reads and the Provider,
--   Validation the checks of a registration, Tokens what makes and reads tokens, and Service has
--   Register, Login and Refresh. Tokens/Rules and Service/Rules list how the steps end;
--   Validation/Laws, Tokens/Trip, Rotation, Credentials and Registration have the theorems.
-- - Stats: internal/service/stats.go; the queries of analytics_repo.go are Repository/Analytics. Groups
--   and Places have the lemmas on the groups and rows of the top creators, Laws has the theorem.
-- - Integrity: the invariant that the integrity query checks. Statements has what each statement keeps
--   of it, and Steps follows the methods of the task and team services.
-- - Http: the answers of handlers; Api: handlers as functions on worlds; Api/Helpers,
--   Api/Tasks, Api/Comments, Api/Teams and Api/Auth: the files of those names in internal/api.
--   Tasks/Laws, Tasks/Lists, Auth/Laws and Honesty have the theorems.
-- - Api/Middleware: internal/api/middleware/auth.go.
-- - TaskCache: internal/infra/cache/task_cache.go; Fresh has the theorem.
-- - Redis: the commands that the program sends to Redis, and Redis/Keys the keys and values.
-- - Lock: internal/infra/redislock/locker.go. Rules lists how the operations end, Exclusion has callers
--   that take and release locks in any order, and Laws how a lock is taken again.
-- - Idempotency: internal/api/middleware/idempotency.go, and Idempotency/Store:
--   internal/infra/idempotency/store.go. Cases lists how a request can end, Once, Replay and Race
--   have the theorems.
-- - Lockout: internal/infra/auth/lockout.go. Laws counts the failures of a login, and Quiet
--   says that only Redis is changed.
-- - Limiter: internal/infra/ratelimit/memory.go, as functions on the map of its entries and on the two
--   readings of the clock; Window and Laws have the theorems.
-- - Prelude and the modules below it: library names, tests on numbers and texts, and lemmas on lists.
-- - Samples, and a module Tests in each part: a small state, runs on it, and the theorems at it.
--
-- The state. A method is a function from a world to a result and a world. The world has the tables,
-- the tables at the start of an open transaction, the mails sent, the locks held, and the number of
-- calls made so far. MySQL, Redis and the mail service are not in the repository. How each of their
-- calls ends is a parameter, a function of the number of the call: it works, it fails and does
-- nothing, or it does its work and its answer is lost. The theorems hold for every such function.
-- The collation by which MySQL compares a user's name and address and the status that a list asks for
-- is a parameter too. A statement
-- that MySQL runs does to the tables what its text says, with the unique keys and the cascades of the
-- migrations; one that a foreign key or a column's width refuses is among those that fail. The libraries that internal/service/auth.go calls, bcrypt, jwt, uuid and SHA-256, and
-- its clock and its blacklist, are the fields of a record Provider: nothing is assumed of them.
--
-- Numbers and texts. Identifiers are AUTO_INCREMENT keys that the program only compares and stores,
-- so they are natural numbers without a bound; the subject of a token is written and read as an
-- int64, by its bit pattern. A moment is a number of seconds. A Go map is the list of its entries in
-- the order in which a loop over it runs, which Go leaves open: the theorems hold for every list. The
-- digits of an int64 are computed with fuel for twenty, and it has at most nineteen; all other loops
-- are structural recursion on a list.
--
-- A limiter is, for the handlers of accounts, any function of worlds; Limiter is the one in memory.
--
-- Redis is a function from keys to cells, and a cell has a value and a deadline in nanoseconds. The parts
-- of a key are kept apart, as its prefixes and colons do. A command of Redis is run at a moment that the
-- clock of the services tells for the number of the call, and can fail or lose its answer like a
-- statement of MySQL. InviteByEmail still takes the answers of the lock as a parameter, that of a lock that
-- is taken while the caller is told of an error among them; Lock models the locker itself. The handler that the idempotency middleware wraps is an arbitrary function on worlds,
-- and what it answers stands for what the recorder of the response sees.
--
-- Not modelled. Calls run one after the other, so the row locks of SELECT FOR UPDATE have no effect;
-- a context is never cancelled between two calls other than by the failure of the next call. Log
-- lines and metrics are left out, as nothing in the program reads them. The handlers of
-- statistics, clientIP, the other middleware, the cache of the statistics, the limiter over Redis,
-- the blacklist of tokens and the start-up code are not modelled, nor is JSON: a body is the value that is encoded,
-- and a handler is given what encoding/json decodes. A value under the key of a list of tasks is a
-- page, as nothing else is written there. The end of a handler's five seconds is the failure of a call.
pub mod Prelude
pub mod Schema
pub mod Http
pub mod Redis
pub mod World
pub mod Text
pub mod Repository
pub mod Task
pub mod Team
pub mod Auth
pub mod Limiter
pub mod Lockout
pub mod Lock
pub mod TaskCache
pub mod Api
pub mod Idempotency
pub mod Integrity
pub mod Stats
mod Samples
