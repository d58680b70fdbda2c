-- ===== src/Lib.antt =====
-- A model of git-sync-core, a library that mirrors git repositories between hosting platforms.
--
-- The parts and how they interact. A service (service/) owns the stored entities, starts the runs of
-- synchronisation tasks by hand, by a timetable or by webhooks, and limits them by a guard. The guard
-- is local to a process or, where redis is configured, made of a lock and a semaphore on the server
-- (lock/). A run itself is the executor's (executor/): it clones or fetches the source, sets up the
-- remote of the target, pushes, and records steps and outcome. Mirror channels publish tags of a
-- repository to targets (service/mirror_service.go); package mirror/ does so for Go modules: it rewrites
-- the module path in the whole tree of a tag and pushes a commit without parents.
--
-- Which file models what:
--   Prelude          numbers, texts, tables, families and UTF-8; no code of the program
--   Model/Config     model/config.go, model/constants.go: the configuration and `Validate`
--   Model/Entities   model/repo.go, platform.go, sync_task.go, sync_run.go, sync_run_step.go
--   Lock/Backoff     the waits of the loops in lock/lock.go
--   Lock/Local       lock/lock.go: LocalLock; a waiting loop over a list of rounds, each with the
--                    time that it takes and what others do meanwhile, so it needs no fuel
--   Lock/Redis       the interfaces of the redis server, with instances in Lock/Redis/Instances
--   Lock/RedisLock   lock/lock.go: RedisLock and its two scripts
--   Lock/Semaphore   lock/lock.go: Semaphore and its two scripts
--   Guard/Local      service/concurrency.go: localGuard, one atomic step of a goroutine at a time
--   Guard/Distributed  service/concurrency.go: redisGuard and its watchdog
--   Executor/Errors  executor/error_classify.go
--   Executor/Environment  the parameters of the executor: git backend, file system, clock, stores
--   Executor/Paths   the standard library's filepath.Join and filepath.Clean, on Unix
--   Executor/Git     executor/executor.go: authentication, clone, fetch, remotes, push
--   Executor/Steps   executor/executor.go: the step records and the loop of pushes; it recurs on the
--                    number of attempts that are left
--   Executor/Run     executor/executor.go: `Execute` in stages, with what it defers
--   Webhook          service/webhook.go, service/webhook_service.go, dao/webhook_event_dao.go and
--                    model/webhook_*.go; one pass of `cleanupTriggerTimes` of service/cleanup.go
--   Channel          service/mirror_service.go, model/mirror_channel.go: the tags column, the runs,
--                    the targets and the merge of the matrix of versions
--   Mirror/Names     mirror/validate.go, and the refspecs and the go.mod built from names
--   Mirror/Rewrite   mirror/gitobj.go: rewriteModulePath, over bytes, with its regular expression
--   Mirror/Tree      mirror/gitobj.go: the builder and synthesizeRefs; fuel for the depth of folders
--   Mirror/GoMod     mirror/mirror.go: readModulePath
--   Mirror/Materialize  mirror/materialize.go, with fuel as Mirror/Tree
--   Mirror/Host      mirror/mirror.go: options, reports, credentials; the parameters of the package
--   Mirror/Compare   mirror/mirror.go: checkRemoteTag; mirror/gate.go
--   Mirror/Publish   mirror/mirror.go: Publish, publishTag, publish
--   Mirror/Verify    mirror/verify.go; it recurs on the attempts that are left
--   Platforms        service/provider_helper.go: fetchAllPlatformRepos, whose 100 pages are its fuel
--   Platforms/Sync   service/platform_service.go: SyncPlatformRepos, with its writes of dao/repo_dao.go
--   Platforms/Store  dao/platform_dao.go
--   Tasks            service/task_service.go, service/task.go, service/cron.go: edits of tasks, runs under
--                    the guard, the registry of timed jobs
--
-- State is passed on: a mutex, a channel or a table is a field of a record, a handler a function from
-- state to state. Calls of other machines and libraries are parameters: a record with the operations
-- and, where a theorem needs it, their documented behaviour. The theorems on `Execute` speak of a
-- trace of its calls, newest first, and hold for every environment. Concurrency is a step relation
-- for the local guard and an interleaved list of requests for the webhooks; the rules of two events
-- are applied one after the other here. A message is compared and searched by code points; where the
-- program counts bytes the text is encoded first.
--
-- Not modelled: set-up of connections and pools, logging, health checks, audit records, the SQL
-- behind the stores, panics, and so far the service for repositories but for
-- the writes of a synchronisation.
pub mod Prelude
pub mod Model
pub mod Lock
pub mod Guard
pub mod Executor
pub mod Webhook
pub mod Channel
pub mod Tasks
pub mod Mirror
pub mod Platforms
