-- ===== src/Lib.antt =====
-- llms-proxy is a gateway between clients and the APIs of language models. A client shows an access
-- key and sends a request for a model; the gateway chooses an upstream target that may take it, and
-- for a target with several API keys one of these, rests keys and targets that fail, holds clients
-- to a budget by the day, the week and the month, and keeps the last requests for inspection. This
-- library models authentication, the choice of the target and of the key, the budgets, the trace
-- store, and the login sessions of the administrators.
--
-- The parts and their files, with paths from the repository's root:
--   internal/config/config.go, Config.antt: the configuration of targets and clients, and
--     NormalizeTargetForCompatibility with what it calls; Config/Validate.antt has Validate, and
--     endpointTypes of endpoint_type.go.
--   internal/auth/store.go, Auth.antt: LoadFromConfig, Authenticate and the methods of Principal.
--   internal/proxy/target.go, Target.antt and the modules under it. `Target` has targetState and its
--     methods, with Target.SupportsPath of service.go and resolveUpstreamModel of sanitize.go;
--     `Target.Build` has buildTargetStates, buildModelIndex and UpdateTargets; `Target.Find` has
--     findAvailableTargetWithModel; `Target.Select` has selectTarget; `Target.Status` has
--     TargetStatuses of service.go.
--   internal/proxy/affinity.go, Affinity.antt: newAffinityMap, affinityKey, Get and Set.
--   internal/proxy/keypool.go, KeyPool.antt and the modules under it. `KeyPool.State` has
--     `keyPool` and `keyEntry` as records and newKeyPool as `new_key_pool`; `KeyPool.ResetTime`
--     has parseResetTimeSpec; `KeyPool.Load` the token windows, the requests in flight,
--     scoreLessLocked and bestActiveKeyLocked; `KeyPool.Binding` bindLocked and its eviction;
--     `KeyPool.Select` selectKey, selectKeyForClient and selectNextActiveKey; `KeyPool.Mark` the
--     marks, blocks and the wake-up lock; `KeyPool.Report` the status and the lists of keys to
--     probe; `KeyPool.Least` has leastTokenActiveKeyIndex. `KeyPool.History` has the methods that
--     change the pool as calls and runs any sequence of them.
--   internal/quota/period.go, Quota/Period.antt: PeriodRange and NextResetAt.
--   internal/quota/manager.go and types.go, Quota/Manager.antt and Quota/Money.antt: the exceeded
--     map and the counters, with Evaluate, Increment and Check; Quota/Manager/Status.antt has
--     Status.
--   internal/proxy/protocol.go, path_capability.go and url.go and
--     internal/config/protocol_type.go, Protocol.antt.
--   internal/tracestore/store.go, TraceStore.antt: New, Record, the writer's loop and Close, and the
--     part of List that reads the memory; TraceStore/Query.antt has Get and List with their way to
--     the disk.
--   internal/admin/session.go, Session.antt: the session manager and its cookies.
--   Calendar.antt and Base/Time.antt have what these parts use of Go's time package,
--     Base/Maps.antt Go's maps, Base/Int.antt its int64, Base/Strings.antt its strings and
--     Base/Text.antt those that are read byte by byte.
--
-- How they interact: a configuration passes `validate`, is loaded by `load_from_config` and
-- `update_targets`; a request is known by `authenticate`, passes `check` of its client, gets a target
-- by `select_target`, which reads the affinity map and the targets that `update_targets` built,
-- takes a key by `select_key_for_client`, counts against it by `acquire_in_flight` and
-- `release_in_flight`, marks it by `mark_exhausted_with_error` and the target by `mark_failure` on
-- an upstream error, is charged by `increment`, and ends in the trace store by `record_trace`.
--
-- How code becomes definitions: a method takes the state and the time of its call and returns the
-- new state with its result. A method that holds its lock is one step; the parts of `Increment`,
-- `Check`, `tryWakeUp`, `Status`, `selectTarget`, `Record` and `List` between two locks are one
-- step too, which is the code when no other call comes between. An index of -1, an empty key and a nil
-- pointer are `none`; a set is a list of its members; a run-time panic is `none`. A time is a
-- number of nanoseconds since the year 1; a duration and a counter keep their saturation or
-- wrap-around. Amounts of money are the interface `Money`, without the laws of floating point.
-- ToLower is that of ASCII.
--
-- Parameters: the answers of the quota stores; the URL parser of the endpoints; the signature of the
-- cookies; how long a line of a trace file is, and how it is searched and read, the list of
-- these files, and the order of sort.Slice. What a theorem asks of one stands among its hypotheses.
--
-- Fuel and bounds: the searches in cyclic order and the rotation run for as many turns as there are
-- keys, as the loops do; the eviction of the oldest binding runs for as many turns as there are
-- stamps, since each turn takes one away; the search of the ring buffer runs for as many turns as
-- it has slots. The sums of key counts in the choice of a target do not wrap, and the sizes of the
-- trace store are not negative.
--
-- Not modelled: the HTTP handlers and the forwarding of requests with their rewriting, the aggregation
-- of event streams, the bbolt stores, the pages of the admin interface, the Copilot accounts, the
-- model catalog, the usage records, and logging. Of the pool, hashClientKey; of the manager, the
-- timer that evaluates every client; of the configuration, the reading of files; of the
-- trace store, the rotation of the files and their listing; of the sessions, the making of the
-- random id.
pub mod Session
pub mod TraceStore
pub mod Target
pub mod Auth
pub mod Config
pub mod Base
pub mod Calendar
pub mod KeyPool
pub mod Affinity
pub mod Protocol
pub mod Quota
