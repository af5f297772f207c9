-- ===== src/Lib.antt =====
-- pikamgr is the dashboard of a fleet of Pika (redis) servers. An operator puts servers into groups,
-- promotes a slave to master, lets sentinels watch the masters and tells load balancers (GSLB) which
-- servers to read from and to write to. The dashboard keeps its records in a coordinator (etcd or
-- zookeeper) and a copy of them in memory.
--
-- The parts, and where they stand:
-- * Config - the two configurations of config/, their checks, and how cmd/dashboard/main.go loads one.
-- * Coordinate - the path functions of coordinate/path.go, with filepath.Join and Clean on
--   lists of code points; a node is the reversed list of its segments.
-- * Dao - the records of topom/dao. A node holds the record; JSON is not modelled.
-- * World - what all methods share: the state of `service` (topom/service.go) with the caches of its
--   mappers, the coordinator's nodes and the trace of requests, and the shape of a method, a
--   function from a state to a result and a state. What a method has changed when it fails
--   stays changed. `World` is the outside: whether a request succeeds, the time, the run ids
--   and the order of a range over a map may all depend on the requests made so far.
-- * Mapper - topom/dao/mapper for groups, sentinels and load balancers: Create, Update, Remove.
--   Load is the filling of the caches at the start, and Templates the template files: the
--   loading and the rounds of doMonitor. The services change cached records in place, so a change
--   is a write of the cache first.
-- * Redis - SetMaster and ForceFullSyncFromMaster of topom/client/redis/client.go with Go's
--   SplitHostPort (HostPort), one connection with its pipeline (Conn), the pool of connections
--   (Pool), INFO with its cache (Info) and InfoFull (Info.Full), and
--   of topom/client/redis/sentinel.go the names of groups (NodeName), the vote of Masters
--   (Masters) and the commands that watch and forget groups with the gathering of their results
--   (Commands; Answers below it reads what a sentinel says of masters) and the wait for a switch
--   (Subscribe). The service's requests to the sentinels are not broken down to these commands.
-- * Service - topom/group.go (Checks, Groups, Promote), topom/sentinel.go (Sentinels),
--   topom/gslb.go and the accessors of topom/stats.go (Backends, Gslbs), topom/sorter.go (Sort).
--   Api puts the calls of handlers and goroutines together: the mutex of the service serialises
--   them, so a run is a list of calls.
--   Polls is the polling of topom/stats.go. Its three calls under the mutex (the two maps of
--   answers and the refresh of the views) are calls of their own, since nothing orders them.
--   Page is the page of the statistics.
--   Life is the life of the service: Start, Close and the polling as a step relation, with a step
--   between any two operations that another goroutine can see, and steps of other dashboards of the
--   product on the one node of the dashboard; Together is two dashboards.
-- * Coordinators - the interface `Client` of topom/dao/mapper/store.go, what it promises, and its two
--   implementations, coordinate/zk/client.go (Zk) and coordinate/etcd/client.go (Etcd). The
--   libraries below are parameters, their documented behaviour a hypothesis; a node is its data and
--   whether it is ephemeral, since a lost session takes its ephemeral nodes away. The services' own model
--   (World) is on the side of the promise: a write that is refused changes no node.
-- * Frontend - the routes of cmd/fe/main.go: which dashboard a product's requests go to.
-- * Handler - the PUT requests of handler/: parameters, the call of the service, the answer.
-- * Log - the rolling log file of utils/log/file_writer.go, and below it Logger, utils/log/log.go: the
--   levels, the header of a line, the methods for each level (Methods) and the functions of the
--   package on the standard logger (Std). The destination, the clock, the stack of the callers and
--   package fmt are parameters.
-- * Tests - the theorems at concrete states.
--
-- The modules below an operation's module prove something of it: Groups.Valid is the invariant,
-- Groups.Changes, Groups.Members, Groups.Tracks, Promote.Valid and Sentinels.Switch that the
-- operations keep it, Promote.Completes, Promote.Resume and Promote.Blocked what a promotion and
-- ResyncGroupAll do. Promote.Held and Promote.Crash are about a promotion that is cut off. Restart
-- puts the calls of the service and the loading of its caches together: Backed is the invariant
-- between a cache and the coordinator's nodes, Writes has one rule for each way to write, Watches,
-- Balancers, Members and Masters one lemma for each call, and Loads reads the nodes back.
--
-- Loops over lists and maps are structural, so no fuel is needed but for the digits of a number
-- (HostPort.itoa), where the number itself is enough. The loop of itoa in utils/log/log.go runs down
-- the positions of its buffer of 20 bytes; beyond its front it is the panic that Go raises. A map is an association list; a range over
-- a map that writes records takes its keys in an order that the world chooses. The goroutines of
-- ResyncGroupAll run one after another in the model, in the order of the list; sync2.Future,
-- another project's, is a parameter with its documented behaviour as a hypothesis.
--
-- Not modelled: JSON and TOML, the pages that only copy fields, what the
-- watches of the coordinators wait for, the polling goroutines (a call brings what
-- they found), the goroutines that watch the sentinels (a call brings the masters they found), and
-- the locks of the mappers, the clients and the pool: each method holds its lock from its start to
-- its end.
pub mod Base
pub mod Dao
pub mod Frontend
pub mod Config
pub mod Coordinate
pub mod Coordinators
pub mod World
pub mod Mapper
pub mod Redis
pub mod Service
pub mod Log
pub mod Handler
pub mod Tests
