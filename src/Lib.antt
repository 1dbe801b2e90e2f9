-- ===== src/Lib.antt =====
-- feast-watch: a mother that collects the metrics of a fleet and the agents that push them.
--
-- The agent (agent/loop.go) pushes what its collectors report (agent/collectors/collector.go) to the
-- mother every few seconds and acts on the answer: another set of collectors, another interval, a
-- version to update to, or its own removal. The mother (mother/api) authenticates the push, limits
-- its rate, folds it into two tiers of rollups and into a live window in memory, and answers from
-- the server's row. Operators change rows, groups, settings and versions through the same surface,
-- and the mother updates itself by a row of its own and a ticker. The binaries that agents and the
-- mother update to are built on the mother (mother/build) into a catalogue of directories, which is
-- read as the index of versions (mother/release) and served (mother/api/binaries.go); what is
-- downloaded is checked against its published digest (shared/selfupdate).
--
-- Which file models which part:
--   Protocol                the messages                   shared/protocol/protocol.go
--   Shared.Release          names of builds, URLs          shared/release/release.go
--   Shared.Checksum         ParseChecksum, the file
--                           that writeChecksum writes      shared/release/release.go,
--                                                          mother/build/build.go
--   Shared.SelfUpdate       Place, fetch, download         shared/selfupdate/selfupdate.go
--   Agent.Collectors        Registry, CollectEnabled       agent/collectors/collector.go
--   Agent.Loop              PushOnce, RunOnce, Run,
--                           tryUpdate, tryUninstall        agent/loop.go
--   Live                    Add, SeriesSince, Latest,
--                           SetWindow, evictLocked         mother/live/live.go
--   Live.Search             sort.Search, as SeriesSince uses it
--   Mother.Store.Tables     the schema as records          mother/store/schema.go
--   Mother.Store.Servers    the rows of the servers        mother/store/servers.go, uninstall.go
--   Mother.Store.Groups     groups and memberships         mother/store/groups.go
--   Mother.Store.Rollups    ApplySamples                   mother/store/rollup.go
--   Mother.Store.Retention  EnforceRetention,
--                           DeleteHistory                  mother/store/retention.go
--   Mother.Settings         Settings, validate             mother/store/settings.go,
--                                                          mother/api/settings.go
--   Mother.Settings.Storage GetSettings, SaveSettings, with
--                           a save that stops on the way   mother/store/settings.go
--   Mother.Update           MotherUpdate and its writes,
--                           Reconcile, Tick                mother/store/motherupdate.go,
--                                                          mother/selfupdate/updater.go
--   Mother.Release          Refresh, rejectVersion,
--                           rejectMotherVersion            mother/release/index.go,
--                                                          mother/api/versions.go, mother.go
--   Mother.Release.Order    naturalLess, leadingChunk      mother/release/order.go
--   Mother.Build            Build                          mother/build/build.go
--   Mother.Build.Compile    targets, toolchainEnv,
--                           buildArgs, compile,
--                           writeChecksum                  mother/build/build.go
--   Mother.Build.Catalogue  Ensure, Fetch, platformsOf,
--                           SortDescending                 mother/build/store.go,
--                                                          mother/release/index.go
--   Mother.Build.Source     FetchSource, extract,
--                           writeFile                      mother/build/source.go
--   Mother.Store.Migrations migrate and its migrations     mother/store/migrate.go
--   Mother.Api.Chart        handleChart                    mother/api/chart.go
--   Mother.Api.Binaries     serveAsset, latestTagFor       mother/api/binaries.go
--   Mother.Api.State        API, bearerServer, allowPush   mother/api/middleware.go
--   Mother.Api.Ingest       handleIngest                   mother/api/ingest.go
--   Mother.Api.Rollout      handleSetGroupVersion,
--                           handleSetServerVersion         mother/api/groups.go, versions.go
--   Mother.Api.Removal      handleDeleteServer,
--                           handleUninstalled, status      mother/api/admin.go, uninstall.go
--   Mother.Api.Admin        the other writing handlers     mother/api/settings.go, admin.go,
--                                                          groups.go, mother.go
-- Prelude holds what they share: tests, lists, maps as association lists, integers, texts. The child
-- modules of a part hold its theorems, and Examples applies the results at concrete inputs.
--
-- How the code is modelled. A component's state is a record and each operation a function of it:
-- the mutexes make each method one step, and a transaction that fails leaves the tables as they
-- were. A save of the settings is one statement for each key and no transaction: the statements before
-- one that fails stand. What the world decides is an argument: readings of the clock, the ids and tokens of new
-- rows, whether a statement fails, what a callback, a transfer or a collector answers. A Go map
-- that is ranged over is a list in the order of the visit. Clock readings and windows are natural
-- numbers of nanoseconds, stamps are natural numbers of seconds, and the clock is taken to be past
-- the length of any window; a difference of readings stops at 0 where the code would have a
-- negative one, which every test of it treats alike. Values of samples are a parameter: the code
-- only compares and adds them inside SQLite, and that arithmetic is a parameter too. Integers of
-- settings are signed and unbounded: the validated ranges are far from the limits of an int.
--
-- The catalogue of builds is a map from the names of its directory to their files, a file is the list
-- of its bytes, and a build is given with every state of the catalogue on its way, which is what a
-- reader sees meanwhile and what a kill leaves. A directory that os.ReadDir cannot list is an entry of
-- its own. The Go toolchain, SHA-256, the HTTP client, the
-- readers of archives and the sorts of Go's library are parameters, with what they promise as hypotheses: 32 bytes, the answers
-- of the mother's own handler, a result in another order.
--
-- Loops are structural recursion on the list that the code ranges over, so no definition needs fuel,
-- but for the binary search, whose fuel is the length of the list, as each step shortens the range,
-- and the order of versions, whose fuel is the length of the first, as each pass drops a chunk of it;
-- the same loop stands beside it as a relation without fuel.
-- `Run` and the ticker of the mother's update never end: they are modelled over the list of the
-- rounds that the process lives.
--
-- Not modelled: the collectors' queries, the agent's configuration, process and file operations of
-- updates and removals, the views of the panel (lists, live), the installation script and logging.
-- They are input and output, or reads that change nothing.
pub mod Prelude
pub mod Live
pub mod Protocol
pub mod Shared
pub mod Agent
pub mod Mother
mod Examples
