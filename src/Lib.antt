-- ===== src/Lib.antt =====
-- apk-cache: a caching proxy for Alpine and Debian packages (Go), with an admin console in the
-- browser (TypeScript).
--
-- Parts. The server finds the handler of a request by its form and its path (internal/app/app.go),
-- and answers package requests from a cache on disk, with an in-memory cache of small bodies in
-- front of it (internal/cache/cache.go) that counts into internal/metrics/metrics.go. A lock for
-- each key (KeyLocks in cache.go) lets one request at a time fill an entry, and what is missing is
-- fetched from the upstream servers in turn (internal/upstream/upstream.go). What the signed
-- indexes say about each package's hash is kept by internal/hashstore/hashstore.go in an ordered
-- store of bytes. The console (internal/admin/web/src) is a set of pages whose event handlers call
-- the server's admin API through api.ts and write what it answers into the page's state.
--
-- Files.
--   Prelude     shared names, byte texts, lists over native numbers, signed integers.
--   Metrics     metrics.go: Metrics, RecordCacheHit and the like, UpdateMemory.
--   Memory      cache.go: Item, Memory, and one function for each method (get is Get, set is Set with
--               make_room for its loop, delete_locked is deleteLocked, delete_expired is
--               deleteExpired). Memory/Sizes, Room, Calls, Reads, Steps and Drift prove, Runs has
--               examples.
--   Locks       cache.go: KeyLocks, its map of locks and the objects in it, and the steps of threads
--               that take and return the lock of a key. Locks/Counts, Sound, Steps, Exclusion and
--               Progress prove, Runs has examples.
--   Upstream    upstream.go: Server and Manager; Order (orderedServers), Paths (BuildURL, joinPath,
--               splitSegments), Headers (copyEndToEndHeaders) and Fetch (fetch is Fetch, ask is one
--               round of its loop up to the answer, fetch_from is the loop). OrderLaws, PathLaws,
--               HeaderLaws, Answers, Sends, FetchLaws and FetchResults prove, Runs has examples.
--   Requests    app.go: the type of a path (detectPackageSuffix, detectPackageRequestType, whose loop
--               is scan), and in Requests/Route the classification of a request, matchAPTMirror and
--               routeHTTP. SuffixLaws, SegmentLaws, MirrorLaws and RouteLaws prove, Runs has examples.
--   HashStore   hashstore.go: Kinds (HashKind, its namespaces), Varint (Go's variable-length numbers),
--               Values (encodeExpectedValue and the other encoders with their decoders), Keys
--               (expectedKey and the other keys, prefixUpperBound); Actuals (GetOrComputeActual,
--               GetActual, DeleteActual); Ordered (the database with its iterators), Sources
--               (ReplaceSource, DeleteSource, ensureDict: replacement and deletion are what they put
--               into a batch, put_record is one round of the loop) and Queries (GetExpected and the
--               like). ValueLaws, KeyLaws, Range, ActualRows, ActualLaws; Writes (what a key has after
--               a batch), SourceParts, SourceRows, SourcePuts, Mappings, SourceScan, SourceGone,
--               SourceLaws, ReplaceLaws (the rows), DictLaws, DictRounds, DictTotal (the dictionary),
--               SourceReads, SourceRounds (calls after each other), Success and SourceSuccess prove;
--               Parts has lemmas on joined byte texts, MemoryDb a database in memory.
--   Console     Json and Script are what the pages share: a handler is a Script that updates the
--               page's state, sends requests (api) and asks the user (confirm), and run executes it
--               on a list of inputs, so that a theorem over all inputs covers every server, every
--               user and every moment. Routes, Account (App.tsx), Api and Cookies (api.ts), Utils,
--               and in Pages: Cache, Config, Upstreams and Proxy (the files of pages/ of these
--               names), Packages (APKPackages of APKPage.tsx, APTRecords of APTPage.tsx and
--               Pagination of components.tsx), Mirrors (APTMirrors of APTPage.tsx) and Views
--               (LogsPage.tsx, DashboardPage.tsx, SystemPage.tsx). Utils has trim and lines
--               (utils.ts). What is shown is a tree of elements (Html) whose handlers are messages
--               of the page: Components (components.tsx), AppView (App.tsx), Pages/ListsView
--               (APKPage.tsx, APTPage.tsx) and Pages/ConfigView (ConfigPage.tsx); Pages/Lists has
--               the reload buttons, the indexes, the keys and the validation. Html.Sends says
--               which messages a user can cause. A module whose name ends in Laws proves what
--               concerns the module of the name before that; Runs and ViewRuns have examples.
--
-- Conventions. The time is an argument of the operations that read the clock. A mutex makes each
-- method of Memory one step. A call of Fetch is read alone: no other call marks a server while it
-- runs (each loop of orderedServers reads the health of a server anew). A Go int64 is an integer
-- whose bounds are hypotheses where they matter; sizes in the cache are lengths of bodies, whose
-- sum is taken not to reach 2^63. The texts of toasts and questions are short English ones without
-- the counts that the source puts in.
--
-- Fuel. The loop of Set gets one round more than there are items: each round removes an item, and
-- an empty cache has room for every body that the limit allows. The loops on variable-length
-- numbers get ten rounds, the bytes that a uint64 can need. The scan of a path gets one round more
-- than there are bytes: each round takes one at least.
--
-- Parameters. The database of the hash store is an interface with two laws: a committed batch is
-- read back whole, and an iterator gives exactly the rows between its bounds. The paths' keys and
-- ids, the trimming and lower case of texts and the root of the cache are functions of its
-- configuration. URLs, the exchange with a server, the hash of a file and the clock are arguments.
--
-- Not modelled: the handlers behind the routing of requests and the admin API (internal/app), the
-- parsers of package indexes (internal/apt, internal/apk), settings and configuration
-- (internal/store, internal/config), ParseSize of cache.go, Open, CacheKey, PathID and Stats of the
-- hash store, and what the other pages of the console show. The handlers, the parsers and the
-- validation of settings have logic of their own, which this development leaves out for its size;
-- the rest is mostly calls of libraries (net/http, the database, archives, signatures).
pub mod Prelude
pub mod Metrics
pub mod Memory
pub mod Locks
pub mod Upstream
pub mod Requests
pub mod HashStore
pub mod Console
