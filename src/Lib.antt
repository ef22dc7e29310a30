-- ===== src/Lib.antt =====
-- KnowYourRepo: a service that clones a repository from GitHub, indexes its files, symbols and calls,
-- embeds the code for search, and answers questions about it. The development models the server,
-- written in Go under api/internal.
--
-- The parts and their files. A function keeps the name of the source, in snake case.
--   Chunk         chunk/splitter.go: SplitChunk cuts the text of a function into overlapping chunks.
--   Guardrails    api/ingestion_guardrails.go and the embedding part of ingestRepository (api/repos.go):
--                 embedInBatches, fullyEmbeddedFiles, shouldGenerateOverview, the cap on chunks.
--   Ingest        api/repos.go: the loops of ingestRepository over the files of the walk and over those
--                 on record, and processFile. index_repository is both loops, from a database.
--   Store         store: the tables as lists of rows (Db). Store.Jobs is job_repo.go, Store.Repositories
--                 repository.go and sync_repo.go, Store.Files file_repo.go, symbol_repo.go, callgraph.go
--                 and the rest of sync_repo.go, Store.Reads symbols_query.go and graph_queries.go. A query
--                 is a function on Db.
--   Pool          worker/pool.go: the record Pool is the struct with its channel, its workers and a
--                 history; Step is what one goroutine does at a time, Reach a sequence of steps.
--   Repos         api/repos.go: CreateRepo, SyncRepo, SyncIfStale, checkAndEnqueueSync, the staleness
--                 check and ResumeUnfinishedJobs, as actions on a World: a Db, a Pool, the goroutines
--                 started, and for each database call to come whether it fails. Repos.Running is
--                 handleIngestionJob, with ingestRepository up to the walk.
--                 Repos.Queueing has each of CreateRepo and checkAndEnqueueSync as one action, that is run
--                 with no other request between its calls. The program has no such guarantee: no lock or
--                 transaction spans two calls. Repos.Queueing.Requests has the same calls one by one, with
--                 a schedule that says which request is next; its child Alone is about a request that no
--                 other interrupts.
--   ClientIp      api/clientip.go: ResolveClientIP.
--   Validate      api/validate.go: NormalizeGitHubURL.
--   Chat          chat/store.go: the methods of the store of conversations.
--   AgentChat     api/agent_chat.go: the handler of a chat request, which uses Chat and Answer.Service.
--   RateLimit     api/ratelimit.go: the buckets per key.
--   BoundedGraph  api/graph_bounded.go: buildBoundedGraphResponse, and the depth asked for.
--   Snippet       api/files.go and retrieval/lexical.go: extractSnippet and readSymbolSource.
--   Files         api/files.go: GetFileContent.
--   Walker        ingestion/walker.go: WalkRepo, on a tree of what the directories hold.
--   Architecture  architecture: the rows and results. Architecture.Detect is entrypoints.go and
--                 components.go, Architecture.Reading reading_path.go, Architecture.Analyze analyzer.go,
--                 Architecture.Narrative the GenerateOverview of service.go.
--   Retrieval     retrieval: Retrieval.Identifiers and Retrieval.Lexical are lexical.go,
--                 Retrieval.Semantic is hybrid.go. The queries are the interface Lookups, which
--                 Retrieval.Database fills with those of Store.Reads.
--   Context       contextbuilder: what is sent to the language model of each result.
--   Answer        answer/service.go: mergeResults. Answer.Service is Answer, with intent.go and
--                 rag/service.go.
--   Prelude and Text are shared: lists over the native numbers, and strings as lists of bytes with what
--   the sources use of the package strings. Examples holds concrete runs.
-- CreateRepo takes what Validate lets through, writes a job to the Store and hands its id to the Pool; a
-- worker runs Ingest on it, which uses Chunk through the analysis of a file, and ends with Guardrails.
-- Answer merges what Retrieval finds, adds the summary of Architecture, and sends what Context makes of it.
--
-- Parameters, for code that is not in the repository: rate.Limiter, url.Parse, net.ParseIP and
-- net.SplitHostPort, filepath and strconv where they are named; the answers of the sidecar, of the remote
-- and of the file system; the queries that Architecture only reads; the analysis of a file by tree-sitter
-- and the extractors, with the chunks of the file. A Go map is the list of its entries in the order in
-- which a range visits them, so that what is shown for every list holds for every order; where a map is
-- built and then visited, the order is a parameter.
--
-- Loops run on fuel where the source's do not recurse on a list. SplitChunk is given as much as its
-- text is long: each turn moves on by at least MaxChunkChars - OverLapChars. embedInBatches is given one
-- more than there are items: each turn moves on by at least one. The search of BuildReadingPath is given
-- the number of entrypoints and calls: each turn takes a symbol that one of them named. That the fuel is
-- enough is part of what is shown of each. Letters are folded as in ASCII. Lengths of texts are in bytes,
-- except that the contents in Chat are runes, which is what its limit counts.
--
-- Not modelled: the HTTP layer and its JSON, logs and metrics, the SQL text, cloning, the call graph
-- extractors, the wording of the prompts, cancellation but for what is recorded of a job, and the
-- sidecar and the frontend, which are other programs. In the schedules of Repos.Queueing.Requests only
-- requests move: the workers' writes are left out. In Ingest the calls of the database succeed, and
-- Repos.Running takes the part of ingestRepository after the walk as any action.
pub mod Prelude
pub mod Text
pub mod Chunk
pub mod Guardrails
pub mod ClientIp
pub mod Validate
pub mod Pool
pub mod Store
pub mod Repos
pub mod Ingest
pub mod Chat
pub mod BoundedGraph
pub mod Snippet
pub mod Answer
pub mod Architecture
pub mod Retrieval
pub mod RateLimit
pub mod AgentChat
pub mod Files
pub mod Walker
pub mod Context
mod Examples
