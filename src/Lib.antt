-- ===== src/Lib.antt =====
-- A model of the on-call agent's core in Go: conversation transcripts and everything that guards a
-- turn, authentication, the chat endpoints with the agent and its tools, retrieval and evaluation.
-- Definitions follow the functions they are named after, in snake case; each file's first comment
-- names the source it is about.
--
-- Conversations, internal/conversation:
-- - Conversation.Key, Conversation.KeyLaws: SessionKey, its storage key and Redis lock key, contextErr,
--   the sentinel errors (store.go, lock.go).
-- - Conversation.Interface: ConversationStore, a record of operations and of the laws that a client
--   may use. Memory.Implements fills it; Cache and Chat take it as a parameter.
-- - Conversation.Memory: MemoryStore (store.go). A method takes the store and returns it with its
--   result. Views says what each method does to one session, Window that trimming keeps a suffix, Runs,
--   Compare and Retries prove the theorems on Load, AppendIfVersion and AppendIdempotent.
-- - Conversation.Sql: SQLStore (sql_store.go) over the lists of rows of Conversation.Tables. An
--   argument says which statements fail; a transaction that fails leaves the database as it was. Rows
--   is about DELETE and SELECT, Turns about whole calls, Agreement about MemoryStore beside them.
-- - Conversation.Cache: CachedStore (cache.go) over any store and any cache whose entries may vanish;
--   Coherence is about reads, Writes about writes, Stale about a delete that fails.
-- - Conversation.Limiter, Conversation.Coordinator: RunLimiter (run_limiter.go) and Coordinator
--   (store.go) as step relations, a step for each point at which a goroutine can wait.
-- - Conversation.Lock: RedisConversationLocker (lock.go). Redis is a table of tokens with expiry times;
--   a script is one step. Holding is about a lease among foreign commands.
-- - Conversation.Config: ParseStoreConfig, openPostgres and OpenConfiguredStoreResources (config.go,
--   postgres.go), with the connections opened and closed.
-- - Conversation.TurnLoop: TurnLoopSession (turn_loop.go); Invariant and Returns are the inductions
--   over the events of a turn that Chat uses, with and without what holds after an error.
-- - Conversation.Registry: TurnLoopRegistry (turn_loop_registry.go) over a heap of sessions, since
--   callers keep pointers to them.
--
-- Authentication, internal/auth:
-- - Auth.Service: NewService, Login, Issue, Validate (service.go, types.go); Users and Tokens prove
--   what a login and a token mean.
-- - Auth.Settings: LoadConfig and splitRoles (config.go). Auth.Middleware: middleware.go.
--
-- Chat, internal/controller/chat:
-- - Chat.Turns: sessionKey, appendTurn, buildTurnInput (session.go, chat_new.go).
-- - Chat.Stream: the callback of ChatStream (chat_v1_chat_stream.go), run by the turn loop's
--   handleAgentEvents over any ConversationStore. A panic of SendToClient ends the callback and the turn.
-- - Chat.Invoke: the callback of Chat, its channel of four events, on which a turn can block once Chat
--   has left, and the loop over the events (chat_v1_chat.go).
--
-- Tools, internal/ai/tools: Tools.Policy is who may call a tool (policy.go), Tools.Sql the MySQL tool
-- (mysql_crud.go), Tools.Alerts the alerts tool (query_metrics_alerts.go).
--
-- Pipeline, internal/ai/agent/chat_pipeline:
-- - Pipeline.React: the agent with its tools and its MCP connection (flow.go, and query_log.go of the
--   tools). Guards goes from the tools an agent was built with to who reaches them.
-- - Pipeline.Adk: the adapter between the turn loop and the compiled graph (adk_adapter.go). Turn joins
--   it to Chat.Turns and Chat.Invoke for a whole turn, on the store that the load has left.
--
-- Sse: the events to one client (internal/logic/sse/sse.go), as steps of the handler, the writer and
-- the client's side on one channel; Sse.Reading is the front end's reader of the stream
-- (SuperBizAgentFrontend/app.js).
--
-- Retriever: internal/ai/retriever/retriever.go; Retriever.Documents has the hits and the documents,
-- Retriever.Scope the tenant's filter from the context to the documents.
--
-- Indexing: buildIntoIndex (internal/controller/chat/chat_v1_file_upload.go) and the transformer with its
-- tenant (internal/ai/agent/knowledge_index_pipeline/transformer.go).
--
-- Evaluation, internal/evaluation: Dataset (dataset.go), Metrics (metrics.go), Judge (judge.go), and
-- Documents, Stages and Runner for runner.go.
--
-- Telemetry: the spans and metrics of components (internal/observability/eino_callback.go) as the list
-- of what is written.
--
-- SimpleMemory: utility/mem/mem.go.
--
-- Base holds what all parts share: tests on native numbers, lists, maps as association lists, texts as
-- lists of code points, and the result type for `(T, error)`.
--
-- Parameters stand for code outside the repository: JSON and SHA-256, bcrypt, JWT (with the laws of a
-- signed token), time.ParseDuration and strings.ToLower, Redis and PostgreSQL errors, the cache,
-- Eino's message constructors (with the role and the content that they give) and its compiled graph,
-- the MCP server, the MySQL database, Milvus (with the promise that a search keeps to its filter), the
-- embedder, the judge's model, float64 (with the laws of small numbers where a theorem names them),
-- and in Chat whether the SSE client takes an event, refuses it or panics. A message of SQLStore is the
-- text that its JSONB column shows. int64 versions are bit patterns, with `% 2 ^ 64`;
-- lengths and durations are numbers that do not wrap. Loops are over a list, and the polls of a lock or
-- the ticks of a renewal are given as lists; only the writer of Sse has fuel, of which one turn more
-- than there are events in the channel is enough once Finish was called.
--
-- Not modelled: the handlers around the two callbacks, the saving of an uploaded file, the start of spans and the
-- statistics of distances, construction of clients and of the agent graphs, the commands, and the
-- front end beyond its reader; the waits for goroutines in Stop and Close; timestamps of rows.
pub mod Base
pub mod Conversation
pub mod Auth
pub mod Chat
pub mod SimpleMemory
pub mod Evaluation
pub mod Tools
pub mod Pipeline
pub mod Sse
pub mod Retriever
pub mod Telemetry
pub mod Indexing
