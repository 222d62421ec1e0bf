-- ===== src/Lib.antt =====
-- flavor-rag: a model of the core of the RAG server in flavorag-server/app, with proofs.
--
-- The server answers questions from documents. Uploads become jobs in a table (services), a worker
-- claims them and cuts the documents into chunks (ingestion), vector indexes are built from the chunks
-- (services), retrieval channels search them under a budget and a circuit breaker (rag), and what a user
-- may see is decided by access predicates (security). Each part below is a tree of modules, the code's
-- operations in its first files and their laws in the others; a module Tests runs them on small inputs.
--
-- - Prelude: Booleans, numbers, lists, texts, dictionaries and stable sorting, as Python has them.
-- - Search: SearchResult of rag/search/base.py, over any type of scores, since no theorem needs more
--   of the floats than their order.
-- - Governance, of rag/governance.py. Breaker is CircuitBreaker; the readings of the clock are
--   arguments, and overlapping calls are sequences of the events failure and success. Channels is
--   run_search_channels: how a channel's task ends is an argument (Finish), and the round-robin loop is
--   share. Context is select_context with its greedy choice (pick_all) and its quota exchange
--   (apply_quota). Tokens is estimate_tokens, Budget is RetrievalBudget.
-- - Jobs, of services/ingestion_jobs.py. Store holds the rows that the code reads and writes. Enqueue
--   is enqueue_ingestion_job, Worker is _claim_jobs, _process_job and _mark_failure. Which rows are
--   locked by other transactions, the generator of ids, the hash, the files and the outcome of
--   execute_ingestion are arguments. That the database refuses a second row of one idempotency key,
--   also of a deleted one, is not modelled.
-- - Security, of security/access.py, security/service.py and services/approval.py. The predicates of
--   the SQL queries are tests on rows; Policy compares them with is_allowed.
-- - Chunker, of ingestion/chunker.py. Texts are lists of code points, and isspace, isalpha, isdigit,
--   isdecimal and isupper are parameters. Fixed has the window loop of _FixedSizeChunker, Normalize its
--   _normalize_text. Structure is _StructureAwareChunker: Lines and Blocks scan the text, Packing makes
--   chunks of the blocks. Typed is _BlockAwareChunker: Parsing is _parse_blocks, Parts and Paragraphs
--   are the sub-chunkers, Merging is _pack_chunks, Whole is chunk. Options are natural numbers.
-- - Indexes, of services/index_lifecycle.py: the build of an index generation and its promotion
--   (Lifecycle), and the loop of IndexBuildWorker (Polling). The embedder and the vector store are
--   parameters.
-- - Sync, of services/index_sync.py: the cleanup of the external indexes when a document is deleted,
--   and its retries. How the operations on the indexes end, and in which order, are arguments.
-- - Versions, of services/document_diff.py: the difference of two versions' hashes.
-- - Repairs, of services/index_reconciliation.py, services/index_repair.py and the operations of
--   rag/search/vector.py that they use. The Milvus client is a parameter, with the laws IsClient.
-- - Fusion, of rag/postprocess/fusion.py: rrf_fusion (Defs) and deduplicate (Duplicates), over any type
--   of scores with the operations FloatOps.
-- - Graph, of rag/graph/expansion.py: Views merges graphs and marks their nodes, Expansion is
--   expand_neighbors.
-- - Tables, of ingestion/pdf/table_merger.py and the blocks of ingestion/pdf/models.py: Values tells the
--   kinds of cells, Merger is CrossPageTableMerger, over any type of floats.
-- - Maintenance: Watchdog is services/ingestion_watchdog.py, with times in milliseconds; Retention is
--   services/retention.py, with times in days.
-- - Pipelines, of ingestion/pipeline_engine.py and ingestion/nodes/base.py. Nodes is
--   validate_pipeline_graph, Retries is _run_node, and Engine is _run and _execute_and_capture. The
--   handlers of the nodes are a parameter, as the room on the interpreter's stack is for the search.
-- - Limits, of worker/distributed_lock.py and rag/quota.py, with the backends that are kept in memory.
--
-- Loops that are not recursions over a list run on fuel. share gets one round more than the budget has
-- candidates, since each round but the last grants one. The window loop gets one round more than the
-- text has characters, since each window begins after the one before. The normalisation gets what its
-- caller passes: its theorems say for which texts one round more than the text has characters is enough,
-- and for which no fuel is. The windows of a paragraph, in Typed, get one round more than the paragraph
-- has characters. The loops that take at least one line, block or chunk a round (parse_lines, the loops
-- of Structure/Packing, the batches) get a round for each. The queue of a pipeline, in
-- Pipelines/Engine, gets two rounds for each node and one more, since a node runs once and appends at
-- most one other. Times are whole numbers of seconds, but for the milliseconds and days of Maintenance,
-- the milliseconds of Pipelines and the other units of the breaker's clock.
--
-- Not modelled: the HTTP API, the clients of language models, embeddings and Milvus, the parsers of
-- files, the chunking by embeddings, the detection of changed and duplicate files, memory, scheduling,
-- evaluation, observability, the database schema beyond the rows named above, and the frontend.
pub mod Prelude
pub mod Search
pub mod Governance
pub mod Jobs
pub mod Security
pub mod Chunker
pub mod Indexes
pub mod Sync
pub mod Versions
pub mod Limits
pub mod Repairs
pub mod Graph
pub mod Fusion
pub mod Tables
pub mod Maintenance
pub mod Pipelines
