-- ===== src/Lib.antt =====
-- A verification library for the core of the NHPC parliamentary question and answer system: how a change of
-- the source folders becomes a change of the corpus, how users and files are guarded, and how search
-- candidates are verified. Paths are from the repository's root.
--
-- The parts and how they interact. The watcher (nhpc_qa/watcher/runner.py) turns file events into jobs of a
-- durable queue (nhpc_qa/core/queue.py), one for each question folder, and a worker claims the jobs that
-- have settled and hands them to the synchronisation (nhpc_qa/watcher/sync.py), which runs the stages of the
-- pipeline on a slice of the corpus or soft-deletes it. Only the purge (nhpc_qa/watcher/purge.py) removes
-- rows. The stages can also be run by hand (nhpc_qa/pipeline/orchestrator.py); the parser routes each page
-- of a PDF (nhpc_qa/pipeline/parse/routing.py), checks the line spans that the language model gives for
-- questions and answers (spans.py in the same folder) and validates the reply date (dates.py). Texts are
-- matched with the entities of nhpc_qa/entities/dictionary.py, which dedupe.py beside it frees of doubles.
-- Users log in (nhpc_qa/api/security/users.py), requests pass the gates of deps.py, uploads pass
-- upload_guard.py, files are served by paths.py after the role check of rbac.py. A search runs a graph of nodes (nhpc_qa/retrieval/graph/build.py and nodes.py): the retrievers'
-- lists are fused (nhpc_qa/retrieval/search/fuse.py), a weak result is searched once more, the candidates are
-- reranked and verified by a language model (nhpc_qa/retrieval/verify.py).
--
-- The files. A file of the same name as a folder holds the definitions, and the folder's files the theorems
-- about them.
--   Prelude     shared names, tests, lists and texts (a text is the list of its code points)
--   OsPath      what the source uses of os.path: absolute paths as lists of components
--   SyncQueue   the table sync_queue: enqueue, claim_ready, complete, fail, recover_stale as functions on the
--               list of rows; SyncQueue.Folder is question_folder, SyncQueue.Heartbeat the worker heartbeats,
--               SyncQueue.Reach the steps of any number of workers and observers
--   Corpus      the rows of the table diaries, and the ingest log
--   Sync        source_slice, soft_delete, reactivate, process_delete, process_upsert
--   Purge       parse_age, and main as the function purge
--   Watch       _ignored, the event handler, _work_once; Watch.Drains how long a tick takes,
--               Watch.Supporting the timers of the supporting documents
--   Stages      resolve_stages, the stage runners, run_stages
--   Auth        users, sessions, login; Auth.Accounts creates users, Auth.Policy is check_policy of
--               passwords.py, Auth.Deps the request gates, Auth.RateLimit the limit by address
--   Files       resolve and _jail of paths.py, check of rbac.py
--   Upload      sanitize_component, sanitize_relpath, jail, sniff, check_extension
--   Routing     classify_pages, summarize_routing
--   Spans       verify_and_repair and group_answers; Spans.Markers the patterns of its headings
--   Dates       _resolve_year, _parse, validate, extract_from_text
--   Dedupe      merge_key, plan and apply of the deduplication
--   Match       match_entities of nhpc_qa/entities/dictionary.py
--   Fuse        fuse and should_widen
--   Search      the query graph, its nodes retrieve, fuse, rerank and widen, and its edges; Search.Plan the
--               straight program that it implements, Search.Assemble the display of the results
--   Verify      sigmoid_filter, plateau_guard, llm_verify and what it calls
--   Examples    concrete runs
--
-- State and its changes. A table is the list of its rows and a statement is a function on it; now() is an
-- argument, in seconds. A statement is atomic; interleavings are sequences of statements (SyncQueue.Reach), or
-- a function for what other processes do in between (Purge). Exceptions are none or a result of their own.
--
-- Bounds and fuel. Numbers are unbounded, as Python's are. Two loops have fuel. The worker's loop
-- (Watch.work_loop) runs until no job is ready or it is told to stop; each turn uses up a try of a job, so fuel
-- above the number of tries that are left (Watch.Turns.turns) is enough while no job gets a new try; what the
-- other threads do between its turns is the record Watch.Others. The query graph (Search.run_graph) has a limit on its
-- steps, as the library that runs it has, which is 25 if none is given; ten are enough, because it widens once
-- at most. Every other loop is structural.
--
-- Parameters. Argon2 and the token hash (Auth.Crypto), the file system's links (Files.FileSystem, the argument
-- of Upload.jail), Unicode tables, zip containers and decoding (Upload), the entry points of the pipeline's
-- stages (Sync.Stages, Stages.Entries), the language model and the JSON reader (Verify.Model), the sigmoid,
-- the floats of the fusion (Fuse.Numbers), the database searches and the reranking model (Search.Deps), the
-- groups that the patterns of a date match (Dates.DateForm), the words of an entity's name and the Unicode digits (Dedupe), the
-- normal form of a text (Match). Lower case is that of the ASCII letters (Prelude.lower), and
-- an age of the purge has ASCII digits. Where they are no parameter, scores and shares, floats in the code, are
-- numbers of millionths or thousandths.
--
-- Not modelled: the crawler, the readers of documents, the loader and embedder, the retrievers, the node
-- query_process of the graph, generation, export, the HTTP routes, the command line, the processing of
-- supporting documents, the threads of the watcher, the repair messages of Spans. They are SQL, prompts,
-- library calls or text heuristics, or are left for a later extension.
pub mod Prelude
pub mod OsPath
pub mod SyncQueue
pub mod Corpus
pub mod Sync
pub mod Purge
pub mod Auth
pub mod Stages
pub mod Watch
pub mod Files
pub mod Upload
pub mod Routing
pub mod Spans
pub mod Dates
pub mod Dedupe
pub mod Match
pub mod Fuse
pub mod Search
pub mod Verify
pub mod Examples
