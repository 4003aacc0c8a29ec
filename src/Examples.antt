-- ===== src/Examples.antt =====
-- Concrete runs of every component: a queue with one job, a small corpus, one user, one plan.
mod Queue
mod Ingest
mod Login
mod Guards
mod Runs
mod Parsing
mod Retrieval
