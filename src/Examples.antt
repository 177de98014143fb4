-- ===== src/Examples.antt =====
-- A small store, and the theorems applied to it.
mod Data
mod JobCalls
mod JobProgress
mod Reading
mod Indexes
mod Reaching
mod Reports
mod Streams
mod Syncing
mod Schedules
mod Reindexing
mod Conversations
mod Sources
mod Percentages
mod Polls
