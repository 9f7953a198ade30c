-- ===== src/Tests.antt =====
-- Runs of the modelled code on concrete values.
mod Backends
mod Caching
mod Chats
mod Failover
mod Citing
mod Marking
mod Reviewing
mod Storing
mod Deleting
mod Recording
mod Matching
mod Agents
mod Tools
mod Streams
mod Indexing
mod Searching
mod Working
mod Watching
