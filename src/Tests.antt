-- ===== src/Tests.antt =====
-- Runs of the definitions on small inputs, and each theorem at one of them.
mod Samples
mod Graphs
mod Workflows
mod Expansions
mod Runs
mod References
mod Stores
mod Workers
mod Launches
mod Networks
mod Remotes
mod Commands
mod Caches
mod Pages
