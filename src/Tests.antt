-- ===== src/Tests.antt =====
-- The code at concrete inputs, and the theorems at such inputs.
mod Toy
mod Rules
mod World
mod Paths
mod Files
mod Names
mod Syncs
mod Answers
mod Logs
mod Suites
mod Bounds
mod Finds
mod Followers
mod Nodes
mod Cites
mod Repls
