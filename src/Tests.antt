-- ===== src/Tests.antt =====
-- Concrete worlds, and the theorems at them.
mod Fixtures
mod Agents
mod Assignments
mod Cloud
mod Notices
mod Clusters
mod Runs
mod Settings
mod Engine
mod Grants
mod Stores
mod Api
mod Policies
