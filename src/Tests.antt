-- ===== src/Tests.antt =====
-- Samples for the theorems, and the theorems at the samples.
mod Samples
mod Models
mod Graphs
mod Queries
mod Migrations
mod Changes
mod Schema
mod Reads
mod Settings
