-- ===== src/Examples.antt =====
-- The theorems at concrete inputs.
mod Clock
mod Identifiers
mod Codec
mod Allocator
mod Edits
mod Documents
mod Replicas
mod Anchors
mod Snapshots
