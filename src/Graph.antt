-- ===== src/Graph.antt =====
-- thunderstore.go: the packages of a set of mods. Canonical orders a package graph, Resolver builds
-- it from the metadata of the service, Digest is the digest of a package lock.
pub mod Refs
pub mod Roots
pub mod Metadata
pub mod Canonical
pub mod Resolver
pub mod Digest
mod Samples
mod Tests
mod Runs
