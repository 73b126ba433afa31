-- ===== src/Tests.antt =====
mod Fixtures
mod Matching
mod Connections
mod Machines
mod Namespaces
mod Scavenges
mod Retries
mod Documents
mod Updates
mod Starts
mod Calls
mod Keys
mod Reconciles
mod Chains
