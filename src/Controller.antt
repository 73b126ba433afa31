-- ===== src/Controller.antt =====
-- internal/controller
pub mod Names
pub mod World
pub mod Durations
pub mod Run
pub mod IntentHash
pub mod Cache
pub mod Preseed
pub mod Chain
pub mod Enforcement
pub mod Reconvergence
pub mod Accept
pub mod Create
pub mod Delete
pub mod Reconcile
pub mod OwnWrites
pub mod Frame
pub mod Pillar
pub mod Phases
