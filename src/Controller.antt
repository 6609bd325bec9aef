-- ===== src/Controller.antt =====
-- The reconcile runtime, cloudcoil/controller/.
pub mod Queue
pub mod Leader
pub mod Registry
pub mod Worker
pub mod Events
pub mod Status
pub mod Requests
pub mod Cases
pub mod Stages
pub mod Children
pub mod Mutations
