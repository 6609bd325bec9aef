-- ===== src/Caching.antt =====
-- The informer cache, cloudcoil/caching/.
pub mod Store
pub mod Informer
pub mod Watch
pub mod Reader
