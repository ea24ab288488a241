-- ===== src/Shred.antt =====
-- shred/: the keys of the subjects whose data events carry, and what forgetting one of them means.
pub mod Cache
pub mod Field
pub mod Shredder
pub mod SubjectTable
pub mod Forgotten
pub mod Rewrap
pub mod RewrapStays
pub mod Stays
pub mod Erased
pub mod Stale
pub mod RewrapEnds
pub mod RewrapDone
