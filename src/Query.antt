-- ===== src/Query.antt =====
-- The SQL text that the call interface sends to PostgreSQL: src/callInterface/core/Builder.cpp,
-- src/callInterface/core/wciBrowse.c, src/callInterface/core/wciRead/query and the queries of
-- src/callInterface/types/location.cpp.
pub mod Builder
pub mod Quote
pub mod Externals
pub mod Condition
pub mod Time
pub mod Select
pub mod Location
pub mod Build
pub mod Collection
pub mod Browse
pub mod Plan
