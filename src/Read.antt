-- ===== src/Read.antt =====
-- The rows of wci.read: src/callInterface/core/wciRead/{ReadStore.cpp,ReadStore.h,getData.c,
-- wciReadFloat.c,wciReadGid.c,getPlaceSpecification.c}.
pub mod Store
pub mod Rows
pub mod Field
pub mod Pending
pub mod Calls
pub mod Sequence
pub mod NoGrid
pub mod Names
pub mod Places
pub mod Gid
