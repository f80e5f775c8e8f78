-- ===== src/Spec.antt =====
-- The specifications that a call of wci.read carries as texts, and the enumerations that it names:
-- src/callInterface/types.
pub mod Time
pub mod Level
pub mod Place
pub mod NamedInteger
pub mod Wildcard
pub mod Normal
