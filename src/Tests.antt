-- ===== src/Tests.antt =====
-- Concrete inputs, and the theorems applied to them.
mod Parameters
mod Specs
mod Queries
mod Sessions
mod Rows
mod Blobs
mod Store
mod Grids
mod Projections
mod Cleaning
mod Administration
mod Configurations
