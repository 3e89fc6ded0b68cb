-- ===== src/Models.antt =====
-- The rows of the product database (src/mutiai/models): one record per table that the modelled
-- services read or write. A column that may be null is an `Option`, a datetime is a number, and the
-- relationships are the queries that the services make.
pub mod Json
pub mod Task
pub mod Approval
pub mod Control
pub mod Plan
pub mod Samples
