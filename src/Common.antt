-- ===== src/Common.antt =====
-- policy/common: the parts that approval, disapproval and reviewer selection share.
pub mod Patterns
pub mod Trigger
pub mod Actors
pub mod Methods
pub mod Result
