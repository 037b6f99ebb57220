-- ===== src/Approval.antt =====
-- policy/approval: options, rules, the tree of requirements and its parsing.
pub mod Options
pub mod Commits
pub mod Rule
pub mod Requirements
pub mod Parse
