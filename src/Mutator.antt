-- ===== src/Mutator.antt =====
-- pkg/mutator: the rules, the edits that they make, and `Mutate`.
pub mod Rule
pub mod Table
pub mod Case
pub mod Edit
pub mod Substitute
pub mod Mutate
pub mod Tests
