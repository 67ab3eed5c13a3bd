-- ===== src/Groups.antt =====
-- The group hierarchy of user-service: its tables, the tree that paths and depths describe, and
-- membership.
pub mod Store
pub mod Hierarchy
pub mod Roles
pub mod Pathless
pub mod Handlers
