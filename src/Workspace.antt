-- ===== src/Workspace.antt =====
-- gui/web/src/store/workspace.ts: the collections, environments and variables of the workspace.
pub mod Ids
pub mod Tree
pub mod Store
pub mod Variables
pub mod Steps
