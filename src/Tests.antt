-- ===== src/Tests.antt =====
-- Runs at concrete inputs: small workspaces, tabs and variables, and what the theorems say of them.
mod Data
mod Unique
mod Items
mod Workspace
mod Tabs
mod Scope
mod Stores
mod Pages
mod Sends
mod Streams
mod Widgets
mod Synced
mod Panes
