-- ===== src/Tabs.antt =====
-- gui/web/src/store/tabs.ts: the tabs of the workbench.
pub mod Patch
pub mod State
pub mod Actions
pub mod Valid
pub mod Close
pub mod Reopen
pub mod Open
pub mod Steps
pub mod Order
pub mod Update
