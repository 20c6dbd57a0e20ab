-- ===== src/Ui.antt =====
-- gui/web/src/store/ui.ts and settings.ts: the panels of the page, the active environment, and the
-- settings.
pub mod Panels
pub mod Settings
pub mod Width
