-- ===== src/Scope.antt =====
-- gui/web/src/hooks/use-variable-scope.ts and gui/web/src/components/ui/variable-input.tsx: the
-- variables in scope of a request, and the `{{variable}}` references in a text.
pub mod Template
pub mod Resolve
pub mod Merge
