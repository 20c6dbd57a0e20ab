-- ===== src/Types.antt =====
-- gui/web/src/types.ts: the data of requests, collections, environments, tabs and runs.
-- Numbers of the program are natural numbers here.
pub mod Auth
pub mod Request
pub mod Collection
pub mod Response
pub mod Run
pub mod Tab
