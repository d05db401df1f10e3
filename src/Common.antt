-- ===== src/Common.antt =====
-- packages/common: the exceptions of the packages and the handler tables.
pub mod Exceptions
pub mod Hash
