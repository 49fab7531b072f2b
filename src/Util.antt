-- ===== src/Util.antt =====
-- lib/src/util.c, a module for each group of helpers.
pub mod Varint
pub mod Url
pub mod Errors
