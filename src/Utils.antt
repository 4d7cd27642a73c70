-- ===== src/Utils.antt =====
-- dstx/src/utils.c: safe_write and the rate limits of the log.
pub mod Write
pub mod LogRate
