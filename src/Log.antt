-- ===== src/Log.antt =====
-- Logging, tinyrpc/common/log.{h,cc}: levels and lines, the two buffers, and the files they go to.
pub mod Level
pub mod Logger
pub mod AsyncLogger
pub mod Delivery
pub mod Tests
