-- ===== src/Log.antt =====
-- rocket/rocket/common/log.h and log.cpp: levels, lines, the thread that writes files, and the logger
-- that the macros write to.
pub mod Level
pub mod Writer
pub mod Logger
