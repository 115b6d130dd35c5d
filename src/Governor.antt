-- ===== src/Governor.antt =====
-- internal/governor: the client of the governor, which schedules the pushes and hears how they end.
pub mod Messages
pub mod Schedule
pub mod Conn
pub mod Procstats
