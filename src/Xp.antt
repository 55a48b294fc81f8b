-- ===== src/Xp.antt =====
-- The XP pipeline of app/repositories/gamification.py, on the rows that it reads and writes.
-- `Store` is the database; an instant is in microseconds, a date a day number.
pub mod Store
pub mod Pay
pub mod Message
pub mod Caps
pub mod Accounts
pub mod Retry
pub mod Reactions
mod Tests
