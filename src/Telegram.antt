-- ===== src/Telegram.antt =====
-- src/tms/telegram: what the program makes of Telegram's answers.
pub mod ErrorMapper
pub mod PeerCache
pub mod ParticipantScanner
pub mod AuthService
pub mod Gateway
