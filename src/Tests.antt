-- ===== src/Tests.antt =====
-- Concrete inputs, and the theorems of the development at them.
mod Fixtures
mod Migration
mod Telegram
mod Planner
mod Commands
mod Writer
mod App
mod Datasets
mod Scanner
