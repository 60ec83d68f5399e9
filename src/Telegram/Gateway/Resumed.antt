-- ===== src/Telegram/Gateway/Resumed.antt =====
-- A scan of src/tms/telegram/participant_scanner.py that is resumed, over the pages of
-- src/tms/telegram/telethon_gateway.py.
use telegramv.Prelude.{List}
use mathlib.Core.Option
