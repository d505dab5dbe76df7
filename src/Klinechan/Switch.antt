-- ===== src/Klinechan/Switch.antt =====
-- Turning the k-lines of a channel on and off, and what is shown of it.
use atheme_contrib_modules.Services.Text.{Text}
use atheme_contrib_modules.Services.Metadata.{Metadata}
