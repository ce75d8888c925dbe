-- ===== src/Cmd.antt =====
-- The commands of the extension, of cmd/extension.
pub mod Flags
pub mod Pack
pub mod Controller
pub mod Webhook
