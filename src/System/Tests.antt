-- ===== src/System/Tests.antt =====
-- The commands together: a shoot that the started webhook admits, on a platform in memory.
use gardener_extension_shoot.Cmd.Controller.{Flags as ControllerFlags}
use gardener_extension_shoot.Cmd.Controller.Tests.{
  env as controller_env, given as controller_given, run_launch as run_controller,
}
use gardener_extension_shoot.Cmd.Webhook.{Flags as WebhookFlags}
use gardener_extension_shoot.Cmd.Webhook.Tests.{
  env as webhook_env, given as webhook_given, run_launch as run_webhook,
}
