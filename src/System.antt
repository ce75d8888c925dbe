-- ===== src/System.antt =====
-- The commands together: what the webhook that cmd/extension/webhook/webhook.go starts lets through, and
-- what the controller that cmd/extension/controller/controller.go starts makes of it.
mod Tests
use gardener_extension_shoot.Base.{Option}
use gardener_extension_shoot.Assets.{Collection}
use gardener_extension_shoot.Platform.{Platform, Managed}
use gardener_extension_shoot.Controller
use gardener_extension_shoot.Cmd.Controller.{Env as ControllerEnv, Flags as ControllerFlags}
use gardener_extension_shoot.Cmd.Webhook.{Env as WebhookEnv, Flags as WebhookFlags}
