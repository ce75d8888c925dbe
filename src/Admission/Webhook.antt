-- ===== src/Admission/Webhook.antt =====
-- `NewShootValidatorWebhook` of pkg/admission/validator/shoot.go, which hands the validator to
-- Gardener's webhook library; that library is the record `Library`.
use gardener_extension_shoot.Base.{
  ℕ, Option, some, List, [], ◌∷◌, ◌++◌, Result, ◌>>=◌, wrap, Str, codes,
}
use gardener_extension_shoot.Base.Dict.{Dict}
use gardener_extension_shoot.Assets.{Fs}
use gardener_extension_shoot.Admission.{Error, Decoder, ShootValidator, new_shoot_validator}

module _ (S Target : Type 0) where
  -- The fields of `extensionswebhook.Args` that the code sets; the objects are shoots.
  pub record WebhookArgs : Type 0 where
    pub provider : Str
    pub name : Str
    pub path : Str
    pub validator : ShootValidator S
    pub target : Target
    pub match_labels : Dict Str

pub record Library : Type 1 where
  pub Selector : Type 0
  pub Manager : Type 0
  pub Webhook : Type 0
  pub Target : Type 0
  pub target_seed : Target
  pub label_extension_type_prefix : Str
  -- The universal decoder of the manager's scheme.
  pub decoder : Manager → Decoder Selector
  pub new_webhook : Manager → WebhookArgs Selector Target → Result Str Webhook

pub data WebhookError : Type 0 where
  no_validator : Error → WebhookError
  no_webhook : Str → WebhookError

module _ (L : Library) where
  -- What the webhook of a validator is made with.
  abbrev pub webhook_args : ShootValidator L.Selector → WebhookArgs L.Selector L.Target
  webhook_args v = record {
    provider = v.extension_type;
    name = codes "validator." ++ v.extension_type;
    path = codes "/webhooks/validate/" ++ v.extension_type;
    validator = v;
    target = L.target_seed;
    match_labels = (L.label_extension_type_prefix ++ v.extension_type, codes "true") ∷ [];
  }

  -- `NewShootValidatorWebhook`
  unfoldable pub new_shoot_validator_webhook :
      (Str → List ℕ)
      → Option Fs
      → L.Manager
      → List (ShootValidator L.Selector → Result Error (ShootValidator L.Selector))
      → Result WebhookError L.Webhook
  new_shoot_validator_webhook digest embedded m opts = do
    v ← wrap no_validator (new_shoot_validator digest embedded (some (L.decoder m)) opts)
    wrap no_webhook (L.new_webhook m (webhook_args v))
