-- ===== src/Models/Deploying.antt =====
-- app/models/app_env.py, deploy_hook.py, preview_env.py and notification_channel.py.
use tetra_host.Prelude.{ℕ, String, Bool, Option}

pub record AppEnvVar : Type 0 where
  pub id : String
  pub tenant_id : String
  pub project : String
  pub key : String
  pub value : String
  pub is_secret : Bool
  pub is_build_time : Bool

pub record DeployHook : Type 0 where
  pub id : String
  pub tenant_id : String
  pub project : String
  pub git_url : String
  pub ref : String
  pub port : ℕ
  pub secret : String
  pub enabled : Bool
  pub previews : Bool

pub record PreviewEnv : Type 0 where
  pub id : String
  pub tenant_id : String
  pub project : String
  pub branch : String
  pub preview_project : String
  pub domain : String
  pub last_deployment_id : String

pub record NotificationChannel : Type 0 where
  pub id : String
  pub tenant_id : String
  pub name : String
  pub url : String
  pub secret : String
  pub events : String
  pub enabled : Bool
  pub last_delivered_at : Option ℕ
  pub last_status : String
