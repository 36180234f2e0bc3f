-- ===== src/Config.antt =====
-- internal/config/config.go. The build information, set by the linker, is an argument.
use hbs_queue.Prelude.{String, if◌then◌else◌, str_eq}

pub record HookSecrets : Type 0 where
  pub deboard_org : String
  pub onboard_contact : String
  pub deboard_contact : String
  pub update_pw : String
  pub update_bandwidth : String

pub record BuildInfo : Type 0 where
  pub version : String
  pub commit : String
  pub build_time : String

pub record Config : Type 0 where
  pub port : String
  pub env : String
  pub api_key : String
  pub hooks : HookSecrets
  pub debug_port : String
  pub swagger_port : String
  pub version : String
  pub commit : String
  pub build_time : String
  pub database_url : String
  pub vcd_base_url : String
  pub vcd_version : String
  pub vcd_user : String
  pub vcd_password : String
  pub vcd_org : String

abbrev pub env_or : (String → String) → String → String → String
env_or getenv key fallback = if str_eq (getenv key) "" then fallback else getenv key

unfoldable pub load : BuildInfo → (String → String) → Config
load build getenv = record {
  port = env_or getenv "PORT" "8080";
  env = env_or getenv "ENV" "localhost";
  api_key = getenv "API_KEY";
  hooks = record {
    deboard_org = getenv "HOOK_SECRET_DEBOARD_ORG";
    onboard_contact = getenv "HOOK_SECRET_ONBOARD_CONTACT";
    deboard_contact = getenv "HOOK_SECRET_DEBOARD_CONTACT";
    update_pw = getenv "HOOK_SECRET_UPDATE_PW";
    update_bandwidth = getenv "HOOK_SECRET_UPDATE_BANDWIDTH";
  };
  debug_port = env_or getenv "DEBUG_PORT" "6061";
  swagger_port = env_or getenv "SWAGGER_PORT" "8081";
  version = build.version;
  commit = build.commit;
  build_time = build.build_time;
  database_url = getenv "DATABASE_URL";
  vcd_base_url = getenv "VCD_URL";
  vcd_version = env_or getenv "VCD_VERSION" "38.0";
  vcd_user = getenv "VCD_USER";
  vcd_password = getenv "VCD_PASSWORD";
  vcd_org = env_or getenv "VCD_ORG" "System";
}
