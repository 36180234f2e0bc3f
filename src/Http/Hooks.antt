-- ===== src/Http/Hooks.antt =====
-- internal/httpapi/types.go: the payloads of the hooks and their Valid methods.
pub mod Valid
use hbs_queue.Http.Requests.{Problems, required}
use hbs_queue.Prelude.{String, ◌++◌}

pub record DeboardOrgRequest : Type 0 where
  pub client_id : String
  pub organization_name : String

pub record OnboardContactRequest : Type 0 where
  pub client_id : String
  pub contact_id : String
  pub first_name : String
  pub last_name : String
  pub email : String

pub record DeboardContactRequest : Type 0 where
  pub client_id : String
  pub contact_id : String

pub record UpdatePwRequest : Type 0 where
  pub client_id : String
  pub contact_id : String
  pub new_password : String

pub record UpdateBandwidthRequest : Type 0 where
  pub client_id : String
  pub order_id : String
  pub bandwidth : String

-- One constructor for each type that implements Validator.
pub data HookRequest : Type 0 where
  deboard_org : DeboardOrgRequest → HookRequest
  onboard_contact : OnboardContactRequest → HookRequest
  deboard_contact : DeboardContactRequest → HookRequest
  update_pw : UpdatePwRequest → HookRequest
  update_bandwidth : UpdateBandwidthRequest → HookRequest

-- The methods Valid.
unfoldable pub hook_valid : HookRequest → Problems
hook_valid (deboard_org r) =
    required "crm_id" r.client_id ++ required "organization_name" r.organization_name
hook_valid (onboard_contact r) =
    required "crm_id" r.client_id
    ++ (required "contact_id" r.contact_id ++ required "email" r.email)
hook_valid (deboard_contact r) = required "crm_id" r.client_id ++ required "contact_id" r.contact_id
hook_valid (update_pw r) =
    required "crm_id" r.client_id
    ++ (required "contact_id" r.contact_id ++ required "new_password" r.new_password)
hook_valid (update_bandwidth r) =
    required "crm_id" r.client_id
    ++ (required "order_id" r.order_id ++ required "bandwidth" r.bandwidth)
