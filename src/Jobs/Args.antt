-- ===== src/Jobs/Args.antt =====
-- internal/jobs/args.go: the payload of each job and its kind.
use hbs_queue.Prelude.{String}
use hbs_queue.Prelude.Int.{ℤ}

pub record OnboardOrgArgs : Type 0 where
  pub client_id : String
  pub organization_name : String
  pub client_username : String
  pub client_first_name : String
  pub client_last_name : String
  pub client_email : String
  pub account_id : ℤ
  pub country : String
  pub state : String
  pub postal_code : String
  pub max_zerto_storage : ℤ
  pub max_zerto_vms : ℤ
  pub bandwidth : String
  pub product_id : String

pub record DeboardOrgArgs : Type 0 where
  pub client_id : String
  pub organization_name : String

pub record AddContactArgs : Type 0 where
  pub client_id : String
  pub contact_id : String
  pub first_name : String
  pub last_name : String
  pub email : String

pub record DeleteContactArgs : Type 0 where
  pub client_id : String
  pub contact_id : String

pub record UpdatePwArgs : Type 0 where
  pub client_id : String
  pub contact_id : String
  pub new_password : String

pub record UpdateBandwidthArgs : Type 0 where
  pub client_id : String
  pub order_id : String
  pub bandwidth : String

-- The payloads of the program, one constructor for each type.
pub data JobArgs : Type 0 where
  onboard_org : OnboardOrgArgs → JobArgs
  deboard_org : DeboardOrgArgs → JobArgs
  add_contact : AddContactArgs → JobArgs
  delete_contact : DeleteContactArgs → JobArgs
  update_pw : UpdatePwArgs → JobArgs
  update_bandwidth : UpdateBandwidthArgs → JobArgs

-- The methods Kind.
unfoldable pub kind : JobArgs → String
kind (onboard_org a) = "onboard_org"
kind (deboard_org a) = "deboard_org"
kind (add_contact a) = "onboard_contact"
kind (delete_contact a) = "deboard_contact"
kind (update_pw a) = "update_pw"
kind (update_bandwidth a) = "update_bandwidth"
