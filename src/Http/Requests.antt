-- ===== src/Http/Requests.antt =====
-- internal/httpapi/types.go and decodeValid of encode.go: the payloads and what makes them valid.
-- The problems of a payload are a list of fields and messages in the order of the tests; a Go map
-- has no order.
pub mod Valid
use hbs_queue.Errors.{GoError, Result, ok, err, message, wrap}
use hbs_queue.Http.Message.{Request}
use hbs_queue.Prelude.{
  String, Bool, Option, List, [], ◌∷◌, ◌++◌, Bytes, codes, if◌then◌else◌, ltb, length, str_eq,
}
use hbs_queue.Prelude.Int.{ℤ, pos, ltb_ℤ, leb_ℤ}

abbrev pub Problems : Type 0
Problems = List (String × String)

-- A field that must not be empty.
abbrev pub required : String → String → Problems
required name value = if str_eq value "" then (name, "required") ∷ [] else []

abbrev pub unless_not : Bool → String → String → Problems
unless_not bad name why = if bad then (name, why) ∷ [] else []

pub record EchoRequest : Type 0 where
  -- the bytes of the message
  pub message : Bytes

unfoldable pub echo_valid : EchoRequest → Problems
echo_valid r =
    if ltb 0 (length r.message)
    then (if ltb 1000 (length r.message) then ("message", "max 1000 characters") ∷ [] else [])
    else ("message", "required") ∷ []

pub record OnboardOrgRequest : Type 0 where
  pub organization_name : String
  pub client_username : String
  pub client_first_name : String
  pub client_last_name : String
  pub client_email : String
  pub client_id : String
  pub account_id : ℤ
  pub country : String
  pub state : String
  pub postal_code : String
  pub max_zerto_storage : ℤ
  pub max_zerto_vms : ℤ
  pub bandwidth : String
  pub product_id : String

unfoldable pub onboard_org_valid : OnboardOrgRequest → Problems
onboard_org_valid r =
    required "crm_id" r.client_id
    ++ (required "client_first_name" r.client_first_name
        ++ (required "client_last_name" r.client_last_name
            ++ (required "client_email" r.client_email
                ++ (required "bandwidth" r.bandwidth
                    ++ (unless_not (leb_ℤ r.account_id (pos 0)) "account_id"
                          "must be a positive integer"
                        ++ (unless_not (ltb_ℤ r.max_zerto_storage (pos 0)) "max_zerto_storage"
                              "must be zero or greater"
                            ++ unless_not (ltb_ℤ r.max_zerto_vms (pos 0)) "max_zerto_vms"
                                "must be zero or greater"))))))

-- What decodeValid returns: the value, or the problems, or the error of a body that is no JSON of
-- the type.
pub data Checked (T : Type 0) : Type 0 where
  checked : T → Checked T
  invalid : Problems → Checked T
  malformed : GoError → Checked T

-- `decode` is json.Decoder.Decode on a body that ends, or fails with an error.
unfoldable pub decode_valid :
    {T : Type 0}
    → (decode : Bytes → Option GoError → Result T) → (valid : T → Problems) → Request
    → Checked T
decode_valid decode valid r = elim (decode r.body r.body_error) [
  | err e ↦ malformed (wrap (codes "decode json: ") e)
  | ok v ↦ elim (valid v) [ [] ↦ checked v | p ∷ problems ↦ invalid (p ∷ problems) ]
]
