-- ===== src/Vcd/Types.antt =====
-- internal/clients/vcd/types.go: the answers of the API, and the UUID of a URN.
pub mod Urn
use hbs_queue.Errors.{Result, ok, err, message}
use hbs_queue.Prelude.{String, Bool, List, [], ◌∷◌, ◌++◌, Bytes, codes, ltb, if◌then◌else◌, length}
use hbs_queue.Prelude.Int.{ℤ}
use hbs_queue.Strings.{split}

pub record Organization : Type 0 where
  pub id : String
  pub name : String
  pub display_name : String
  pub description : String
  pub is_enabled : Bool
  pub org_vdc_count : ℤ
  pub catalog_count : ℤ
  pub vapp_count : ℤ
  pub running_vm_count : ℤ
  pub user_count : ℤ
  pub disk_count : ℤ
  pub can_publish : Bool

pub record OrganizationResult : Type 0 where
  pub result_total : ℤ
  pub page_count : ℤ
  pub page : ℤ
  pub page_size : ℤ
  pub values : List Organization

pub record OrgRef : Type 0 where
  pub name : String
  pub id : String

pub record Vdc : Type 0 where
  pub id : String
  pub name : String
  pub description : String
  pub allocation_type : String
  pub org : OrgRef

pub record VdcResponse : Type 0 where
  pub result_total : ℤ
  pub page_count : ℤ
  pub page : ℤ
  pub page_size : ℤ
  pub values : List Vdc

-- parts[len(parts)-1], and the empty string for no parts, which strings.Split never returns
abbrev pub last_part : List Bytes → Bytes
last_part [] = []
last_part (p ∷ []) = p
last_part (p ∷ q ∷ parts) = last_part (q ∷ parts)

unfoldable pub extract_uuid : Bytes → Result Bytes
unfolding split
extract_uuid urn =
    let parts = split urn b':' in
    if ltb (length parts) 4
    then err (message (codes "invalid URN format: " ++ urn))
    else ok (last_part parts)
