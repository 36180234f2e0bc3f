-- ===== src/Http/Requests/Valid.antt =====
-- Which onboarding requests are valid.
use hbs_queue.Http.Requests.{Problems, required, unless_not, OnboardOrgRequest, onboard_org_valid}
use hbs_queue.Prelude.{◌≡◌, ◌≢◌, ◌↔◌, refl, String, [], ◌∷◌, ◌++◌, eq_iff, arith}
use hbs_queue.Prelude.Int.{ℤ, pos, ◌<ℤ◌, ◌≤ℤ◌, ltb_ℤ, leb_ℤ}

append_empty : (ps qs : Problems) → ((ps ++ qs) ≡ []) ↔ ((ps ≡ []) × (qs ≡ []))
append_empty [] qs = ((λ h. (refl, h)), (λ h. h.1))
append_empty (p ∷ ps) qs = ground arith

pub required_empty : (name value : String) → (required name value ≡ []) ↔ (value ≢ "")
required_empty name value = ground (arith, eq_iff value "")

pub required-append :
    (name value : String) (rest : Problems)
    → ((required name value ++ rest) ≡ []) ↔ ((value ≢ "") × (rest ≡ []))
required-append name value rest = ground (arith, eq_iff value "")

not_positive_empty :
    (n : ℤ) (name why : String) → (unless_not (leb_ℤ n (pos 0)) name why ≡ []) ↔ (pos 0 <ℤ n)
not_positive_empty n name why = ground arith

negative_empty :
    (n : ℤ) (name why : String) → (unless_not (ltb_ℤ n (pos 0)) name why ≡ []) ↔ (pos 0 ≤ℤ n)
negative_empty n name why = ground arith

pub record IsValidOrder (r : OnboardOrgRequest) : Type 0 where
  pub has_client_id : r.client_id ≢ ""
  pub has_first_name : r.client_first_name ≢ ""
  pub has_last_name : r.client_last_name ≢ ""
  pub has_email : r.client_email ≢ ""
  pub has_bandwidth : r.bandwidth ≢ ""
  pub positive_account : pos 0 <ℤ r.account_id
  pub storage_bound : pos 0 ≤ℤ r.max_zerto_storage
  pub vms_bound : pos 0 ≤ℤ r.max_zerto_vms

-- An onboarding request has no problems exactly where its id, both names, its email and its
-- bandwidth are not empty, its account number is positive, and neither limit is negative.
pub onboard_org_valid_iff : (r : OnboardOrgRequest) → (onboard_org_valid r ≡ []) ↔ IsValidOrder r
unfolding onboard_org_valid
onboard_org_valid_iff r = (
  λ h.
      let (a, h₁) = (append_empty (required "crm_id" r.client_id) _).0 h in
      let (b, h₂) = (append_empty (required "client_first_name" r.client_first_name) _).0 h₁ in
      let (c, h₃) = (append_empty (required "client_last_name" r.client_last_name) _).0 h₂ in
      let (d, h₄) = (append_empty (required "client_email" r.client_email) _).0 h₃ in
      let (e, h₅) = (append_empty (required "bandwidth" r.bandwidth) _).0 h₄ in
      let (f, h₆) =
        (append_empty
            (unless_not (leb_ℤ r.account_id (pos 0)) "account_id" "must be a positive integer") _).0
          h₅ in
      let (g, h₇) =
        (append_empty
            (unless_not (ltb_ℤ r.max_zerto_storage (pos 0)) "max_zerto_storage"
              "must be zero or greater")
            _).0
          h₆ in
      record {
        has_client_id = (required_empty _ _).0 a;
        has_first_name = (required_empty _ _).0 b;
        has_last_name = (required_empty _ _).0 c;
        has_email = (required_empty _ _).0 d;
        has_bandwidth = (required_empty _ _).0 e;
        positive_account = (not_positive_empty _ _ _).0 f;
        storage_bound = (negative_empty _ _ _).0 g;
        vms_bound = (negative_empty _ _ _).0 h₇;
      },
  λ v.
      let a = (required_empty "crm_id" r.client_id).1 v.has_client_id in
      let b = (required_empty "client_first_name" r.client_first_name).1 v.has_first_name in
      let c = (required_empty "client_last_name" r.client_last_name).1 v.has_last_name in
      let d = (required_empty "client_email" r.client_email).1 v.has_email in
      let e = (required_empty "bandwidth" r.bandwidth).1 v.has_bandwidth in
      let f =
        (not_positive_empty r.account_id "account_id" "must be a positive integer").1
          v.positive_account in
      let g =
        (negative_empty r.max_zerto_storage "max_zerto_storage" "must be zero or greater").1
          v.storage_bound in
      let k =
        (negative_empty r.max_zerto_vms "max_zerto_vms" "must be zero or greater").1 v.vms_bound in
      rw a (rw b (rw c (rw d (rw e (rw f (rw g k)))))),
)
