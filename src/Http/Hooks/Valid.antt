-- ===== src/Http/Hooks/Valid.antt =====
-- Which hook payloads are valid.
use hbs_queue.Http.Hooks.{
  HookRequest, deboard_org, onboard_contact, deboard_contact, update_pw, update_bandwidth,
  hook_valid,
}
use hbs_queue.Http.Requests.Valid.{required-append, required_empty}
use hbs_queue.Http.Requests.{required}
use hbs_queue.Prelude.{◌≡◌, ◌≢◌, ◌↔◌, String, List, [], ◌∷◌, ◌++◌, All}

-- The fields that a hook cannot do without: whom it is about, and the names and the new values.
abbrev pub needed : HookRequest → List String
needed (deboard_org r) = r.client_id ∷ r.organization_name ∷ []
needed (onboard_contact r) = r.client_id ∷ r.contact_id ∷ r.email ∷ []
needed (deboard_contact r) = r.client_id ∷ r.contact_id ∷ []
needed (update_pw r) = r.client_id ∷ r.contact_id ∷ r.new_password ∷ []
needed (update_bandwidth r) = r.client_id ∷ r.order_id ∷ r.bandwidth ∷ []

two_required :
    (n m a b : String) → ((required n a ++ required m b) ≡ []) ↔ All (λ v. v ≢ "") (a ∷ b ∷ [])
two_required n m a b =
    let (out, in_) = required-append n a (required m b) in
    let (out₂, in₂) = required_empty m b in
    ((λ h. let (x, rest) = out h in (x, (out₂ rest, tt))), (λ h. in_ (h.0, in₂ h.1.0)))

three_required :
    (n m k a b c : String)
    → ((required n a ++ (required m b ++ required k c)) ≡ []) ↔ All (λ v. v ≢ "") (a ∷ b ∷ c ∷ [])
three_required n m k a b c =
    let (out, in_) = required-append n a (required m b ++ required k c) in
    let (out₂, in₂) = two_required m k b c in
    ((λ h. let (x, rest) = out h in (x, out₂ rest)), (λ h. in_ (h.0, in₂ h.1)))

-- The payload of a hook has no problems exactly where none of the fields that it needs is empty.
hook_valid_iff : (r : HookRequest) → (hook_valid r ≡ []) ↔ All (λ v. v ≢ "") (needed r)
unfolding hook_valid
hook_valid_iff (deboard_org r) =
    two_required "crm_id" "organization_name" r.client_id r.organization_name
hook_valid_iff (onboard_contact r) =
    three_required "crm_id" "contact_id" "email" r.client_id r.contact_id r.email
hook_valid_iff (deboard_contact r) = two_required "crm_id" "contact_id" r.client_id r.contact_id
hook_valid_iff (update_pw r) =
    three_required "crm_id" "contact_id" "new_password" r.client_id r.contact_id r.new_password
hook_valid_iff (update_bandwidth r) =
    three_required "crm_id" "order_id" "bandwidth" r.client_id r.order_id r.bandwidth
