-- ===== src/Jobs/OnboardOrg/Typed.antt =====
-- What the steps of an onboard_org job can read of its payload.
use hbs_queue.Errors.{ok}
use hbs_queue.Jobs.Args.{OnboardOrgArgs}
use hbs_queue.Jobs.OnboardOrg.Accumulated.{args_to_data-fields}
use hbs_queue.Jobs.OnboardOrg.{fields, args_to_data}
use hbs_queue.Prelude.{◌≡◌, true, some, All, sym, ◌∙◌, subst}
use hbs_queue.Workflow.State.Accumulator.{get_string_of_str, get_int_of_int}
use hbs_queue.Workflow.State.{WorkflowState, fits_int64, read, get_string, get_int}

-- The payload reaches the steps with its types and under the names of its tags: from a state whose
-- accumulator is that of the payload, GetString and GetInt read each of the fourteen fields, with
-- the flag true. The three numbers are Go ints.
pub args_to_data_read :
    (args : OnboardOrgArgs) (s : WorkflowState)
    → fits_int64 args.account_id ≡ true
    → fits_int64 args.max_zerto_storage ≡ true
    → fits_int64 args.max_zerto_vms ≡ true
    → args_to_data args ≡ ok s.accumulator
    → (get_string s "crm_id" ≡ (args.client_id, true))
      × (get_string s "organization_name" ≡ (args.organization_name, true))
      × (get_string s "client_username" ≡ (args.client_username, true))
      × (get_string s "client_first_name" ≡ (args.client_first_name, true))
      × (get_string s "client_last_name" ≡ (args.client_last_name, true))
      × (get_string s "client_email" ≡ (args.client_email, true))
      × (get_int s "account_id" ≡ (args.account_id, true))
      × (get_string s "country" ≡ (args.country, true))
      × (get_string s "state" ≡ (args.state, true))
      × (get_string s "postal_code" ≡ (args.postal_code, true))
      × (get_int s "max_zerto_storage" ≡ (args.max_zerto_storage, true))
      × (get_int s "max_zerto_vms" ≡ (args.max_zerto_vms, true))
      × (get_string s "bandwidth" ≡ (args.bandwidth, true))
      × (get_string s "product_id" ≡ (args.product_id, true))
unfolding fields
args_to_data_read args s account storage vms same =
    let (a, made, kept, _) = args_to_data-fields args in
    let one : a ≡ s.accumulator = let e = sym made ∙ same in cc in
    let (k₀, (k₁, (k₂, (k₃, (k₄, (k₅, (k₆, (k₇, (k₈, (k₉, (k₁₀, (k₁₁, (k₁₂, (k₁₃, _)))))))))))))) =
      subst (λ d. All (λ f. read d f.0 ≡ some f.1) (fields args)) one kept in
    (
      get_string_of_str s "crm_id" k₀,
      get_string_of_str s "organization_name" k₁,
      get_string_of_str s "client_username" k₂,
      get_string_of_str s "client_first_name" k₃,
      get_string_of_str s "client_last_name" k₄,
      get_string_of_str s "client_email" k₅,
      get_int_of_int s "account_id" account k₆,
      get_string_of_str s "country" k₇,
      get_string_of_str s "state" k₈,
      get_string_of_str s "postal_code" k₉,
      get_int_of_int s "max_zerto_storage" storage k₁₀,
      get_int_of_int s "max_zerto_vms" vms k₁₁,
      get_string_of_str s "bandwidth" k₁₂,
      get_string_of_str s "product_id" k₁₃,
    )
