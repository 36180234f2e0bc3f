-- ===== src/Jobs/OnboardOrg/Accumulated.antt =====
-- What the accumulator of an onboard_org job starts as.
use hbs_queue.Errors.{ok}
use hbs_queue.Jobs.Args.{OnboardOrgArgs}
use hbs_queue.Jobs.OnboardOrg.{fields, member, args_to_data}
use hbs_queue.Prelude.{String, ◌≡◌, ◌≢◌, refl, none, some, List, [], ◌∷◌, All, arith, eq_iff}
use hbs_queue.Workflow.State.{Json, Accumulator, read}

member_absent :
    (key : String) (fs : List (String × Json)) → All (λ f. f.0 ≢ key) fs → member fs key ≡ none
unfolding member
member_absent key [] h = refl
member_absent key ((name, value) ∷ fs) (other, h) =
    rw (member_absent key fs h, member) (ground (arith, eq_iff name key))

-- Each field of the payload is in the accumulator under the name of its tag, no two tags clash, and
-- the accumulator holds nothing else.
pub args_to_data-fields :
    (args : OnboardOrgArgs)
    → (data₀ : Accumulator) × (args_to_data args ≡ ok data₀)
      × All (λ f. read data₀ f.0 ≡ some f.1) (fields args)
      × ((key : String) → All (λ f. f.0 ≢ key) (fields args) → read data₀ key ≡ none)
unfolding args_to_data
args_to_data-fields args = (
  some (member (fields args)),
  refl,
  (
    refl,
    (
      refl,
      (
        refl,
        (refl, (refl, (refl, (refl, (refl, (refl, (refl, (refl, (refl, (refl, (refl, tt))))))))))),
      ),
    ),
  ),
  λ key absent. member_absent key (fields args) absent,
)
