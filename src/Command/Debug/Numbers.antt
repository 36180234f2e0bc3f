-- ===== src/Command/Debug/Numbers.antt =====
-- What the published map holds.
use hbs_queue.Command.Debug.{
  Value, uint64, float64, bad, other, Sample, Published, integer, float, Metrics, publish,
  publish_all, runtime_metrics,
}
use hbs_queue.Prelude.{
  ◌≡◌, ◌≢◌, String, Option, none, some, List, [], ◌∷◌, All, str_eq, arith, eq_iff, refl, ◌∙◌, sym,
  subst, Bool-cases, inl, inr, if◌then◌else◌,
}

-- What is published for a metric: its number, and nothing where it has none.
abbrev pub number : {F : Type 0} → Value F → Option (Published F)
number (uint64 n) = some (integer n)
number (float64 x) = some (float x)
number bad = none
number other = none

-- The number of the first sample with a name.
unfoldable pub number_of : {F : Type 0} → List (Sample F) → String → Option (Published F)
number_of [] key = none
number_of (s ∷ samples) key = if str_eq s.name key then number s.value else number_of samples key

-- The samples hold one for each metric, as metrics.All names each once.
abbrev pub HasDistinctNames : {F : Type 0} → List (Sample F) → Type 0
HasDistinctNames [] = Unit {0}
HasDistinctNames (s ∷ samples) = All (λ t. t.name ≢ s.name) samples × HasDistinctNames samples

module _ {F : Type 0} where
  publish_ne :
      (key name : String) (v : Value F) (out : Metrics F)
      → name ≢ key
      → publish (record { name = name; value = v }) out key ≡ out key
  publish_ne key name (uint64 n) out h = ground (arith, eq_iff key name)
  publish_ne key name (float64 x) out h = ground (arith, eq_iff key name)
  publish_ne key name bad out h = refl
  publish_ne key name other out h = refl

  publish_eq :
      (name : String) (v : Value F) (out : Metrics F)
      → out name ≡ none
      → publish (record { name = name; value = v }) out name ≡ number v
  publish_eq name (uint64 n) out h = ground (arith, eq_iff name name)
  publish_eq name (float64 x) out h = ground (arith, eq_iff name name)
  publish_eq name bad out h = h
  publish_eq name other out h = h

  publish_all_ne :
      (key : String) (samples : List (Sample F)) (out : Metrics F)
      → All (λ t. t.name ≢ key) samples
      → publish_all samples out key ≡ out key
  unfolding publish_all
  publish_all_ne key [] out h = refl
  publish_all_ne key (s ∷ samples) out (h, hs) =
      publish_all_ne key samples (publish s out) hs ∙ publish_ne key s.name s.value out h

  publish_all_number :
      (key : String) (samples : List (Sample F)) (out : Metrics F)
      → out key ≡ none
      → HasDistinctNames samples
      → publish_all samples out key ≡ number_of samples key
  unfolding publish_all number_of
  publish_all_number key [] out h d = h
  publish_all_number key (s ∷ samples) out h (d, ds) = elim (Bool-cases (str_eq s.name key)) [
    | inl e ↦
        let here : s.name ≡ key = ground (arith, eq_iff s.name key) in
        let last : publish_all samples (publish s out) key ≡ number s.value =
          publish_all_ne key samples (publish s out)
            (subst (λ k. All (λ t. t.name ≢ k) samples) here d)
          ∙ subst (λ k. publish s out k ≡ number s.value) here
              (publish_eq s.name s.value out (subst (λ k. out k ≡ none) (sym here) h)) in
        rw (e, number_of) last
    | inr e ↦
        let other : s.name ≢ key = ground (arith, eq_iff s.name key) in
        rw (e, number_of)
          (publish_all_number key samples (publish s out)
            (publish_ne key s.name s.value out other ∙ h) ds)
  ]

  -- Of samples with distinct names, the published map holds under a name the number of its sample,
  -- an integer or a float, and nothing where the sample has no number or no sample has the name.
  runtime_metrics_lem :
      (samples : List (Sample F)) (key : String)
      → HasDistinctNames samples
      → runtime_metrics samples key ≡ number_of samples key
  unfolding runtime_metrics
  runtime_metrics_lem samples key d = publish_all_number key samples (λ k. none) refl d
