-- ===== src/Workflow/Runner/Execute.antt =====
-- What a workflow does, with no database: the reference that the runner is held to. The steps from
-- the current one on run in order, each on the state and the world that the last one left, until
-- one fails.
use hbs_queue.Errors.{GoError}
use hbs_queue.Prelude.{
  ℕ, suc, ◌+◌, ◌<◌, ◌≡◌, refl, none, some, List, [], ◌∷◌, length, All, arith, inl, inr,
  Option-cases, ◌∙◌,
}
use hbs_queue.Workflow.State.{WorkflowState}
use hbs_queue.Workflow.Step.{Step, KeepsContract}

pub data Progress (W : Type 0) : Type 0 where
  finished : W → WorkflowState → Progress W
  stopped : GoError → W → WorkflowState → Progress W

module _ {W : Type 0} where
  -- The state after a step that succeeds at index `i`.
  abbrev pub advanced : Step W → ℕ → WorkflowState → W → WorkflowState
  advanced step i s w = record ((step.run w s).1) { current_step = suc i }

  unfoldable pub execute : ℕ → List (Step W) → WorkflowState → W → Progress W
  execute i [] s w = finished w s
  execute i (step ∷ steps) s w =
      let (w', s', result) = step.run w s in
      elim result [
        | some e ↦ stopped e w' s'
        | none ↦ execute (suc i) steps (record s' { current_step = suc i }) w'
      ]

  pub execute-advanced :
      (i : ℕ) (step : Step W) (steps : List (Step W)) (s : WorkflowState) (w : W)
      → (step.run w s).2 ≡ none
      → execute i (step ∷ steps) s w ≡ execute (suc i) steps (advanced step i s w) (step.run w s).0
  unfolding execute
  execute-advanced i step steps s w e = rw (e, execute)

  pub execute_stopped :
      (i : ℕ) (step : Step W) (steps : List (Step W)) (s : WorkflowState) (w : W) {x : GoError}
      → (step.run w s).2 ≡ some x
      → execute i (step ∷ steps) s w ≡ stopped x (step.run w s).0 (step.run w s).1
  unfolding execute
  execute_stopped i step steps s w e = rw (e, execute)

  -- What an execution from index `i` over `n` steps keeps of its first state, and how far it gets.
  abbrev pub Keeps : ℕ → ℕ → WorkflowState → Progress W → Type 0
  Keeps i n s (finished w' s') =
      (s'.job_id ≡ s.job_id)
      × (s'.status ≡ s.status)
      × (s'.error ≡ s.error)
      × (s'.current_step ≡ i + n)
  Keeps i n s (stopped e w' s') =
      (s'.job_id ≡ s.job_id)
      × (s'.status ≡ s.status)
      × (s'.error ≡ s.error)
      × (done : ℕ) × (done < n)
      × (s'.current_step ≡ i + done)

  Keeps-suc :
      (i n : ℕ) (s t : WorkflowState) (p : Progress W)
      → t.job_id ≡ s.job_id
      → t.status ≡ s.status
      → t.error ≡ s.error
      → Keeps (suc i) n t p
      → Keeps i (suc n) s p
  Keeps-suc i n s t (finished w' s') a b c (x, y, z, k) = (x ∙ a, y ∙ b, z ∙ c, omega arith)
  Keeps-suc i n s t (stopped e w' s') a b c (x, y, z, done, lt, k) =
      (x ∙ a, y ∙ b, z ∙ c, suc done, omega arith, omega arith)

  -- A finished execution has advanced past the last step; a stopped one stands at the step that
  -- failed.
  pub execute-Keeps :
      (i : ℕ) (steps : List (Step W)) (s : WorkflowState) (w : W)
      → All KeepsContract steps
      → s.current_step ≡ i
      → Keeps i (length steps) s (execute i steps s w)
  unfolding execute
  execute-Keeps i [] s w c h = (refl, refl, refl, omega arith)
  execute-Keeps i (step ∷ steps) s w (c, cs) h = elim (Option-cases (step.run w s).2) [
    | inl e ↦
        rw (e, execute)
          (Keeps-suc i (length steps) s (advanced step i s w) _ (c.keeps_job_id w s)
            (c.keeps_status w s) (c.keeps_error w s)
            (execute-Keeps (suc i) steps (advanced step i s w) (step.run w s).0 cs refl))
    | inr (x, e) ↦
        rw (e, execute)
          (
            c.keeps_job_id w s,
            c.keeps_status w s,
            c.keeps_error w s,
            0,
            omega arith,
            omega (arith, c.keeps_current_step w s),
          )
  ]
