-- ===== src/Workflow/Runner/Sound.antt =====
-- What a nil result of Run tells, whether or not the database is reachable all along.
use native.Mathlib.Nat.{zero-add}
use hbs_queue.Errors.{GoError, ok, err, is_err_not_found, Result-cases}
use hbs_queue.Prelude.{
  ℕ, suc, ◌≤◌, ◌≡◌, refl, ◌⊎◌, inl, inr, true, none, some, String, List, [], ◌∷◌, Bytes, drop,
  arith, Option-cases, Bool-cases, le→not_ltb,
}
use hbs_queue.Workflow.Repository.{Repository, Persisted, RepositoryLaws}
use hbs_queue.Workflow.Runner.Execute.{Progress, finished, execute, advanced, execute-advanced}
use hbs_queue.Workflow.Runner.Rounds.{round_failed, round_advanced, run_steps_skip}
use hbs_queue.Workflow.Runner.{
  Ran, returned, new_state, marked_running, fail_step, complete, run_steps, start, run,
}
use hbs_queue.Workflow.State.{Accumulator, WorkflowState, completed}
use hbs_queue.Workflow.Step.{Step}

-- The state is that of the row that was created, where the job had none.
abbrev pub IsCreated : {D : Type 0} → Repository D → WorkflowState → WorkflowState → D → Type 0
IsCreated repo s fresh d =
    (e : GoError) × (repo.get d fresh.job_id ≡ err e)
    × (is_err_not_found e ≡ true)
    × ((repo.create d fresh).2 ≡ none)
    × (s ≡ (repo.create d fresh).1)

module _ (unicode_lower : Bytes → Bytes) {D W : Type 0} (repo : Repository D) where
  pub fail_step-ne-nil :
      (x : GoError) (s : WorkflowState) (d : D) (w : W)
      → ¬ ((fail_step unicode_lower repo x s d w).outcome ≡ returned none)
  unfolding fail_step
  fail_step-ne-nil x s d w = ground arith

  pub round_unsaved :
      (i : ℕ) (step : Step W) (steps : List (Step W)) (s : WorkflowState) (d : D) (w : W)
      {x : GoError}
      → s.current_step ≤ i
      → (step.run w s).2 ≡ none
      → (repo.update_step d (advanced step i s w)).1 ≡ some x
      → ¬ ((run_steps unicode_lower repo i (step ∷ steps) s d w).outcome ≡ returned none)
  unfolding run_steps
  round_unsaved i step steps s d w h e u =
      rw (le→not_ltb i s.current_step h, run_steps)
        (rw (e, run_steps) (rw (u, run_steps) (λ p. cc)))

  -- The reference execution finishes, its world is the one that is left, and the row of the job
  -- holds its last state, marked completed.
  abbrev pub Completes : Progress W → Ran D W → Type 0
  Completes p ran =
      (w' : W) × (s' : WorkflowState) × (p ≡ finished w' s')
      × (ran.world ≡ w')
      × Persisted repo ran.db (record s' { status = completed })

  module _ (laws : RepositoryLaws repo) where
    complete-Completes :
        (s : WorkflowState) (d : D) (w : W)
        → (complete unicode_lower repo s d w).outcome ≡ returned none
        → Completes (finished w s) (complete unicode_lower repo s d w)
    unfolding complete
    complete-Completes s d w nil =
        elim (Option-cases (repo.update_step d (record s { status = completed })).1) [
          | inl e ↦ rw (e, complete) (w, s, refl, refl, laws.get-update_step d _ e)
          | inr (x, e) ↦ absurd (let bad = rw (e, complete) at nil in cc)
        ]

    run_steps-Completes :
        (i : ℕ) (steps : List (Step W)) (s : WorkflowState) (d : D) (w : W)
        → s.current_step ≤ i
        → (run_steps unicode_lower repo i steps s d w).outcome ≡ returned none
        → Completes (execute i steps s w) (run_steps unicode_lower repo i steps s d w)
    run_steps-Completes i [] s d w h nil = unfold execute run_steps in complete-Completes s d w nil
    run_steps-Completes i (step ∷ steps) s d w h nil = elim (Option-cases (step.run w s).2) [
      | inl e ↦ elim (Option-cases (repo.update_step d (advanced step i s w)).1) [
        | inl u ↦
            rw
              (
                execute-advanced i step steps s w e,
                round_advanced unicode_lower repo i step steps s d w h e u,
              )
              (run_steps-Completes (suc i) steps (advanced step i s w) _ (step.run w s).0
                (omega arith)
                (rw (round_advanced unicode_lower repo i step steps s d w h e u) at nil))
        | inr (x, u) ↦ absurd (round_unsaved i step steps s d w h e u nil)
      ]
      | inr (x, e) ↦ absurd (
          fail_step-ne-nil x (step.run w s).1 d (step.run w s).0
            (rw (round_failed unicode_lower repo i step steps s d w h e) at nil))
    ]

    pub start-Completes :
        (steps : List (Step W)) (s : WorkflowState) (d : D) (w : W)
        → (start unicode_lower repo steps s d w).outcome ≡ returned none
        → Completes
            (execute s.current_step (drop s.current_step steps) (marked_running s) w)
            (start unicode_lower repo steps s d w)
    unfolding start
    start-Completes steps s d w nil =
        elim (Option-cases (repo.update_step d (marked_running s)).1) [
          | inl u ↦
              let skip =
                run_steps_skip unicode_lower repo s.current_step 0 steps (marked_running s)
                  (repo.update_step d (marked_running s)).0 w (omega arith) in
              let nil' = rw (zero-add s.current_step) at (rw skip at (rw (u, start) at nil)) in
              rw (u, start)
                (rw skip (
                  rw (zero-add s.current_step) (
                    run_steps-Completes s.current_step (drop s.current_step steps)
                      (marked_running s) _ w (omega arith) nil')))
          | inr (x, u) ↦ absurd (let bad = rw (u, start) at nil in cc)
        ]

    -- Where Run returns nil, all of the work was done and recorded: the job's row was loaded, or it
    -- was missing and was created, as some state, the execution of the steps from that state's current step on
    -- finishes, its effects on the world are those of the run, and the job's row holds the last
    -- state, marked completed. No step needs to keep the contract, and the database may fail.
    pub run_nil-Completes :
        (steps : List (Step W)) (job_id : ℕ) (workflow_type client_id : String)
        (initial_data : Accumulator) (d : D) (w : W)
        → let ran = run unicode_lower repo steps job_id workflow_type client_id initial_data d w in
          ran.outcome ≡ returned none
          → (s : WorkflowState) × ((repo.get d job_id ≡ ok s)
              ⊎ IsCreated repo s (new_state job_id workflow_type client_id initial_data) d)
            × Completes
                (execute s.current_step (drop s.current_step steps) (marked_running s) w)
                ran
    unfolding run
    run_nil-Completes steps job_id workflow_type client_id initial_data d w nil =
        let fresh = new_state job_id workflow_type client_id initial_data in
        elim (Result-cases (repo.get d job_id)) [
          | inl (s, e) ↦ (s, inl e, rw (e, run) (start-Completes steps s d w (rw (e, run) at nil)))
          | inr (x, e) ↦
              let nil₁ = rw (e, run) at nil in
              elim (Bool-cases (is_err_not_found x)) [
                | inr other ↦ absurd (let bad = rw (other, run) at nil₁ in cc)
                | inl missing ↦
                    let nil₂ = rw (missing, run) at nil₁ in
                    elim (Option-cases (repo.create d fresh).2) [
                      | inr (y, u) ↦ absurd (let bad = rw (u, run) at nil₂ in cc)
                      | inl u ↦ (
                        (repo.create d fresh).1,
                        inr (x, e, missing, u, refl),
                        rw (e, run)
                            (rw (missing, run)
                              (rw (u, run)
                                (start-Completes steps (repo.create d fresh).1
                                  (repo.create d fresh).0 w (rw (u, run) at nil₂)))),
                      )
                    ]
              ]
        ]
