-- ===== src/Workflow/Runner/Resume.antt =====
-- What Run does for a job with a row, for a job without one, and over a retry.
use hbs_queue.Errors.{GoError, ok, err, is_err_not_found}
use hbs_queue.Errors.Text.{error_text}
use hbs_queue.Prelude.{
  ℕ, zero, suc, ◌≤◌, ◌<◌, ◌≡◌, refl, sym, subst, ◌∙◌, none, some, true, String, List, [], ◌∷◌,
  Bytes, drop, length, length-drop, All, All-drop, arith,
}
use hbs_queue.Workflow.Repository.{
  Repository, SameProgress, Persisted, RepositoryLaws, IsAvailable, KeepsStorable,
}
use hbs_queue.Workflow.Runner.Execute.{stopped, execute, execute-Keeps}
use hbs_queue.Workflow.Runner.Refines.{Agrees, start-Agrees}
use hbs_queue.Workflow.Runner.{returned, new_state, marked_running, start, run}
use hbs_queue.Workflow.State.{Accumulator, WorkflowState, completed}
use hbs_queue.Workflow.Step.{Step, KeepsContract}

pub drop_all {ℓ} : {A : Type ℓ} (n : ℕ) (xs : List A) → length xs ≤ n → drop n xs ≡ []
drop_all zero [] h = refl
drop_all zero (x ∷ xs) h = absurd (omega arith)
drop_all (suc n) [] h = refl
drop_all (suc n) (x ∷ xs) h = drop_all n xs (omega arith)

module _ (unicode_lower : Bytes → Bytes) {D W : Type 0} (repo : Repository D)
    (laws : RepositoryLaws repo) (available : IsAvailable repo) (steps : List (Step W))
    (contract : All KeepsContract steps)
    (storable : All (KeepsStorable unicode_lower available) steps) (job_id : ℕ)
    (workflow_type client_id : String) (initial_data : Accumulator) where
  -- A job that has a row resumes at the row's current step: with a lawful and reachable repository
  -- and steps that keep their contract and whose outputs and error texts its columns take, Run does to the world and to the row what the plain
  -- execution of the steps from that index on does, returns nil where it finishes, and returns the
  -- failing step's own error, persisted as failed, where it stops.
  pub run_resumes :
      (s : WorkflowState) (d : D) (w : W)
      → repo.get d job_id ≡ ok s
      → Agrees unicode_lower repo
          (execute s.current_step (drop s.current_step steps) (marked_running s) w)
          (run unicode_lower repo steps job_id workflow_type client_id initial_data d w)
  unfolding run
  run_resumes s d w found =
      rw (found, run)
        (start-Agrees unicode_lower repo laws available steps s d w contract storable
          (subst (λ j. repo.get d j ≡ ok s) (sym (laws.get-job_id d job_id s found)) found))

  -- With such a repository and such steps, a job without a row gets one from the job's arguments,
  -- and all of its steps run from index 0 on the initial data.
  pub run_creates :
      {e : GoError} (d : D) (w : W)
      → repo.get d job_id ≡ err e
      → is_err_not_found e ≡ true
      → let created = repo.create d (new_state job_id workflow_type client_id initial_data) in
        created.2 ≡ none
        → SameProgress created.1 (new_state job_id workflow_type client_id initial_data)
          × Agrees unicode_lower repo
              (execute 0 steps (marked_running created.1) w)
              (run unicode_lower repo steps job_id workflow_type client_id initial_data d w)
  unfolding run
  run_creates d w missing known made =
      let fresh = new_state job_id workflow_type client_id initial_data in
      let (found, same) = laws.get-create d fresh made refl refl in
      let s = (repo.create d fresh).1 in
      (
        same,
        rw (missing, run)
            (rw (known, run)
              (rw (made, run)
                (subst
                  (λ k.
                    Agrees unicode_lower repo (execute k (drop k steps) (marked_running s) w)
                      (start unicode_lower repo steps s (repo.create d fresh).0 w))
                  same.same_step
                  (start-Agrees unicode_lower repo laws available steps s (repo.create d fresh).0 w
                    contract storable
                    (subst (λ j. repo.get (repo.create d fresh).0 j ≡ ok s) (sym same.same_job)
                      found))))),
      )

  -- A retry never repeats a step that succeeded: with such a repository and such steps, if a run
  -- stops because a step fails with an error that has a text, then the row now stands at exactly
  -- that step, below the end and not below where the run began, with the accumulator as the step
  -- left it, and the next run resumes there, in the world that the first one left.
  pub retry_resumes :
      (s s' : WorkflowState) (d : D) (w w' : W) {e : GoError} {text : Bytes}
      → repo.get d job_id ≡ ok s
      → execute s.current_step (drop s.current_step steps) (marked_running s) w ≡ stopped e w' s'
      → error_text unicode_lower e ≡ some text
      → let run_it = run unicode_lower repo steps job_id workflow_type client_id initial_data in
        let first = run_it d w in
        (r : WorkflowState) × (repo.get first.db job_id ≡ ok r)
        × (r.current_step ≡ s'.current_step)
        × (s.current_step ≤ r.current_step)
        × (r.current_step < length steps)
        × (r.accumulator ≡ s'.accumulator)
        × Agrees unicode_lower repo
            (execute r.current_step (drop r.current_step steps) (marked_running r) w')
            (run_it first.db first.world)
  retry_resumes s s' d w w' found stop told =
      let run_it = run unicode_lower repo steps job_id workflow_type client_id initial_data in
      let (out, same_world, there) = rw told at (rw stop at (run_resumes s d w found)) in
      let (job, _, _, done, below, at_step) = rw stop at (
        execute-Keeps s.current_step (drop s.current_step steps) (marked_running s) w
          (All-drop KeepsContract s.current_step steps contract) refl) in
      let here : repo.get (run_it d w).db job_id ≡ ok there.row =
        subst (λ j. repo.get (run_it d w).db j ≡ ok there.row)
          (job ∙ laws.get-job_id d job_id s found) there.found in
      (
        there.row,
        here,
        there.same.same_step,
        omega (arith, there.same.same_step),
        omega (arith, there.same.same_step, length-drop {0} s.current_step steps),
        there.same.same_accumulator,
        subst
            (λ v.
              Agrees unicode_lower repo
                (execute there.row.current_step (drop there.row.current_step steps)
                  (marked_running there.row) v)
                (run_it (run_it d w).db (run_it d w).world))
            same_world (run_resumes there.row (run_it d w).db (run_it d w).world here),
      )

  -- A run of a job whose row is past the last step acts on nothing: it returns nil, leaves the
  -- world as it was, and the row holds the same progress, marked completed.
  rerun_of_completed :
      (s : WorkflowState) (d : D) (w : W)
      → repo.get d job_id ≡ ok s
      → length steps ≤ s.current_step
      → let ran = run unicode_lower repo steps job_id workflow_type client_id initial_data d w in
        (ran.outcome ≡ returned none)
        × (ran.world ≡ w)
        × Persisted repo ran.db (record s { status = completed; error = [] })
  unfolding execute
  rerun_of_completed s d w found past =
      rw (drop_all s.current_step steps past) at (run_resumes s d w found)
