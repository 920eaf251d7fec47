-- ===== src/Mcp/Workflow/Tests.antt =====
-- Runs of the workflow tracker.
use project_starfly_fabrics.Dict.{keep}
use project_starfly_fabrics.Mcp.Workflow.{
  check_acyclicity, check_parents, check_times, search_ancestors,
}
use project_starfly_fabrics.Prelude.{contains, is_empty}
use project_starfly_fabrics.Prelude.{
  arith, String, ◌≡◌, refl, ◌≢◌, ◌↔◌, is_empty-false, none, some, [], ◌∷◌, ok, err,
}
use project_starfly_fabrics.Dict.{lookup, insert}
use project_starfly_fabrics.Mcp.Workflow.{
  TaskRecord, WorkflowTracker, cycle_detected, tasks_for_scope, store_task, record_task, check_task,
  cleanup,
}
use project_starfly_fabrics.Mcp.Workflow.Acyclic.{Recordable, removed_ancestor_refused}
use project_starfly_fabrics.Mcp.Workflow.Graph.{Ancestor}
use project_starfly_fabrics.Mcp.Workflow.Histories.{
  Reached, created, recorded, Reached-acyclic, Reached-accepts,
}

abbrev root_task : TaskRecord
root_task = record { jti = "a"; issued_at = 100; parent_ids = [] }

abbrev child_task : TaskRecord
child_task = record { jti = "b"; issued_at = 200; parent_ids = "a" ∷ [] }

abbrev empty_tracker : WorkflowTracker
empty_tracker = record { workflows = []; ttl = 50; clock_skew = 10; global_tasks = [] }

abbrev one_task : WorkflowTracker
one_task = record empty_tracker {
  workflows =
      (
        "w1",
        record { id = "w1"; tasks = ("a", root_task) ∷ []; created_at = 100; updated_at = 100 },
      )
      ∷ [];
}

root_recorded : record_task "w1" root_task empty_tracker ≡ ok one_task
unfolding record_task check_task lookup tasks_for_scope is_empty check_parents check_times
    check_acyclicity search_ancestors store_task insert
root_recorded = refl

one_task-Reached : Reached one_task
one_task-Reached = recorded (created refl) "w1" root_task root_recorded

w1_named : ◌≢◌ {A = String} "w1" ""
unfolding is_empty
w1_named = is_empty-false "w1" refl

Reached-acyclic_example : Ancestor (tasks_for_scope "w1" one_task) "a" "a" → ⊥
Reached-acyclic_example = Reached-acyclic one_task-Reached "w1" w1_named "a"

Reached-accepts_example :
    (record_task "w1" child_task one_task ≡ ok (store_task "w1" child_task one_task))
    ↔ Recordable (tasks_for_scope "w1" one_task) 10 child_task
Reached-accepts_example = Reached-accepts one_task-Reached "w1" w1_named child_task

-- Both tasks without a workflow, then a cleanup that only the later one survives.
abbrev two_global : WorkflowTracker
two_global = record empty_tracker { global_tasks = ("a", root_task) ∷ ("b", child_task) ∷ [] }

both_recorded :
    record_task "" child_task (record empty_tracker { global_tasks = ("a", root_task) ∷ [] })
    ≡ ok two_global
unfolding record_task check_task lookup tasks_for_scope is_empty check_parents check_times
    check_acyclicity search_ancestors contains store_task insert
both_recorded = refl

after_cleanup : (cleanup 200 two_global).1.global_tasks ≡ ("b", child_task) ∷ []
unfolding cleanup keep
after_cleanup = refl

abbrev again : TaskRecord
again = record { jti = "a"; issued_at = 210; parent_ids = "b" ∷ [] }

nothing_recorded : lookup again.jti (("b", child_task) ∷ []) ≡ none
unfolding lookup
nothing_recorded = refl

child_recorded : lookup "b" (("b", child_task) ∷ []) ≡ some child_task
unfolding lookup
child_recorded = refl

removed_ancestor_refused_example :
    check_task (("b", child_task) ∷ []) 10 again ≡ err (cycle_detected "a")
removed_ancestor_refused_example =
    removed_ancestor_refused (("b", child_task) ∷ []) 10 again child_task "b" [] nothing_recorded
      refl child_recorded refl (omega arith)
