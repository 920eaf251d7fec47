-- ===== src/Mcp/Workflow.antt =====
-- The workflow tracker, pkg/mcp/workflow.go: graphs of task tokens, one for each workflow and one
-- for tasks without a workflow. Times are numbers of nanoseconds, and the clock is an argument.
pub mod Acyclic
pub mod Graph
pub mod Histories
mod Tests
use project_starfly_fabrics.Prelude.{
  ℕ, zero, suc, ◌+◌, ◌*◌, String, ◌==◌, Bool, true, false, not, Option, none, some, List, [], ◌∷◌,
  ◌++◌, contains, is_empty, is_some, if◌then◌else◌, ltb, length, Result, ok, err, refuse_if, bind,
}
use project_starfly_fabrics.Dict.{Dict, lookup, insert, keep}

pub data WorkflowError : Type 0 where
  duplicate_task_id parent_not_found temporal_violation cycle_detected : String → WorkflowError

pub record TaskRecord : Type 0 where
  pub jti : String
  pub issued_at : ℕ
  pub parent_ids : List String

pub record Workflow : Type 0 where
  pub id : String
  pub tasks : Dict TaskRecord
  pub created_at : ℕ
  pub updated_at : ℕ

pub record WorkflowTracker : Type 0 where
  pub workflows : Dict Workflow
  pub ttl : ℕ
  pub clock_skew : ℕ
  pub global_tasks : Dict TaskRecord

abbrev pub max_ancestor_traversal : ℕ
max_ancestor_traversal = 10_000

-- The defaults, where no option changes them.
abbrev pub new_workflow_tracker : WorkflowTracker
new_workflow_tracker = record {
  workflows = [];
  ttl = 3_600_000_000_000;
  clock_skew = 30_000_000_000;
  global_tasks = [];
}

abbrev pub tasks_of : Option Workflow → Dict TaskRecord
tasks_of none = []
tasks_of (some wf) = wf.tasks

unfoldable pub tasks_for_scope : String → WorkflowTracker → Dict TaskRecord
tasks_for_scope workflow_id wt =
    if is_empty workflow_id then wt.global_tasks else tasks_of (lookup workflow_id wt.workflows)

unfoldable pub check_parents : Dict TaskRecord → List String → Result WorkflowError (Unit {0})
check_parents tasks [] = ok tt
check_parents tasks (pid ∷ pids) =
    bind (refuse_if (not (is_some (lookup pid tasks))) (parent_not_found pid))
      λ _. check_parents tasks pids

abbrev pub issued_after : Option TaskRecord → ℕ → Bool
issued_after none limit = false
issued_after (some parent) limit = ltb limit parent.issued_at

-- The parents are recorded: check_parents comes first.
unfoldable pub check_times : Dict TaskRecord → ℕ → List String → Result WorkflowError (Unit {0})
check_times tasks limit [] = ok tt
check_times tasks limit (pid ∷ pids) =
    bind (refuse_if (issued_after (lookup pid tasks) limit) (temporal_violation pid))
      λ _. check_times tasks limit pids

abbrev pub parents_of : Option TaskRecord → List String
parents_of none = []
parents_of (some parent) = parent.parent_ids

-- The loop of the breadth-first search: the first argument is what is left of the depth limit.
unfoldable pub search_ancestors :
    ℕ → Dict TaskRecord → String → List String → List String → Result WorkflowError (Unit {0})
search_ancestors zero tasks new_jti visited queue = ok tt
search_ancestors (suc n) tasks new_jti visited [] = ok tt
search_ancestors (suc n) tasks new_jti visited (current ∷ queue) =
    let seen = contains visited current in
    let rest =
      search_ancestors n tasks new_jti (if seen then visited else current ∷ visited)
        (if seen then queue else queue ++ parents_of (lookup current tasks)) in
    if current == new_jti then err (cycle_detected new_jti) else rest

unfoldable pub check_acyclicity :
    Dict TaskRecord → String → List String → Result WorkflowError (Unit {0})
check_acyclicity tasks new_jti parent_ids =
    search_ancestors max_ancestor_traversal tasks new_jti [] parent_ids

-- The workflow of a scope, which the first task creates.
abbrev pub workflow_or_new : String → ℕ → Option Workflow → Workflow
workflow_or_new workflow_id issued_at (some wf) = wf
workflow_or_new workflow_id issued_at none = record {
  id = workflow_id;
  tasks = [];
  created_at = issued_at;
  updated_at = 0;
}

abbrev pub add_task : TaskRecord → Workflow → Workflow
add_task task wf = record wf { tasks = insert task.jti task wf.tasks; updated_at = task.issued_at }

unfoldable pub store_task : String → TaskRecord → WorkflowTracker → WorkflowTracker
store_task workflow_id task wt =
    if is_empty workflow_id
    then record wt { global_tasks = insert task.jti task wt.global_tasks }
    else record wt {
      workflows =
          insert workflow_id
            (add_task task
              (workflow_or_new workflow_id task.issued_at (lookup workflow_id wt.workflows)))
            wt.workflows;
    }

-- The four checks on the tasks of a scope, in their order.
unfoldable pub check_task : Dict TaskRecord → ℕ → TaskRecord → Result WorkflowError (Unit {0})
check_task tasks clock_skew task =
    bind (refuse_if (is_some (lookup task.jti tasks)) (duplicate_task_id task.jti)) λ _.
      bind (check_parents tasks task.parent_ids) λ _.
        bind (check_times tasks (task.issued_at + clock_skew) task.parent_ids)
          λ _. check_acyclicity tasks task.jti task.parent_ids

-- A refused task leaves the tracker as it was.
unfoldable pub record_task :
    String → TaskRecord → WorkflowTracker → Result WorkflowError WorkflowTracker
record_task workflow_id task wt =
    bind (check_task (tasks_for_scope workflow_id wt) wt.clock_skew task)
      λ _. ok (store_task workflow_id task wt)

unfoldable pub count_expired : ℕ → ℕ → Dict Workflow → ℕ
count_expired ttl now [] = 0
count_expired ttl now ((id, wf) ∷ wfs) =
    let rest = count_expired ttl now wfs in if ltb (wf.updated_at + ttl) now then rest + 1 else rest

-- Workflows go as a whole, tasks of the global scope one by one.
unfoldable pub cleanup : ℕ → WorkflowTracker → ℕ × WorkflowTracker
cleanup now wt = (
  count_expired wt.ttl now wt.workflows,
  record wt {
    workflows = keep (λ wf. not (ltb (wf.updated_at + wt.ttl) now)) wt.workflows;
    global_tasks = keep (λ t. not (ltb (t.issued_at + wt.ttl) now)) wt.global_tasks;
  },
)

unfoldable pub get_task : String → String → WorkflowTracker → Option TaskRecord
get_task workflow_id jti wt = lookup jti (tasks_for_scope workflow_id wt)

unfoldable pub workflow_size : String → WorkflowTracker → ℕ
workflow_size workflow_id wt = length (tasks_for_scope workflow_id wt)

unfoldable pub active_workflows : WorkflowTracker → ℕ
active_workflows wt = length wt.workflows
