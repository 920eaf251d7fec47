-- ===== src/Mcp/Workflow/Histories.antt =====
-- The workflow tracker under any sequence of its operations.
use project_starfly_fabrics.Prelude.{
  ℕ, String, ◌==◌, ◌≡◌, refl, sym, subst, ◌∙◌, ◌≢◌, ◌↔◌, inl, inr, Bool, false, Option, none, some,
  some-injective, [], arith, is_empty, ne-is_empty, if◌then◌else◌, Bool-cases, ok, bind-elim,
  bind-of,
}
use project_starfly_fabrics.Dict.{lookup, insert, keep_value, lookup-insert, lookup-keep}
use project_starfly_fabrics.Mcp.Workflow.{
  TaskRecord, Workflow, WorkflowTracker, tasks_of, tasks_for_scope, workflow_or_new, add_task,
  store_task, check_task, record_task, cleanup,
}
use project_starfly_fabrics.Mcp.Workflow.Acyclic.{Recordable, check_task-Recordable}
use project_starfly_fabrics.Mcp.Workflow.Graph.{Ancestor, Graph, empty-Graph, insert-Graph}

-- Every named workflow is such a graph.
pub record Sound (wt : WorkflowTracker) : Type 0 where
  pub at : (id : String) (wf : Workflow) → lookup id wt.workflows ≡ some wf → Graph wf.tasks

tasks_of-Graph :
    (wt : WorkflowTracker) (id : String) (o : Option Workflow)
    → Sound wt
    → lookup id wt.workflows ≡ o
    → Graph (tasks_of o)
tasks_of-Graph wt id none s e = empty-Graph
tasks_of-Graph wt id (some wf) s e = s.at id wf e

named-Graph :
    (wt : WorkflowTracker) (id : String)
    → is_empty id ≡ false
    → Sound wt
    → Graph (tasks_for_scope id wt)
unfolding tasks_for_scope
named-Graph wt id named s = rw named (tasks_of-Graph wt id (lookup id wt.workflows) s refl)

tasks_of-new :
    (id : String) (at : ℕ) (o : Option Workflow) → (workflow_or_new id at o).tasks ≡ tasks_of o
tasks_of-new id at none = refl
tasks_of-new id at (some wf) = refl

named_store-Sound :
    (id : String) (task : TaskRecord) (wt : WorkflowTracker)
    → Sound wt
    → Graph (insert task.jti task (tasks_of (lookup id wt.workflows)))
    → (k : String) (wf : Workflow)
    → lookup k (
        insert id
          (add_task task (workflow_or_new id task.issued_at (lookup id wt.workflows)))
          wt.workflows)
      ≡ some wf
    → Graph wf.tasks
named_store-Sound id task wt s g k wf e = elim (Bool-cases (id == k)) [
  | inl same ↦
      let found = rw (lookup-insert id k _ wt.workflows, same, if◌then◌else◌) at e in
      subst (λ (v : Workflow). Graph v.tasks) (some-injective found)
        (subst (λ ts. Graph (insert task.jti task ts))
          (sym (tasks_of-new id task.issued_at (lookup id wt.workflows))) g)
  | inr other ↦ s.at k wf (rw (lookup-insert id k _ wt.workflows, other, if◌then◌else◌) at e)
]

named_scope :
    (id : String) (task : TaskRecord) (wt : WorkflowTracker)
    → is_empty id ≡ false
    → Graph (insert task.jti task (tasks_for_scope id wt))
    → Graph (insert task.jti task (tasks_of (lookup id wt.workflows)))
unfolding tasks_for_scope
named_scope id task wt named g = rw (named, if◌then◌else◌) at g

store-Sound :
    (id : String) (task : TaskRecord) (wt : WorkflowTracker)
    → Sound wt
    → check_task (tasks_for_scope id wt) wt.clock_skew task ≡ ok tt
    → Sound (store_task id task wt)
unfolding store_task
store-Sound id task wt s c = elim (Bool-cases (is_empty id)) [
  | inl global ↦ rw global (record { at = s.at })
  | inr named ↦
      let g = named-Graph wt id named s in
      let r = (check_task-Recordable (tasks_for_scope id wt) wt.clock_skew task g.closed).0 c in
      let grown = insert-Graph (tasks_for_scope id wt) task g r.known r.new in
      rw named (record { at = named_store-Sound id task wt s (named_scope id task wt named grown) })
]

record-Sound :
    (id : String) (task : TaskRecord) (wt wt' : WorkflowTracker)
    → record_task id task wt ≡ ok wt'
    → Sound wt
    → Sound wt'
unfolding record_task
record-Sound id task wt wt' h s =
    bind-elim (check_task (tasks_for_scope id wt) wt.clock_skew task) _ h
      λ u c k. subst Sound (cc k) (store-Sound id task wt s c)

kept_some :
    (p : Workflow → Bool) (o : Option Workflow) (wf : Workflow)
    → keep_value p o ≡ some wf
    → o ≡ some wf
kept_some p none wf h = cc
kept_some p (some v) wf h = ground arith

cleanup-Sound : (now : ℕ) (wt : WorkflowTracker) → Sound wt → Sound (cleanup now wt).1
unfolding cleanup
cleanup-Sound now wt s = record {
  at = λ id wf e.
      s.at id wf
        (kept_some _ (lookup id wt.workflows) wf (sym (lookup-keep _ id wt.workflows) ∙ e));
}

-- The trackers that recordings and cleanups lead to.
pub data Reached : WorkflowTracker → Type 0 where
  created : {wt : WorkflowTracker} → wt.workflows ≡ [] → Reached wt
  recorded :
      {wt wt' : WorkflowTracker}
      → Reached wt
      → (id : String) (task : TaskRecord) → record_task id task wt ≡ ok wt'
      → Reached wt'
  cleaned : {wt : WorkflowTracker} → Reached wt → (now : ℕ) → Reached (cleanup now wt).1

Reached-Sound : {wt : WorkflowTracker} → Reached wt → Sound wt
unfolding lookup
Reached-Sound (created {wt} e) = record {
  at = λ id wf h. cc (subst (λ d. lookup id d ≡ some wf) e h);
}
Reached-Sound (recorded r id task e) = record-Sound id task _ _ e (Reached-Sound r)
Reached-Sound (cleaned r now) = cleanup-Sound now _ (Reached-Sound r)

-- After any recordings and cleanups, no task of a named workflow is its own ancestor.
pub Reached-acyclic :
    {wt : WorkflowTracker}
    → Reached wt
    → (id : String) → id ≢ ""
    → (j : String) → Ancestor (tasks_for_scope id wt) j j
    → ⊥
Reached-acyclic {wt} r id named j x =
    (named-Graph wt id (ne-is_empty id named) (Reached-Sound r)).acyclic j x

-- A named workflow of such a tracker accepts a task exactly when the task is new there, its parents
-- are recorded there and none of them was issued later by more than the tolerance: no task is
-- refused for a cycle.
pub Reached-accepts :
    {wt : WorkflowTracker}
    → Reached wt
    → (id : String) → id ≢ ""
    → (task : TaskRecord)
    → (record_task id task wt ≡ ok (store_task id task wt))
      ↔ Recordable (tasks_for_scope id wt) wt.clock_skew task
unfolding record_task
Reached-accepts {wt} r id named task =
    let iff =
      check_task-Recordable (tasks_for_scope id wt) wt.clock_skew task
        (named-Graph wt id (ne-is_empty id named) (Reached-Sound r)).closed in
    (
      λ h. bind-elim (check_task (tasks_for_scope id wt) wt.clock_skew task) _ h λ u c k. iff.0 c,
      λ p. bind-of _ (iff.1 p) refl,
    )
