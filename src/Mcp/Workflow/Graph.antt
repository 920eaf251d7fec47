-- ===== src/Mcp/Workflow/Graph.antt =====
-- The ancestors of a task, and graphs of tasks under the recording of a task.
use project_starfly_fabrics.Prelude.{
  String, ◌==◌, eq_iff, ◌≡◌, refl, sym, subst, ◌∙◌, inl, inr, false, none, some, some-injective, [],
  In, arith, if◌then◌else◌, Bool-cases,
}
use project_starfly_fabrics.Dict.{Dict, lookup, insert, lookup-insert}
use project_starfly_fabrics.Mcp.Workflow.{TaskRecord}
use project_starfly_fabrics.Mcp.Workflow.Acyclic.{Recorded, Closed, Recorded-differs}

-- The tasks that stand above a task, over one parent or more.
pub data Ancestor (tasks : Dict TaskRecord) (j : String) : String → Type 0 where
  parent :
      {a : String} (task : TaskRecord)
      → lookup j tasks ≡ some task
      → In a task.parent_ids
      → Ancestor tasks j a
  further :
      {a p : String} (task : TaskRecord)
      → Ancestor tasks j p
      → lookup p tasks ≡ some task
      → In a task.parent_ids
      → Ancestor tasks j a

-- A graph of tasks with recorded parents and no cycle.
pub record Graph (tasks : Dict TaskRecord) : Type 0 where
  pub closed : Closed tasks
  pub acyclic : (j : String) → Ancestor tasks j j → ⊥

empty-Ancestor : (a j : String) → Ancestor [] j a → ⊥
unfolding lookup
empty-Ancestor a j (parent task e m) = cc
empty-Ancestor a j (further {p = p} task x e m) = cc

pub empty-Graph : Graph []
unfolding lookup
empty-Graph = record {
  closed = record { at = λ j task e p m. cc };
  acyclic = λ j x. empty-Ancestor j j x;
}

module _ (tasks : Dict TaskRecord) (new : TaskRecord) where
  kept :
      (k : String) → (new.jti == k) ≡ false → lookup k (insert new.jti new tasks) ≡ lookup k tasks
  kept k h = rw (lookup-insert new.jti k new tasks, h) refl

  parent-Recorded :
      Closed tasks
      → ((p : String) → In p new.parent_ids → Recorded tasks p)
      → (j : String) (task : TaskRecord) (a : String)
      → lookup j (insert new.jti new tasks) ≡ some task
      → In a task.parent_ids
      → Recorded tasks a
  parent-Recorded closed known j task a e m = elim (Bool-cases (new.jti == j)) [
    | inl same ↦
        let is_new = rw (lookup-insert new.jti j new tasks, same, if◌then◌else◌) at e in
        known a (subst (λ (t : TaskRecord). In a t.parent_ids) (sym (some-injective is_new)) m)
    | inr other ↦ closed.at j task (sym (kept j other) ∙ e) a m
  ]

  Ancestor-Recorded :
      Closed tasks
      → ((p : String) → In p new.parent_ids → Recorded tasks p)
      → (a j : String) → Ancestor (insert new.jti new tasks) j a
      → Recorded tasks a
  Ancestor-Recorded closed known a j (parent task e m) = parent-Recorded closed known j task a e m
  Ancestor-Recorded closed known a j (further {p = p} task x e m) =
      parent-Recorded closed known p task a e m

  flipped : (j : String) → Recorded tasks j → lookup new.jti tasks ≡ none → (new.jti == j) ≡ false
  flipped j r e =
      ground (arith, eq_iff new.jti j, eq_iff j new.jti, Recorded-differs tasks j new.jti r e)

  older-Ancestor :
      Closed tasks
      → ((p : String) → In p new.parent_ids → Recorded tasks p)
      → lookup new.jti tasks ≡ none
      → (j : String) → (new.jti == j) ≡ false
      → (a : String) → Ancestor (insert new.jti new tasks) j a
      → Ancestor tasks j a
  older-Ancestor closed known fresh j other a (parent task e m) =
      parent task (sym (kept j other) ∙ e) m
  older-Ancestor closed known fresh j other a (further {p = p} task x e m) =
      let r = Ancestor-Recorded closed known p j x in
      further task (older-Ancestor closed known fresh j other p x)
        (sym (kept p (flipped p r fresh)) ∙ e) m

  still-Recorded : (p : String) → Recorded tasks p → Recorded (insert new.jti new tasks) p
  still-Recorded p r = ground (arith, lookup-insert new.jti p new tasks)

  pub insert-Graph :
      Graph tasks
      → ((p : String) → In p new.parent_ids → Recorded tasks p)
      → lookup new.jti tasks ≡ none
      → Graph (insert new.jti new tasks)
  insert-Graph g known fresh = record {
    closed = record {
      at = λ j task e p m. still-Recorded p (parent-Recorded g.closed known j task p e m);
    };
    acyclic = λ j x.
        let r = Ancestor-Recorded g.closed known j j x in
        g.acyclic j (older-Ancestor g.closed known fresh j (flipped j r fresh) j x);
  }
