-- ===== src/Mcp/Workflow/Acyclic.antt =====
-- Workflows whose tasks name recorded parents only, and what such a workflow accepts.
use project_starfly_fabrics.Prelude.{
  ℕ, zero, suc, ◌+◌, ◌≤◌, String, ◌==◌, eq_iff, eq_refl, ◌≡◌, refl, sym, subst, ap, ◌↔◌, ◌⊎◌, inl,
  inr, Bool, true, false, not, Option, none, some, some-injective, List, [], ◌∷◌, ◌++◌, In,
  contains, arith, is_some, if◌then◌else◌, ltb, Bool-cases, ok, err, refuse_if, refuse_if-ok,
  bind-elim,
}
use project_starfly_fabrics.Dict.{Dict, lookup}
use project_starfly_fabrics.Mcp.Workflow.{
  cycle_detected, duplicate_task_id, parent_not_found, temporal_violation, TaskRecord,
  check_parents, issued_after, check_times, parents_of, search_ancestors, check_acyclicity,
  max_ancestor_traversal, check_task,
}

abbrev pub Recorded : Dict TaskRecord → String → Type 0
Recorded tasks j = is_some (lookup j tasks) ≡ true

-- Every parent that a task names is recorded.
pub record Closed (tasks : Dict TaskRecord) : Type 0 where
  pub at :
      (j : String) (task : TaskRecord)
      → lookup j tasks ≡ some task
      → (p : String) → In p task.parent_ids
      → Recorded tasks p

In-append : (p : String) (xs ys : List String) → In p (xs ++ ys) → In p xs ⊎ In p ys
In-append p [] ys m = inr m
In-append p (x ∷ xs) ys (inl e) = inl (inl e)
In-append p (x ∷ xs) ys (inr m) = elim (In-append p xs ys m) [ inl a ↦ inl (inr a) | inr b ↦ inr b ]

parents-Recorded :
    (tasks : Dict TaskRecord) (c p : String) (o : Option TaskRecord)
    → Closed tasks
    → lookup c tasks ≡ o
    → In p (parents_of o)
    → Recorded tasks p
parents-Recorded tasks c p none closed e m = absurd m
parents-Recorded tasks c p (some task) closed e m = closed.at c task e p m

queue-Recorded :
    (tasks : Dict TaskRecord) (c p : String) (queue : List String) (seen : Bool)
    → Closed tasks
    → ((q : String) → In q queue → Recorded tasks q)
    → In p (if seen then queue else queue ++ parents_of (lookup c tasks))
    → Recorded tasks p
queue-Recorded tasks c p queue true closed h m = h p m
queue-Recorded tasks c p queue false closed h m =
    elim (In-append p queue (parents_of (lookup c tasks)) m) [
      | inl a ↦ h p a
      | inr b ↦ parents-Recorded tasks c p (lookup c tasks) closed refl b
    ]

pub Recorded-differs :
    (tasks : Dict TaskRecord) (c jti : String)
    → Recorded tasks c
    → lookup jti tasks ≡ none
    → (c == jti) ≡ false
Recorded-differs tasks c jti r e = elim (Bool-cases (c == jti)) [
  | inl same ↦
      cc (r, ap is_some (subst (λ x. lookup x tasks ≡ none) (sym ((eq_iff c jti).0 same)) e))
  | inr other ↦ other
]

-- The search for the new task among the ancestors finds nothing, however deep it goes.
pub search_ancestors-ok :
    (n : ℕ) (tasks : Dict TaskRecord) (jti : String) (visited queue : List String)
    → Closed tasks
    → lookup jti tasks ≡ none
    → ((q : String) → In q queue → Recorded tasks q)
    → search_ancestors n tasks jti visited queue ≡ ok tt
unfolding search_ancestors
search_ancestors-ok zero tasks jti visited queue closed e h = refl
search_ancestors-ok (suc n) tasks jti visited [] closed e h = refl
search_ancestors-ok (suc n) tasks jti visited (c ∷ queue) closed e h =
    rw (Recorded-differs tasks c jti (h c (inl refl)) e) (
      search_ancestors-ok n tasks jti _ _ closed e
        (λ p m. queue-Recorded tasks c p queue (contains visited c) closed (λ q x. h q (inr x)) m))

check_parents_iff :
    (tasks : Dict TaskRecord) (pids : List String)
    → (check_parents tasks pids ≡ ok tt) ↔ ((p : String) → In p pids → Recorded tasks p)
unfolding check_parents
check_parents_iff tasks [] = (λ h p m. absurd m, λ h. refl)
check_parents_iff tasks (pid ∷ pids) = (
  λ h p m.
      bind-elim (refuse_if (not (is_some (lookup pid tasks))) (parent_not_found pid)) _ h
        λ u t rest. elim m [
          | inl e ↦ subst (Recorded tasks) e (ground (arith, refuse_if-ok _ _ t))
          | inr m' ↦ (check_parents_iff tasks pids).0 rest p m'
        ],
  λ h. rw (h pid (inl refl)) ((check_parents_iff tasks pids).1 (λ p m. h p (inr m))),
)

-- No parent was issued after the limit.
pub Timely : Dict TaskRecord → ℕ → List String → Type 0
Timely tasks limit pids =
    (p : String)
    → In p pids
    → (parent : TaskRecord) → lookup p tasks ≡ some parent
    → parent.issued_at ≤ limit

issued_after_iff :
    (o : Option TaskRecord) (limit : ℕ)
    → (issued_after o limit ≡ false)
      ↔ ((parent : TaskRecord) → o ≡ some parent → parent.issued_at ≤ limit)
issued_after_iff none limit = (λ h parent e. cc, λ h. refl)
issued_after_iff (some task) limit = (
  λ h parent e. subst (λ (t : TaskRecord). t.issued_at ≤ limit) (some-injective e) (ground arith),
  λ h. ground (arith, h task refl),
)

check_times_iff :
    (tasks : Dict TaskRecord) (limit : ℕ) (pids : List String)
    → (check_times tasks limit pids ≡ ok tt) ↔ Timely tasks limit pids
unfolding check_times Timely
check_times_iff tasks limit [] = (λ h p m. absurd m, λ h. refl)
check_times_iff tasks limit (pid ∷ pids) = (
  λ h p m.
      bind-elim (refuse_if (issued_after (lookup pid tasks) limit) (temporal_violation pid)) _ h
        λ u t rest. elim m [
          | inl e ↦
              subst
                (λ x.
                  (parent : TaskRecord) → lookup x tasks ≡ some parent → parent.issued_at ≤ limit)
                e ((issued_after_iff (lookup pid tasks) limit).0 (refuse_if-ok _ _ t))
          | inr m' ↦ (check_times_iff tasks limit pids).0 rest p m'
        ],
  λ h.
      rw ((issued_after_iff (lookup pid tasks) limit).1 (h pid (inl refl)))
        ((check_times_iff tasks limit pids).1 (λ p m. h p (inr m))),
)

-- What a scope asks of a new task: it is new, its parents are recorded, and none of them was
-- issued after it by more than the tolerance.
pub record Recordable (tasks : Dict TaskRecord) (clock_skew : ℕ) (task : TaskRecord) : Type 0 where
  pub new : lookup task.jti tasks ≡ none
  pub known : (p : String) → In p task.parent_ids → Recorded tasks p
  pub timely : Timely tasks (task.issued_at + clock_skew) task.parent_ids

none_of_unrecorded : (o : Option TaskRecord) → is_some o ≡ false → o ≡ none
none_of_unrecorded none h = refl
none_of_unrecorded (some t) h = cc

-- A task is accepted into a closed scope exactly when it is recordable: the search for cycles
-- never refuses one.
pub check_task-Recordable :
    (tasks : Dict TaskRecord) (clock_skew : ℕ) (task : TaskRecord)
    → Closed tasks
    → (check_task tasks clock_skew task ≡ ok tt) ↔ Recordable tasks clock_skew task
unfolding check_task check_acyclicity
check_task-Recordable tasks clock_skew task closed = (
  λ h.
      bind-elim (refuse_if (is_some (lookup task.jti tasks)) (duplicate_task_id task.jti)) _ h
        λ u d h1. bind-elim (check_parents tasks task.parent_ids) _ h1 λ u2 p h2.
          bind-elim (check_times tasks (task.issued_at + clock_skew) task.parent_ids) _ h2
            λ u3 t h3. record {
              new = none_of_unrecorded (lookup task.jti tasks) (refuse_if-ok _ _ d);
              known = (check_parents_iff tasks task.parent_ids).0 p;
              timely = (check_times_iff tasks _ task.parent_ids).0 t;
            },
  λ r.
      rw
        (
          r.new,
          (check_parents_iff tasks task.parent_ids).1 r.known,
          (check_times_iff tasks _ task.parent_ids).1 r.timely,
        )
        (search_ancestors-ok max_ancestor_traversal tasks task.jti [] task.parent_ids closed r.new
          r.known),
)

search_finds :
    (n : ℕ) (tasks : Dict TaskRecord) (jti p : String) (parent : TaskRecord) (rest : List String)
    → (p == jti) ≡ false
    → lookup p tasks ≡ some parent
    → parent.parent_ids ≡ jti ∷ rest
    → search_ancestors (suc (suc n)) tasks jti [] (p ∷ []) ≡ err (cycle_detected jti)
unfolding search_ancestors contains
search_finds n tasks jti p parent rest other found stale =
    rw (other, found, stale, eq_refl jti) refl

-- A new task with one parent, which is recorded and not too late, is refused for a cycle if the
-- first parent of that parent has the identifier of the new task.
pub removed_ancestor_refused :
    (tasks : Dict TaskRecord) (clock_skew : ℕ) (task parent : TaskRecord) (p : String)
    (rest : List String)
    → lookup task.jti tasks ≡ none
    → task.parent_ids ≡ p ∷ []
    → lookup p tasks ≡ some parent
    → parent.parent_ids ≡ task.jti ∷ rest
    → parent.issued_at ≤ task.issued_at + clock_skew
    → check_task tasks clock_skew task ≡ err (cycle_detected task.jti)
unfolding check_task check_acyclicity check_parents check_times
removed_ancestor_refused tasks clock_skew task parent p rest new only found stale timely =
    let other = Recorded-differs tasks p task.jti (rw found) new in
    let in_time : ltb (task.issued_at + clock_skew) parent.issued_at ≡ false = ground arith in
    rw (new, only, found, in_time)
      (search_finds 9_998 tasks task.jti p parent rest other found stale)
