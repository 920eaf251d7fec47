-- ===== src/Toolcall/Verifier/Laws.antt =====
-- What the checks of a tool's constraints establish, stated by membership and equality.
use project_starfly_fabrics.Prelude.{
  String, ◌==◌, eq_iff, ◌≡◌, refl, sym, ap, subst, ◌∙◌, ◌≢◌, ◌⊎◌, inl, inr, Bool, true, false, not,
  ◌&&◌, Option, none, some, List, [], ◌∷◌, arith, is_empty, is_empty_iff, is_nil, contains, In,
  contains_iff, split_first, split_first-join, Bool-cases, if◌then◌else◌, ok, refuse_if, bind-elim,
  refuse_if-ok,
}
use project_starfly_fabrics.Exchange.Request.{ExecutionScope}
use project_starfly_fabrics.Toolcall.Types.{Protocol, parse_protocol}
use project_starfly_fabrics.Toolcall.Registry.{ToolEntry, names_protocol, supports_protocol}
use project_starfly_fabrics.Toolcall.Verifier.Checks.{
  exec_op_mismatch, missing_caps, refuse_missing, check_caps, parts_fit, blast_radius_fits,
  check_radius, outside, hash_differs, verify_scope, verify_exec_binding, radius_exceeded,
}

-- A radius fits a maximum that is unlimited, the same, or the whole of its scope.
pub data Fits (radius max_radius : String) : Type 0 where
  unlimited : max_radius ≡ "*" → Fits radius max_radius
  same : radius ≡ max_radius → Fits radius max_radius
  whole_scope :
      (scope part : String)
      → split_first ":" max_radius ≡ some (scope, "*")
      → split_first ":" radius ≡ some (scope, part)
      → Fits radius max_radius

-- A tool accepts the protocols that it names, whatever their version; a tool that names none
-- accepts all.
abbrev pub Accepts : ToolEntry → Protocol → Type 0
Accepts tool p =
    (tool.protocols ≡ [])
    ⊎ ((q : Protocol) × In q tool.protocols × ((parse_protocol q).0 ≡ (parse_protocol p).0))

-- The text is allowed by a list that is empty, allows everything, or has it.
abbrev pub Allows : List String → String → Type 0
Allows allowed s = (allowed ≡ []) ⊎ (s ≡ "") ⊎ In s allowed

-- What an execution scope is held to.
pub record ScopeBound (input_hash : String → String) (tool : ToolEntry) (body : Option String)
    (ex : ExecutionScope) : Type 0 where
  pub operation : Allows tool.allowed_operations ex.exec_act
  pub payload : (b : String) → body ≡ some b → ex.input_hash ≢ "" → input_hash b ≡ ex.input_hash
  pub declared : tool.requires_execution ≡ true → ex.input_hash ≢ ""
  pub target : Allows tool.allowed_targets ex.target

-- A tool that requires an execution scope gets one, and every scope is held to the tool.
pub record Bound (input_hash : String → String) (tool : ToolEntry) (body : Option String)
    (execution : Option ExecutionScope) : Type 0 where
  pub present : tool.requires_execution ≡ true → (ex : ExecutionScope) × (execution ≡ some ex)
  pub held : (ex : ExecutionScope) → execution ≡ some ex → ScopeBound input_hash tool body ex

missing_caps-none :
    (have required : List String)
    → missing_caps have required ≡ []
    → (c : String) → In c required
    → In c have
unfolding missing_caps
missing_caps-none have [] h c m = absurd m
missing_caps-none have (r ∷ required) h c m = elim (Bool-cases (contains have r)) [
  | inl y ↦ elim m [
    | inl e ↦ subst (λ x. In x have) e ((contains_iff have r).0 y)
    | inr later ↦ missing_caps-none have required (rw (y, if◌then◌else◌) at h) c later
  ]
  | inr n ↦ cc (rw (n, if◌then◌else◌) at h)
]

refuse_missing-ok : (cs : List String) → refuse_missing cs ≡ ok tt → cs ≡ []
refuse_missing-ok [] h = refl
refuse_missing-ok (c ∷ cs) h = cc

pub check_caps-ok :
    (have required : List String)
    → check_caps have required ≡ ok tt
    → (c : String) → In c required
    → In c have
unfolding check_caps
check_caps-ok have [] h = λ c m. absurd m
check_caps-ok have (r ∷ required) h = missing_caps-none have (r ∷ required) (refuse_missing-ok _ h)

both_parts :
    (ts tp ms mp : String)
    → (if ts == ms then if mp == "*" then true else tp == mp else false) ≡ true
    → ((ts ≡ ms) × (mp ≡ "*")) ⊎ ((ts ≡ ms) × (tp ≡ mp))
both_parts ts tp ms mp h = ground (arith, eq_iff ts ms, eq_iff mp "*", eq_iff tp mp)

parts_fit-Fits :
    (radius max_radius : String) (t m : Option (String × String))
    → split_first ":" radius ≡ t
    → split_first ":" max_radius ≡ m
    → parts_fit (radius == max_radius) t m ≡ true
    → Fits radius max_radius
parts_fit-Fits radius max_radius none m et em h = same ((eq_iff radius max_radius).0 h)
parts_fit-Fits radius max_radius (some t) none et em h = same ((eq_iff radius max_radius).0 h)
parts_fit-Fits radius max_radius (some (ts, tp)) (some (ms, mp)) et em h =
    elim (both_parts ts tp ms mp h) [
      | inl (scope, all) ↦
          whole_scope ms tp (em ∙ ap (λ x. some (ms, x)) all) (et ∙ ap (λ x. some (x, tp)) scope)
      | inr (scope, part) ↦ same (
          split_first-join ":" radius ts tp et
          ∙ rw (scope, part) refl
          ∙ sym (split_first-join ":" max_radius ms mp em))
    ]

pub blast_radius_fits-Fits :
    (radius max_radius : String)
    → blast_radius_fits radius max_radius ≡ true
    → Fits radius max_radius
unfolding blast_radius_fits
blast_radius_fits-Fits radius max_radius h = elim (Bool-cases (max_radius == "*")) [
  | inl any ↦ unlimited ((eq_iff max_radius "*").0 any)
  | inr limited ↦ parts_fit-Fits radius max_radius _ _ refl refl (rw (limited, if◌then◌else◌) at h)
]

one_of_three :
    {P : Type 0} (a b c : Bool)
    → refuse_if (not a && not b && not c) radius_exceeded ≡ ok tt
    → (a ≡ true → P)
    → (b ≡ true → P)
    → (c ≡ true → P)
    → P
one_of_three true b c h f g k = f refl
one_of_three false true c h f g k = g refl
one_of_three false false true h f g k = k refl
one_of_three false false false h f g k = cc

pub check_radius-ok :
    (radius max_radius : String)
    → check_radius radius max_radius ≡ ok tt
    → (max_radius ≡ "") ⊎ (radius ≡ "") ⊎ Fits radius max_radius
unfolding check_radius
check_radius-ok radius max_radius h =
    one_of_three (is_empty max_radius) (is_empty radius) (blast_radius_fits radius max_radius) h
      (λ unset. inl ((is_empty_iff max_radius).0 unset))
      (λ unset. inr (inl ((is_empty_iff radius).0 unset)))
      (λ fits. inr (inr (blast_radius_fits-Fits radius max_radius fits)))

names_protocol-In :
    (want : String) (ps : List Protocol)
    → names_protocol want ps ≡ true
    → (q : Protocol) × In q ps × ((parse_protocol q).0 ≡ want)
unfolding names_protocol
names_protocol-In want [] h = cc
names_protocol-In want (p ∷ ps) h = elim (Bool-cases ((parse_protocol p).0 == want)) [
  | inl here ↦ (p, inl refl, (eq_iff _ want).0 here)
  | inr there ↦ let (q, m, e) = names_protocol-In want ps (rw (there) at h) in (q, inr m, e)
]

listed_protocols :
    (tool : ToolEntry) (p : Protocol) (ps : List Protocol)
    → tool.protocols ≡ ps
    → (if is_nil ps then true else names_protocol (parse_protocol p).0 ps) ≡ true
    → Accepts tool p
listed_protocols tool p [] e h = inl e
listed_protocols tool p (q ∷ ps) e h =
    let (r, m, same_name) = names_protocol-In (parse_protocol p).0 (q ∷ ps) h in
    inr (r, subst (In r) (sym e) m, same_name)

pub supports_protocol-Accepts :
    (tool : ToolEntry) (p : Protocol) → supports_protocol tool p ≡ true → Accepts tool p
unfolding supports_protocol
supports_protocol-Accepts tool p h = listed_protocols tool p tool.protocols refl h

one_of_two :
    {P Q : Type 0} (a b : Bool) → (not a && not b) ≡ false → (a ≡ true → P) → (b ≡ true → Q) → P ⊎ Q
one_of_two true b h f g = inl (f refl)
one_of_two false true h f g = inr (g refl)
one_of_two false false h f g = cc

outside-Allows : (s : String) (allowed : List String) → outside s allowed ≡ false → Allows allowed s
unfolding outside
outside-Allows s [] h = inl refl
outside-Allows s (a ∷ allowed) h = inr (
    one_of_two (is_empty s) (contains (a ∷ allowed) s) h (is_empty_iff s).0
      (contains_iff (a ∷ allowed) s).0)

payload_agrees :
    (input_hash : String → String) (want b : String) (body : Option String)
    → hash_differs input_hash want body ≡ false
    → body ≡ some b
    → want ≢ ""
    → input_hash b ≡ want
payload_agrees input_hash want b none h e n = cc
payload_agrees input_hash want b (some x) h e n =
    let same_body : x ≡ b = cc in
    subst (λ y. input_hash y ≡ want) same_body
      (elim (one_of_two (is_empty want) (input_hash x == want) h (is_empty_iff want).0
        (eq_iff (input_hash x) want).0) [ inl unset ↦ absurd (n unset) | inr agrees ↦ agrees ])

hash_declared :
    (required : Bool) (want : String)
    → (required && is_empty want) ≡ false
    → required ≡ true
    → want ≢ ""
hash_declared true want h r e = cc ((is_empty_iff want).1 e)
hash_declared false want h r e = cc

verify_scope-ScopeBound :
    (input_hash : String → String) (ex : ExecutionScope) (tool : ToolEntry) (body : Option String)
    → verify_scope input_hash ex tool body ≡ ok tt
    → ScopeBound input_hash tool body ex
unfolding verify_scope
verify_scope-ScopeBound input_hash ex tool body h =
    bind-elim (refuse_if (outside ex.exec_act tool.allowed_operations) exec_op_mismatch) _ h
      λ _ op rest.
        bind-elim (refuse_if (hash_differs input_hash ex.input_hash body) _) _ rest λ _ hash rest.
          bind-elim (refuse_if (tool.requires_execution && is_empty ex.input_hash) _) _ rest
            λ _ declared target. record {
              operation = outside-Allows _ _ (refuse_if-ok _ _ op);
              payload = λ b. payload_agrees input_hash ex.input_hash b body (refuse_if-ok _ _ hash);
              declared =
                  hash_declared tool.requires_execution ex.input_hash (refuse_if-ok _ _ declared);
              target = outside-Allows _ _ (refuse_if-ok _ _ target);
            }

pub verify_exec_binding-Bound :
    (input_hash : String → String) (execution : Option ExecutionScope) (tool : ToolEntry)
    (body : Option String)
    → verify_exec_binding input_hash execution tool body ≡ ok tt
    → Bound input_hash tool body execution
unfolding verify_exec_binding
verify_exec_binding-Bound input_hash none tool body h = record {
  present = λ required. cc (refuse_if-ok _ _ h);
  held = λ ex e. cc;
}
verify_exec_binding-Bound input_hash (some ex) tool body h = record {
  present = λ required. (ex, refl);
  held = λ ex' e.
      let same_scope : ex ≡ ex' = cc in
      subst (ScopeBound input_hash tool body) same_scope
        (verify_scope-ScopeBound input_hash ex tool body h);
}
