-- ===== src/Graph/Coverage/Status.antt =====
-- engine/wolves/graph/branch_coverage.py: what the statuses of the audits come to.
use wolves_ai.Base.{
  ◌≡◌, refl, sym, ◌∙◌, Bool, true, false, ◌&&◌, String, Option, none, some, List, [], ◌∷◌, contains,
  if◌then◌else◌, string_eq, ◌==◌, arith, eq_iff, inl, inr, Bool-cases, Option-cases, is_some,
}
use wolves_ai.Base.Dict.{
  Dict, lookup, insert, lookup-insert, lookup-append, Unique, insert-Unique, append-Unique,
}
use wolves_ai.Base.Json.{Value}
use wolves_ai.Artifacts.{Artifact}
use wolves_ai.Graph.Coverage.{
  set_default, text_field, counts, cover, covered_parents, audit_check, audit_checks, statuses_of,
  collect_audit_statuses, checks_of, audited_statuses,
}

module _ {V : Type 0} where
  lookup-set_default :
      (k j : String) (v : V) (d : Dict String V)
      → lookup j (set_default k v d)
        ≡ (if is_some (lookup j d) then lookup j d else if k == j then some v else none)
  lookup-set_default k j v d = elim (Option-cases (lookup k d)) [
    | inl e ↦ ground (arith, lookup-append k j v d, eq_iff k j)
    | inr (w, e) ↦ ground (arith, eq_iff k j)
  ]

  pub set_default-Unique :
      (k : String) (v : V) (d : Dict String V) → Unique d → Unique (set_default k v d)
  set_default-Unique k v d u = elim (Option-cases (lookup k d)) [
    | inl e ↦ rw (e, Unique) (append-Unique k v d e u)
    | inr (w, e) ↦ rw (e, Unique) u
  ]

cover-keeps :
    (k s : String) (ps : List String) (d : Dict String String)
    → lookup k d ≡ some s
    → lookup k (cover ps d) ≡ some s
cover-keeps k s [] d h = h
cover-keeps k s (p ∷ ps) d h =
    cover-keeps k s ps (set_default p "covered_by_child" d)
      (lookup-set_default p k "covered_by_child" d ∙ rw h refl)

cover-Unique : (ps : List String) (d : Dict String String) → Unique d → Unique (cover ps d)
cover-Unique [] d u = u
cover-Unique (p ∷ ps) d u =
    cover-Unique ps (set_default p "covered_by_child" d)
      (set_default-Unique p "covered_by_child" d u)

and-left : (a b : Bool) → (a && b) ≡ true → a ≡ true
and-left a b h = ground arith

and-right : (a b : Bool) → (a && b) ≡ true → b ≡ true
and-right a b h = ground arith

and-cancel : (a b : Bool) → a ≡ true → (a && b) ≡ false → b ≡ false
and-cancel a b h g = ground arith

module _ (show : Value → String) (candidates : Dict String Value) where
  -- `check` is about `k`.
  abbrev pub about : String → Value → Bool
  about k check = counts show check && text_field show "key" check == k

  -- What the last check about `k` says.
  abbrev pub last_status : String → List Value → Option String
  last_status k [] = none
  last_status k (c ∷ cs) = elim (last_status k cs) [
    | some s ↦ some s
    | none ↦ if about k c then some (text_field show "status" c) else none
  ]

  said :
      (k : String) (c : Value) (cs : List Value)
      → last_status k cs ≡ none
      → about k c ≡ true
      → last_status k (c ∷ cs) ≡ some (text_field show "status" c)
  said k c cs e e' = rw (e, e') refl

  cover_then :
      (k s : String) (c : Value) (d : Dict String String) (status : String)
      → lookup k d ≡ some s
      → lookup k (
          if contains status audited_statuses
          then cover (covered_parents show candidates c) d
          else d)
        ≡ some s
  cover_then k s c d status h = elim (Bool-cases (contains status audited_statuses)) [
    | inl e ↦ rw e (cover-keeps k s (covered_parents show candidates c) d h)
    | inr e ↦ rw e h
  ]

  check-about :
      (k : String) (c : Value) (d : Dict String String)
      → about k c ≡ true
      → lookup k (audit_check show candidates c d) ≡ some (text_field show "status" c)
  unfolding audit_check
  check-about k c d h =
      let status = text_field show "status" c in
      let key = text_field show "key" c in
      rw (and-left (counts show c) (key == k) h) (
        cover_then k status c (insert key status d) status
          (lookup-insert key k status d ∙ rw (and-right (counts show c) (key == k) h) refl))

  check-keeps :
      (k s : String) (c : Value) (d : Dict String String)
      → about k c ≡ false
      → lookup k d ≡ some s
      → lookup k (audit_check show candidates c d) ≡ some s
  unfolding audit_check
  check-keeps k s c d h g = elim (Bool-cases (counts show c)) [
    | inl e ↦
        let status = text_field show "status" c in
        let key = text_field show "key" c in
        rw e (
          cover_then k s c (insert key status d) status
            (lookup-insert key k status d ∙ rw (and-cancel (counts show c) (key == k) e h) g))
    | inr e ↦ rw e g
  ]

  keeps :
      (k s : String) (cs : List Value) (d : Dict String String)
      → last_status k cs ≡ none
      → lookup k d ≡ some s
      → lookup k (audit_checks show candidates cs d) ≡ some s
  unfolding audit_checks
  keeps k s [] d h g = g
  keeps k s (c ∷ cs) d h g = elim (Option-cases (last_status k cs)) [
    | inl e ↦ elim (Bool-cases (about k c)) [
      | inl e' ↦ absurd (ground (arith))
      | inr e' ↦ keeps k s cs (audit_check show candidates c d) e (check-keeps k s c d e' g)
    ]
    | inr (t, e) ↦ absurd (ground (arith))
  ]

  -- After a list of checks, the status of a key that some check is about is what the last such check
  -- says, whatever was recorded before and however many other checks cover it as their parent.
  pub audit_checks-last :
      (k s : String) (cs : List Value) (d : Dict String String)
      → last_status k cs ≡ some s
      → lookup k (audit_checks show candidates cs d) ≡ some s
  unfolding audit_checks
  audit_checks-last k s [] d h = absurd (ground arith)
  audit_checks-last k s (c ∷ cs) d h = elim (Option-cases (last_status k cs)) [
    | inl e ↦ elim (Bool-cases (about k c)) [
      | inl e' ↦
          keeps k s cs (audit_check show candidates c d) e
            (check-about k c d e' ∙ sym (said k c cs e e') ∙ h)
      | inr e' ↦ absurd (ground (arith))
    ]
    | inr (t, e) ↦ audit_checks-last k s cs (audit_check show candidates c d) (ground arith)
  ]

  check-Unique :
      (c : Value) (d : Dict String String) → Unique d → Unique (audit_check show candidates c d)
  unfolding audit_check
  check-Unique c d u =
      let key = text_field show "key" c in
      let status = text_field show "status" c in
      let set = insert key status d in
      let v = insert-Unique key status d u in
      elim (Bool-cases (counts show c)) [
        | inl e ↦ elim (Bool-cases (contains status audited_statuses)) [
          | inl e' ↦ rw (e, e') (cover-Unique (covered_parents show candidates c) set v)
          | inr e' ↦ rw (e, e') v
        ]
        | inr e ↦ rw e u
      ]

  checks-Unique :
      (cs : List Value) (d : Dict String String)
      → Unique d
      → Unique (audit_checks show candidates cs d)
  unfolding audit_checks
  checks-Unique [] d u = u
  checks-Unique (c ∷ cs) d u =
      checks-Unique cs (audit_check show candidates c d) (check-Unique c d u)

  pub statuses_of-Unique :
      (xs : List Artifact) (d : Dict String String)
      → Unique d
      → Unique (statuses_of show candidates xs d)
  unfolding statuses_of collect_audit_statuses
  statuses_of-Unique [] d u = u
  statuses_of-Unique (a ∷ rest) d u =
      statuses_of-Unique rest _ (checks-Unique (checks_of show a.payload) d u)
