-- ===== src/Audit/Agree.antt =====
-- engine/wolves/agent/audit_policy.py and agent/validator.py: the audit that a mixture owes at
-- registration and the one that it owes at submission agree.
use wolves_ai.Base.{
  ◌≡◌, ◌≢◌, refl, sym, ap, ◌∙◌, Bool, true, false, not, ◌&&◌, ◌||◌, String, Option, none, some,
  List, [], ◌∷◌, ◌++◌, any, select, contains, is_some, string_eq, ◌==◌, arith, inl, inr, Bool-cases,
  Option-cases,
}
use wolves_ai.Base.Dict.{Dict, lookup}
use wolves_ai.Base.Json.{
  Value, null, bool, num, text, arr, obj, no_fields, field, Fields, get, truthy,
}
use wolves_ai.Base.Sorted.{text_le, is_empty-sort_by, is_empty-select}
use wolves_ai.Submission.{hard, copy, quant_owned_issue_codes}
use wolves_ai.Audit.{
  Claims, AuditIssue, required_keys, dict_of, checks_in, status_in, is_large_non_base,
  non_base_weights, rows_of, audit_check_status, intrinsic_missing_rows, advisory_missing_rows,
  has_market_stance, settled, coverage_issues, bad_row_issues, stance_issues, row_issues,
  is_computed, check_factor_audit,
}

-- A hard issue that only quant can clear.
abbrev pub blames_quant : AuditIssue → Bool
blames_quant i =
    (elim i.severity [ hard ↦ true | copy ↦ false ]) && contains i.code quant_owned_issue_codes

any-append {ℓ} :
    {A : Type ℓ} (p : A → Bool) (xs ys : List A) → any p (xs ++ ys) ≡ (any p xs || any p ys)
any-append p [] ys = refl
any-append p (x ∷ xs) ys = ground (arith, any-append p xs ys)

any-second {ℓ} :
    {A : Type ℓ} (p : A → Bool) (xs ys zs : List A)
    → any p ys ≡ true
    → any p (xs ++ (ys ++ zs)) ≡ true
any-second p xs ys zs h = ground (arith, any-append p xs (ys ++ zs), any-append p ys zs, h)

select-none {ℓ} : {A : Type ℓ} (p : A → Bool) (xs : List A) → any p xs ≡ false → select p xs ≡ []
select-none p [] h = refl
select-none p (x ∷ xs) h = ground (arith, select-none p xs)

any-or {ℓ} :
    {A : Type ℓ} (p q : A → Bool) (xs : List A) → any (λ x. p x || q x) xs ≡ (any p xs || any q xs)
any-or p q [] = refl
any-or p q (x ∷ xs) = ground (arith, any-or p q xs)

any-same {ℓ} :
    {A : Type ℓ} (p q : A → Bool) (xs : List A) → ((x : A) → p x ≡ q x) → any p xs ≡ any q xs
any-same p q [] h = refl
any-same p q (x ∷ xs) h = ground (arith, h x, any-same p q xs h)

-- A row is missing if it is not there or says so.
abbrev absent_row : Dict String String → String → Bool
absent_row rows key = not (is_some (lookup key rows))

abbrev said_missing : Dict String String → String → Bool
said_missing rows key = elim (lookup key rows) [ none ↦ false | some s ↦ s == "missing" ]

abbrev lacks : Dict String String → String → Bool
lacks rows key = status_in rows key == "missing"

lacks-option :
    (o : Option String)
    → ((elim o as (λ x. String) [ none ↦ "missing" | some s ↦ s ]) == "missing")
      ≡ (not (is_some o) || (elim o as (λ x. Bool) [ none ↦ false | some s ↦ s == "missing" ]))
lacks-option none = refl
lacks-option (some s) = refl

lacks-or :
    (rows : Dict String String) (key : String)
    → lacks rows key ≡ (absent_row rows key || said_missing rows key)
lacks-or rows key = lacks-option (lookup key rows)

-- Something that is owed is missing exactly if there is a coverage issue.
coverage_issues-lacks :
    (required : List String) (rows : Dict String String)
    → any blames_quant (coverage_issues required rows) ≡ any (lacks rows) required
coverage_issues-lacks required rows = ground (
  arith,
  any-same (lacks rows) (λ k. absent_row rows k || said_missing rows k) required (lacks-or rows),
  any-or (absent_row rows) (said_missing rows) required,
  is_empty-sort_by text_le (select (absent_row rows) required),
  is_empty-sort_by text_le (select (said_missing rows) required),
  is_empty-select (absent_row rows) required,
  is_empty-select (said_missing rows) required,
)

-- What is owed at registration is owed at submission.
required_keys-more :
    (p : String → Bool) (weights : Fields) (large stance previous priced : Bool)
    → any p (required_keys weights large false false false) ≡ true
    → any p (required_keys weights large stance previous priced) ≡ true
unfolding required_keys
required_keys-more p weights large stance previous priced h = ground arith

module _ (show : Value → String) (heavy : List Value → Bool) where
  row_issues-coverage :
      (claims : Claims) (checks : List Value) (required : List String) (large : Bool)
      → any blames_quant (coverage_issues required (rows_of show checks)) ≡ true
      → any blames_quant (row_issues show claims checks required large) ≡ true
  row_issues-coverage claims checks required large h =
      any-second blames_quant (bad_row_issues show checks)
        (coverage_issues required (rows_of show checks)) (stance_issues show claims checks large) h

  -- A row that registration finds missing is among those that are owed.
  intrinsic-lacks :
      (payload : Value) (weights : Fields)
      → dict_of (get "weights" payload) ≡ some weights
      → intrinsic_missing_rows show heavy payload ≢ []
      → (truthy (get "worlds" payload) ≡ true)
        × (any
              (lacks (audit_check_status show payload))
              (required_keys weights (is_large_non_base heavy weights) false false false)
            ≡ true)
  unfolding intrinsic_missing_rows
  intrinsic-lacks payload weights w ne =
      let large = is_large_non_base heavy weights in
      let required = required_keys weights large false false false in
      let rows = audit_check_status show payload in
      elim (Bool-cases (truthy (get "worlds" payload))) [
        | inl t ↦ elim (Bool-cases (any (lacks rows) required)) [
          | inl m ↦ (t, m)
          | inr m ↦ absurd (ne (ground (arith, w, t, select-none (lacks rows) required m)))
        ]
        | inr f ↦ absurd (ne (ground (arith, w, f)))
      ]

  owing-large :
      (p : String → Bool) (weights : Fields) (large : Bool)
      → any p (required_keys weights large false false false) ≡ true
      → large ≡ true
  unfolding required_keys
  owing-large p weights true h = refl
  owing-large p weights false h = absurd (ground arith)

  large-truthy :
      (v : Option Value) (weights : Fields)
      → heavy [] ≡ false
      → dict_of v ≡ some weights
      → is_large_non_base heavy weights ≡ true
      → truthy v ≡ true
  unfolding is_large_non_base non_base_weights
  large-truthy (some (obj no_fields)) weights light d l = ground (arith, light)
  large-truthy (some (obj (field k v fs))) weights light d l = refl
  large-truthy (some null) weights light d l = absurd (ground arith)
  large-truthy (some (bool b)) weights light d l = absurd (ground arith)
  large-truthy (some (num n)) weights light d l = absurd (ground arith)
  large-truthy (some (text t)) weights light d l = absurd (ground arith)
  large-truthy (some (arr vs)) weights light d l = absurd (ground arith)
  large-truthy none weights light d l = absurd (ground arith)

  status-rows :
      (payload : Value) (checks : List Value)
      → checks_in (get "factor_audit" payload) ≡ some checks
      → audit_check_status show payload ≡ rows_of show checks
  unfolding audit_check_status
  status-rows payload checks e = ground (arith, e)

  -- The rows are there: what registration misses, the coverage misses.
  blamed-rows :
      (claims : Claims) (payload : Value) (weights : Fields) (checks : List Value)
      (previous priced : Bool)
      → checks_in (get "factor_audit" payload) ≡ some checks
      → any
          (lacks (audit_check_status show payload))
          (required_keys weights (is_large_non_base heavy weights) false false false)
        ≡ true
      → let large = is_large_non_base heavy weights in
        any blames_quant (
          row_issues show claims checks
            (required_keys weights large (has_market_stance claims) previous priced)
            large)
        ≡ true
  blamed-rows claims payload weights checks previous priced e h =
      let large = is_large_non_base heavy weights in
      let stance = has_market_stance claims in
      let rows = rows_of show checks in
      let owed = required_keys weights large stance previous priced in
      let missing : any (lacks rows) (required_keys weights large false false false) ≡ true =
        sym (
          ap (λ r. any (lacks r) (required_keys weights large false false false))
            (status-rows payload checks e))
        ∙ h in
      row_issues-coverage claims checks owed large (
        coverage_issues-lacks owed rows
        ∙ required_keys-more (lacks rows) weights large stance previous priced missing)

  -- Where weights that add up to nothing are not large, and the payload says that it was computed: if
  -- registration finds a row of the factor audit missing, then whatever a submission of this mixture
  -- claims, the validator has a hard issue that only quant can clear.
  pub intrinsic-blamed :
      (claims : Claims) (payload : Value) (previous : Bool)
      → heavy [] ≡ false
      → is_computed payload ≡ true
      → intrinsic_missing_rows show heavy payload ≢ []
      → any blames_quant (check_factor_audit show heavy claims payload previous) ≡ true
  unfolding check_factor_audit
  intrinsic-blamed claims payload previous light computed ne =
      elim (Option-cases (dict_of (get "weights" payload))) [
        | inl n ↦ absurd (ne (unfold intrinsic_missing_rows in ground (arith, n)))
        | inr (weights, w) ↦
            let priced = truthy (get "priced_items" payload) || claims.has_news_impacts in
            let (worlds, owing) = intrinsic-lacks payload weights w ne in
            let large =
              owing-large (lacks (audit_check_status show payload)) weights
                (is_large_non_base heavy weights) owing in
            let filled = large-truthy (get "weights" payload) weights light w large in
            elim (Option-cases (checks_in (get "factor_audit" payload))) [
              | inl c ↦ ground (arith, w, worlds, large, filled, computed, c)
              | inr (checks, c) ↦
                  let blamed = blamed-rows claims payload weights checks previous priced c owing in
                  ground (arith, w, worlds, large, filled, computed, c, blamed)
            ]
      ]

  unsettled-option :
      (o : Option String)
      → contains
          (elim o as (λ x. String) [ none ↦ "missing" | some s ↦ s ])
          ("checked" ∷ "not_material" ∷ [])
        ≡ false
      → (elim o as (λ x. Bool) [ none ↦ false | some s ↦ settled s ]) ≡ false
  unsettled-option none h = refl
  unsettled-option (some s) h = h

  stance-blamed :
      (claims : Claims) (checks : List Value) (large : Bool)
      → has_market_stance claims ≡ true
      → contains (status_in (rows_of show checks) "market_gap") ("checked" ∷ "not_material" ∷ [])
        ≡ false
      → any blames_quant (stance_issues show claims checks large) ≡ true
  stance-blamed claims checks large s h =
      let open_gap = unsettled-option (lookup "market_gap" (rows_of show checks)) h in
      ground (arith, s, open_gap)

  row_issues-stance :
      (claims : Claims) (checks : List Value) (required : List String) (large : Bool)
      → any blames_quant (stance_issues show claims checks large) ≡ true
      → any blames_quant (row_issues show claims checks required large) ≡ true
  row_issues-stance claims checks required large h =
      let coverage = coverage_issues required (rows_of show checks) in
      let stance = stance_issues show claims checks large in
      ground (
        arith,
        h,
        any-append blames_quant (bad_row_issues show checks) (coverage ++ stance),
        any-append blames_quant coverage stance,
      )

  advisory-facts :
      (payload : Value) (weights : Fields)
      → dict_of (get "weights" payload) ≡ some weights
      → advisory_missing_rows show heavy payload ≢ []
      → (truthy (get "worlds" payload) ≡ true)
        × (is_large_non_base heavy weights ≡ true)
        × (contains
              (status_in (audit_check_status show payload) "market_gap")
              ("checked" ∷ "not_material" ∷ [])
            ≡ false)
  unfolding advisory_missing_rows
  advisory-facts payload weights w ne = ground (arith, w, ne)

  -- Where weights that add up to nothing are not large, and the payload says that it was computed: if
  -- registration warns of the market row, then to a submission of this mixture that takes a stance
  -- against the market the validator has a hard issue that only quant can clear.
  pub advisory-blamed :
      (claims : Claims) (payload : Value) (previous : Bool)
      → heavy [] ≡ false
      → is_computed payload ≡ true
      → has_market_stance claims ≡ true
      → advisory_missing_rows show heavy payload ≢ []
      → any blames_quant (check_factor_audit show heavy claims payload previous) ≡ true
  unfolding check_factor_audit
  advisory-blamed claims payload previous light computed stance ne =
      elim (Option-cases (dict_of (get "weights" payload))) [
        | inl n ↦ absurd (ne (unfold advisory_missing_rows in ground (arith, n)))
        | inr (weights, w) ↦
            let priced = truthy (get "priced_items" payload) || claims.has_news_impacts in
            let (worlds, large, open_gap) = advisory-facts payload weights w ne in
            let filled = large-truthy (get "weights" payload) weights light w large in
            elim (Option-cases (checks_in (get "factor_audit" payload))) [
              | inl c ↦ ground (arith, w, worlds, large, filled, computed, c)
              | inr (checks, c) ↦
                  let owed =
                    required_keys weights (is_large_non_base heavy weights)
                      (has_market_stance claims) previous priced in
                  let blamed =
                    row_issues-stance claims checks owed (is_large_non_base heavy weights) (
                      stance-blamed claims checks (is_large_non_base heavy weights) stance
                        (ground (arith, open_gap, status-rows payload checks c))) in
                  ground (arith, w, worlds, large, filled, computed, c, blamed)
            ]
      ]
