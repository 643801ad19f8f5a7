-- ===== src/Graph/Merge/Nodes.antt =====
-- engine/wolves/graph/blackboard.py: the lineage of nodes, and that walks along it end.
use wolves_ai.Base.{
  ℕ, zero, suc, ◌+◌, ◌≤◌, ◌≡◌, ◌⊎◌, refl, sym, ap, ◌∙◌, Bool, true, false, String, Option, none,
  some, List, [], ◌∷◌, ◌++◌, length, map, All, is_some, string_eq, ◌==◌, eq_iff, arith, inl, inr,
  Bool-cases, Option-cases,
}
use wolves_ai.Base.Json.{Value}
use wolves_ai.Artifacts.{Artifact, ArtifactRecord, Codec, get}
use wolves_ai.Artifacts.Ids.{ArtifactKind}
use wolves_ai.Graph.Contracts.{NodePatch, NodeOutcome}
use wolves_ai.Graph.Board.{NodeRecord, find_node, superseded_from, answer_of, superseded, Board}
use wolves_ai.Graph.Merge.{
  ResearchOutput, op_of, mark, supersede, node_record, merge_node, merge_artifacts, merge_outcomes,
  merge, ledger_entries, merge_artifact, merge_found,
}

-- `replaced_by`, if set, names one of these.
abbrev pub Leads : Option String → List NodeRecord → Type 0
Leads none ns = Unit
Leads (some r) ns = is_some (find_node r ns) ≡ true

-- Every id stands once, and a node is replaced by a later one only.
abbrev pub Forward : List NodeRecord → Type 0
Forward [] = Unit
Forward (n ∷ ns) = (find_node n.node_id ns ≡ none) × Leads n.replaced_by ns × Forward ns

module _ (kind : ArtifactKind) (records : List ArtifactRecord) (nodes : List NodeRecord) where
  abbrev walk : ℕ → Option NodeRecord → Option Bool
  walk fuel at = superseded_from fuel kind records nodes at

  -- What these nodes find, all nodes find too.
  abbrev Ends : List NodeRecord → Type 0
  Ends ns = (r : String) → is_some (find_node r ns) ≡ true → find_node r nodes ≡ find_node r ns

  Ends-tail : (n : NodeRecord) (ns : List NodeRecord) → Ends (n ∷ ns) → Ends ns
  Ends-tail n ns h r p = ground (arith, h r)

  led :
      (n : NodeRecord) (ns : List NodeRecord) (r : String)
      → n.replaced_by ≡ some r
      → Leads n.replaced_by ns
      → is_some (find_node r ns) ≡ true
  led n ns r e l = ground arith

  walk_from :
      (f : ℕ) (n : NodeRecord) (ns : List NodeRecord)
      → Ends ns
      → Leads n.replaced_by ns
      → ((r : String) → is_some (walk f (find_node r ns)) ≡ true)
      → is_some (walk (suc f) (some n)) ≡ true
  unfolding superseded_from
  walk_from f n ns h l ih = elim (Option-cases n.replaced_by) [
    | inl e ↦ ground (arith, e)
    | inr (r, e) ↦
        let rest = ap (λ at. is_some (walk f at)) (h r (led n ns r e l)) ∙ ih r in
        ground (arith, e, rest)
  ]

  walk-Ends :
      (f : ℕ) (ns : List NodeRecord)
      → Forward ns
      → Ends ns
      → length ns ≤ f
      → (r : String) → is_some (walk (suc f) (find_node r ns)) ≡ true
  unfolding superseded_from
  walk-Ends f [] w h p r = refl
  walk-Ends zero (n ∷ ns) w h p r = absurd (omega arith)
  walk-Ends (suc f) (n ∷ ns) w h p r =
      let tail = Ends-tail n ns h in
      elim (Option-cases (find_node r ns)) [
        | inr (m, e) ↦
            ap (λ at. is_some (walk (suc (suc f)) at)) (found m e)
            ∙ walk-Ends (suc f) ns w.2 tail (omega arith) r
        | inl e ↦ elim (Bool-cases (n.node_id == r)) [
          | inl e' ↦
              ap (λ at. is_some (walk (suc (suc f)) at)) (itself e e')
              ∙ walk_from (suc f) n ns tail w.1 (walk-Ends f ns w.2 tail (omega arith))
          | inr e' ↦ ap (λ at. is_some (walk (suc (suc f)) at)) (nowhere e e')
        ]
      ]
    where
      found : (m : NodeRecord) → find_node r ns ≡ some m → find_node r (n ∷ ns) ≡ find_node r ns
      found m e = ground (arith, e)

      itself : find_node r ns ≡ none → (n.node_id == r) ≡ true → find_node r (n ∷ ns) ≡ some n
      itself e e' = ground (arith, e, e')

      nowhere : find_node r ns ≡ none → (n.node_id == r) ≡ false → find_node r (n ∷ ns) ≡ none
      nowhere e e' = ground (arith, e, e')

  -- More rounds do not change an answer.
  walk-more :
      (f g : ℕ) (at : Option NodeRecord) (b : Bool)
      → f ≤ g
      → walk f at ≡ some b
      → walk g at ≡ some b
  unfolding superseded_from
  walk-more zero g at b l e = absurd (ground (arith, e))
  walk-more (suc f) zero at b l e = absurd (omega (arith, l))
  walk-more (suc f) (suc g) none b l e = ground (arith, e)
  walk-more (suc f) (suc g) (some n) b l e = elim (Option-cases n.replaced_by) [
    | inl q ↦ ground (arith, e, q)
    | inr (r, q) ↦ ground (arith, e, q, walk-more f g (find_node r nodes) b (omega (arith, l)))
  ]

-- Where every id stands once and nodes are replaced by later ones only, the walk along the
-- replacements that decides whether an artifact is superseded has an answer within one round more
-- than there are nodes, and any further rounds give the same answer.
pub superseded-Ends :
    (nodes : List NodeRecord) (records : List ArtifactRecord) (r : ArtifactRecord) (more : ℕ)
    → Forward nodes
    → superseded_from
        (suc (length nodes) + more)
        r.kind
        records
        nodes
        (find_node r.created_by nodes)
      ≡ some (superseded nodes records r)
unfolding superseded
superseded-Ends nodes records r more w =
    let at = find_node r.created_by nodes in
    let ended =
      walk-Ends r.kind records nodes (length nodes) nodes w (λ r p. refl) (omega arith)
        r.created_by in
    walk-more r.kind records nodes (suc (length nodes)) (suc (length nodes) + more) at
      (answer_of (superseded_from (suc (length nodes)) r.kind records nodes at)) (omega arith)
      (answered (superseded_from (suc (length nodes)) r.kind records nodes at) ended)
  where
    answered : (o : Option Bool) → is_some o ≡ true → o ≡ some (answer_of o)
    answered none h = absurd (ground (arith, h))
    answered (some b) h = refl

-- The nodes with some of them changed to be replaced by a new one, which is added.
module _ (x : NodeRecord) (root : x.replaced_by ≡ none) (change : NodeRecord → NodeRecord)
    (ids : (n : NodeRecord) → (change n).node_id ≡ n.node_id)
    (links : (n : NodeRecord)
      → ((change n).replaced_by ≡ n.replaced_by) ⊎ ((change n).replaced_by ≡ some x.node_id)) where
  abbrev changed : List NodeRecord → List NodeRecord
  changed ns = map change ns ++ x ∷ []

  changed-new : (ns : List NodeRecord) → is_some (find_node x.node_id (changed ns)) ≡ true
  changed-new [] = ground (arith, eq_iff x.node_id x.node_id)
  changed-new (n ∷ ns) = ground (arith, changed-new ns)

  changed-keeps :
      (r : String) (ns : List NodeRecord)
      → is_some (find_node r ns) ≡ true
      → is_some (find_node r (changed ns)) ≡ true
  changed-keeps r [] h = absurd (ground arith)
  changed-keeps r (n ∷ ns) h = ground (arith, changed-keeps r ns, ids n)

  changed-fresh :
      (r : String) (ns : List NodeRecord)
      → find_node r ns ≡ none
      → (x.node_id == r) ≡ false
      → find_node r (changed ns) ≡ none
  changed-fresh r [] h e = ground arith
  changed-fresh r (n ∷ ns) h e = ground (arith, changed-fresh r ns, ids n)

  changed-Leads :
      (n : NodeRecord) (ns : List NodeRecord)
      → Leads n.replaced_by ns
      → Leads (change n).replaced_by (changed ns)
  changed-Leads n ns l = elim (links n) [
    | inl e ↦ rw e (kept n.replaced_by l)
    | inr e ↦ rw e (changed-new ns)
  ]
    where
      kept : (o : Option String) → Leads o ns → Leads o (changed ns)
      kept none l = tt
      kept (some r) l = changed-keeps r ns l

  apart :
      (n : NodeRecord) (ns : List NodeRecord)
      → find_node x.node_id (n ∷ ns) ≡ none
      → ((x.node_id == n.node_id) ≡ false) × (find_node x.node_id ns ≡ none)
  apart n ns h = ground (arith, eq_iff x.node_id n.node_id, eq_iff n.node_id x.node_id)

  changed-Forward :
      (ns : List NodeRecord) → find_node x.node_id ns ≡ none → Forward ns → Forward (changed ns)
  changed-Forward [] h w = (refl, rw root tt, tt)
  changed-Forward (n ∷ ns) h w =
      let t = apart n ns h in
      (
        rw (ids n) (changed-fresh n.node_id ns w.0 t.0),
        changed-Leads n ns w.1,
        changed-Forward ns t.1 w.2,
      )

map-same : (ns : List NodeRecord) → map (λ n. n) ns ≡ ns
map-same [] = refl
map-same (n ∷ ns) = ap (λ ms. n ∷ ms) (map-same ns)

mark-links :
    (old new : String) (n : NodeRecord)
    → ((mark old new n).replaced_by ≡ n.replaced_by) ⊎ ((mark old new n).replaced_by ≡ some new)
mark-links old new n = elim (Bool-cases (n.node_id == old)) [
  | inl e ↦ inr (rw e refl)
  | inr e ↦ inl (rw e refl)
]

find-append :
    (i : String) (x : NodeRecord) (ns : List NodeRecord)
    → find_node i ns ≡ none
    → (x.node_id == i) ≡ false
    → find_node i (ns ++ x ∷ []) ≡ none
find-append i x [] h d = ground arith
find-append i x (n ∷ ns) h d = ground (arith, find-append i x ns)

module _ (ops : List NodePatch) (o : NodeOutcome) where
  plain-Forward :
      (ns : List NodeRecord)
      → find_node o.node_id ns ≡ none
      → Forward ns
      → Forward (ns ++ node_record ops o ∷ [])
  plain-Forward ns h w =
      subst_nodes (map-same ns)
        (changed-Forward (node_record ops o) refl (λ n. n) (λ n. refl) (λ n. inl refl) ns h w)
    where
      subst_nodes :
          {ms : List NodeRecord}
          → ms ≡ ns
          → Forward (ms ++ node_record ops o ∷ [])
          → Forward (ns ++ node_record ops o ∷ [])
      subst_nodes e v = rw (sym e) v

  pub supersede-shape :
      (ns : List NodeRecord)
      → (supersede ops o ns ≡ ns)
        ⊎ ((old : String) × (supersede ops o ns ≡ map (mark old o.node_id) ns))
  unfolding supersede
  supersede-shape ns = elim (Option-cases (op_of o.node_id ops)) [
    | inl e ↦ inl (rw (e, supersede) refl)
    | inr (op, e) ↦ elim (Option-cases op.replaces) [
      | inl e' ↦ inl (rw (e, supersede, e') refl)
      | inr (old, e') ↦ elim (Bool-cases o.ok) [
        | inl e'' ↦ inr (old, rw (e, supersede, e', e'') refl)
        | inr e'' ↦ inl (rw (e, supersede, e', e'') refl)
      ]
    ]
  ]

  -- Adding the record of an outcome, and marking the node that it replaces, keeps the lineage.
  merge_node-Forward :
      (ns : List NodeRecord)
      → find_node o.node_id ns ≡ none
      → Forward ns
      → Forward (merge_node ops o ns)
  unfolding merge_node
  merge_node-Forward ns h w = elim (supersede-shape ns) [
    | inl e ↦ rw e (plain-Forward ns h w)
    | inr (old, e) ↦ rw e (
        changed-Forward (node_record ops o) refl (mark old o.node_id) (λ n. ground arith)
          (mark-links old o.node_id) ns h w)
  ]

  merge_node-other :
      (i : String) (ns : List NodeRecord)
      → (o.node_id == i) ≡ false
      → find_node i ns ≡ none
      → find_node i (merge_node ops o ns) ≡ none
  unfolding merge_node
  merge_node-other i ns d h = elim (supersede-shape ns) [
    | inl e ↦ rw e (find-append i (node_record ops o) ns h d)
    | inr (old, e) ↦ rw e (
        changed-fresh (node_record ops o) refl (mark old o.node_id) (λ n. ground arith)
          (mark-links old o.node_id) i ns h d)
  ]

-- The outcomes have ids that no node has, each its own.
abbrev pub NewOutcomes : List NodeRecord → List NodeOutcome → Type 0
NewOutcomes ns [] = Unit
NewOutcomes ns (o ∷ os) =
    (find_node o.node_id ns ≡ none)
    × All (λ o'. (o.node_id == o'.node_id) ≡ false) os
    × NewOutcomes ns os

still-new :
    (ops : List NodePatch) (o : NodeOutcome) (ns : List NodeRecord) (os : List NodeOutcome)
    → All (λ o'. (o.node_id == o'.node_id) ≡ false) os
    → NewOutcomes ns os
    → NewOutcomes (merge_node ops o ns) os
still-new ops o ns [] d h = tt
still-new ops o ns (o' ∷ os) d h =
    (merge_node-other ops o o'.node_id ns d.0 h.0, h.1, still-new ops o ns os d.1 h.2)

module _ (c : Codec) (show : Value → String) (fetched : String → Bool)
    (validate : Value → ResearchOutput) (dump : ResearchOutput → Value) where
  ledger_entries-nodes :
      (id : String) (payload : Value) (b : Board c show)
      → (ledger_entries c show fetched validate dump id payload b).nodes ≡ b.nodes
  unfolding ledger_entries
  ledger_entries-nodes id payload b = ground arith

  merge_found-nodes :
      (found : Option Artifact) (b : Board c show)
      → (merge_found c show fetched validate dump found b).nodes ≡ b.nodes
  merge_found-nodes none b = refl
  merge_found-nodes (some a) b = ground (arith, ledger_entries-nodes a.id a.payload b)

  pub merge_artifacts-nodes :
      (ids : List String) (b : Board c show)
      → (merge_artifacts c show fetched validate dump ids b).nodes ≡ b.nodes
  unfolding merge_artifacts
  merge_artifacts-nodes [] b = refl
  merge_artifacts-nodes (id ∷ ids) b =
      let (found, store) = get c id b.artifacts in
      let b' : Board c show = record b { artifacts = store } in
      merge_artifacts-nodes ids (merge_artifact c show fetched validate dump id b)
      ∙ merge_found-nodes found b'

  merge_outcomes-Forward :
      (ops : List NodePatch) (os : List NodeOutcome) (b : Board c show)
      → NewOutcomes b.nodes os
      → Forward b.nodes
      → Forward (merge_outcomes c show fetched validate dump ops os b).nodes
  unfolding merge_outcomes
  merge_outcomes-Forward ops [] b h w = w
  merge_outcomes-Forward ops (o ∷ os) b h w =
      let b' : Board c show = record b { nodes = merge_node ops o b.nodes } in
      let e = merge_artifacts-nodes o.artifact_ids b' in
      merge_outcomes-Forward ops os (merge_artifacts c show fetched validate dump o.artifact_ids b')
        (rw e (still-new ops o b.nodes os h.1 h.2)) (rw e (merge_node-Forward ops o b.nodes h.0 w))

  -- Merging a wave whose outcomes have new ids, each its own, keeps every id standing once and nodes
  -- replaced by later ones only, so that walks along the replacements go on ending.
  pub merge-Forward :
      (advance : Bool) (ops : List NodePatch) (os : List NodeOutcome) (b : Board c show)
      → NewOutcomes b.nodes os
      → Forward b.nodes
      → Forward (merge c show fetched validate dump advance ops os b).nodes
  unfolding merge
  merge-Forward true ops os b h w = merge_outcomes-Forward ops os b h w
  merge-Forward false ops os b h w = merge_outcomes-Forward ops os b h w
