-- ===== src/Graph/Runner/Waves.antt =====
-- engine/wolves/graph/runner.py: what every run keeps, over any number of waves.
use wolves_ai.Base.{
  ◌≡◌, ◌⊎◌, refl, sym, ap, ◌∙◌, Bool, true, false, String, none, List, [], ◌∷◌, ◌++◌, map, All,
  contains, arith, inl, inr, string_eq, ◌==◌, eq_iff,
}
use wolves_ai.Base.Json.{Value}
use wolves_ai.Base.Text.{codes, starts_with}
use wolves_ai.Artifacts.{Codec}
use wolves_ai.Graph.Contracts.{NodePatch, NodeOutcome, GraphSettings}
use wolves_ai.Graph.Board.{Board, NodeRecord, find_node}
use wolves_ai.Graph.Admit.Plan.{Known, next, Plan}
use wolves_ai.Graph.Merge.{
  ResearchOutput, mark, merge_node, supersede, node_record, merge_outcomes, merge_artifacts, merge,
}
use wolves_ai.Graph.Merge.Nodes.{NewOutcomes, supersede-shape, merge_artifacts-nodes}

-- The prefix of the ids that only the runner gives.
abbrev pub is_reserved : String → Bool
is_reserved id = starts_with (codes "runner-") (codes id)

-- The outcomes are those of these operations, one each and in their order.
abbrev pub Matches : List NodePatch → List NodeOutcome → Type 0
Matches [] [] = Unit
Matches (op ∷ ops) (o ∷ os) = (o.node_id ≡ op.node_id) × Matches ops os
Matches _ _ = ⊥

pub find-none :
    (id : String) (ns : List NodeRecord)
    → contains id (map (λ n. n.node_id) ns) ≡ false
    → find_node id ns ≡ none
find-none id [] h = refl
find-none id (n ∷ ns) h = ground (arith, find-none id ns, eq_iff id n.node_id, eq_iff n.node_id id)

-- Ids that stand in a plan after others differ from them.
differs :
    (id : String) (seen : List String) (s : String)
    → contains s seen ≡ true
    → contains id seen ≡ false
    → (s == id) ≡ false
differs id [] s h g = absurd (ground arith)
differs id (t ∷ ts) s h g = ground (arith, differs id ts s, eq_iff s t, eq_iff s id, eq_iff id t)

abbrev pub ids_of : List NodeRecord → List String
ids_of = map λ n. n.node_id

abbrev pub outcome_ids : List NodeOutcome → List String
outcome_ids = map λ o. o.node_id

ids-append : (ns ms : List NodeRecord) → ids_of (ns ++ ms) ≡ ids_of ns ++ ids_of ms
ids-append [] ms = refl
ids-append (n ∷ ns) ms = ap (λ ids. n.node_id ∷ ids) (ids-append ns ms)

marked-ids : (old new : String) (ns : List NodeRecord) → ids_of (map (mark old new) ns) ≡ ids_of ns
marked-ids old new [] = refl
marked-ids old new (n ∷ ns) = ground (arith, marked-ids old new ns)

append_assoc : (xs ys zs : List String) → (xs ++ ys) ++ zs ≡ xs ++ (ys ++ zs)
append_assoc [] ys zs = refl
append_assoc (x ∷ xs) ys zs = ap (λ l. x ∷ l) (append_assoc xs ys zs)

append_nil : (xs : List String) → xs ++ [] ≡ xs
append_nil [] = refl
append_nil (x ∷ xs) = ap (λ l. x ∷ l) (append_nil xs)

merge_node-ids :
    (ops : List NodePatch) (o : NodeOutcome) (ns : List NodeRecord)
    → ids_of (merge_node ops o ns) ≡ ids_of ns ++ o.node_id ∷ []
unfolding merge_node
merge_node-ids ops o ns =
    ids-append (supersede ops o ns) (node_record ops o ∷ [])
    ∙ ap (λ ids. ids ++ o.node_id ∷ []) (kept (supersede-shape ops o ns))
  where
    kept :
        (supersede ops o ns ≡ ns)
          ⊎ ((old : String) × (supersede ops o ns ≡ map (mark old o.node_id) ns))
        → ids_of (supersede ops o ns) ≡ ids_of ns
    kept (inl e) = ap ids_of e
    kept (inr (old, e)) = ap ids_of e ∙ marked-ids old o.node_id ns

module _ (c : Codec) (show : Value → String) where
  module _ (fetched : String → Bool) (validate : Value → ResearchOutput)
      (dump : ResearchOutput → Value) where
    merge_outcomes-ids :
        (ops : List NodePatch) (os : List NodeOutcome) (b : Board c show)
        → ids_of (merge_outcomes c show fetched validate dump ops os b).nodes
          ≡ ids_of b.nodes ++ outcome_ids os
    unfolding merge_outcomes
    merge_outcomes-ids ops [] b = sym (append_nil (ids_of b.nodes))
    merge_outcomes-ids ops (o ∷ os) b =
        let b' : Board c show = record b { nodes = merge_node ops o b.nodes } in
        merge_outcomes-ids ops os (merge_artifacts c show fetched validate dump o.artifact_ids b')
        ∙ ap (λ ns. ids_of ns ++ outcome_ids os)
            (merge_artifacts-nodes c show fetched validate dump o.artifact_ids b')
        ∙ ap (λ ids. ids ++ outcome_ids os) (merge_node-ids ops o b.nodes)
        ∙ append_assoc (ids_of b.nodes) (o.node_id ∷ []) (outcome_ids os)

    pub merge-ids :
        (advance : Bool) (ops : List NodePatch) (os : List NodeOutcome) (b : Board c show)
        → ids_of (merge c show fetched validate dump advance ops os b).nodes
          ≡ ids_of b.nodes ++ outcome_ids os
    unfolding merge
    merge-ids true ops os b = merge_outcomes-ids ops os b
    merge-ids false ops os b = merge_outcomes-ids ops os b

  module _ (settings : GraphSettings) (b : Board c show) where
    plan-apart :
        (s : String) (k : Known) (ops : List NodePatch) (os : List NodeOutcome)
        → contains s k.seen ≡ true
        → Plan c show settings b k ops
        → Matches ops os
        → All (λ o'. (s == o'.node_id) ≡ false) os
    plan-apart s k [] [] h p m = tt
    plan-apart s k [] (o ∷ os) h p m = absurd m
    plan-apart s k (op ∷ ops) [] h p m = absurd m
    plan-apart s k (op ∷ ops) (o ∷ os) h p m = (
      rw m.0 (differs op.node_id k.seen s h p.0.fresh),
      plan-apart s (next k op) ops os (ground arith) p.1 m.1,
    )

    -- The outcomes of a plan that was let through are new to the board.
    pub plan-NewOutcomes :
        (ns : List NodeRecord) (k : Known) (ops : List NodePatch) (os : List NodeOutcome)
        → ((id : String) → contains id k.seen ≡ false → find_node id ns ≡ none)
        → Plan c show settings b k ops
        → Matches ops os
        → NewOutcomes ns os
    plan-NewOutcomes ns k [] [] h p m = tt
    plan-NewOutcomes ns k [] (o ∷ os) h p m = absurd m
    plan-NewOutcomes ns k (op ∷ ops) [] h p m = absurd m
    plan-NewOutcomes ns k (op ∷ ops) (o ∷ os) h p m = (
      rw m.0 (h op.node_id p.0.fresh),
      rw m.0 (
          plan-apart op.node_id (next k op) ops os (ground (arith, eq_iff op.node_id op.node_id))
            p.1 m.1),
      plan-NewOutcomes ns (next k op) ops os (λ id g. h id (ground arith)) p.1 m.1,
    )

    pub plan-unreserved :
        (k : Known) (ops : List NodePatch) (os : List NodeOutcome)
        → Plan c show settings b k ops
        → Matches ops os
        → All (λ id. is_reserved id ≡ false) (outcome_ids os)
    plan-unreserved k [] [] p m = tt
    plan-unreserved k [] (o ∷ os) p m = absurd m
    plan-unreserved k (op ∷ ops) [] p m = absurd m
    plan-unreserved k (op ∷ ops) (o ∷ os) p m =
        (rw m.0 p.0.unreserved, plan-unreserved (next k op) ops os p.1 m.1)
