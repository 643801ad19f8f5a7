-- ===== src/Graph/Admit/Laws.antt =====
-- engine/wolves/graph/master.py: what holds of every plan that `admit` lets through.
use wolves_ai.Base.{
  ◌+◌, ◌≤◌, ◌<◌, ◌≡◌, true, false, not, ◌&&◌, String, List, [], ◌∷◌, map, any, sym, contains,
  length, count_if, max, if◌then◌else◌, is_some, string_eq, arith, inl, inr, Option-cases,
  Bool-cases, length-take, All,
}
use wolves_ai.Base.Json.{Value}
use wolves_ai.Base.Text.{codes}
use wolves_ai.Artifacts.{Codec, has}
use wolves_ai.Graph.Contracts.{NodeKind, forecast, NodePatch, kind_beq, GraphPatch, GraphSettings}
use wolves_ai.Graph.TextRules.{focus_team_drift}
use wolves_ai.Graph.Board.{Board, planned_node_count}
use wolves_ai.Graph.Admit.{
  KindCounts, counted, count_one, count_nodes, replaced_ids, some_in, add_some, kind_cap, start,
  rounds, wave_cap, admit,
}
use wolves_ai.Graph.Admit.Plan.{Known, next, Plan, known_first, admit-Plan}

-- No operation has the id of one before it, nor one of these.
abbrev pub NewIds : List String → List NodePatch → Type 0
NewIds seen [] = Unit
NewIds seen (op ∷ ops) = (contains op.node_id seen ≡ false) × NewIds (op.node_id ∷ seen) ops

-- What an operation replaces is among these or an operation before it, and is replaced once.
abbrev pub Lineage : List String → List String → List NodePatch → Type 0
Lineage seen replaced [] = Unit
Lineage seen replaced (op ∷ ops) =
    ((is_some op.replaces && not (some_in op.replaces seen)) ≡ false)
    × (some_in op.replaces replaced ≡ false)
    × Lineage (op.node_id ∷ seen) (add_some op.replaces replaced) ops

kind_beq-eq : (a b : NodeKind) → kind_beq a b ≡ true → a ≡ b
kind_beq-eq a b h = ground arith

count_one-other :
    (k : KindCounts) (kind other : NodeKind)
    → counted (count_one other k) kind
      ≡ (if kind_beq other kind then counted k kind + 1 else counted k kind)
count_one-other k kind other = ground arith

same_room :
    (settings : GraphSettings) (kind other : NodeKind) (k : KindCounts)
    → kind_beq other kind ≡ true
    → counted k other < kind_cap other settings
    → counted k kind < kind_cap kind settings
same_room settings kind other k e h = rw (sym (kind_beq-eq other kind e)) h

module _ (c : Codec) (show : Value → String) (settings : GraphSettings) (b : Board c show) where
  new_ids : (k : Known) (ops : List NodePatch) → Plan c show settings b k ops → NewIds k.seen ops
  new_ids k [] p = tt
  new_ids k (op ∷ ops) p = (p.0.fresh, new_ids (next k op) ops p.1)

  lineage :
      (k : Known) (ops : List NodePatch)
      → Plan c show settings b k ops
      → Lineage k.seen k.replaced ops
  lineage k [] p = tt
  lineage k (op ∷ ops) p = (p.0.replaces_known, p.0.replaces_once, lineage (next k op) ops p.1)

  inputs :
      (k : Known) (ops : List NodePatch)
      → Plan c show settings b k ops
      → All (λ op. any (λ id. not (has c id b.artifacts)) op.input_artifact_ids ≡ false) ops
  inputs k [] p = tt
  inputs k (op ∷ ops) p = (p.0.inputs_exist, inputs (next k op) ops p.1)

  within :
      (kind : NodeKind) (k : Known) (ops : List NodePatch)
      → Plan c show settings b k ops
      → counted k.kinds kind + count_if (λ op. kind_beq op.kind kind) ops
        ≤ max (kind_cap kind settings) (counted k.kinds kind)
  within kind k [] p = omega arith
  within kind k (op ∷ ops) p = elim (Bool-cases (kind_beq op.kind kind)) [
    | inl e ↦ ground (
      arith,
      e,
      count_one-other k.kinds kind op.kind,
      within kind (next k op) ops p.1,
      same_room settings kind op.kind k.kinds e p.0.under_cap,
    )
    | inr e ↦
        ground (arith, e, count_one-other k.kinds kind op.kind, within kind (next k op) ops p.1)
  ]

  forecasts :
      (k : Known) (ops : List NodePatch)
      → Plan c show settings b k ops
      → count_if (λ op. kind_beq op.kind forecast) ops ≤ (if k.forecasts then 0 else 1)
  forecasts k [] p = ground arith
  forecasts k (op ∷ ops) p = ground (arith, p.0.one_forecast, forecasts (next k op) ops p.1)

-- The ids of the operations that `admit` lets through differ from each other and from the id of
-- every node that the board has; what one of them replaces is a node of the board or an earlier
-- operation of the plan, and no node is replaced twice, in this plan or in it and an earlier one;
-- and every artifact that one of them names as its input is in the store.
pub admit-Lineage :
    (c : Codec) (show : Value → String) (settings : GraphSettings) (patch : GraphPatch)
    (b : Board c show)
    → let ops = (admit c show settings patch b).0 in
      let ids = map (λ n. n.node_id) b.nodes in
      NewIds ids ops
      × Lineage ids (replaced_ids b.nodes) ops
      × All (λ op. any (λ id. not (has c id b.artifacts)) op.input_artifact_ids ≡ false) ops
admit-Lineage c show settings patch b =
    let ops = (admit c show settings patch b).0 in
    let p = admit-Plan c show settings patch b in
    (
      new_ids c show settings b (known_first c show settings b) ops p,
      lineage c show settings b (known_first c show settings b) ops p,
      inputs c show settings b (known_first c show settings b) ops p,
    )

admit-length :
    (c : Codec) (show : Value → String) (settings : GraphSettings) (patch : GraphPatch)
    (b : Board c show)
    → length (admit c show settings patch b).0 ≤ wave_cap c show settings b
unfolding admit
admit-length c show settings patch b =
    elim (Option-cases (focus_team_drift settings.focus_team (codes patch.reason))) [
      | inl e ↦
          rw (e, admit)
            (omega (
              arith,
              length-take (wave_cap c show settings b)
                  (rounds c show settings (start c show settings b) patch.ops).admitted,
            ))
      | inr (found, e) ↦ rw (e, admit) (omega arith)
    ]

-- What `admit` lets through is at most the workers of a wave; with the nodes planned so far it is at
-- most the nodes of a run, unless those are more already; it holds one forecast at most; and of
-- each kind, with the nodes of that kind so far, it is at most the kind's cap, unless those are
-- more already.
pub admit-caps :
    (c : Codec) (show : Value → String) (settings : GraphSettings) (patch : GraphPatch)
    (b : Board c show)
    → let ops = (admit c show settings patch b).0 in
      let planned = planned_node_count c show b in
      let so_far = count_nodes b.nodes in
      (length ops ≤ settings.graph_max_wave_workers)
      × (planned + length ops ≤ max settings.graph_max_nodes planned)
      × (count_if (λ op. kind_beq op.kind forecast) ops ≤ 1)
      × ((kind : NodeKind)
          → counted so_far kind + count_if (λ op. kind_beq op.kind kind) ops
            ≤ max (kind_cap kind settings) (counted so_far kind))
unfolding wave_cap
admit-caps c show settings patch b =
    let ops = (admit c show settings patch b).0 in
    let p = admit-Plan c show settings patch b in
    let short = admit-length c show settings patch b in
    (
      omega (arith, short),
      omega (arith, short),
      forecasts c show settings b (known_first c show settings b) ops p,
      λ kind. within c show settings b kind (known_first c show settings b) ops p,
    )
