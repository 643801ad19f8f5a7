-- ===== src/Graph/Runner/Lineage.antt =====
-- engine/wolves/graph/runner.py: what every run keeps, over any number of waves.
use wolves_ai.Base.{
  ℕ, zero, suc, ◌+◌, ◌≤◌, ◌≡◌, refl, ap, ◌∙◌, Bool, true, false, not, ◌||◌, String, List, [], ◌∷◌,
  ◌++◌, length, count_if, count_if-append, All, if◌then◌else◌, arith, string_eq, ◌==◌,
}
use wolves_ai.Base.Json.{Value}
use wolves_ai.Artifacts.{Codec}
use wolves_ai.Submission.{SubmitSettings}
use wolves_ai.Submission.Submit.{is_nil}
use wolves_ai.Graph.Contracts.{NodePatch, GraphPatch, NodeOutcome, GraphSettings}
use wolves_ai.Graph.Board.{Board, NodeRecord, is_planned, planned_node_count}
use wolves_ai.Graph.Admit.{admit}
use wolves_ai.Graph.Admit.Plan.{known_first, admit-Plan}
use wolves_ai.Graph.Admit.Laws.{admit-caps}
use wolves_ai.Graph.Merge.{merge}
use wolves_ai.Graph.Merge.Nodes.{Forward, NewOutcomes, merge-Forward}
use wolves_ai.Graph.Runner.{
  after_plan, Run, Outside, Worked, Next, goes_on, stops, Planned, planned, capped, take_in,
  with_worked, wave_with, wave, waves, forecast_reset, sync,
}
use wolves_ai.Graph.Runner.Keeps.{
  Kept, admit-Kept, merge-wave, submit_clean_preview-Kept, NextKept, after_replan-Kept,
}
use wolves_ai.Graph.Runner.Waves.{
  is_reserved, Matches, find-none, ids_of, outcome_ids, merge-ids, plan-NewOutcomes,
  plan-unreserved,
}

All-append : (P : String → Type 0) (xs ys : List String) → All P xs → All P ys → All P (xs ++ ys)
All-append P [] ys h g = g
All-append P (x ∷ xs) ys h g = (h.0, All-append P xs ys h.1 g)

is_planned_id : String → Bool
is_planned_id id = not (id == "coverage-research")

count-ids : (ns : List NodeRecord) → count_if is_planned ns ≡ count_if is_planned_id (ids_of ns)
unfolding is_planned_id
count-ids [] = refl
count-ids (n ∷ ns) = ground (arith, count-ids ns)

count-length : (os : List NodeOutcome) → count_if is_planned_id (outcome_ids os) ≤ length os
count-length [] = omega arith
count-length (o ∷ os) = ground (arith, count-length os)

Matches-length :
    (ops : List NodePatch) (os : List NodeOutcome) → Matches ops os → length os ≡ length ops
Matches-length [] [] m = refl
Matches-length [] (o ∷ os) m = absurd m
Matches-length (op ∷ ops) [] m = absurd m
Matches-length (op ∷ ops) (o ∷ os) m = omega (arith, Matches-length ops os m.1)

-- The nodes of a run: an acyclic lineage, no id of the runner's, and no more than allowed.
pub record Good (limit : ℕ) (ns : List NodeRecord) : Type 0 where
  pub forward : Forward ns
  pub unreserved : All (λ id. is_reserved id ≡ false) (ids_of ns)
  pub within : count_if is_planned ns ≤ limit

module _ (c : Codec) (show : Value → String) (settings : GraphSettings)
    (submit_settings : SubmitSettings) (out : Outside c show) where
  abbrev merged : Bool → List NodePatch → List NodeOutcome → Board c show → Board c show
  merged = merge c show out.fetched out.validate_research out.dump_research

  merged-Good :
      (limit : ℕ) (advance : Bool) (ops : List NodePatch) (os : List NodeOutcome) (b : Board c show)
      → Good limit b.nodes
      → NewOutcomes b.nodes os
      → All (λ id. is_reserved id ≡ false) (outcome_ids os)
      → count_if is_planned b.nodes + length os ≤ limit
      → Good limit (merged advance ops os b).nodes
  merged-Good limit advance ops os b v new free room =
      let e =
        merge-ids c show out.fetched out.validate_research out.dump_research advance ops os b in
      record {
        forward =
            merge-Forward c show out.fetched out.validate_research out.dump_research advance ops os
              b new v.forward;
        unreserved = rw e (All-append _ (ids_of b.nodes) (outcome_ids os) v.unreserved free);
        within = omega (
          arith,
          room,
          count-ids (merged advance ops os b).nodes,
          count-ids b.nodes,
          count-length os,
          ap (count_if is_planned_id) e,
          count_if-append is_planned_id (ids_of b.nodes) (outcome_ids os),
        );
      }

  take_in-Kept :
      (ops : List NodePatch) (w : Worked c) (r : Run c show)
      → Kept c show
          (merged true ops w.outcomes (with_worked c show settings submit_settings out w r).board)
          (take_in c show settings submit_settings out ops w r).board
  unfolding take_in sync
  take_in-Kept ops w r = submit_clean_preview-Kept c show settings submit_settings out _

  -- Every worker of a wave comes back with the outcome of its operation.
  abbrev pub Faithful : Type 0
  Faithful = (ops : List NodePatch) (r : Run c show) → Matches ops (out.execute ops r).outcomes

  abbrev pub NextGood : ℕ → ℕ → Next (Run c show) → Type 0
  NextGood limit n (goes_on r) = Good limit r.board.nodes × (r.board.wave ≤ n)
  NextGood limit n (stops r) = Good limit r.board.nodes × (r.board.wave ≤ n)

  kept-Good :
      (limit n : ℕ) (b : Board c show) (x : Next (Run c show))
      → NextKept c show settings submit_settings out b x
      → Good limit b.nodes
      → b.wave ≤ n
      → NextGood limit n x
  kept-Good limit n b (goes_on r) k v h = (rw k.nodes v, rw k.wave h)
  kept-Good limit n b (stops r) k v h = (rw k.nodes v, rw k.wave h)

  -- Taking the outcomes of an admitted plan in keeps the nodes good and counts one wave.
  took-Good :
      (limit : ℕ) (ops : List NodePatch) (w : Worked c) (r : Run c show)
      → Good limit r.board.nodes
      → NewOutcomes r.board.nodes w.outcomes
      → All (λ id. is_reserved id ≡ false) (outcome_ids w.outcomes)
      → count_if is_planned r.board.nodes + length w.outcomes ≤ limit
      → let r' = take_in c show settings submit_settings out ops w r in
        Good limit r'.board.nodes × (r'.board.wave ≡ r.board.wave + 1)
  took-Good limit ops w r v new free room =
      let b = (with_worked c show settings submit_settings out w r).board in
      let k = take_in-Kept ops w r in
      (
        rw k.nodes (merged-Good limit true ops w.outcomes b v new free room),
        k.wave
            ∙ merge-wave c show out.fetched out.validate_research out.dump_research true ops
                w.outcomes b,
      )

  module _ (faithful : Faithful) where
    choose_good :
        (limit n : ℕ) (x y : Next (Run c show)) (t : Bool)
        → NextGood limit n x
        → NextGood limit n y
        → NextGood limit n (if t then x else y)
    choose_good limit n x y true h g = h
    choose_good limit n x y false h g = g

    room :
        (b b' : Board c show) (patch : GraphPatch) (n : ℕ)
        → Kept c show b b'
        → count_if is_planned b.nodes ≤ settings.graph_max_nodes
        → n ≡ length (admit c show settings patch b).0
        → count_if is_planned b'.nodes + n ≤ settings.graph_max_nodes
    unfolding planned_node_count
    room b b' patch n k h e =
        omega
          (arith, e, h, (admit-caps c show settings patch b).1, ap (count_if is_planned) k.nodes)

    wave_with-Good :
        (patch : GraphPatch) (r : Run c show)
        → Good settings.graph_max_nodes r.board.nodes
        → NextGood settings.graph_max_nodes
            (r.board.wave + 1)
            (wave_with c show settings submit_settings out patch r)
    unfolding wave_with
    wave_with-Good patch r v =
        let ops = (admit c show settings patch r.board).0 in
        let board = (admit c show settings patch r.board).2 in
        let r₁ : Run c show = record r {
          board = record board { dropped = length (admit c show settings patch r.board).1 };
        } in
        let r₂ : Run c show = record r₁ {
          submission = forecast_reset c show settings submit_settings out ops r₁.submission;
        } in
        let w = out.execute ops r₂ in
        let k = admit-Kept c show settings patch r.board in
        let p = admit-Plan c show settings patch r.board in
        let m = faithful ops r₂ in
        let good =
          took-Good settings.graph_max_nodes ops w r₂ (rw k.nodes v)
            (plan-NewOutcomes c show settings r.board board.nodes
              (known_first c show settings r.board) ops w.outcomes
              (λ id h. find-none id board.nodes (rw k.nodes h)) p m)
            (plan-unreserved c show settings r.board (known_first c show settings r.board) ops
              w.outcomes p m)
            (room r.board board patch (length w.outcomes) k v.within
              (Matches-length ops w.outcomes m)) in
        let r₃ = take_in c show settings submit_settings out ops w r₂ in
        choose_good _ _ _ _ (is_nil ops)
          (choose_good _ _ _ _ (patch.stop || is_nil patch.ops)
            (rw k.nodes v, rw k.wave (omega arith)) (rw k.nodes v, rw k.wave (omega arith)))
          (kept-Good settings.graph_max_nodes (r.board.wave + 1) r₃.board _
            (after_replan-Kept c show settings submit_settings out
              r₂.submission.referee_replan_required r₂.submission.structural_repair_required patch
              w.outcomes r₃)
            good.0 (omega (arith, good.1, k.wave)))

    wave-Good :
        (r : Run c show)
        → Good settings.graph_max_nodes r.board.nodes
        → NextGood settings.graph_max_nodes
            (r.board.wave + 1)
            (wave c show settings submit_settings out r)
    unfolding wave
    wave-Good r v = go (out.plan r)
      where
        go :
            (p : Planned)
            → NextGood settings.graph_max_nodes (r.board.wave + 1) (elim p [
              | capped ↦ stops (record (after_plan c show settings submit_settings out r) {
                budget_exhausted = true;
              })
              | planned patch ↦
                  wave_with c show settings submit_settings out patch
                    (after_plan c show settings submit_settings out r)
            ])
        go capped = (v, omega arith)
        go (planned patch) =
            wave_with-Good patch (after_plan c show settings submit_settings out r) v

    after_wave :
        (m n : ℕ) (r : Run c show) (x : Next (Run c show))
        → NextGood settings.graph_max_nodes (r.board.wave + 1) x
        → m ≡ n + 1
        → ((q : Run c show)
            → Good settings.graph_max_nodes q.board.nodes
            → let q' = waves c show settings submit_settings out n q in
              Good settings.graph_max_nodes q'.board.nodes × (q'.board.wave ≤ q.board.wave + n))
        → let r' : Run c show = elim x [
          | stops q ↦ q
          | goes_on q ↦ waves c show settings submit_settings out n q
        ] in
          Good settings.graph_max_nodes r'.board.nodes × (r'.board.wave ≤ r.board.wave + m)
    after_wave m n r (stops q) h e ih = (h.0, omega (arith, h.1, e))
    after_wave m n r (goes_on q) h e ih = let t = ih q h.0 in (t.0, omega (arith, h.1, t.1, e))

    -- Whatever the master plans and the workers do, as long as each gives back the outcome of its own
    -- operation: any number of waves keeps every node id standing once, nodes replaced by later ones
    -- only, the runner's ids unused and the planned nodes of the run within their limit, and advances
    -- the wave at most as often as there are waves.
    pub waves-Good :
        (n : ℕ) (r : Run c show)
        → Good settings.graph_max_nodes r.board.nodes
        → let r' = waves c show settings submit_settings out n r in
          Good settings.graph_max_nodes r'.board.nodes × (r'.board.wave ≤ r.board.wave + n)
    unfolding waves
    waves-Good zero r v = (v, omega arith)
    waves-Good (suc n) r v =
        after_wave (suc n) n r (wave c show settings submit_settings out r) (wave-Good r v)
          (omega arith) (λ q. waves-Good n q)
