-- ===== src/Graph/Runner/Keeps.antt =====
-- engine/wolves/graph/runner.py: what the parts of a round leave as it is.
use wolves_ai.Base.{
  ◌+◌, ◌≡◌, refl, ap, ◌∙◌, Bool, true, false, not, ◌&&◌, String, Option, none, some, List, [], ◌∷◌,
  if◌then◌else◌, arith, inl, inr, Option-cases,
}
use wolves_ai.Base.Json.{Value}
use wolves_ai.Base.Text.{codes}
use wolves_ai.Artifacts.{Artifact, Codec, get, find_record}
use wolves_ai.Submission.{SubmitSettings}
use wolves_ai.Graph.Contracts.{NodePatch, GraphPatch, NodeOutcome, GraphSettings}
use wolves_ai.Graph.TextRules.{focus_team_drift}
use wolves_ai.Graph.Board.{Board, set_context}
use wolves_ai.Graph.Admit.{Reason, nudged, Loop, start, refusal, round, rounds, admit}
use wolves_ai.Graph.Merge.{
  ResearchOutput, ledger_entries, merge_found, merge_artifact, merge_artifacts, merge_outcomes,
  merge, merge_node,
}
use wolves_ai.Graph.Runner.{
  Run, Outside, Next, goes_on, stops, submit_clean_preview, should_continue_after_acceptance,
  end_of_wave, after_structural, after_replan, has_registered_repair_mixture, followed_up,
}

module _ (c : Codec) (show : Value → String) where
  -- Two boards with the same nodes at the same wave.
  pub record Kept (b b' : Board c show) : Type 0 where
    pub nodes : b'.nodes ≡ b.nodes
    pub wave : b'.wave ≡ b.wave

  pub Kept-refl : (b : Board c show) → Kept b b
  Kept-refl b = record { nodes = refl; wave = refl }

  pub Kept-trans : (b b' b'' : Board c show) → Kept b b' → Kept b' b'' → Kept b b''
  Kept-trans b b' b'' v w = record { nodes = w.nodes ∙ v.nodes; wave = w.wave ∙ v.wave }

  module _ (settings : GraphSettings) where
    nudged-Kept : (why : Reason) (b : Board c show) → Kept b (nudged c show settings why b)
    nudged-Kept why b = ground arith

    round-Kept :
        (l : Loop c show settings) (op : NodePatch)
        → Kept l.board (round c show settings l op).board
    unfolding round
    round-Kept l op = elim (Option-cases (refusal c show settings l op)) [
      | inl e ↦ rw (e, round) (Kept-refl l.board)
      | inr (why, e) ↦ rw (e, round) (nudged-Kept why l.board)
    ]

    rounds-Kept :
        (l : Loop c show settings) (ops : List NodePatch)
        → Kept l.board (rounds c show settings l ops).board
    unfolding rounds
    rounds-Kept l [] = Kept-refl l.board
    rounds-Kept l (op ∷ ops) =
        Kept-trans l.board (round c show settings l op).board _ (round-Kept l op)
          (rounds-Kept (round c show settings l op) ops)

    pub admit-Kept :
        (patch : GraphPatch) (b : Board c show) → Kept b (admit c show settings patch b).2
    unfolding admit start
    admit-Kept patch b =
        elim (Option-cases (focus_team_drift settings.focus_team (codes patch.reason))) [
          | inl e ↦ rw (e, admit) (rounds-Kept (start c show settings b) patch.ops)
          | inr (found, e) ↦ rw (e, admit) (Kept-refl b)
        ]

  module _ (fetched : String → Bool) (validate : Value → ResearchOutput)
      (dump : ResearchOutput → Value) where
    ledger_entries-Kept :
        (id : String) (payload : Value) (b : Board c show)
        → Kept b (ledger_entries c show fetched validate dump id payload b)
    unfolding ledger_entries
    ledger_entries-Kept id payload b = ground arith

    merge_found-Kept :
        (found : Option Artifact) (b : Board c show)
        → Kept b (merge_found c show fetched validate dump found b)
    merge_found-Kept none b = Kept-refl b
    merge_found-Kept (some a) b = ground (arith, ledger_entries-Kept a.id a.payload b)

    merge_artifacts-Kept :
        (ids : List String) (b : Board c show)
        → Kept b (merge_artifacts c show fetched validate dump ids b)
    unfolding merge_artifacts
    merge_artifacts-Kept [] b = Kept-refl b
    merge_artifacts-Kept (id ∷ ids) b =
        let (found, store) = get c id b.artifacts in
        let b' : Board c show = record b { artifacts = store } in
        Kept-trans b (merge_artifact c show fetched validate dump id b) _
          (Kept-trans b b' (merge_artifact c show fetched validate dump id b)
            (record { nodes = refl; wave = refl }) (merge_found-Kept found b'))
          (merge_artifacts-Kept ids (merge_artifact c show fetched validate dump id b))

    merge_outcomes-wave :
        (ops : List NodePatch) (os : List NodeOutcome) (b : Board c show)
        → (merge_outcomes c show fetched validate dump ops os b).wave ≡ b.wave
    unfolding merge_outcomes
    merge_outcomes-wave ops [] b = refl
    merge_outcomes-wave ops (o ∷ os) b =
        let b' : Board c show = record b { nodes = merge_node ops o b.nodes } in
        merge_outcomes-wave ops os (merge_artifacts c show fetched validate dump o.artifact_ids b')
        ∙ (merge_artifacts-Kept o.artifact_ids b').wave

    -- A merge counts a wave exactly if it is to.
    pub merge-wave :
        (advance : Bool) (ops : List NodePatch) (os : List NodeOutcome) (b : Board c show)
        → (merge c show fetched validate dump advance ops os b).wave
          ≡ (if advance then b.wave + 1 else b.wave)
    unfolding merge
    merge-wave true ops os b = ap (λ n. n + 1) (merge_outcomes-wave ops os b)
    merge-wave false ops os b = merge_outcomes-wave ops os b

  module _ (settings : GraphSettings) (submit_settings : SubmitSettings)
      (out : Outside c show) where
    pub submit_clean_preview-Kept :
        (r : Run c show)
        → Kept r.board (submit_clean_preview c show settings submit_settings out r).board
    unfolding submit_clean_preview
    submit_clean_preview-Kept r = ground arith

    reopen-Kept :
        (r : Run c show)
        → Kept r.board
            (should_continue_after_acceptance c show settings submit_settings out r).1.board
    unfolding should_continue_after_acceptance set_context
    reopen-Kept r = ground arith

    -- Whatever comes next has the nodes and the wave of this board.
    abbrev pub NextKept : Board c show → Next (Run c show) → Type 0
    NextKept b (goes_on r) = Kept b r.board
    NextKept b (stops r) = Kept b r.board

    choose_Kept :
        (n n' : Next (Run c show)) (b : Board c show) (t : Bool)
        → NextKept b n
        → NextKept b n'
        → NextKept b (if t then n else n')
    choose_Kept n n' b true h g = h
    choose_Kept n n' b false h g = g

    next_trans :
        (b b' : Board c show) (n : Next (Run c show)) → Kept b b' → NextKept b' n → NextKept b n
    next_trans b b' (goes_on r) h g = Kept-trans b b' r.board h g
    next_trans b b' (stops r) h g = Kept-trans b b' r.board h g

    end_of_wave-Kept :
        (patch : GraphPatch) (r : Run c show)
        → NextKept r.board (end_of_wave c show settings submit_settings out patch r)
    unfolding end_of_wave
    end_of_wave-Kept patch r = ground (arith, reopen-Kept r)

    after_structural-Kept :
        (had : Bool) (patch : GraphPatch) (os : List NodeOutcome) (r : Run c show)
        → NextKept r.board (after_structural c show settings submit_settings out had patch os r)
    unfolding after_structural set_context
    after_structural-Kept had patch os r =
        let r' : Run c show = record r {
          submission = record r.submission { structural_repair_required = false };
          board = set_context c show "structural_repair" "" r.board;
        } in
        choose_Kept _ _ r.board (not r.submission.structural_repair_required)
          (end_of_wave-Kept patch r)
          (choose_Kept _ _ r.board
            (had && has_registered_repair_mixture (λ id. find_record c id r.board.artifacts) os)
            (next_trans r.board r'.board (end_of_wave c show settings submit_settings out patch r')
              (record { nodes = refl; wave = refl }) (end_of_wave-Kept patch r'))
            (record { nodes = refl; wave = refl }))

    pub after_replan-Kept :
        (had had' : Bool) (patch : GraphPatch) (os : List NodeOutcome) (r : Run c show)
        → NextKept r.board (after_replan c show settings submit_settings out had had' patch os r)
    unfolding after_replan
    after_replan-Kept had had' patch os r =
        let r' : Run c show = record r {
          submission = record r.submission { referee_replan_required = false };
        } in
        choose_Kept _ _ r.board
          (r.submission.publication_blocked && not r.submission.referee_replan_required)
          (Kept-refl r.board)
          (choose_Kept _ _ r.board (not r.submission.referee_replan_required)
            (after_structural-Kept had' patch os r)
            (choose_Kept _ _ r.board (had && followed_up c show settings submit_settings out os)
              (after_structural-Kept had' patch os r') (Kept-refl r.board)))
