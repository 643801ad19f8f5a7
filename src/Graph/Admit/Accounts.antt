-- ===== src/Graph/Admit/Accounts.antt =====
-- engine/wolves/graph/master.py: nothing of a plan is lost: every operation is let through or dropped.
use wolves_ai.Base.{
  ℕ, ◌+◌, ◌≡◌, Bool, String, none, List, [], ◌∷◌, map, take, drop, count_if, count_if-append, sym,
  ap, ◌∙◌, refl, take-append-drop, arith, inl, inr, Option-cases,
}
use wolves_ai.Base.Json.{Value}
use wolves_ai.Base.Text.{codes}
use wolves_ai.Artifacts.{Codec}
use wolves_ai.Graph.Contracts.{NodePatch, GraphPatch, GraphSettings}
use wolves_ai.Graph.TextRules.{focus_team_drift}
use wolves_ai.Graph.Board.{Board}
use wolves_ai.Graph.Admit.{Drop, over_cap, Loop, start, round, rounds, refusal, wave_cap, admit}

module _ (t : String → Bool) where
  abbrev of_ops : List NodePatch → ℕ
  of_ops = count_if λ op. t op.node_id

  abbrev of_drops : List Drop → ℕ
  of_drops = count_if λ d. t d.node_id

  overs :
      (ops : List NodePatch)
      → of_drops (map (λ op. record { node_id = op.node_id; why = over_cap }) ops) ≡ of_ops ops
  overs [] = refl
  overs (op ∷ ops) = ground (arith, overs ops)

  cut : (n : ℕ) (ops : List NodePatch) → of_ops (take n ops) + of_ops (drop n ops) ≡ of_ops ops
  cut n ops =
      sym (count_if-append (λ op. t op.node_id) (take n ops) (drop n ops))
      ∙ ap of_ops (take-append-drop n ops)

  module _ (c : Codec) (show : Value → String) (settings : GraphSettings) where
    abbrev handled : Loop c show settings → ℕ
    handled l = of_ops l.admitted + of_drops l.drops

    round-handled :
        (l : Loop c show settings) (op : NodePatch)
        → handled (round c show settings l op) ≡ handled l + of_ops (op ∷ [])
    unfolding round
    round-handled l op = elim (Option-cases (refusal c show settings l op)) [
      | inl e ↦
          rw (e, round) (omega (arith, count_if-append (λ o. t o.node_id) l.admitted (op ∷ [])))
      | inr (why, e) ↦
          rw (e, round)
            (ground (
              arith,
              count_if-append (λ d. t d.node_id) l.drops
                  (record { node_id = op.node_id; why = why } ∷ []),
            ))
    ]

    rounds-handled :
        (l : Loop c show settings) (ops : List NodePatch)
        → handled (rounds c show settings l ops) ≡ handled l + of_ops ops
    unfolding rounds
    rounds-handled l [] = omega arith
    rounds-handled l (op ∷ ops) = omega (
      arith,
      rounds-handled (round c show settings l op) ops,
      round-handled l op,
      count_if-append (λ o. t o.node_id) (op ∷ []) ops,
    )

    start-handled : (b : Board c show) → handled (start c show settings b) ≡ 0
    unfolding start
    start-handled b = refl

    -- Whatever test of node ids is put to them, what `admit` lets through and what it drops hold
    -- together exactly as many as the plan, where the plan's reason has not drifted from the focus
    -- team: every operation is let through or dropped with a reason, once.
    pub admit-accounts :
        (patch : GraphPatch) (b : Board c show)
        → focus_team_drift settings.focus_team (codes patch.reason) ≡ none
        → let (ops, drops, b') = admit c show settings patch b in
          count_if (λ op. t op.node_id) ops + count_if (λ d. t d.node_id) drops
          ≡ count_if (λ op. t op.node_id) patch.ops
    unfolding admit
    admit-accounts patch b h =
        let l = rounds c show settings (start c show settings b) patch.ops in
        let n = wave_cap c show settings b in
        rw (h, admit)
          (omega (
            arith,
            count_if-append (λ d. t d.node_id) l.drops
                (map (λ op. record { node_id = op.node_id; why = over_cap }) (drop n l.admitted)),
            overs (drop n l.admitted),
            cut n l.admitted,
            rounds-handled (start c show settings b) patch.ops,
            start-handled b,
          ))
