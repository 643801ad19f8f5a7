-- ===== src/Graph/Admit/Nudges.antt =====
-- engine/wolves/graph/master.py, engine/wolves/graph/blackboard.py: the follow-ups that delay a
-- forecast are limited in number.
use wolves_ai.Base.{
  ◌≤◌, ◌<◌, ◌≡◌, true, String, some, List, [], ◌∷◌, arith, inl, inr, Option-cases, max,
}
use wolves_ai.Base.Json.{Value}
use wolves_ai.Base.Text.{codes}
use wolves_ai.Artifacts.{Codec}
use wolves_ai.Graph.Contracts.{NodePatch, GraphPatch, GraphSettings}
use wolves_ai.Graph.TextRules.{focus_team_drift}
use wolves_ai.Graph.Board.{Board, branch_follow_up_reason, premortem_follow_up_reason}
use wolves_ai.Graph.Admit.{
  Reason, branch_coverage_needed, premortem_needed, nudged, Loop, start, round, rounds, refusal,
  admit,
}

module _ (c : Codec) (show : Value → String) (settings : GraphSettings) where
  -- The nudges are those of an earlier board and more, up to the allowed number.
  pub record Nudges (b b' : Board c show) : Type 0 where
    pub coverage_grows : b.coverage_nudges ≤ b'.coverage_nudges
    pub coverage_limit :
        b'.coverage_nudges ≤ max b.coverage_nudges settings.graph_max_coverage_nudges
    pub premortem_grows : b.premortem_nudges ≤ b'.premortem_nudges
    pub premortem_limit : b'.premortem_nudges ≤ max b.premortem_nudges 1

  room_for_coverage :
      (b : Board c show) (why : String)
      → branch_follow_up_reason c show settings b ≡ some why
      → b.coverage_nudges < settings.graph_max_coverage_nudges
  unfolding branch_follow_up_reason
  room_for_coverage b why h = ground arith

  room_for_premortem :
      (b : Board c show)
      → premortem_follow_up_reason c show settings b ≡ true
      → b.premortem_nudges ≡ 0
  unfolding premortem_follow_up_reason
  room_for_premortem b h = ground arith

  nudged-Nudges :
      (l : Loop c show settings) (op : NodePatch) (why : Reason)
      → refusal c show settings l op ≡ some why
      → Nudges l.board (nudged c show settings why l.board)
  unfolding refusal
  nudged-Nudges l op (branch_coverage_needed why) h = ground (arith, room_for_coverage l.board why)
  nudged-Nudges l op premortem_needed h = ground (arith, room_for_premortem l.board)
  nudged-Nudges l op why h = ground arith

  both : (b b' b'' : Board c show) → Nudges b b' → Nudges b' b'' → Nudges b b''
  both b b' b'' v w = ground (arith)

  unchanged : (b : Board c show) → Nudges b b
  unchanged b = ground arith

  round-Nudges :
      (l : Loop c show settings) (op : NodePatch)
      → Nudges l.board (round c show settings l op).board
  unfolding round
  round-Nudges l op = elim (Option-cases (refusal c show settings l op)) [
    | inl e ↦ rw (e, round) (unchanged l.board)
    | inr (why, e) ↦ rw (e, round) (nudged-Nudges l op why e)
  ]

  rounds-Nudges :
      (l : Loop c show settings) (ops : List NodePatch)
      → Nudges l.board (rounds c show settings l ops).board
  unfolding rounds
  rounds-Nudges l [] = unchanged l.board
  rounds-Nudges l (op ∷ ops) =
      both l.board (round c show settings l op).board _ (round-Nudges l op)
        (rounds-Nudges (round c show settings l op) ops)

  -- However often a plan asks for a forecast, the drops that ask for a follow-up first count as
  -- nudges, and the nudges of either kind never pass their limit, unless they have done so before.
  pub admit-Nudges :
      (patch : GraphPatch) (b : Board c show) → Nudges b (admit c show settings patch b).2
  unfolding admit start
  admit-Nudges patch b =
      elim (Option-cases (focus_team_drift settings.focus_team (codes patch.reason))) [
        | inl e ↦ rw (e, admit) (rounds-Nudges (start c show settings b) patch.ops)
        | inr (found, e) ↦ rw (e, admit) (unchanged b)
      ]
