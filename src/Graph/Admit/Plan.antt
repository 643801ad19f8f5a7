-- ===== src/Graph/Admit/Plan.antt =====
-- engine/wolves/graph/master.py: the tests that every admitted operation has passed, in the order of
-- the plan.
use wolves_ai.Base.{
  ℕ, zero, suc, ◌<◌, ◌≡◌, refl, sym, ap, ◌∙◌, Bool, false, not, ◌&&◌, ◌||◌, String, Option, none,
  some, List, [], ◌∷◌, ◌++◌, map, any, contains, take, leb, All, is_some, string_eq, arith, inl,
  inr, Option-cases,
}
use wolves_ai.Base.Json.{Value}
use wolves_ai.Base.Text.{codes, starts_with}
use wolves_ai.Artifacts.{Codec, has}
use wolves_ai.Graph.Contracts.{NodePatch, forecast, kind_beq, GraphPatch, GraphSettings}
use wolves_ai.Graph.TextRules.{focus_team_drift}
use wolves_ai.Graph.Board.{Board}
use wolves_ai.Graph.Admit.{
  Reason, when, first, KindCounts, counted, count_one, count_nodes, replaced_ids, some_in, add_some,
  kind_cap, Loop, start, nudged, tests, refusal, round, rounds, wave_cap, admit,
}

-- What the tests look at, of the loop's variables.
pub record Known : Type 0 where
  pub seen : List String
  pub replaced : List String
  pub kinds : KindCounts
  pub forecasts : Bool

abbrev pub next : Known → NodePatch → Known
next k op = record {
  seen = op.node_id ∷ k.seen;
  replaced = add_some op.replaces k.replaced;
  kinds = count_one op.kind k.kinds;
  forecasts = k.forecasts || kind_beq op.kind forecast;
}

abbrev pub after : Known → List NodePatch → Known
after k [] = k
after k (op ∷ ops) = after (next k op) ops

module _ (c : Codec) (show : Value → String) (settings : GraphSettings) where
  pub record Admissible (b : Board c show) (k : Known) (op : NodePatch) : Type 0 where
    pub fresh : contains op.node_id k.seen ≡ false
    pub unreserved : starts_with (codes "runner-") (codes op.node_id) ≡ false
    pub replaces_known : (is_some op.replaces && not (some_in op.replaces k.seen)) ≡ false
    pub replaces_once : some_in op.replaces k.replaced ≡ false
    pub inputs_exist : any (λ id. not (has c id b.artifacts)) op.input_artifact_ids ≡ false
    pub one_forecast : (kind_beq op.kind forecast && k.forecasts) ≡ false
    pub under_cap : counted k.kinds op.kind < kind_cap op.kind settings

  -- Each operation passes the tests after those before it.
  abbrev pub Plan : Board c show → Known → List NodePatch → Type 0
  Plan b k [] = Unit
  Plan b k (op ∷ ops) = Admissible b k op × Plan b (next k op) ops

  pub Plan-take :
      (b : Board c show) (k : Known) (n : ℕ) (ops : List NodePatch)
      → Plan b k ops
      → Plan b k (take n ops)
  Plan-take b k zero ops p = tt
  Plan-take b k (suc n) [] p = tt
  Plan-take b k (suc n) (op ∷ ops) p = (p.0, Plan-take b (next k op) n ops p.1)

  Plan-append :
      (b : Board c show) (k : Known) (ops : List NodePatch) (op : NodePatch)
      → Plan b k ops
      → Admissible b (after k ops) op
      → Plan b k (ops ++ op ∷ [])
  Plan-append b k [] op p a = (a, tt)
  Plan-append b k (o ∷ ops) op p a = (p.0, Plan-append b (next k o) ops op p.1 a)

  after-append :
      (k : Known) (ops : List NodePatch) (op : NodePatch)
      → after k (ops ++ op ∷ []) ≡ next (after k ops) op
  after-append k [] op = refl
  after-append k (o ∷ ops) op = after-append (next k o) ops op

  abbrev pub known_of : Loop c show settings → Known
  known_of l = record {
    seen = l.seen;
    replaced = l.replaced;
    kinds = l.kind_counts;
    forecasts = l.forecast_admitted;
  }

  abbrev pub known_first : Board c show → Known
  known_first b = record {
    seen = map (λ n. n.node_id) b.nodes;
    replaced = replaced_ids b.nodes;
    kinds = count_nodes b.nodes;
    forecasts = false;
  }

  first-none : (os : List (Option Reason)) → first os ≡ none → All (λ o. o ≡ none) os
  first-none [] h = tt
  first-none (none ∷ os) h = (refl, first-none os h)
  first-none (some r ∷ os) h = absurd (ground arith)

  when-none : (b : Bool) (r : Reason) → when b r ≡ none → b ≡ false
  when-none b r h = ground arith

  below : (m n : ℕ) → leb n m ≡ false → m < n
  below m n h = ground arith

  passed :
      (l : Loop c show settings) (op : NodePatch)
      → refusal c show settings l op ≡ none
      → Admissible l.board (known_of l) op
  unfolding refusal
  passed l op h =
      let t = first-none (tests c show settings l op) h in
      record {
        fresh = when-none _ _ t.0;
        unreserved = when-none _ _ t.1.0;
        replaces_known = when-none _ _ t.1.1.0;
        replaces_once = when-none _ _ t.1.1.1.0;
        inputs_exist = when-none _ _ t.1.1.1.1.0;
        one_forecast = when-none _ _ t.1.1.1.1.1.1.1.1.0;
        under_cap =
            below (counted l.kind_counts op.kind) (kind_cap op.kind settings)
              (when-none _ _ t.1.1.1.1.1.1.1.1.1.1.1.0);
      }

  record Inv (b : Board c show) (l : Loop c show settings) : Type 0 where
    same_store : l.board.artifacts ≡ b.artifacts
    plan : Plan b (known_first b) l.admitted
    known : after (known_first b) l.admitted ≡ known_of l

  moved :
      (b b' : Board c show) (k : Known) (op : NodePatch)
      → b.artifacts ≡ b'.artifacts
      → Admissible b k op
      → Admissible b' k op
  moved b b' k op e a = record {
    fresh = a.fresh;
    unreserved = a.unreserved;
    replaces_known = a.replaces_known;
    replaces_once = a.replaces_once;
    inputs_exist = rw (sym e) a.inputs_exist;
    one_forecast = a.one_forecast;
    under_cap = a.under_cap;
  }

  -- A drop changes neither the store nor what the tests look at.
  nudged-store :
      (why : Reason) (b : Board c show) → (nudged c show settings why b).artifacts ≡ b.artifacts
  nudged-store why b = ground arith

  round-Inv :
      (b : Board c show) (l : Loop c show settings) (op : NodePatch)
      → Inv b l
      → Inv b (round c show settings l op)
  unfolding round
  round-Inv b l op v = elim (Option-cases (refusal c show settings l op)) [
    | inl e ↦
        rw (e, round)
          (record {
            same_store = v.same_store;
            plan =
                Plan-append b (known_first b) l.admitted op v.plan
                  (rw v.known (moved l.board b (known_of l) op v.same_store (passed l op e)));
            known = after-append (known_first b) l.admitted op ∙ ap (λ k. next k op) v.known;
          })
    | inr (why, e) ↦
        rw (e, round)
          (record {
            same_store = nudged-store why l.board ∙ v.same_store;
            plan = v.plan;
            known = v.known;
          })
  ]

  rounds-Inv :
      (b : Board c show) (l : Loop c show settings) (ops : List NodePatch)
      → Inv b l
      → Inv b (rounds c show settings l ops)
  unfolding rounds
  rounds-Inv b l [] v = v
  rounds-Inv b l (op ∷ ops) v = rounds-Inv b (round c show settings l op) ops (round-Inv b l op v)

  start-Inv : (b : Board c show) → Inv b (start c show settings b)
  unfolding start
  start-Inv b = record { same_store = refl; plan = tt; known = refl }

  -- What `admit` admits is a plan whose operations pass the tests one after the other, each after
  -- those before it.
  pub admit-Plan :
      (patch : GraphPatch) (b : Board c show)
      → Plan b (known_first b) (admit c show settings patch b).0
  unfolding admit
  admit-Plan patch b =
      elim (Option-cases (focus_team_drift settings.focus_team (codes patch.reason))) [
        | inl e ↦
            rw (e, admit)
              (Plan-take b (known_first b) (wave_cap c show settings b) _
                (rounds-Inv b (start c show settings b) patch.ops (start-Inv b)).plan)
        | inr (found, e) ↦ rw (e, admit) tt
      ]
