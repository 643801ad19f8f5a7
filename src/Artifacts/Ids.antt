-- ===== src/Artifacts/Ids.antt =====
-- engine/wolves/graph/artifacts.py: the kinds of artifacts and the ids that are made from them.
use wolves_ai.Base.{
  ℕ, zero, suc, ◌+◌, ◌*◌, ◌≡◌, ◌≢◌, ◌↔◌, refl, ap, ◌∙◌, sym, Bool, true, Key, eqb, eqb_iff, arith,
  String,
}
use wolves_ai.Base.Text.{codes}
use wolves_ai.Base.Decimal.{append, pad_three, scan, scan-pad_three}
use mathlib.Core.List.{List, ◌∷◌}

pub data ArtifactKind : Type 0 where
  evidence quant draft_forecast critique retrieval mixture forecast report : ArtifactKind

abbrev pub kind_name : ArtifactKind → String
kind_name evidence = "evidence"
kind_name quant = "quant"
kind_name draft_forecast = "draft_forecast"
kind_name critique = "critique"
kind_name retrieval = "retrieval"
kind_name mixture = "mixture"
kind_name forecast = "forecast"
kind_name report = "report"

abbrev pub kind_index : ArtifactKind → ℕ
kind_index evidence = 0
kind_index quant = 1
kind_index draft_forecast = 2
kind_index critique = 3
kind_index retrieval = 4
kind_index mixture = 5
kind_index forecast = 6
kind_index report = 7

abbrev pub kind_beq : ArtifactKind → ArtifactKind → Bool
kind_beq a b = eqb (kind_index a) (kind_index b)

abbrev pub kind_at : ℕ → ArtifactKind
kind_at zero = evidence
kind_at (suc zero) = quant
kind_at (suc (suc zero)) = draft_forecast
kind_at (suc (suc (suc zero))) = critique
kind_at (suc (suc (suc (suc zero)))) = retrieval
kind_at (suc (suc (suc (suc (suc zero))))) = mixture
kind_at (suc (suc (suc (suc (suc (suc zero)))))) = forecast
kind_at _ = report

kind_at-kind_index : (k : ArtifactKind) → kind_at (kind_index k) ≡ k
kind_at-kind_index evidence = refl
kind_at-kind_index quant = refl
kind_at-kind_index draft_forecast = refl
kind_at-kind_index critique = refl
kind_at-kind_index retrieval = refl
kind_at-kind_index mixture = refl
kind_at-kind_index forecast = refl
kind_at-kind_index report = refl

kind_index-injective : (a b : ArtifactKind) → kind_index a ≡ kind_index b → a ≡ b
kind_index-injective a b e = sym (kind_at-kind_index a) ∙ ap kind_at e ∙ kind_at-kind_index b

pub kind_beq_iff : (a b : ArtifactKind) → (kind_beq a b ≡ true) ↔ (a ≡ b)
kind_beq_iff a b =
    (λ h. kind_index-injective a b ((eqb_iff _ _).0 h), λ h. (eqb_iff _ _).1 (ap kind_index h))

instance abbrev pub kind_eq : Key ArtifactKind
kind_eq = record { same = kind_beq; same_iff = kind_beq_iff }

-- `f"{kind}-{seq:03d}"`
unfoldable pub artifact_id : ArtifactKind → ℕ → String
artifact_id kind seq = append (kind_name kind) (append "-" (pad_three seq))

scan-artifact_id : (k : ArtifactKind) (n : ℕ) → scan 0 (artifact_id k n) ≡ n
unfolding artifact_id
scan-artifact_id evidence n = scan-pad_three n
scan-artifact_id quant n = scan-pad_three n
scan-artifact_id draft_forecast n = scan-pad_three n
scan-artifact_id critique n = scan-pad_three n
scan-artifact_id retrieval n = scan-pad_three n
scan-artifact_id mixture n = scan-pad_three n
scan-artifact_id forecast n = scan-pad_three n
scan-artifact_id report n = scan-pad_three n

-- The first and the third character tell the kinds apart.
abbrev tell : List ℕ → ℕ
tell (a ∷ b ∷ c ∷ rest) = a * 1000 + c
tell _ = 0

kind_told : ArtifactKind → ℕ
kind_told evidence = 101105
kind_told quant = 113097
kind_told draft_forecast = 100097
kind_told critique = 99105
kind_told retrieval = 114116
kind_told mixture = 109120
kind_told forecast = 102114
kind_told report = 114112

kind_told-id : (k : ArtifactKind) (n : ℕ) → tell (codes (artifact_id k n)) ≡ kind_told k
unfolding artifact_id kind_told
kind_told-id evidence n = refl
kind_told-id quant n = refl
kind_told-id draft_forecast n = refl
kind_told-id critique n = refl
kind_told-id retrieval n = refl
kind_told-id mixture n = refl
kind_told-id forecast n = refl
kind_told-id report n = refl

kind_told-injective : (a b : ArtifactKind) → kind_told a ≡ kind_told b → a ≡ b
unfolding kind_told
kind_told-injective a b h = ground arith

kind_told-ne-index : (k : ArtifactKind) → kind_told k ≢ tell (codes "index")
unfolding kind_told
kind_told-ne-index evidence h = absurd (omega arith)
kind_told-ne-index quant h = absurd (omega arith)
kind_told-ne-index draft_forecast h = absurd (omega arith)
kind_told-ne-index critique h = absurd (omega arith)
kind_told-ne-index retrieval h = absurd (omega arith)
kind_told-ne-index mixture h = absurd (omega arith)
kind_told-ne-index forecast h = absurd (omega arith)
kind_told-ne-index report h = absurd (omega arith)

-- Two artifacts have the same id only if their kind and their number agree, however large the
-- numbers; and no artifact has the id `index`, whose key is that of the index.
pub artifact_id-injective :
    (k l : ArtifactKind) (m n : ℕ)
    → (artifact_id k m ≡ artifact_id l n → (k ≡ l) × (m ≡ n)) × (artifact_id k m ≢ "index")
artifact_id-injective k l m n = (
  λ e. (
    kind_told-injective k l
        (sym (kind_told-id k m) ∙ ap (λ s. tell (codes s)) e ∙ kind_told-id l n),
    sym (scan-artifact_id k m) ∙ ap (scan 0) e ∙ scan-artifact_id l n,
  ),
  λ e. kind_told-ne-index k (sym (kind_told-id k m) ∙ ap (λ s. tell (codes s)) e),
)
