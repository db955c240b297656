-- ===== src/Detector/Infer.antt =====
-- `validateModelLabels` and `infer` of services/synit-llm-guard/main.go: what the labels of a model
-- stand for, and the scores that its outputs give.
--
-- A score is a float64, as in the module of the sidecar: a bit pattern that orders as the numbers do,
-- none for what is negative or no number. Putting a label into capitals without its white space, and
-- the subtraction from 1, are parameters. A panic and an error of the model are both none.
use synit_waf.Prelude.{
  ℕ, suc, Bool, true, false, not, ◌&&◌, String, Option, none, some, List, [], ◌∷◌, length, any, All,
  str_eq, eq_iff, ◌==◌, if◌then◌else◌, ◌≡◌, refl, ap, ◌∙◌, ◌⊎◌, inl, inr, arith,
}

abbrev pub Score : Type 0
Score = Option ℕ

-- What a model says of one text: its labels with their scores.
abbrev pub Outputs : Type 0
Outputs = List (String × Score)

module _ (normal : String → String) (injection_labels safe_labels : List String)
    (complement : Score → Score) where
  unfoldable pub has_label : List String → String → Bool
  has_label labels raw = any (λ l. str_eq l (normal raw)) labels

  abbrev pub same_bool : Bool → Bool → Bool
  same_bool true b = b
  same_bool false b = not b

  -- The walk over the model's labels with the two counts; false: an error.
  unfoldable pub count_labels : ℕ → ℕ → List String → Bool
  unfolding has_label
  count_labels injections safes [] = injections == 1 && safes == 1
  count_labels injections safes (raw ∷ labels) =
      let one = count_labels (suc injections) safes labels in
      let other = count_labels injections (suc safes) labels in
      if same_bool (has_label injection_labels raw) (has_label safe_labels raw)
      then false
      else if has_label injection_labels raw
      then one
      else other

  unfoldable pub validate_model_labels : List String → Bool
  unfolding count_labels
  validate_model_labels labels = if length labels == 2 then count_labels 0 0 labels else false

  unfoldable pub score_of : Outputs → Option Score
  unfolding has_label
  score_of [] = none
  score_of ((label, score) ∷ []) =
      if has_label injection_labels label
      then some score
      else if has_label safe_labels label
      then some (complement score)
      else none
  score_of (a ∷ b ∷ outputs) = none

  unfoldable pub scores_of : List Outputs → Option (List Score)
  unfolding score_of
  scores_of [] = some []
  scores_of (outputs ∷ more) =
      let rest = scores_of more in
      elim (score_of outputs) [
        | none ↦ none
        | some x ↦ elim rest [ none ↦ none | some xs ↦ some (x ∷ xs) ]
      ]

  unfoldable pub infer : Option (List Outputs) → ℕ → Option (List Score)
  unfolding scores_of
  infer none texts = none
  infer (some outputs) texts = if length outputs == texts then scores_of outputs else none

  -- The model's output is one label of its own, with a score.
  abbrev pub IsOwn : List String → Outputs → Type 0
  IsOwn labels outputs =
      (label : String) × (score : Score) × (outputs ≡ (label, score) ∷ [])
      × (any (λ l. str_eq l label) labels ≡ true)

  -- The score of an output is what the model gives for the injection label, or what the safe label
  -- leaves to 1.
  abbrev pub IsScored : Outputs → Score → Type 0
  IsScored outputs x =
      (label : String) × (score : Score) × (outputs ≡ (label, score) ∷ [])
      × (((has_label injection_labels label ≡ true)
            × (has_label safe_labels label ≡ false)
            × (x ≡ score))
          ⊎ ((has_label injection_labels label ≡ false)
              × (has_label safe_labels label ≡ true)
              × (x ≡ complement score)))

  abbrev pub AllScored : List Outputs → List Score → Type 0
  AllScored [] [] = Unit {0}
  AllScored [] (x ∷ xs) = ⊥
  AllScored (o ∷ os) [] = ⊥
  AllScored (o ∷ os) (x ∷ xs) = IsScored o x × AllScored os xs

  -- Labels that were counted stand in exactly one of the sets.
  count_labels-one :
      (a b : ℕ) (labels : List String) (label : String)
      → count_labels a b labels ≡ true
      → any (λ l. str_eq l label) labels ≡ true
      → ((has_label injection_labels label ≡ true) × (has_label safe_labels label ≡ false))
        ⊎ ((has_label injection_labels label ≡ false) × (has_label safe_labels label ≡ true))
  unfolding count_labels
  count_labels-one a b [] label e h = absurd (cc)
  count_labels-one a b (raw ∷ labels) label e h = ground (
    arith,
    eq_iff raw label,
    count_labels-one (suc a) b labels label,
    count_labels-one a (suc b) labels label,
  )

  score_of-IsScored :
      (labels : List String) (o : Outputs) (a b : ℕ)
      → count_labels a b labels ≡ true
      → IsOwn labels o
      → (x : Score) × (score_of o ≡ some x) × IsScored o x
  unfolding score_of
  score_of-IsScored labels o a b e (label, score, single, own) =
      let one : score_of o ≡ score_of ((label, score) ∷ []) = ap score_of single in
      elim (count_labels-one a b labels label e own) [
        | inl (on, off) ↦ (score, one ∙ ground arith, (label, score, single, inl (on, off, refl)))
        | inr (off, on) ↦
            (complement score, one ∙ ground arith, (label, score, single, inr (off, on, refl)))
      ]

  scores_of-AllScored :
      (labels : List String) (outputs : List Outputs)
      → count_labels 0 0 labels ≡ true
      → All (IsOwn labels) outputs
      → (xs : List Score) × (scores_of outputs ≡ some xs) × AllScored outputs xs
  unfolding scores_of
  scores_of-AllScored labels [] e h = ([], refl, tt)
  scores_of-AllScored labels (o ∷ os) e h =
      let (x, one, scored) = score_of-IsScored labels o 0 0 e h.0 in
      let (xs, rest, all) = scores_of-AllScored labels os e h.1 in
      (x ∷ xs, ground arith, (scored, all))

  -- Once the labels of a model are validated, outputs that carry one of its labels each, and are as
  -- many as the texts, all get a score, which counts towards an injection as the label says.
  pub infer_validated :
      (labels : List String) (outputs : List Outputs)
      → validate_model_labels labels ≡ true
      → All (IsOwn labels) outputs
      → (xs : List Score) × (infer (some outputs) (length outputs) ≡ some xs) × AllScored outputs xs
  unfolding validate_model_labels infer
  infer_validated labels outputs e h =
      let (xs, scores, all) = scores_of-AllScored labels outputs (ground arith) h in
      (xs, ground arith, all)
