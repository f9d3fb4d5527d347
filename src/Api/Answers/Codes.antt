-- ===== src/Api/Answers/Codes.antt =====
-- The status codes of an answer of backend/internal/api/router.go: for a failure, for a refusal, and else.
use mathlib.Core.Path.{subst}
use maelstromhub.Prelude.{
  ℕ, ◌≡◌, ◌↔◌, ◌⊎◌, refl, Option, none, some, List, [], ◌∷◌, String, inl, inr, arith,
}
use maelstromhub.Query.Rows.{rows_or}
use maelstromhub.Api.{Libraries, answer_rows}
use maelstromhub.Api.Bodies.{Body, Response, write_json, write_error}

abbrev pub IsSome {ℓ} : {A : Type ℓ} → Option A → Type ℓ
IsSome {A = A} o = (a : A) × (o ≡ some a)

-- The status is 500 for a failure, 400 for a refusal, and else 200.
abbrev pub IsStatus : Type 0 → Type 0 → ℕ → Type 0
IsStatus Failure Refusal status =
    ((status ≡ 500) ↔ Failure)
    × ((status ≡ 400) ↔ Refusal)
    × ((status ≡ 200) ⊎ (status ≡ 400) ⊎ (status ≡ 500))

-- the answer of a handler, before `cors`
abbrev pub IsAnswer {ℓ} : {F : Type ℓ} → Type 0 → Type 0 → Response F → Type 0
IsAnswer Failure Refusal answer =
    (answer.headers ≡ ("content-type", "application/json") ∷ [])
    × IsStatus Failure Refusal answer.status

pub not-IsSome {ℓ} : {A : Type ℓ} → ¬ IsSome {A = A} none
not-IsSome (a, e) = cc

module _ (Failure Refusal : Type 0) where
  pub IsStatus-200 : ¬ Failure → ¬ Refusal → IsStatus Failure Refusal 200
  IsStatus-200 f r = (
    (λ e. absurd (omega (arith, e)), λ h. absurd (f h)),
    (λ e. absurd (omega (arith, e)), λ h. absurd (r h)),
    inl refl,
  )

  pub IsStatus-400 : ¬ Failure → Refusal → IsStatus Failure Refusal 400
  IsStatus-400 f r =
      ((λ e. absurd (omega (arith, e)), λ h. absurd (f h)), (λ e. r, λ h. refl), inr (inl refl))

  pub IsStatus-500 : Failure → ¬ Refusal → IsStatus Failure Refusal 500
  IsStatus-500 f r =
      ((λ e. f, λ h. refl), (λ e. absurd (omega (arith, e)), λ h. absurd (r h)), inr (inr refl))

module _ {ℓ κ} {F : Type ℓ} {A : Type κ} (lib : Libraries F) (body : List A → Body F) where
  pub answer_rows-IsAnswer :
      (Failure : Type 0) (err : Option String) (rows : List A)
      → (IsSome err ↔ Failure)
      → IsAnswer Failure ⊥ (answer_rows lib body (rows_or err rows))
  unfolding answer_rows write_error write_json
  answer_rows-IsAnswer Failure none rows same =
      (refl, IsStatus-200 Failure ⊥ (λ f. not-IsSome (same.1 f)) (λ r. r))
  answer_rows-IsAnswer Failure (some e) rows same =
      (refl, IsStatus-500 Failure ⊥ (same.0 (e, refl)) (λ r. r))

module _ {ℓ} {F : Type ℓ} where
  -- an answer that is there
  pub answered-IsAnswer :
      (Failure Refusal : Type 0) (a answer : Response F)
      → IsAnswer Failure Refusal a
      → some a ≡ some answer
      → IsAnswer Failure Refusal answer
  answered-IsAnswer Failure Refusal a answer h same =
      let e : a ≡ answer = cc in subst (IsAnswer Failure Refusal) e h
