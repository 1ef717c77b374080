-- ===== src/Base/Results.antt =====
-- Results of functions that may return an error.
use mathlib.Core.Path.{◌≡◌, refl}
use mathlib.Core.Bool.{Bool, true, false}
use mathlib.Core.List.{List, [], ◌∷◌}
use mathlib.Core.Option.{Option, none, some}
use mathlib.Core.Logic.{◌≢◌, ◌⊎◌, inl, inr}
use llm_agent_flow.Base.Tests.{if◌then◌else◌}

pub data Result {ℓ} (E : Type 0) (A : Type ℓ) : Type ℓ where
  ok : A → Result E A
  err : E → Result E A

infixl 5 ◌>>=◌
abbrev pub ◌>>=◌ {ℓ κ} :
    {E : Type 0} {A : Type ℓ} {B : Type κ} → Result E A → (A → Result E B) → Result E B
ok a >>= f = f a
err e >>= f = err e

-- An error that is passed on with what was being done.
abbrev pub wrap {ℓ} : {E F : Type 0} {A : Type ℓ} → (E → F) → Result E A → Result F A
wrap f (ok a) = ok a
wrap f (err e) = err (f e)

pub ok-injective {ℓ} :
    {E : Type 0} {A : Type ℓ} {a b : A} → ◌≡◌ {A = Result E A} (ok a) (ok b) → a ≡ b
ok-injective h = cc

pub Result-cases {ℓ} :
    {E : Type 0} {A : Type ℓ} (m : Result E A) → ((a : A) × (m ≡ ok a)) ⊎ ((e : E) × (m ≡ err e))
Result-cases (ok a) = inl (a, refl)
Result-cases (err e) = inr (e, refl)

-- What is known of a chain by what is known of its parts.
module _ {ℓ κ} {E : Type 0} {A : Type ℓ} {B : Type κ} where
  pub >>=-eq-ok :
      (first : Result E A) (next : A → Result E B) {b : B}
      → (first >>= next) ≡ ok b
      → (a : A) × (first ≡ ok a) × (next a ≡ ok b)
  >>=-eq-ok (ok value) next found = (value, refl, found)
  >>=-eq-ok (err failure) next found = cc

  -- An error that no part returns is not returned by the chain.
  pub >>=-ne-err :
      (first : Result E A) (next : A → Result E B) {x : E}
      → first ≢ err x
      → ((a : A) → first ≡ ok a → next a ≢ err x)
      → (first >>= next) ≢ err x
  >>=-ne-err (ok value) next n k h = k value refl h
  >>=-ne-err (err failure) next n k h = n cc

  -- What every part passes on holds of what the chain returns.
  pub >>=-on-ok {μ} :
      {P : B → Type μ} (first : Result E A) (next : A → Result E B)
      → ((a : A) → first ≡ ok a → (b : B) → next a ≡ ok b → P b)
      → (b : B) → (first >>= next) ≡ ok b
      → P b
  >>=-on-ok (ok value) next k b h = k value refl b h
  >>=-on-ok (err failure) next k b h = cc

-- A property of a case split, from its cases, each with the equation that leads to it.
pub Result-match {ℓ κ μ} :
    {E : Type 0} {A : Type ℓ} {B : Type κ} (P : B → Type μ) (m : Result E A) {f : A → B} {g : E → B}
    → ((a : A) → m ≡ ok a → P (f a))
    → ((e : E) → m ≡ err e → P (g e))
    → P (elim m [ ok a ↦ f a | err e ↦ g e ])
Result-match P (ok a) h k = h a refl
Result-match P (err e) h k = k e refl

pub Option-match {ℓ κ μ} :
    {A : Type ℓ} {B : Type κ} (P : B → Type μ) (o : Option A) {n : B} {f : A → B}
    → (o ≡ none → P n)
    → ((a : A) → o ≡ some a → P (f a))
    → P (elim o [ none ↦ n | some a ↦ f a ])
Option-match P none h k = h refl
Option-match P (some a) h k = k a refl

pub List-match {ℓ κ μ} :
    {A : Type ℓ} {B : Type κ} (P : B → Type μ) (xs : List A) {n : B} {f : A → List A → B}
    → (xs ≡ [] → P n)
    → ((x : A) (rest : List A) → xs ≡ x ∷ rest → P (f x rest))
    → P (elim xs [ [] ↦ n | x ∷ rest ↦ f x rest ])
List-match P [] h k = h refl
List-match P (x ∷ rest) h k = k x rest refl

pub Bool-match {κ μ} :
    {B : Type κ} (P : B → Type μ) (b : Bool) {x y : B}
    → (b ≡ true → P x)
    → (b ≡ false → P y)
    → P (if b then x else y)
Bool-match P true h k = h refl
Bool-match P false h k = k refl
