-- ===== src/Base/Lists.antt =====
-- Lists measured and indexed by native numbers, and occurrence counts of texts.
use Prim.Native.Nat.{ℕ, zero, suc, ◌+◌, ◌≤◌, ◌<◌}
use Prim.Native.String.{String}
use mathlib.Core.Path.{◌≡◌}
use mathlib.Core.Option.{Option, none, some}
use mathlib.Core.List.{List, [], ◌∷◌, ◌++◌}
use native.Mathlib.Omega.{arith}
use llm_agent_flow.Base.Tests.{◌==◌, if◌then◌else◌, eq_iff, eq_refl}

module _ {ℓ} {A : Type ℓ} where
  abbrev pub length : List A → ℕ
  length [] = 0
  length (x ∷ xs) = suc (length xs)

  abbrev pub get_elem? : List A → ℕ → Option A
  get_elem? [] i = none
  get_elem? (x ∷ xs) zero = some x
  get_elem? (x ∷ xs) (suc i) = get_elem? xs i

  abbrev pub flatten : List (List A) → List A
  flatten [] = []
  flatten (l ∷ ls) = l ++ flatten ls

  abbrev pub All {κ} : (A → Type κ) → List A → Type κ
  All P [] = Unit
  All P (x ∷ xs) = P x × All P xs

  pub length-append : (xs ys : List A) → length (xs ++ ys) ≡ length xs + length ys
  length-append [] ys = omega arith
  length-append (x ∷ xs) ys = omega (arith, length-append xs ys)

pub All-map {ℓ κ μ} :
    {A : Type ℓ} {P : A → Type κ} {Q : A → Type μ}
    → ((v : A) → P v → Q v)
    → (xs : List A) → All P xs
    → All Q xs
All-map f [] h = tt
All-map f (x ∷ xs) h = (f x h.0, All-map f xs h.1)

pub All-append {ℓ κ} :
    {A : Type ℓ} (P : A → Type κ) (xs ys : List A) → All P xs → All P ys → All P (xs ++ ys)
All-append P [] ys h k = k
All-append P (x ∷ xs) ys h k = (h.0, All-append P xs ys h.1 k)

-- How often a text occurs in a list.
abbrev pub count : String → List String → ℕ
count v [] = 0
count v (x ∷ xs) = (if x == v then 1 else 0) + count v xs

pub count-append : (v : String) (xs ys : List String) → count v (xs ++ ys) ≡ count v xs + count v ys
count-append v [] ys = omega arith
count-append v (x ∷ xs) ys = omega (arith, count-append v xs ys)

-- The list without its first occurrence of the text.
remove : String → List String → List String
remove v [] = []
remove v (x ∷ xs) = if x == v then xs else x ∷ remove v xs

length-remove :
    (v : String) (xs : List String) → 0 < count v xs → suc (length (remove v xs)) ≡ length xs
unfolding remove
length-remove v [] h = absurd (omega arith)
length-remove v (x ∷ xs) h = ground (arith, length-remove v xs)

count-remove :
    (v w : String) (xs : List String)
    → 0 < count v xs
    → count w (remove v xs) + (if v == w then 1 else 0) ≡ count w xs
unfolding remove
count-remove v w [] h = absurd (omega arith)
count-remove v w (x ∷ xs) h =
    ground (arith, count-remove v w xs, eq_iff x v, eq_iff x w, eq_iff v w)

-- A list that holds nothing more often than another is not longer.
pub length-le_of_count :
    (xs ys : List String) → ((v : String) → count v xs ≤ count v ys) → length xs ≤ length ys
length-le_of_count [] ys h = omega arith
length-le_of_count (x ∷ xs) ys h =
    let there : 0 < count x ys = ground (arith, h x, eq_refl x) in
    omega (
      arith,
      length-remove x ys there,
      length-le_of_count xs (remove x ys) (λ v. ground (arith, h v, count-remove x v ys there)),
    )

-- If it is as long too, the two hold the same.
pub count-eq_of_length :
    (xs ys : List String)
    → ((v : String) → count v xs ≤ count v ys)
    → length xs ≡ length ys
    → (v : String) → count v xs ≡ count v ys
count-eq_of_length xs ys h e v = ground (arith, h v, more)
  where
    more : count v xs < count v ys → ⊥
    more lt =
        omega (arith, length-le_of_count (v ∷ xs) ys (λ w. ground (arith, h w, eq_iff v w, lt)))
