-- ===== src/Base/Texts.antt =====
-- The order of texts, and `sort.Strings`: an insertion sort, of which the code uses the result.
use Prim.Native.Nat.{◌+◌, ◌<◌}
use Prim.Native.Char.{code}
use Prim.Native.String.{String}
use mathlib.Core.Path.{◌≡◌, refl, ap₂, subst}
use mathlib.Core.Logic.{inl, inr}
use mathlib.Core.Bool.{Bool, true, false}
use mathlib.Core.List.{List, [], ◌∷◌}
use native.Mathlib.Omega.{arith}
use text.Mathlib.TextEquality.{Char-path}
use llm_agent_flow.Base.Tests.{ltb, ◌==◌, if◌then◌else◌, eq_iff, eq_refl, Bool-cases}
use llm_agent_flow.Base.Lists.{All, count}

-- Code points in order; this is the order of the UTF-8 bytes too.
unfoldable pub text_le : String → String → Bool
text_le String.[] t = true
text_le (String.◌∷◌ c s) String.[] = false
text_le (String.◌∷◌ c s) (String.◌∷◌ d t) =
    let rest = text_le s t in
    if ltb (code c) (code d) then true else if ltb (code d) (code c) then false else rest

pub text_le_total : (s t : String) → text_le s t ≡ false → text_le t s ≡ true
unfolding text_le
text_le_total String.[] t h = cc
text_le_total (String.◌∷◌ c s) String.[] h = refl
text_le_total (String.◌∷◌ c s) (String.◌∷◌ d t) h = ground (arith, text_le_total s t)

pub text_le_trans : (r s t : String) → text_le r s ≡ true → text_le s t ≡ true → text_le r t ≡ true
unfolding text_le
text_le_trans String.[] s t h k = refl
text_le_trans (String.◌∷◌ b r) String.[] t h k = cc
text_le_trans (String.◌∷◌ b r) (String.◌∷◌ c s) String.[] h k = cc
text_le_trans (String.◌∷◌ b r) (String.◌∷◌ c s) (String.◌∷◌ d t) h k =
    ground (arith, text_le_trans r s t)

text_le_antisymm : (s t : String) → text_le s t ≡ true → text_le t s ≡ true → s ≡ t
unfolding text_le
text_le_antisymm String.[] String.[] h k = refl
text_le_antisymm String.[] (String.◌∷◌ d t) h k = cc
text_le_antisymm (String.◌∷◌ c s) String.[] h k = cc
text_le_antisymm (String.◌∷◌ c s) (String.◌∷◌ d t) h k =
    ap₂ String.◌∷◌ (Char-path c d (ground arith))
      (text_le_antisymm s t (ground arith) (ground arith))

insert : String → List String → List String
insert v [] = v ∷ []
insert v (x ∷ xs) = let rest = insert v xs in if text_le v x then v ∷ x ∷ xs else x ∷ rest

unfoldable pub sort : List String → List String
unfolding insert text_le
sort [] = []
sort (x ∷ xs) = insert x (sort xs)

count-insert :
    (v w : String) (xs : List String)
    → count w (insert v xs) ≡ (if v == w then 1 else 0) + count w xs
unfolding insert
count-insert v w [] = refl
count-insert v w (x ∷ xs) = ground (arith, count-insert v w xs)

pub count-sort : (w : String) (xs : List String) → count w (sort xs) ≡ count w xs
unfolding sort
count-sort w [] = refl
count-sort w (x ∷ xs) = omega (arith, count-insert x w (sort xs), count-sort w xs)

-- Each element is at most those behind it.
abbrev pub IsSorted : List String → Type 0
IsSorted [] = Unit
IsSorted (x ∷ xs) = All (λ y. text_le x y ≡ true) xs × IsSorted xs

All-le_trans :
    (v x : String) (xs : List String)
    → text_le v x ≡ true
    → All (λ y. text_le x y ≡ true) xs
    → All (λ y. text_le v y ≡ true) xs
All-le_trans v x [] h all = tt
All-le_trans v x (y ∷ ys) h all = (text_le_trans v x y h all.0, All-le_trans v x ys h all.1)

All-insert :
    (x v : String) (xs : List String)
    → text_le x v ≡ true
    → All (λ y. text_le x y ≡ true) xs
    → All (λ y. text_le x y ≡ true) (insert v xs)
unfolding insert
All-insert x v [] h all = (h, tt)
All-insert x v (y ∷ ys) h all = elim (Bool-cases (text_le v y)) [
  | inl e ↦ rw e (h, (all.0, all.1))
  | inr e ↦ rw e (all.0, All-insert x v ys h all.1)
]

insert-IsSorted : (v : String) (xs : List String) → IsSorted xs → IsSorted (insert v xs)
unfolding insert
insert-IsSorted v [] s = (tt, tt)
insert-IsSorted v (x ∷ xs) s = elim (Bool-cases (text_le v x)) [
  | inl e ↦ rw e ((e, All-le_trans v x xs e s.0), s)
  | inr e ↦ rw e (All-insert x v xs (text_le_total v x e) s.0, insert-IsSorted v xs s.1)
]

pub sort-IsSorted : (xs : List String) → IsSorted (sort xs)
unfolding sort
sort-IsSorted [] = tt
sort-IsSorted (x ∷ xs) = insert-IsSorted x (sort xs) (sort-IsSorted xs)

le_of_count :
    (x y : String) (xs : List String)
    → All (λ z. text_le x z ≡ true) xs
    → 0 < count y xs
    → text_le x y ≡ true
le_of_count x y [] all h = absurd (omega arith)
le_of_count x y (z ∷ xs) all h = elim (Bool-cases (z == y)) [
  | inl e ↦ subst (λ w. text_le x w ≡ true) ((eq_iff z y).0 e) all.0
  | inr e ↦ le_of_count x y xs all.1 (ground arith)
]

head-le :
    (x y : String) (xs : List String)
    → IsSorted (x ∷ xs)
    → 0 < count y (x ∷ xs)
    → text_le x y ≡ true
head-le x y xs s h = elim (Bool-cases (x == y)) [
  | inl e ↦ subst (λ w. text_le x w ≡ true) ((eq_iff x y).0 e) (text_le_refl x)
  | inr e ↦ le_of_count x y xs s.0 (ground arith)
]
  where
    text_le_refl : (t : String) → text_le t t ≡ true
    text_le_refl t = elim (Bool-cases (text_le t t)) [ inl e ↦ e | inr e ↦ text_le_total t t e ]

-- A sorted list is determined by what it holds.
pub IsSorted-unique :
    (xs ys : List String)
    → IsSorted xs
    → IsSorted ys
    → ((v : String) → count v xs ≡ count v ys)
    → xs ≡ ys
IsSorted-unique [] [] s t h = refl
IsSorted-unique [] (y ∷ ys) s t h = absurd (ground (arith, h y, eq_refl y))
IsSorted-unique (x ∷ xs) [] s t h = absurd (ground (arith, h x, eq_refl x))
IsSorted-unique (x ∷ xs) (y ∷ ys) s t h =
    let e : x ≡ y =
      text_le_antisymm x y (head-le x y xs s (ground (arith, h y, eq_refl y)))
        (head-le y x ys t (ground (arith, h x, eq_refl x))) in
    ap₂ ◌∷◌ e (IsSorted-unique xs ys s.1 t.1 (λ v. ground (arith, h v, e)))

pub sort_unique :
    (xs ys : List String) → ((v : String) → count v xs ≡ count v ys) → sort xs ≡ sort ys
sort_unique xs ys h =
    IsSorted-unique (sort xs) (sort ys) (sort-IsSorted xs) (sort-IsSorted ys)
      (λ v. omega (arith, count-sort v xs, count-sort v ys, h v))
