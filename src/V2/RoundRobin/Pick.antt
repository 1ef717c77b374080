-- ===== src/V2/RoundRobin/Pick.antt =====
-- v2/flow/graph/combinators.go: sums over the sources, and the search for the next one.
use Prim.Native.Nat.{◌%◌}
use native.Mathlib.Nat.{mod-lt, mod-eq_of_lt, mod-eq-sub-mod}
use mathlib.Core.List.{append_assoc}
use llm_agent_flow.Base.{
  ℕ, zero, suc, ◌+◌, ◌-◌, ◌<◌, ◌≤◌, true, false, none, some, List, [], ◌∷◌, ◌++◌, nat_eq, ltb, ◌≡◌,
  refl, ◌∙◌, sym, ap, arith, Bool-cases, inl, inr, ◌⊎◌, subst,
}
use llm_agent_flow.V2.RoundRobin.{RoundRobinReader, set_at, pick}

some_injective : {A : Type 0} {a b : A} → some a ≡ some b → a ≡ b
some_injective h = cc

pub List-cases :
    {A : Type 0} (xs : List A) → (xs ≡ []) ⊎ ((x : A) × (rest : List A) × (xs ≡ x ∷ rest))
List-cases [] = inl refl
List-cases (x ∷ rest) = inr (x, rest, refl)

-- A sum over the sources.
unfoldable pub sum : ℕ → (ℕ → ℕ) → ℕ
sum zero f = 0
sum (suc n) f = f n + sum n f

pub sum_same : (n : ℕ) (f g : ℕ → ℕ) → ((j : ℕ) → j < n → g j ≡ f j) → sum n g ≡ sum n f
unfolding sum
sum_same zero f g o = refl
sum_same (suc n) f g o =
    omega (arith, o n (omega arith), sum_same n f g (λ j h. o j (omega (arith, h))))

pub sum_set :
    (n i : ℕ) (f g : ℕ → ℕ)
    → i < n
    → ((j : ℕ) → (nat_eq j i) ≡ false → g j ≡ f j)
    → sum n g + f i ≡ sum n f + g i
unfolding sum
sum_set zero i f g h o = absurd (omega (arith, h))
sum_set (suc n) i f g h o = elim (Bool-cases (nat_eq n i)) [
  | inl last ↦
      let here : n ≡ i = ground (arith, last) in
      let rest = sum_same n f g (λ j below. o j (ground (arith, below, here))) in
      rw (← here) (omega (arith, rest))
  | inr inner ↦
      let rest = sum_set n i f g (ground (arith, h, inner)) o in omega (arith, rest, o n inner)
]

wrapped_low : (k n : ℕ) → k < n → k % n ≡ k
wrapped_low k n h = mod-eq_of_lt h

wrapped_high : (k n : ℕ) → n ≤ k → k < n + n → k % n ≡ k - n
wrapped_high k n h b = mod-eq-sub-mod h ∙ mod-eq_of_lt (omega (arith, h, b))

-- Every source is met by some offset.
pub reached : (cur i n : ℕ) → cur < n → i < n → (off : ℕ) × (off < n) × ((cur + off) % n ≡ i)
reached cur i n h k = elim (Bool-cases (ltb i cur)) [
  | inr ahead ↦
      let back : cur + (i - cur) ≡ i = ground (arith, ahead) in
      (i - cur, ground (arith, h, k, ahead), ap (λ s. s % n) back ∙ wrapped_low i n k)
  | inl behind ↦
      let high : n ≤ cur + (i + n - cur) = ground (arith, h, behind) in
      let low : cur + (i + n - cur) < n + n = ground (arith, h, behind, k) in
      (
        i + n - cur,
        ground (arith, h, behind),
        wrapped_high (cur + (i + n - cur)) n high low ∙ ground (arith, h, behind),
      )
]

pub set_same : {A : Type 0} (s : ℕ → A) (i : ℕ) (v : A) → set_at s i v i ≡ v
set_same s i v = ground arith

pub set_other :
    {A : Type 0} (s : ℕ → A) (i : ℕ) (v : A) (j : ℕ) → nat_eq j i ≡ false → set_at s i v j ≡ s j
set_other s i v j h = rw (h) refl

pub grown :
    {T : Type 0} (j : ℕ) (left per_source : ℕ → List T) (i : ℕ) (v : T) (rest : List T)
    → left i ≡ v ∷ rest
    → set_at per_source i (per_source i ++ v ∷ []) j ++ set_at left i rest j
      ≡ per_source j ++ left j
grown j left per_source i v rest holds = elim (Bool-cases (nat_eq j i)) [
  | inl own ↦
      let same : i ≡ j = ground (arith, own) in
      rw (own) (
        append_assoc (per_source i) (v ∷ []) rest
        ∙ ap (λ l. per_source i ++ l) (sym holds)
        ∙ ap (λ k. per_source k ++ left k) same)
  | inr other ↦ rw (other) refl
]

module _ {E T : Type 0} where
  pub pick-some :
      (m : RoundRobinReader E T) (off left i : ℕ)
      → 0 < m.n
      → pick m off left ≡ some i
      → (i < m.n) × (m.exhausted i ≡ false)
  unfolding pick
  pick-some m off zero i h found = absurd cc
  pick-some m off (suc left) i h found = elim (Bool-cases (m.exhausted ((m.cur + off) % m.n))) [
    | inl over ↦ pick-some m (suc off) left i h (simp (pick, over) at found)
    | inr alive ↦
        let same : (m.cur + off) % m.n ≡ i = some_injective (simp (pick, alive) at found) in
        (
          subst (λ k. k < m.n) same (mod-lt (m.cur + off) h),
          subst (λ k. m.exhausted k ≡ false) same alive,
        )
  ]

  pub pick-none :
      (m : RoundRobinReader E T) (off left : ℕ)
      → pick m off left ≡ none
      → (j : ℕ) → off ≤ j
      → j < off + left
      → m.exhausted ((m.cur + j) % m.n) ≡ true
  unfolding pick
  pick-none m off zero none_open j a b = absurd (omega (arith, a, b))
  pick-none m off (suc left) none_open j a b =
      elim (Bool-cases (m.exhausted ((m.cur + off) % m.n))) [
        | inr alive ↦ absurd (cc (simp (pick, alive) at none_open))
        | inl over ↦ elim (Bool-cases (nat_eq j off)) [
          | inl first ↦
              let same : off ≡ j = ground (arith, first) in
              subst (λ k. m.exhausted ((m.cur + k) % m.n) ≡ true) same over
          | inr later ↦
              pick-none m (suc off) left (simp (pick, over) at none_open) j
                (ground (arith, a, later)) (omega (arith, b))
        ]
      ]
