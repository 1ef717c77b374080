-- ===== src/Graph/Streams/Lookups.antt =====
-- A concatenator that `lookupConcat` finds is registered; what is asked of the registered ones holds of it.
use llm_agent_flow.Base.{
  ℕ, ◌<◌, true, ◌≡◌, Option, none, some, List, [], ◌∷◌, All, Bool-cases, inl, inr, ◌==◌,
}
use llm_agent_flow.Graph.Types.{GoType, Reflect, Verdict, fits, deferred, unfit, panics, assignable}
use llm_agent_flow.Graph.Streams.{
  Streams, Concatenator, Concatenators, exact_concat, matching, only_one, Lookup, found, missing,
  lookup_panicked, lookup_concat,
}

abbrev pub AllClosed : Streams → Type 0
AllClosed s = (i : ℕ) → i < s.opened → s.closed i ≡ true

-- A concatenator closes its stream, opens none, and leaves the closed ones closed.
pub record Closes (f : Concatenator) : Type 0 where
  pub opened : (i : ℕ) (s : Streams) → (f i s).1.opened ≡ s.opened
  pub own : (i : ℕ) (s : Streams) → (f i s).1.closed i ≡ true
  pub others : (i j : ℕ) (s : Streams) → s.closed j ≡ true → (f i s).1.closed j ≡ true

abbrev pub FoundCloses : Lookup → Type 0
FoundCloses (found f) = Closes f
FoundCloses missing = Unit
FoundCloses lookup_panicked = Unit

abbrev AllFound : Option (List Concatenator) → Type 0
AllFound none = Unit
AllFound (some fs) = All Closes fs

abbrev ExactCloses : Option Concatenator → Type 0
ExactCloses none = Unit
ExactCloses (some f) = Closes f

exact_concat-Closes :
    (t : GoType) (r : Concatenators) → All (λ p. Closes p.1) r → ExactCloses (exact_concat t r)
unfolding exact_concat
exact_concat-Closes t [] all = tt
exact_concat-Closes t ((k, g) ∷ r) all = elim (Bool-cases (k == t)) [
  | inl e ↦ rw (ExactCloses, e) all.0
  | inr e ↦ rw (ExactCloses, e) (exact_concat-Closes t r all.1)
]

module _ (reflect : Reflect) where
  matching-AllFound :
      (t : Option GoType) (r : Concatenators)
      → All (λ p. Closes p.1) r
      → AllFound (matching reflect t r)
  unfolding matching
  matching-AllFound t [] all = tt
  matching-AllFound t ((k, f) ∷ r) all =
      kept (assignable reflect (some k) t) (matching reflect t r) (matching-AllFound t r all.1)
    where
      kept :
          (verdict : Verdict) (rest : Option (List Concatenator))
          → AllFound rest
          → AllFound (elim verdict [
            | fits ↦ elim rest [ none ↦ none | some fs ↦ some (f ∷ fs) ]
            | panics ↦ none
            | deferred ↦ rest
            | unfit ↦ rest
          ])
      kept fits none ok_rest = tt
      kept fits (some fs) ok_rest = (all.0, ok_rest)
      kept panics rest ok_rest = tt
      kept deferred rest ok_rest = ok_rest
      kept unfit rest ok_rest = ok_rest

  only_one-FoundCloses :
      (o : Option (List Concatenator)) → AllFound o → FoundCloses (only_one reflect o)
  only_one-FoundCloses none all = tt
  only_one-FoundCloses (some []) all = tt
  only_one-FoundCloses (some (f ∷ [])) all = all.0
  only_one-FoundCloses (some (f ∷ g ∷ fs)) all = tt

  pub lookup_concat-FoundCloses :
      (r : Concatenators) (t : Option GoType)
      → All (λ p. Closes p.1) r
      → FoundCloses (lookup_concat reflect r t)
  unfolding lookup_concat
  lookup_concat-FoundCloses r none all =
      only_one-FoundCloses (matching reflect none r) (matching-AllFound none r all)
  lookup_concat-FoundCloses r (some t) all = either (exact_concat t r) (exact_concat-Closes t r all)
    where
      either :
          (o : Option Concatenator)
          → ExactCloses o
          → FoundCloses
              (elim o [ some f ↦ found f | none ↦ only_one reflect (matching reflect (some t) r) ])
      either (some f) closes = closes
      either none closes =
          only_one-FoundCloses (matching reflect (some t) r) (matching-AllFound (some t) r all)
