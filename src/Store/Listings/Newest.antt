-- ===== src/Store/Listings/Newest.antt =====
-- What the listings of flows and of runs hold.
use mathlib.Core.List.{Perm}
use mathlib.Core.List.Perm
use llm_agent_flow.Base.{
  ℕ, zero, suc, ◌≤◌, String, true, ◌≡◌, List, [], ◌∷◌, ◌++◌, All, length, ◌⊎◌,
}
use llm_agent_flow.Store.Listings.{comes_first}

module _ {A : Type 0} (time : A → ℕ) (id : A → String) where
  -- Each row may stand before all that follow it.
  abbrev pub InOrder : List A → Type 0
  InOrder [] = Unit
  InOrder (a ∷ rows) = All (λ b. comes_first time id a b ≡ true) rows × InOrder rows

  -- `listed` are the first rows in the order, as many as the limit allows, and `rest` the others.
  pub record IsListing (limit : ℕ) (rows listed rest : List A) : Type 0 where
    pub same : Perm (listed ++ rest) rows
    pub ordered : InOrder (listed ++ rest)
    pub bounded : length listed ≤ limit
    pub full : (rest ≡ []) ⊎ (length listed ≡ limit)

  abbrev pub drop : ℕ → List A → List A
  drop zero rows = rows
  drop (suc n) [] = []
  drop (suc n) (r ∷ rows) = drop n rows
