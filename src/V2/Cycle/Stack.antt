-- ===== src/V2/Cycle/Stack.antt =====
-- The gray nodes are the stack of the visits under way, and `parent` leads down the stack.
use mathlib.Core.List.{reverse, reverse-append, append_assoc}
use mathlib.Core.Logic.{⊎_elim}
use llm_agent_flow.Base.{
  ℕ, zero, suc, ◌+◌, ◌≤◌, ◌<◌, String, ◌≡◌, refl, sym, ap, ◌⊎◌, ◌++◌, subst, ◌∙◌, Bool-cases, inl,
  inr, Bool, true, false, some, List, [], ◌∷◌, arith, length, count, length-le_of_count, update,
  eq_iff, eq_refl, ◌==◌, if◌then◌else◌,
}
use llm_agent_flow.V2.Arcs.{Arc, successors}
use llm_agent_flow.V2.Layers.Order.{IsNodup}
use llm_agent_flow.V2.Cycle.{Color, white, gray, black, Search, walk_back, enter}

abbrev pub is_white : Color → Bool
is_white white = true
is_white gray = false
is_white black = false

-- The nodes of a list that are still white.
pub whites : (String → Color) → List String → ℕ
whites color [] = 0
whites color (x ∷ xs) = (if is_white (color x) then 1 else 0) + whites color xs

pub whites-le-length : (color : String → Color) (xs : List String) → whites color xs ≤ length xs
unfolding whites
whites-le-length color [] = omega arith
whites-le-length color (x ∷ xs) = ground (arith, whites-le-length color xs)

module _ (before after : String → Color)
    (colored : (w : String) → is_white (before w) ≡ false → is_white (after w) ≡ false) where
  pub whites-le : (xs : List String) → whites after xs ≤ whites before xs
  unfolding whites
  whites-le [] = omega arith
  whites-le (x ∷ xs) = ground (arith, colored x, whites-le xs)

  pub whites-lt :
      (xs : List String) (u : String)
      → before u ≡ white
      → is_white (after u) ≡ false
      → 0 < count u xs
      → whites after xs < whites before xs
  unfolding whites
  whites-lt [] u e f h = absurd (omega arith)
  whites-lt (x ∷ xs) u e f h =
      ground (arith, colored x, whites-le xs, whites-lt xs u e f, eq_iff x u)

-- The node below the top of the stack, as `parent` has it.
abbrev pub top : List String → String
top [] = ""
top (y ∷ stack) = y

module _ (arcs : List Arc) where
  abbrev pub IsArc : String → String → Type 0
  IsArc x y = 0 < count y (successors arcs x)

  abbrev pub Linked : List String → String → Type 0
  Linked [] x = Unit
  Linked (y ∷ stack) x = IsArc y x

  abbrev pub Chain : (String → String) → List String → Type 0
  Chain parent [] = Unit
  Chain parent (x ∷ stack) = (parent x ≡ top stack) × Linked stack x × Chain parent stack

  pub Chain-same :
      (p q : String → String) (stack : List String)
      → ((w : String) → 0 < count w stack → q w ≡ p w)
      → Chain p stack
      → Chain q stack
  Chain-same p q [] same c = tt
  Chain-same p q (x ∷ stack) same c = (
    same x (ground (arith, eq_iff x x)) ∙ c.0,
    c.1,
    Chain-same p q stack (λ w h. same w (ground arith)) c.2,
  )

  -- A list of nodes, each joined to the next by an arc.
  abbrev pub IsPath : List String → Type 0
  IsPath [] = Unit
  IsPath (x ∷ []) = Unit
  IsPath (x ∷ y ∷ l) = IsArc x y × IsPath (y ∷ l)

  -- The nodes of `l`, read backwards, are on a path from `v` to `z`.
  abbrev pub Back : String → List String → String → Type 0
  Back z [] v = IsArc v z
  Back z (x ∷ l) v = IsArc x z × Back x l v

  pub Back-IsPath :
      (z : String) (l rest : List String) (v : String)
      → Back z l v
      → IsPath (z ∷ rest)
      → IsPath (v ∷ reverse l ++ z ∷ rest)
  Back-IsPath z [] rest v b p = (b, p)
  Back-IsPath z (x ∷ l) rest v b p =
      subst (λ l. IsPath (v ∷ l))
        (sym (
          ap (λ m. m ++ z ∷ rest) (reverse-append (x ∷ []) l)
          ∙ append_assoc (reverse l) (x ∷ []) (z ∷ rest)))
        (Back-IsPath x l (z ∷ rest) v b.1 (b.0, p))

  -- The way back along the parents ends within the height of the stack. It leads along the arcs,
  -- unless the empty id stands on the stack.
  pub walk_back_total :
      (fuel : ℕ) (parent : String → String) (v x z : String) (stack : List String)
      → Chain parent (x ∷ stack)
      → 0 < count v (x ∷ stack)
      → length stack ≤ fuel
      → IsArc x z
      → (l : List String) × (walk_back fuel parent v x ≡ some l)
        × (Back z l v ⊎ (0 < count "" (x ∷ stack)))
  unfolding walk_back
  walk_back_total zero parent v x z [] c m h a = (
    [],
    ground (arith, eq_iff x v),
    inl (subst (λ w. IsArc w z) ((eq_iff x v).0 (ground arith)) a),
  )
  walk_back_total zero parent v x z (y ∷ stack) c m h a = absurd (omega arith)
  walk_back_total (suc fuel) parent v x z [] c m h a = (
    [],
    ground (arith, eq_iff x v),
    inl (subst (λ w. IsArc w z) ((eq_iff x v).0 (ground arith)) a),
  )
  walk_back_total (suc fuel) parent v x z (y ∷ stack) c m h a = elim (Bool-cases (x == v)) [
    | inl here ↦ ([], rw here, inl (subst (λ w. IsArc w z) ((eq_iff x v).0 here) a))
    | inr other ↦
        let (l, e, back) =
          walk_back_total fuel parent v y x stack c.2 (ground (arith, eq_iff x v)) (omega arith)
            c.1 in
        elim (Bool-cases (x == "")) [
          | inl stop ↦ ([], rw (other, stop), inr (ground arith))
          | inr more ↦ (
            x ∷ l,
            rw (other, more, c.0, e),
            ⊎_elim (λ b. inl (a, b)) (λ n. inr (omega arith)) back,
          )
        ]
  ]

  -- A walk along at least one arc.
  pub data Walk (x : String) : String → Type 0 where
    one : {y : String} → IsArc x y → Walk x y
    step : {y z : String} → Walk x y → IsArc y z → Walk x z

  -- Every node of the stack leads to its top.
  pub Walk-top :
      (parent : String → String) (v x z : String) (stack : List String)
      → Chain parent (x ∷ stack)
      → 0 < count v (x ∷ stack)
      → IsArc x z
      → Walk v z
  Walk-top parent v x z [] c m a = one (subst (λ y. IsArc y z) ((eq_iff x v).0 (ground arith)) a)
  Walk-top parent v x z (y ∷ stack) c m a = elim (Bool-cases (x == v)) [
    | inl here ↦ one (subst (λ w. IsArc w z) ((eq_iff x v).0 here) a)
    | inr other ↦ step (Walk-top parent v y x stack c.2 (ground (arith, eq_iff x v)) c.1) a
  ]

-- The stack while the search stands in state `s`; all nodes lie in the list `within`.
pub record OnStack (arcs : List Arc) (within : List String) (s : Search) (stack : List String)
    : Type 0 where
  pub chain : Chain arcs s.parent stack
  pub grays : (w : String) → s.color w ≡ gray → 0 < count w stack
  pub stacked : (w : String) → 0 < count w stack → s.color w ≡ gray
  pub once : IsNodup stack
  pub bounded : (w : String) → 0 < count w stack → 0 < count w within

-- What a part of the search that ends without a cycle leaves alone.
pub record Keeps (s t : Search) : Type 0 where
  pub grays : (w : String) → s.color w ≡ gray → t.color w ≡ gray
  pub leaves : (w : String) → t.color w ≡ gray → s.color w ≡ gray
  pub colored : (w : String) → is_white (s.color w) ≡ false → is_white (t.color w) ≡ false
  pub parents : (w : String) → s.color w ≡ gray → t.parent w ≡ s.parent w

pub Keeps-refl : (s : Search) → Keeps s s
Keeps-refl s = record {
  grays = λ w h. h;
  leaves = λ w h. h;
  colored = λ w h. h;
  parents = λ w h. refl;
}

pub Keeps-trans : (r s t : Search) → Keeps r s → Keeps s t → Keeps r t
Keeps-trans r s t a b = record {
  grays = λ w h. b.grays w (a.grays w h);
  leaves = λ w h. a.leaves w (b.leaves w h);
  colored = λ w h. b.colored w (a.colored w h);
  parents = λ w h. b.parents w (a.grays w h) ∙ a.parents w h;
}

module _ (arcs : List Arc) (within : List String) where
  pub OnStack-keep :
      (s t : Search) (stack : List String)
      → OnStack arcs within s stack
      → Keeps s t
      → OnStack arcs within t stack
  OnStack-keep s t stack o k = record {
    chain = Chain-same arcs s.parent t.parent stack (λ w h. k.parents w (o.stacked w h)) o.chain;
    grays = λ w h. o.grays w (k.leaves w h);
    stacked = λ w h. k.grays w (o.stacked w h);
    once = o.once;
    bounded = o.bounded;
  }

  pub OnStack-enter :
      (u : String) (s : Search) (stack : List String)
      → s.color u ≡ white
      → 0 < count u within
      → Linked arcs stack u
      → OnStack arcs within s stack
      → OnStack arcs within (enter u (top stack) s) (u ∷ stack)
  OnStack-enter u s stack e m l o = record {
    chain = (
      rw eq_refl refl,
      l,
      Chain-same arcs s.parent (update s.parent u (top stack)) stack
          (λ w h. ground (arith, o.stacked w h, eq_iff u w)) o.chain,
    );
    grays = λ w h. ground (arith, o.grays w, eq_iff u w);
    stacked = λ w h. ground (arith, o.stacked w, eq_iff u w);
    once = λ w. ground (arith, o.once w, o.stacked w, eq_iff u w);
    bounded = λ w h. ground (arith, o.bounded w, eq_iff u w);
  }

  pub length-stack-le :
      (s : Search) (stack : List String)
      → OnStack arcs within s stack
      → length stack ≤ length within
  length-stack-le s stack o =
      length-le_of_count stack within (λ w. ground (arith, o.once w, o.bounded w))
