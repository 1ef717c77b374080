-- ===== src/V2/Cycle/Sound.antt =====
-- The search ends, and a reported cycle is one.
use mathlib.Core.List.{reverse, reverse-append}
use mathlib.Core.Logic.{⊎_elim}
use llm_agent_flow.Base.{
  ℕ, zero, suc, ◌≤◌, ◌<◌, String, ◌≡◌, ◌≢◌, refl, sym, ap, ◌∙◌, subst, ◌⊎◌, inl, inr, List, [], ◌∷◌,
  ◌++◌, map, arith, length, count, count-append, eq_iff, eq_refl,
}
use llm_agent_flow.V2.Arcs.{Arc, successors}
use llm_agent_flow.V2.Cycle.{
  white, gray, Search, Outcome, done, cycle, out_of_fuel, and_then, visit_targets, enter, leave,
  visit, visit_all, unvisited, universe, find_cycle,
}
use llm_agent_flow.V2.Cycle.Acyclic.{Color-cases}
use llm_agent_flow.V2.Cycle.Stack.{
  whites, whites-le, whites-lt, whites-le-length, top, IsArc, Linked, Walk, walk_back_total, IsPath,
  Back, Back-IsPath, Walk-top, OnStack, Keeps, Keeps-refl, Keeps-trans, OnStack-keep, OnStack-enter,
  length-stack-le,
}

-- A path along the arcs that ends where it starts.
abbrev pub IsCycle : List Arc → List String → Type 0
IsCycle arcs c = (v : String) × (inner : List String) × (c ≡ v ∷ inner ++ v ∷ []) × IsPath arcs c

closed-ne-nil : (v : String) (l : List String) → reverse ((v ∷ l) ++ v ∷ []) ≢ []
closed-ne-nil v l h = cc (reverse-append (v ∷ l) (v ∷ []))

-- The outcome of a part of the search from state `s`.
abbrev pub IsGood : List Arc → List String → Search → Outcome → Type 0
IsGood arcs within s (done t) = Keeps s t
IsGood arcs within s (cycle c) =
    (c ≢ []) × (IsCycle arcs c ⊎ (0 < count "" within)) × (v : String) × Walk arcs v v
IsGood arcs within s out_of_fuel = ⊥

closed-IsCycle :
    (arcs : List Arc) (v : String) (l : List String)
    → Back arcs v l v
    → IsCycle arcs (reverse ((v ∷ l) ++ v ∷ []))
closed-IsCycle arcs v l back =
    let e : v ∷ reverse l ++ v ∷ [] ≡ reverse ((v ∷ l) ++ v ∷ []) =
      sym (reverse-append (v ∷ l) (v ∷ []) ∙ ap (λ m. v ∷ m) (reverse-append (v ∷ []) l)) in
    subst (IsCycle arcs) e (v, reverse l, refl, Back-IsPath arcs v l [] v back tt)

module _ (arcs : List Arc) (within : List String) where
  and_then-IsGood :
      (s : Search) (o : Outcome) (f : Search → Outcome)
      → IsGood arcs within s o
      → ((t : Search) → Keeps s t → IsGood arcs within s (f t))
      → IsGood arcs within s (and_then o f)
  and_then-IsGood s (done t) f g k = k t g
  and_then-IsGood s (cycle c) f g k = g
  and_then-IsGood s out_of_fuel f g k = g

  IsGood-trans :
      (s t : Search) (o : Outcome) → Keeps s t → IsGood arcs within t o → IsGood arcs within s o
  IsGood-trans s t (done r) k g = Keeps-trans s t r k g
  IsGood-trans s t (cycle c) k g = g
  IsGood-trans s t out_of_fuel k g = g

  leave-IsGood :
      (u : String) (s : Search) (from : String)
      → s.color u ≡ white
      → (o : Outcome) → IsGood arcs within (enter u from s) o
      → IsGood arcs within s (and_then o (leave u))
  leave-IsGood u s from e (done t) k = record {
    grays = λ w g. ground (arith, k.grays w, eq_iff u w);
    leaves = λ w g. ground (arith, k.leaves w, eq_iff u w);
    colored = λ w c. ground (arith, k.colored w, eq_iff u w);
    parents = λ w g. ground (arith, k.parents w, eq_iff u w);
  }
  leave-IsGood u s from e (cycle c) k = k
  leave-IsGood u s from e out_of_fuel k = k

  -- What the recursive call is known to do with fuel `fuel`.
  abbrev Visits : ℕ → (String → String → Search → Outcome) → Type 0
  Visits fuel rec =
      (v : String) (s : Search) (stack : List String)
      → s.color v ≡ white
      → 0 < count v within
      → Linked arcs stack v
      → OnStack arcs within s stack
      → whites s.color within ≤ fuel
      → IsGood arcs within s (rec v (top stack) s)

  visit_targets-IsGood :
      (fuel : ℕ) (rec : String → String → Search → Outcome) (u : String) (stack : List String)
      → Visits fuel rec
      → (vs : List String) (s : Search)
      → ((v : String) → 0 < count v vs → IsArc arcs u v × (0 < count v within))
      → OnStack arcs within s (u ∷ stack)
      → whites s.color within ≤ fuel
      → IsGood arcs within s (visit_targets (length within) rec u vs s)
  unfolding visit_targets
  visit_targets-IsGood fuel rec u stack visits [] s es o h = Keeps-refl s
  visit_targets-IsGood fuel rec u stack visits (v ∷ vs) s es o h =
      let here : 0 < count v (v ∷ vs) = ground (arith, eq_iff v v) in
      let rest : (t : Search)
          → Keeps s t
          → IsGood arcs within t (visit_targets (length within) rec u vs t) =
        λ t k.
          visit_targets-IsGood fuel rec u stack visits vs t (λ w m. es w (omega arith))
            (OnStack-keep arcs within s t (u ∷ stack) o k)
            (omega (arith, whites-le s.color t.color k.colored within)) in
      elim (Color-cases (s.color v)) [
        | inl e ↦
            rw (e, visit_targets)
              (and_then-IsGood s (rec v u s) (visit_targets (length within) rec u vs)
                (visits v s (u ∷ stack) e (es v here).1 (es v here).0 o h)
                (λ t k. IsGood-trans s t (visit_targets (length within) rec u vs t) k (rest t k)))
        | inr (inl e) ↦
            let (l, ended, back) =
              walk_back_total arcs (length within) s.parent v u v stack o.chain (o.grays v e)
                (omega (arith, length-stack-le arcs within s (u ∷ stack) o)) (es v here).0 in
            rw (e, visit_targets, ended)
              (
                closed-ne-nil v l,
                ⊎_elim (λ b. inl (closed-IsCycle arcs v l b)) (λ n. inr (o.bounded "" n)) back,
                v,
                Walk-top arcs s.parent v u v stack o.chain (o.grays v e) (es v here).0,
              )
        | inr (inr e) ↦ rw (e, visit_targets) (rest s (Keeps-refl s))
      ]

  module _ (targets : (u v : String) → IsArc arcs u v → 0 < count v within) where
    visit-IsGood : (fuel : ℕ) → Visits fuel (visit (length within) fuel arcs)
    unfolding visit
    visit-IsGood zero u s stack e m l o h = absurd (
        omega (
          arith,
          whites-lt s.color (enter u "" s).color (λ w c. ground (arith, eq_iff u w)) within u e
              (rw eq_refl refl) m,
        ))
    visit-IsGood (suc fuel) u s stack e m l o h =
        let entered = enter u (top stack) s in
        let fewer =
          whites-lt s.color entered.color (λ w c. ground (arith, eq_iff u w)) within u e
            (rw eq_refl refl) m in
        let looped =
          visit_targets-IsGood fuel (visit (length within) fuel arcs) u stack (visit-IsGood fuel)
            (successors arcs u) entered (λ v c. (c, targets u v c))
            (OnStack-enter arcs within u s stack e m l o) (omega (arith, fewer)) in
        leave-IsGood u s (top stack) e _ looped

mem-targets :
    (arcs : List Arc) (u v : String) → IsArc arcs u v → 0 < count v (map (λ a. a.target) arcs)
unfolding successors
mem-targets [] u v h = absurd (omega arith)
mem-targets (a ∷ arcs) u v h = ground (arith, mem-targets arcs u v)

module _ (nodes : List String) (arcs : List Arc) where
  abbrev within : List String
  within = universe nodes arcs

  targets-within : (u v : String) → IsArc arcs u v → 0 < count v within
  targets-within u v h =
      omega (arith, mem-targets arcs u v h, count-append v nodes (map (λ a. a.target) arcs))

  OnStack-nil : (s : Search) → ((w : String) → s.color w ≢ gray) → OnStack arcs within s []
  OnStack-nil s no_gray = record {
    chain = tt;
    grays = λ w g. absurd (no_gray w g);
    stacked = λ w h. absurd (omega arith);
    once = λ w. omega arith;
    bounded = λ w h. absurd (omega arith);
  }

  visit_all-IsGood :
      (ns : List String) (s : Search)
      → ((v : String) → 0 < count v ns → 0 < count v within)
      → ((w : String) → s.color w ≢ gray)
      → IsGood arcs within s (visit_all (length within) arcs ns s)
  unfolding visit_all
  visit_all-IsGood [] s known no_gray = Keeps-refl s
  visit_all-IsGood (n ∷ ns) s known no_gray = elim (Color-cases (s.color n)) [
    | inl e ↦
        rw (e, visit_all)
          (and_then-IsGood arcs within s (visit (length within) (length within) arcs n "" s)
            (visit_all (length within) arcs ns)
            (visit-IsGood arcs within targets-within (length within) n s [] e
              (known n (ground (arith, eq_iff n n))) tt (OnStack-nil s no_gray)
              (whites-le-length s.color within))
            (λ t k. IsGood-trans arcs within s t (visit_all (length within) arcs ns t) k (
              visit_all-IsGood ns t (λ v m. known v (omega arith))
                (λ w g. no_gray w (k.leaves w g)))))
    | inr (inl e) ↦ absurd (no_gray n e)
    | inr (inr e) ↦ rw (e, visit_all) (visit_all-IsGood ns s (λ v m. known v (omega arith)) no_gray)
  ]

  pub find_cycle-IsGood : IsGood arcs within unvisited (find_cycle nodes arcs)
  unfolding find_cycle
  find_cycle-IsGood =
      visit_all-IsGood nodes unvisited
        (λ v m. omega (arith, count-append v nodes (map (λ a. a.target) arcs))) (λ w e. cc)
