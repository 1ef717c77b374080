-- ===== src/V2/Cycle/Acyclic.antt =====
-- A search that ends without a cycle has ordered the nodes: every arc goes from a node that was
-- finished later to one that was finished earlier.
use llm_agent_flow.Base.{
  All-map, ℕ, zero, suc, ◌<◌, String, ◌≡◌, ◌≢◌, refl, subst, Option, none, some, ◌⊎◌, inl, inr,
  List, [], ◌∷◌, arith, All, count, Bool-cases, update, eq_iff, eq_refl, ◌==◌,
}
use llm_agent_flow.V2.Arcs.{Arc, successors}
use llm_agent_flow.V2.Layers.Order.{IsNodup}
use llm_agent_flow.V2.Cycle.{
  Color, white, gray, black, Search, Outcome, done, cycle, out_of_fuel, visit_targets, enter, leave,
  and_then, close_cycle, walk_back, visit, visit_all,
}

pub Color-cases : (c : Color) → (c ≡ white) ⊎ (c ≡ gray) ⊎ (c ≡ black)
Color-cases white = inl refl
Color-cases gray = inr (inl refl)
Color-cases black = inr (inr refl)

-- The list of finished nodes, the last finished first: all targets of a node stand behind it.
abbrev pub IsOrdered : List Arc → List String → Type 0
IsOrdered arcs [] = Unit
IsOrdered arcs (u ∷ order) =
    All (λ a. a.source ≡ u → 0 < count a.target order) arcs × IsOrdered arcs order

All-successors {ℓ} :
    (P : String → Type ℓ) (arcs : List Arc) (u : String)
    → All P (successors arcs u)
    → All (λ a. a.source ≡ u → P a.target) arcs
unfolding successors
All-successors P [] u h = tt
All-successors P (a ∷ arcs) u h = elim (Bool-cases (a.source == u)) [
  | inl here ↦ let below = rw here at h in (λ _. below.0, All-successors P arcs u below.1)
  | inr other ↦ (λ e. cc ((eq_iff a.source u).1 e), All-successors P arcs u (rw other at h))
]

pub close_cycle-ne-done :
    (v : String) (back : Option (List String)) {t : Search} → close_cycle v back ≢ done t
close_cycle-ne-done v none h = cc
close_cycle-ne-done v (some back) h = cc

pub and_then-eq-done :
    (o : Outcome) (f : Search → Outcome) {t : Search}
    → and_then o f ≡ done t
    → (s : Search) × (o ≡ done s) × (f s ≡ done t)
and_then-eq-done (done s) f h = (s, refl, h)
and_then-eq-done (cycle c) f h = cc
and_then-eq-done out_of_fuel f h = cc

module _ (arcs : List Arc) where
  pub record Finished (s : Search) (order : List String) : Type 0 where
    pub blacks : (w : String) → s.color w ≡ black → 0 < count w order
    pub members : (w : String) → 0 < count w order → s.color w ≡ black
    pub once : IsNodup order
    pub ordered : IsOrdered arcs order

  -- What a part of the search does when it ends without a cycle.
  pub record Extends (s t : Search) (order : List String) : Type 0 where
    pub finished : Finished t order
    pub grays : (w : String) → s.color w ≡ gray → t.color w ≡ gray
    pub leaves : (w : String) → t.color w ≡ gray → s.color w ≡ gray
    pub grows : (w : String) → s.color w ≡ black → t.color w ≡ black

  Finished-enter :
      (u from : String) (s : Search) (order : List String)
      → s.color u ≡ white
      → Finished s order
      → Finished (enter u from s) order
  Finished-enter u from s order h f = record {
    blacks = λ w e. ground (arith, f.blacks w, eq_iff u w);
    members = λ w m. ground (arith, f.members w, eq_iff u w);
    once = f.once;
    ordered = f.ordered;
  }

  abbrev Finish : (String → String → Search → Outcome) → Type 0
  Finish rec =
      (v from : String) (s t : Search) (order : List String)
      → s.color v ≡ white
      → Finished s order
      → rec v from s ≡ done t
      → (order' : List String) × Extends s t order' × (t.color v ≡ black)

  Extends-refl : (s : Search) (order : List String) → Finished s order → Extends s s order
  Extends-refl s order f = record {
    finished = f;
    grays = λ w h. h;
    leaves = λ w h. h;
    grows = λ w h. h;
  }

  Extends-trans :
      (r s t : Search) (order order' : List String)
      → Extends r s order
      → Extends s t order'
      → Extends r t order'
  Extends-trans r s t order order' a b = record {
    finished = b.finished;
    grays = λ w h. b.grays w (a.grays w h);
    leaves = λ w h. a.leaves w (b.leaves w h);
    grows = λ w h. b.grows w (a.grows w h);
  }

  visit_targets-Extends :
      (bound : ℕ) (rec : String → String → Search → Outcome) (u : String)
      → Finish rec
      → (vs : List String) (s t : Search) (order : List String) → Finished s order
      → visit_targets bound rec u vs s ≡ done t
      → (order' : List String) × Extends s t order' × All (λ v. t.color v ≡ black) vs
  unfolding visit_targets
  visit_targets-Extends bound rec u finish [] s t order f h =
      (order, subst (λ x. Extends s x order) (ground arith) (Extends-refl s order f), tt)
  visit_targets-Extends bound rec u finish (v ∷ vs) s t order f h = elim (Color-cases (s.color v)) [
    | inl e ↦
        let (s', visited, rest) =
          and_then-eq-done (rec v u s) (visit_targets bound rec u vs)
            (rw (e, visit_targets) at h) in
        let (order', first, v_black) = finish v u s s' order e f visited in
        let (order'', later, all) =
          visit_targets-Extends bound rec u finish vs s' t order' first.finished rest in
        (order'', Extends-trans s s' t order' order'' first later, (later.grows v v_black, all))
    | inr (inl e) ↦
        absurd (close_cycle-ne-done v (walk_back bound s.parent v u) (rw (e, visit_targets) at h))
    | inr (inr e) ↦
        let (order', later, all) =
          visit_targets-Extends bound rec u finish vs s t order f (rw (e, visit_targets) at h) in
        (order', later, (later.grows v e, all))
  ]

  Finished-leave :
      (u : String) (s : Search) (order : List String)
      → s.color u ≡ gray
      → All (λ v. s.color v ≡ black) (successors arcs u)
      → Finished s order
      → Finished (record s { color = update s.color u black }) (u ∷ order)
  Finished-leave u s order g all f = record {
    blacks = λ w e. ground (arith, f.blacks w, eq_iff u w);
    members = λ w m. ground (arith, f.members w, eq_iff u w);
    once = λ w. ground (arith, f.once w, f.members w, eq_iff u w);
    ordered = (
      All-successors (λ v. 0 < count v order) arcs u (All-map f.blacks (successors arcs u) all),
      f.ordered,
    );
  }

  visit-Extends : (bound fuel : ℕ) → Finish (visit bound fuel arcs)
  unfolding visit
  visit-Extends bound zero v from s t order e f h = cc
  visit-Extends bound (suc fuel) v from s t order e f h =
      let entered = enter v from s in
      let (s', looped, left) =
        and_then-eq-done (visit_targets bound (visit bound fuel arcs) v (successors arcs v) entered)
          (leave v) h in
      let (order', ext, all) =
        visit_targets-Extends bound (visit bound fuel arcs) v (visit-Extends bound fuel)
          (successors arcs v) entered s' order (Finished-enter v from s order e f) looped in
      let is_gray = ext.grays v (rw eq_refl refl) in
      let r : (order'' : List String) × Extends s (record s' { color = update s'.color v black })
            order''
          × (update s'.color v black v ≡ black) =
        (
          v ∷ order',
          record {
            finished = Finished-leave v s' order' is_gray all ext.finished;
            grays = λ w g. ground (arith, ext.grays w, eq_iff v w);
            leaves = λ w g. ground (arith, ext.leaves w, eq_iff v w);
            grows = λ w b. ground (arith, ext.grows w, eq_iff v w);
          },
          rw eq_refl refl,
        ) in
      subst (λ x. (order'' : List String) × Extends s x order'' × (x.color v ≡ black))
        (ground arith) r

  pub visit_all-Extends :
      (bound : ℕ) (nodes : List String) (s t : Search) (order : List String)
      → Finished s order
      → ((w : String) → s.color w ≢ gray)
      → visit_all bound arcs nodes s ≡ done t
      → (order' : List String) × Extends s t order' × All (λ v. t.color v ≡ black) nodes
  unfolding visit_all
  visit_all-Extends bound [] s t order f no_gray h =
      (order, subst (λ x. Extends s x order) (ground arith) (Extends-refl s order f), tt)
  visit_all-Extends bound (n ∷ nodes) s t order f no_gray h = elim (Color-cases (s.color n)) [
    | inl e ↦
        let (s', visited, rest) =
          and_then-eq-done (visit bound bound arcs n "" s) (visit_all bound arcs nodes)
            (rw (e, visit_all) at h) in
        let (order', first, n_black) = visit-Extends bound bound n "" s s' order e f visited in
        let (order'', later, all) =
          visit_all-Extends bound nodes s' t order' first.finished
            (λ w g. no_gray w (first.leaves w g)) rest in
        (order'', Extends-trans s s' t order' order'' first later, (later.grows n n_black, all))
    | inr (inl e) ↦ absurd (no_gray n e)
    | inr (inr e) ↦
        let (order', later, all) =
          visit_all-Extends bound nodes s t order f no_gray (rw (e, visit_all) at h) in
        (order', later, (later.grows n e, all))
  ]
