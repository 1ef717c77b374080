-- ===== src/V2/Layers/Counters.antt =====
-- What the counters `indeg` hold while the nodes are visited, one after another.
use mathlib.Core.List.{append-nil, append_assoc}
use llm_agent_flow.Base.{
  ℕ, ◌+◌, ◌-◌, String, ◌≡◌, List, [], ◌∷◌, ◌++◌, foldl, arith, count, count-append, nat_eq, leb,
  eq_iff, ◌==◌, if◌then◌else◌,
}
use llm_agent_flow.V2.Arcs.{Arc, successors}
use llm_agent_flow.V2.Layers.{indegree, Round, arrive, visit, visit_layer}

-- The arcs into `v` from visited nodes.
abbrev pub served : List Arc → List String → String → ℕ
served [] done v = 0
served (a ∷ arcs) done v = (if a.target == v then count a.source done else 0) + served arcs done v

pub served-append :
    (arcs : List Arc) (xs ys : List String) (v : String)
    → served arcs (xs ++ ys) v ≡ served arcs xs v + served arcs ys v
served-append [] xs ys v = omega arith
served-append (a ∷ arcs) xs ys v =
    ground (arith, served-append arcs xs ys v, count-append a.source xs ys)

pub served-nil : (arcs : List Arc) (v : String) → served arcs [] v ≡ 0
served-nil [] v = omega arith
served-nil (a ∷ arcs) v = ground (arith, served-nil arcs v)

-- To visit `u` serves the arcs out of `u`.
pub served-single :
    (arcs : List Arc) (u v : String) → served arcs (u ∷ []) v ≡ count v (successors arcs u)
unfolding successors
served-single [] u v = omega arith
served-single (a ∷ arcs) u v =
    ground (arith, served-single arcs u v, eq_iff a.source u, eq_iff u a.source)

-- A node has been pushed as soon as all its arcs are served; one without any is an entry.
abbrev pub due : (entry total : ℕ) → ℕ → ℕ
due entry total served = if nat_eq total 0 then entry else if leb total served then 1 else 0

-- The counter `d` of a node and how often it has been pushed, `before` this round and `c` times in
-- it, when `t` arcs lead to it and `k` of them were served.
abbrev Counted : (entry before t k d c : ℕ) → Type 0
Counted entry before t k d c = (d ≡ t - k) × (before + c ≡ due entry t k)

module _ (entry before t : ℕ) (v : String) where
  arrive-Counted :
      (k : ℕ) (r : Round) (w : String)
      → Counted entry before t k (r.indeg v) (count v r.next)
      → Counted entry before t
          (k + (if w == v then 1 else 0))
          ((arrive r w).indeg v)
          (count v (arrive r w).next)
  unfolding arrive
  arrive-Counted k r w h = ground (arith, eq_iff w v, count-append v r.next (w ∷ []))

  arrivals-Counted :
      (k : ℕ) (r : Round) (ws : List String)
      → Counted entry before t k (r.indeg v) (count v r.next)
      → Counted entry before t
          (k + count v ws)
          ((foldl arrive r ws).indeg v)
          (count v (foldl arrive r ws).next)
  arrivals-Counted k r [] h = ground arith
  arrivals-Counted k r (w ∷ ws) h =
      let rest =
        arrivals-Counted (k + (if w == v then 1 else 0)) (arrive r w) ws (arrive-Counted k r w h) in
      ground arith

module _ (arcs : List Arc) (entry : String → ℕ) (pushed : List String) where
  -- The state of a round in which the nodes `done` have been visited so far, and before which the
  -- nodes `pushed` were pushed.
  pub record Holds (done : List String) (r : Round) : Type 0 where
    pub at :
        (v : String)
        → (r.indeg v ≡ indegree arcs v - served arcs done v)
          × (count v pushed + count v r.next ≡ due (entry v) (indegree arcs v) (served arcs done v))

  visit-Holds :
      (done : List String) (r : Round) (u : String)
      → Holds done r
      → Holds (done ++ u ∷ []) (visit arcs r u)
  unfolding visit
  visit-Holds done r u h = record {
    at = λ v.
        let arrived =
          arrivals-Counted (entry v) (count v pushed) (indegree arcs v) v (served arcs done v) r
            (successors arcs u) (h.at v) in
        rw (served-append arcs done (u ∷ []) v, served-single arcs u v) arrived;
  }

  pub visit_layer-Holds :
      (layer done : List String) (r : Round)
      → Holds done r
      → Holds (done ++ layer) (visit_layer arcs r layer)
  unfolding visit_layer
  visit_layer-Holds [] done r h = rw append-nil h
  visit_layer-Holds (u ∷ layer) done r h =
      rw (← append_assoc done (u ∷ []) layer)
        (visit_layer-Holds layer (done ++ u ∷ []) (visit arcs r u) (visit-Holds done r u h))
