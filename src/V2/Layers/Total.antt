-- ===== src/V2/Layers/Total.antt =====
-- The layering ends, places every node exactly once, and fails for cyclic graphs only.
use llm_agent_flow.Base.{
  ℕ, zero, suc, ◌+◌, ◌-◌, ◌≤◌, ◌<◌, String, ◌≡◌, refl, some, List, [], ◌∷◌, foldl, arith, length,
  flatten, All, count, length-append, length-le_of_count, count-eq_of_length, update, nat_eq,
  eq_iff, if◌then◌else◌,
}
use llm_agent_flow.V2.Arcs.{Arc, successors}
use llm_agent_flow.V2.Layers.{
  indegree, Round, arrive, visit, visit_layer, entries, finished, rounds, layers,
}
use llm_agent_flow.V2.Layers.Counters.{served}
use llm_agent_flow.V2.Layers.Order.{IsNodup, Settled, layers-Settled, rounds-Settled}

-- The arcs whose target still waits for a predecessor.
alive : List Arc → (String → ℕ) → ℕ
alive [] indeg = 0
alive (a ∷ arcs) indeg = (if nat_eq (indeg a.target) 0 then 0 else 1) + alive arcs indeg

alive-le : (arcs : List Arc) (indeg : String → ℕ) → alive arcs indeg ≤ length arcs
unfolding alive
alive-le [] indeg = omega arith
alive-le (a ∷ arcs) indeg = ground (arith, alive-le arcs indeg)

alive-update :
    (arcs : List Arc) (indeg : String → ℕ) (w : String)
    → alive arcs (update indeg w (indeg w - 1))
        + (if nat_eq (indeg w) 1 then indegree arcs w else 0)
      ≡ alive arcs indeg
unfolding alive indegree
alive-update [] indeg w = ground arith
alive-update (a ∷ arcs) indeg w =
    ground (arith, alive-update arcs indeg w, eq_iff w a.target, eq_iff a.target w)

count-successors-le :
    (arcs : List Arc) (u w : String) → count w (successors arcs u) ≤ indegree arcs w
unfolding successors indegree
count-successors-le [] u w = omega arith
count-successors-le (a ∷ arcs) u w = ground (arith, count-successors-le arcs u w)

module _ (arcs : List Arc) where
  -- A push uses up the arcs into the pushed node.
  abbrev potential : Round → ℕ
  potential r = alive arcs r.indeg + length r.next

  potential-arrive :
      (r : Round) (w : String) → 0 < indegree arcs w → potential (arrive r w) ≤ potential r
  unfolding arrive
  potential-arrive r w h =
      ground (arith, alive-update arcs r.indeg w, length-append r.next (w ∷ []))

  potential-arrivals :
      (ws : List String) (r : Round)
      → ((w : String) → count w ws ≤ indegree arcs w)
      → potential (foldl arrive r ws) ≤ potential r
  potential-arrivals [] r h = omega arith
  potential-arrivals (w ∷ ws) r h = omega (
    arith,
    potential-arrive r w (ground (arith, h w, eq_iff w w)),
    potential-arrivals ws (arrive r w) (λ v. ground (arith, h v)),
  )

  potential-visit : (u : String) (r : Round) → potential (visit arcs r u) ≤ potential r
  unfolding visit
  potential-visit u r = potential-arrivals (successors arcs u) r (count-successors-le arcs u)

  potential-visit_layer :
      (layer : List String) (r : Round) → potential (visit_layer arcs r layer) ≤ potential r
  unfolding visit_layer
  potential-visit_layer [] r = omega arith
  potential-visit_layer (u ∷ layer) r =
      omega (arith, potential-visit u r, potential-visit_layer layer (visit arcs r u))

  alive_falls :
      (fuel : ℕ) (queue : List String) (indeg : String → ℕ)
      → alive arcs indeg < suc fuel
      → let r = visit_layer arcs (record { indeg = indeg; next = [] }) queue in
        0 < length r.next → alive arcs r.indeg < fuel
  alive_falls fuel queue indeg h m =
      omega (arith, potential-visit_layer queue (record { indeg = indeg; next = [] }))

  rounds_end :
      (fuel : ℕ) (queue : List String) (indeg : String → ℕ)
      → (0 < length queue → alive arcs indeg < fuel)
      → (ls : List (List String)) × (rounds fuel arcs indeg queue ≡ finished ls)
  unfolding rounds
  rounds_end fuel [] indeg h = ([], refl)
  rounds_end zero (q ∷ queue) indeg h = absurd (omega (arith, h (omega arith)))
  rounds_end (suc fuel) (q ∷ queue) indeg h =
      let r = visit_layer arcs (record { indeg = indeg; next = [] }) (q ∷ queue) in
      let (ls, e) =
        rounds_end fuel r.next r.indeg (alive_falls fuel (q ∷ queue) indeg (h (omega arith))) in
      ((q ∷ queue) ∷ ls, rw e)

  -- The loop of `Compile` ends by its test.
  pub rounds_total :
      (queue : List String)
      → (ls : List (List String)) × (rounds (suc (length arcs)) arcs (indegree arcs) queue
          ≡ finished ls)
  rounds_total queue =
      rounds_end (suc (length arcs)) queue (indegree arcs)
        (λ _. omega (arith, alive-le arcs (indegree arcs)))

-- Every arc joins two nodes of the list.
abbrev pub IsClosed : List String → List Arc → Type 0
IsClosed nodes arcs = All (λ a. (0 < count a.source nodes) × (0 < count a.target nodes)) arcs

-- `rank` grows along every arc, so that there is no cycle.
abbrev pub IsRanked : (String → ℕ) → List Arc → Type 0
IsRanked rank arcs = All (λ a. rank a.source < rank a.target) arcs

mem_of_indegree :
    (nodes : List String) (arcs : List Arc) (v : String)
    → IsClosed nodes arcs
    → 0 < indegree arcs v
    → 0 < count v nodes
unfolding indegree
mem_of_indegree nodes [] v c h = absurd (omega arith)
mem_of_indegree nodes (a ∷ arcs) v c h =
    ground (arith, mem_of_indegree nodes arcs v c.1, eq_iff a.target v, c.0.1)

module _ (nodes : List String) (arcs : List Arc) (once : IsNodup nodes)
    (closed : IsClosed nodes arcs) where
  Settled-le :
      (done : List String)
      → Settled arcs (λ v. count v nodes) done
      → (v : String) → count v done ≤ count v nodes
  Settled-le done s v = ground (arith, s v, mem_of_indegree nodes arcs v closed)

  -- For distinct nodes and arcs between them: when the layering succeeds, its layers hold each node as
  -- often as the list of nodes does, which is once.
  pub layers_partition :
      (ls : List (List String)) (v : String)
      → layers nodes arcs ≡ some ls
      → count v (flatten ls) ≡ count v nodes
  layers_partition ls v h =
      let (_, settled, e) = layers-Settled nodes arcs once h in
      count-eq_of_length (flatten ls) nodes (Settled-le (flatten ls) settled) e v

  module _ (rank : String → ℕ) (ranked : IsRanked rank arcs) (done : List String)
      (settled : Settled arcs (λ v. count v nodes) done) where
    served_of_lower :
        (n : ℕ) (v : String) (into : List Arc)
        → ((u : String) → rank u < n → count u nodes ≤ count u done)
        → rank v < suc n
        → IsClosed nodes into
        → IsRanked rank into
        → indegree into v ≤ served into done v
    unfolding indegree
    served_of_lower n v [] ih h c r = omega arith
    served_of_lower n v (a ∷ into) ih h c r =
        ground
          (arith, served_of_lower n v into ih h c.1 r.1, ih a.source, eq_iff a.target v, c.0.0, r.0)

    placed_below : (n : ℕ) (v : String) → rank v < n → count v nodes ≤ count v done
    placed_below zero v h = absurd (omega arith)
    placed_below (suc n) v h =
        ground (arith, settled v, once v, served_of_lower n v arcs (placed_below n) h closed ranked)

  -- For distinct nodes and arcs between them that all rise in some rank, as they do in an acyclic graph,
  -- the layering ends and yields layers.
  pub layers_total :
      (rank : String → ℕ)
      → IsRanked rank arcs
      → (ls : List (List String)) × (layers nodes arcs ≡ some ls)
  unfolding layers
  layers_total rank ranked =
      let (ls, ends) = rounds_total arcs (entries (indegree arcs) nodes) in
      let (_, settled) = rounds-Settled nodes arcs once (suc (length arcs)) ls ends in
      let longer =
        length-le_of_count nodes (flatten ls)
          (λ v. placed_below rank ranked (flatten ls) settled (suc (rank v)) v (omega arith)) in
      let shorter = length-le_of_count (flatten ls) nodes (Settled-le (flatten ls) settled) in
      (ls, ground arith)
