-- ===== src/V2/Layers/Order.antt =====
-- The layers respect the arcs.
use mathlib.Core.List.{append-nil, append_assoc}
use llm_agent_flow.Base.{
  ℕ, zero, suc, ◌≤◌, ◌<◌, String, ◌≡◌, refl, some, List, [], ◌∷◌, ◌++◌, arith, length, flatten, All,
  count, count-append, nat_eq, eq_iff, if◌then◌else◌,
}
use llm_agent_flow.V2.Arcs.{Arc}
use llm_agent_flow.V2.Layers.{
  indegree, entries, visit_layer, Rounds, finished, out_of_fuel, with_layer, rounds, check_visited,
  layers,
}
use llm_agent_flow.V2.Layers.Counters.{served, served-nil, due, Holds, visit_layer-Holds}

-- No text stands in the list twice.
abbrev pub IsNodup : List String → Type 0
IsNodup xs = (v : String) → count v xs ≤ 1

-- All predecessors of `v` are among `done`.
abbrev pub IsReady : List Arc → List String → String → Type 0
IsReady arcs done v = All (λ a. a.target ≡ v → 0 < count a.source done) arcs

-- Each node of a layer has all its predecessors in earlier layers, or among `done`.
abbrev pub Respects : List Arc → List String → List (List String) → Type 0
Respects arcs done [] = Unit
Respects arcs done (layer ∷ ls) =
    ((v : String) → 0 < count v layer → IsReady arcs done v) × Respects arcs (done ++ layer) ls

served-le :
    (arcs : List Arc) (done : List String) (v : String)
    → IsNodup done
    → served arcs done v ≤ indegree arcs v
unfolding indegree
served-le [] done v d = omega arith
served-le (a ∷ arcs) done v d = ground (arith, d a.source, served-le arcs done v d)

IsReady-of_served :
    (arcs : List Arc) (done : List String) (v : String)
    → IsNodup done
    → indegree arcs v ≤ served arcs done v
    → IsReady arcs done v
unfolding indegree
IsReady-of_served [] done v d h = tt
IsReady-of_served (a ∷ arcs) done v d h =
    let below = served-le arcs done v d in
    (
      λ e. ground (arith, d a.source, eq_iff a.target v),
      IsReady-of_served arcs done v d (ground (arith, d a.source)),
    )

with_layer-eq-finished :
    (l : List String) (r : Rounds) {ls : List (List String)}
    → with_layer l r ≡ finished ls
    → (rest : List (List String)) × (r ≡ finished rest) × (ls ≡ l ∷ rest)
with_layer-eq-finished l (finished rest) h = (rest, refl, ground arith)
with_layer-eq-finished l out_of_fuel h = cc

-- The visited nodes are those that were pushed: the entries, and the nodes with all arcs served.
abbrev pub Settled : List Arc → (String → ℕ) → List String → Type 0
Settled arcs entry done =
    (v : String) → count v done ≡ due (entry v) (indegree arcs v) (served arcs done v)

module _ (arcs : List Arc) (entry : String → ℕ) (once : (v : String) → entry v ≤ 1) where
  -- Between two rounds what has been pushed is visited or in the queue.
  abbrev pub Between : (done queue : List String) → (String → ℕ) → Type 0
  Between done queue indeg =
      Holds arcs entry (done ++ queue) done (record { indeg = indeg; next = [] })

  Between-IsNodup :
      (done queue : List String) {indeg : String → ℕ} → Between done queue indeg → IsNodup done
  Between-IsNodup done queue b v = ground (arith, b.at v, once v, count-append v done queue)

  Between-IsReady :
      (done queue : List String) (v : String) {indeg : String → ℕ}
      → Between done queue indeg
      → 0 < count v queue
      → IsReady arcs done v
  Between-IsReady done queue v b h =
      IsReady-of_served arcs done v (Between-IsNodup done queue b)
        (ground (arith, b.at v, once v, count-append v done queue))

  Between-next :
      (done queue : List String) {indeg : String → ℕ}
      → Between done queue indeg
      → let r = visit_layer arcs (record { indeg = indeg; next = [] }) queue in
        Between (done ++ queue) r.next r.indeg
  Between-next done queue {indeg} b =
      let r = visit_layer arcs (record { indeg = indeg; next = [] }) queue in
      let visited = visit_layer-Holds arcs entry (done ++ queue) queue done _ b in
      record { at = λ v. ground (arith, visited.at v, count-append v (done ++ queue) r.next) }

  pub rounds_lem :
      (fuel : ℕ) (done queue : List String) (indeg : String → ℕ) (ls : List (List String))
      → Between done queue indeg
      → rounds fuel arcs indeg queue ≡ finished ls
      → Respects arcs done ls × Settled arcs entry (done ++ flatten ls)
  unfolding rounds
  rounds_lem fuel done [] indeg [] b h =
      (tt, rw append-nil (λ v. ground (arith, b.at v, count-append v done [])))
  rounds_lem fuel done [] indeg (l ∷ ls) b h = cc
  rounds_lem zero done (q ∷ queue) indeg ls b h = cc
  rounds_lem (suc fuel) done (q ∷ queue) indeg ls b h =
      let r = visit_layer arcs (record { indeg = indeg; next = [] }) (q ∷ queue) in
      let (rest, ends, e) =
        with_layer-eq-finished (q ∷ queue) (rounds fuel arcs r.indeg r.next) h in
      let (ordered, settled) =
        rounds_lem fuel (done ++ q ∷ queue) r.next r.indeg rest (Between-next done (q ∷ queue) b)
          ends in
      rw e (
        (λ v m. Between-IsReady done (q ∷ queue) v b m, ordered),
        rw (← append_assoc done (q ∷ queue) (flatten rest)) settled,
      )

  -- The first queue.
  pub Between-start :
      (queue : List String)
      → ((v : String) → count v queue ≡ (if nat_eq (indegree arcs v) 0 then entry v else 0))
      → Between [] queue (indegree arcs)
  Between-start queue h = record { at = λ v. ground (arith, h v, served-nil arcs v) }

count-entries :
    (indeg : String → ℕ) (nodes : List String) (v : String)
    → count v (entries indeg nodes) ≡ (if nat_eq (indeg v) 0 then count v nodes else 0)
unfolding entries
count-entries indeg [] v = ground arith
count-entries indeg (n ∷ nodes) v = ground (arith, eq_iff n v, count-entries indeg nodes v)

check_visited-eq-some :
    (nodes : List String) (r : Rounds) {ls : List (List String)}
    → check_visited nodes r ≡ some ls
    → (r ≡ finished ls) × (length (flatten ls) ≡ length nodes)
check_visited-eq-some nodes (finished ls) h = ground arith
check_visited-eq-some nodes out_of_fuel h = cc

module _ (nodes : List String) (arcs : List Arc) (once : IsNodup nodes) where
  abbrev entry : String → ℕ
  entry v = count v nodes

  -- The loop of `Compile`, whatever its fuel.
  pub rounds-Settled :
      (fuel : ℕ) (ls : List (List String))
      → rounds fuel arcs (indegree arcs) (entries (indegree arcs) nodes) ≡ finished ls
      → Respects arcs [] ls × Settled arcs entry (flatten ls)
  rounds-Settled fuel ls h =
      rounds_lem arcs entry once fuel [] (entries (indegree arcs) nodes) (indegree arcs) ls
        (Between-start arcs entry once _ (count-entries (indegree arcs) nodes)) h

  pub layers-Settled :
      {ls : List (List String)}
      → layers nodes arcs ≡ some ls
      → Respects arcs [] ls × Settled arcs entry (flatten ls) × (length (flatten ls) ≡ length nodes)
  unfolding layers
  layers-Settled {ls} h =
      let fuel = suc (length arcs) in
      let (ends, e) =
        check_visited-eq-some nodes
          (rounds fuel arcs (indegree arcs) (entries (indegree arcs) nodes)) h in
      let (ordered, settled) = rounds-Settled fuel ls ends in (ordered, settled, e)
