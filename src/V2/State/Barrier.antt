-- ===== src/V2/State/Barrier.antt =====
-- The State after a layer is a function of what each node wrote last, not of the order in which
-- the nodes ran.
use llm_agent_flow.Base.{
  ℕ, ◌≤◌, String, ◌≡◌, ◌≢◌, refl, ◌∙◌, sym, ap, fun_ext, Option, none, some, List, [], ◌∷◌, map, ok,
  arith, count, eq_iff, eq_refl, sort, sort_unique, ◌==◌, if◌then◌else◌,
}
use llm_agent_flow.V2.Value.{Value, nil, put_entry}
use llm_agent_flow.V2.Errors.{Run}
use llm_agent_flow.V2.Layers.Order.{IsNodup}
use llm_agent_flow.V2.State.{
  StateCell, Reducer, stage, staged_ids, read_staged, merge, commit, reduce,
}

-- A run of `SetState` calls, in the order in which they happened.
abbrev pub stage_all : StateCell → List (String × Value) → StateCell
stage_all c [] = c
stage_all c ((id, v) ∷ writes) = stage_all (stage c id v) writes

-- The last value that a node wrote.
abbrev pub last_write : String → List (String × Value) → Option Value
last_write id [] = none
last_write id ((j, v) ∷ writes) = elim (last_write id writes) [
  | some w ↦ some w
  | none ↦ if j == id then some v else none
]

find : String → List (String × Value) → Option Value
find id [] = none
find id ((j, v) ∷ rest) = if j == id then some v else find id rest

find-put_entry :
    (k id : String) (v : Value) (xs : List (String × Value))
    → find k (put_entry id v xs) ≡ (if id == k then some v else find k xs)
unfolding find put_entry
find-put_entry k id v [] = refl
find-put_entry k id v ((j, w) ∷ xs) =
    ground (arith, find-put_entry k id v xs, eq_iff j id, eq_iff j k, eq_iff id k)

-- Each node has one entry, which `read_staged` reads.
abbrev present : Option Value → ℕ
present none = 0
present (some v) = 1

abbrev or_nil : Option Value → Value
or_nil none = nil
or_nil (some v) = v

read_staged-find :
    (xs : List (String × Value)) (id : String) → read_staged xs id ≡ or_nil (find id xs)
unfolding read_staged find
read_staged-find [] id = refl
read_staged-find ((j, v) ∷ xs) id = ground (arith, read_staged-find xs id)

count-put_entry :
    (k id : String) (v : Value) (xs : List (String × Value))
    → count k (staged_ids xs) ≤ 1
    → count k (staged_ids (put_entry id v xs)) ≤ 1
      × (count k (staged_ids xs) ≤ count k (staged_ids (put_entry id v xs)))
      × (id ≢ k → count k (staged_ids (put_entry id v xs)) ≡ count k (staged_ids xs))
unfolding put_entry
count-put_entry k id v [] t = ground (arith, eq_iff id k)
count-put_entry k id v ((j, w) ∷ xs) t =
    ground (arith, count-put_entry k id v xs, eq_iff j id, eq_iff j k, eq_iff id k)

count-find :
    (k : String) (xs : List (String × Value))
    → count k (staged_ids xs) ≤ 1
    → count k (staged_ids xs) ≡ present (find k xs)
unfolding find
count-find k [] h = refl
count-find k ((j, v) ∷ xs) h = ground (arith, count-find k xs)

-- After a run of calls on an empty cell each writer has one entry, with its last value.
record Staged (xs : List (String × Value)) (writes : List (String × Value)) : Type 0 where
  once : IsNodup (staged_ids xs)
  finds : (k : String) → find k xs ≡ last_write k writes

put_all : List (String × Value) → List (String × Value) → List (String × Value)
put_all xs [] = xs
put_all xs ((id, v) ∷ writes) = put_all (put_entry id v xs) writes

stage_all-put_all :
    (c : StateCell) (writes : List (String × Value))
    → stage_all c writes ≡ record c { staged = put_all c.staged writes }
unfolding put_all
stage_all-put_all c [] = refl
stage_all-put_all c ((id, v) ∷ writes) =
    stage_all-put_all (stage c id v) writes ∙ (unfold stage in refl)

put_all-finds :
    (xs writes : List (String × Value))
    → IsNodup (staged_ids xs)
    → IsNodup (staged_ids (put_all xs writes))
      × ((k : String)
          → find k (put_all xs writes)
            ≡ elim (last_write k writes) [ some v ↦ some v | none ↦ find k xs ])
unfolding put_all
put_all-finds xs [] d = (d, λ k. refl)
put_all-finds xs ((id, v) ∷ writes) d =
    let (once, finds) =
      put_all-finds (put_entry id v xs) writes (λ k. (count-put_entry k id v xs (d k)).0) in
    (once, λ k. ground (arith, finds k, find-put_entry k id v xs))

put_all-Staged : (writes : List (String × Value)) → Staged (put_all [] writes) writes
unfolding find
put_all-Staged writes =
    let (once, finds) = put_all-finds [] writes (λ k. omega arith) in
    record { once = once; finds = λ k. ground (arith, finds k) }

merge_same :
    (committed : Value) (reducer : Option Reducer) (xs ys : List (String × Value))
    (ids : List String)
    → read_staged xs ≡ read_staged ys
    → let a : StateCell = record { committed = committed; staged = xs; reducer = reducer } in
      let b : StateCell = record { committed = committed; staged = ys; reducer = reducer } in
      commit a (merge a ids) ≡ commit b (merge b ids)
merge_same committed (some f) xs ys ids r =
    ap
      (λ (read : String → Value).
        commit (record { committed = committed; staged = []; reducer = some f })
          (f committed (map read ids)))
      r
merge_same committed none xs ys [] r = refl
merge_same committed none xs ys (i ∷ []) r =
    ap
      (λ (read : String → Value).
        let cell : Run StateCell =
          ok (record { committed = read i; staged = []; reducer = none }) in
        cell)
      r
merge_same committed none xs ys (i ∷ j ∷ ids) r = refl

module _ (committed : Value) (reducer : Option Reducer) where
  abbrev holding : List (String × Value) → StateCell
  holding xs = record { committed = committed; staged = xs; reducer = reducer }

  same_count :
      (xs ys writes writes' : List (String × Value))
      → Staged xs writes
      → Staged ys writes'
      → ((k : String) → last_write k writes ≡ last_write k writes')
      → (k : String) → count k (staged_ids xs) ≡ count k (staged_ids ys)
  same_count xs ys writes writes' s t h k =
      count-find k xs (s.once k)
      ∙ ap present (s.finds k ∙ h k ∙ sym (t.finds k))
      ∙ sym (count-find k ys (t.once k))

  reduce_same :
      (xs ys : List (String × Value))
      → ((k : String) → count k (staged_ids xs) ≡ count k (staged_ids ys))
      → read_staged xs ≡ read_staged ys
      → reduce (holding xs) ≡ reduce (holding ys)
  unfolding reduce
  reduce_same [] [] c r = refl
  reduce_same [] ((j, w) ∷ ys) c r = absurd (ground (arith, c j, eq_refl j))
  reduce_same ((i, v) ∷ xs) [] c r = absurd (ground (arith, c i, eq_refl i))
  reduce_same ((i, v) ∷ xs) ((j, w) ∷ ys) c r =
      let a = holding ((i, v) ∷ xs) in
      ap (λ ids. commit a (merge a ids))
        (sort_unique (staged_ids ((i, v) ∷ xs)) (staged_ids ((j, w) ∷ ys)) c)
      ∙ merge_same committed reducer ((i, v) ∷ xs) ((j, w) ∷ ys) (sort (staged_ids ((j, w) ∷ ys))) r

-- The barrier's result depends only on the last write of each node: staging by goroutines in
-- another order, or with more overwritten writes, gives the same State or the same error.
pub reduce_order :
    (c : StateCell) (writes writes' : List (String × Value))
    → c.staged ≡ []
    → ((k : String) → last_write k writes ≡ last_write k writes')
    → reduce (stage_all c writes) ≡ reduce (stage_all c writes')
reduce_order c writes writes' e h =
    let s = put_all-Staged writes in
    let t = put_all-Staged writes' in
    let counts =
      same_count c.committed c.reducer (put_all [] writes) (put_all [] writes') writes writes' s t
        h in
    rw (stage_all-put_all c writes, stage_all-put_all c writes', e)
      (reduce_same c.committed c.reducer (put_all [] writes) (put_all [] writes') counts (
        fun_ext λ k.
          read_staged-find (put_all [] writes) k
          ∙ ap or_nil (s.finds k ∙ h k ∙ sym (t.finds k))
          ∙ sym (read_staged-find (put_all [] writes') k)))
