-- ===== src/Server/Lru/Recency.antt =====
-- What cmd/flowd/server/lru.go promises: the entries, most recently used first, and the calls on them.
use llm_agent_flow.Base.{
  ℕ, String, ◌&&◌, Option, none, some, List, [], ◌∷◌, ◌≡◌, refl, ◌≤◌, ◌<◌, length, ltb, arith,
  eq_refl, ◌==◌, if◌then◌else◌, Option-match,
}
use llm_agent_flow.Server.Lru.{CacheEntry}

module _ {A : Type 0} where
  abbrev pub find : String → List (CacheEntry A) → Option (CacheEntry A)
  find key [] = none
  find key (e ∷ recent) = if e.key == key then some e else find key recent

  abbrev pub drop : String → List (CacheEntry A) → List (CacheEntry A)
  drop key [] = []
  drop key (e ∷ recent) = if e.key == key then recent else e ∷ drop key recent

  abbrev pub drop_last : List (CacheEntry A) → List (CacheEntry A)
  drop_last [] = []
  drop_last (e ∷ []) = []
  drop_last (e ∷ f ∷ recent) = e ∷ drop_last (f ∷ recent)

  unfoldable pub used : String → List (CacheEntry A) → Option A × List (CacheEntry A)
  used key recent = elim (find key recent) [
    | none ↦ (none, recent)
    | some e ↦ (some e.value, e ∷ drop key recent)
  ]

  -- A full list (`cap` of 0 is never full) makes room for a new key at its end.
  unfoldable pub room : ℕ → List (CacheEntry A) → List (CacheEntry A)
  room capacity recent =
      if ltb 0 capacity && ltb capacity (length recent) then drop_last recent else recent

  unfoldable pub stored : ℕ → String → A → List (CacheEntry A) → List (CacheEntry A)
  unfolding room
  stored capacity key value recent =
      let e : CacheEntry A = record { key = key; value = value } in
      elim (find key recent) [ none ↦ room capacity (e ∷ recent) | some old ↦ e ∷ drop key recent ]

  pub length-drop_last :
      (e : CacheEntry A) (l : List (CacheEntry A)) → length (drop_last (e ∷ l)) ≡ length l
  length-drop_last e [] = omega arith
  length-drop_last e (f ∷ l) = omega (arith, length-drop_last f l)

  pub length-drop : (key : String) (l : List (CacheEntry A)) → length (drop key l) ≤ length l
  length-drop key [] = omega arith
  length-drop key (e ∷ l) = ground (arith, length-drop key l)

  length-drop_found :
      (key : String) (l : List (CacheEntry A)) (e : CacheEntry A)
      → find key l ≡ some e
      → length (drop key l) < length l
  length-drop_found key [] e h = cc
  length-drop_found key (f ∷ l) e h = ground (arith, length-drop_found key l e)

  -- A list of at most `capacity` entries stays one.
  pub length-room :
      (capacity : ℕ) (e : CacheEntry A) (l : List (CacheEntry A))
      → 0 < capacity
      → length l ≤ capacity
      → length (room capacity (e ∷ l)) ≤ capacity
  unfolding room
  length-room capacity e l positive h = ground (arith, length-drop_last e l)

  pub length-stored :
      (capacity : ℕ) (key : String) (value : A) (l : List (CacheEntry A))
      → 0 < capacity
      → length l ≤ capacity
      → length (stored capacity key value l) ≤ capacity
  unfolding stored
  length-stored capacity key value l positive h =
      let entry : CacheEntry A = record { key = key; value = value } in
      Option-match (λ r. length r ≤ capacity) (find key l) {f = λ e. entry ∷ drop key l}
        (λ absent. length-room capacity entry l positive h)
        (λ e found. omega (arith, h, length-drop_found key l e found))

  pub length-used : (key : String) (l : List (CacheEntry A)) → length (used key l).1 ≤ length l
  unfolding used
  length-used key l =
      Option-match {B = Option A × List (CacheEntry A)} (λ r. length r.1 ≤ length l) (find key l)
        (λ absent. omega arith) (λ e found. omega (arith, length-drop_found key l e found))

  find-room :
      (capacity : ℕ) (e : CacheEntry A) (l : List (CacheEntry A))
      → find e.key (room capacity (e ∷ l)) ≡ some e
  unfolding room
  find-room capacity e [] = ground (arith, eq_refl e.key)
  find-room capacity e (f ∷ l) = ground (arith, eq_refl e.key)

  find-stored :
      (capacity : ℕ) (key : String) (value : A) (l : List (CacheEntry A))
      → find key (stored capacity key value l) ≡ some (record { key = key; value = value })
  unfolding stored
  find-stored capacity key value l =
      let entry : CacheEntry A = record { key = key; value = value } in
      Option-match (λ r. find key r ≡ some entry) (find key l) {f = λ e. entry ∷ drop key l}
        (λ absent. find-room capacity entry l) (λ e found. ground (arith, eq_refl key))

  -- A stored key is at the front.
  pub used-stored :
      (capacity : ℕ) (key : String) (value : A) (l : List (CacheEntry A))
      → (used key (stored capacity key value l)).0 ≡ some value
  unfolding used
  used-stored capacity key value l = rw (used, find-stored capacity key value l) refl
