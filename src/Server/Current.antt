-- ===== src/Server/Current.antt =====
-- cmd/flowd/server/server.go: no engine that is kept is older than the flow in the store, as long as
-- requests are served one after the other.
use llm_agent_flow.Base.{
  ℕ, String, false, Option, none, some, List, [], ◌∷◌, Result, ok, ◌==◌, All, Bool-cases,
  Option-cases, ◌≡◌, inl, inr, Option-match, Bool-match, Result-match, arith, eq_iff, eq_refl,
  ok-injective, subst, sym, ◌∙◌, length, ltb, ◌&&◌,
}
use llm_agent_flow.Store.{FlowRecord, Tables}
use llm_agent_flow.Store.Flows.{flow_row, get_flow}
use llm_agent_flow.Store.Flows.Laws.{get_flow-row}
use llm_agent_flow.Server.Lru.{CacheEntry, EngineCache, new_engine_cache, get, set, delete}
use llm_agent_flow.Server.Lru.Recency.{find, drop, drop_last, used, stored, room}
use llm_agent_flow.Server.Lru.Slots.{
  Slot, contents, element, without, element-without, contents-without,
}
use llm_agent_flow.Server.Lru.Refines.{Shows, get-Shows, set-Shows, delete-Shows}
use llm_agent_flow.Server.Lru.Serve.{new-Shows}
use llm_agent_flow.Server.Flows.{EngineError, lookup_engine}

option_injective : {A : Type 0} {a b : A} → some a ≡ some b → a ≡ b
option_injective h = cc

module _ {E : Type 0} (load_compile : String → Result String E) where
  -- An engine is what the flow in the store compiles to.
  pub record IsCurrent (db : Tables) (id : String) (engine : E) : Type 0 where
    pub row : FlowRecord
    pub stored_row : flow_row id db.flows ≡ some row
    pub compiled : load_compile row.json ≡ ok engine

  abbrev AllCurrent : Tables → List (CacheEntry E) → Type 0
  AllCurrent db recent = All (λ e. IsCurrent db e.key e.value) recent

  -- Every engine of a cache is current.
  pub record Fresh (capacity : ℕ) (db : Tables) (engines : EngineCache E) : Type 0 where
    pub recent : List (CacheEntry E)
    pub shows : Shows capacity engines recent
    pub all_current : AllCurrent db recent

  pub new-Fresh : (capacity : ℕ) (db : Tables) → Fresh capacity db (new_engine_cache capacity)
  new-Fresh capacity db = record { recent = []; shows = new-Shows capacity; all_current = _ }

  drop_current :
      (db : Tables) (key : String) (recent : List (CacheEntry E))
      → AllCurrent db recent
      → AllCurrent db (drop key recent)
  drop_current db key [] all = all
  drop_current db key (e ∷ recent) all =
      Bool-match (AllCurrent db) (e.key == key) (λ _. all.1)
        (λ _. (all.0, drop_current db key recent all.1))

  drop_last_current :
      (db : Tables) (recent : List (CacheEntry E))
      → AllCurrent db recent
      → AllCurrent db (drop_last recent)
  drop_last_current db [] all = all
  drop_last_current db (e ∷ []) all = _
  drop_last_current db (e ∷ f ∷ recent) all = (all.0, drop_last_current db (f ∷ recent) all.1)

  find-IsCurrent :
      (db : Tables) (key : String) (recent : List (CacheEntry E)) (e : CacheEntry E)
      → AllCurrent db recent
      → find key recent ≡ some e
      → (e.key ≡ key) × IsCurrent db e.key e.value
  find-IsCurrent db key [] e all h = absurd cc
  find-IsCurrent db key (f ∷ recent) e all h = elim (Bool-cases (f.key == key)) [
    | inl same ↦
        let found : f ≡ e = ground (arith, h, same) in
        subst (λ g. (g.key ≡ key) × IsCurrent db g.key g.value) found
          ((eq_iff f.key key).0 same, all.0)
    | inr other ↦ find-IsCurrent db key recent e all.1 (simp (other) at h)
  ]

  used-IsCurrent :
      (db : Tables) (key : String) (recent : List (CacheEntry E))
      → AllCurrent db recent
      → AllCurrent db (used key recent).1
        × ((engine : E) → (used key recent).0 ≡ some engine → IsCurrent db key engine)
  unfolding used
  used-IsCurrent db key recent all = elim (Option-cases (find key recent)) [
    | inl absent ↦ rw (used, absent) (all, λ engine h. absurd cc)
    | inr (e, found) ↦
        let (own, current) = find-IsCurrent db key recent e all found in
        rw (used, found)
          (
            (current, drop_current db key recent all),
            λ engine h.
                subst (IsCurrent db key) (option_injective h)
                  (subst (λ k. IsCurrent db k e.value) own current),
          )
  ]

  get-Fresh :
      (capacity : ℕ) (db : Tables) (key : String) (engines : EngineCache E)
      → Fresh capacity db engines
      → Fresh capacity db (get key engines).1
        × ((engine : E) → (get key engines).0 ≡ some engine → IsCurrent db key engine)
  get-Fresh capacity db key engines h =
      let (same, shows) = get-Shows capacity key engines h.recent h.shows in
      let (all, current) = used-IsCurrent db key h.recent h.all_current in
      (
        record { recent = (used key h.recent).1; shows = shows; all_current = all },
        λ engine hit. current engine (sym same ∙ hit),
      )

  set-Fresh :
      (capacity : ℕ) (db : Tables) (key : String) (engine : E) (engines : EngineCache E)
      → Fresh capacity db engines
      → IsCurrent db key engine
      → Fresh capacity db (set key engine engines)
  unfolding stored room
  set-Fresh capacity db key engine engines h current = record {
    recent = stored capacity key engine h.recent;
    shows = set-Shows capacity key engine engines h.recent h.shows;
    all_current =
        let entry : CacheEntry E = record { key = key; value = engine } in
        Option-match (AllCurrent db) (find key h.recent) {f = λ e. entry ∷ drop key h.recent}
          (λ _.
            Bool-match (AllCurrent db) (ltb 0 capacity && ltb capacity (length (entry ∷ h.recent)))
              {y = entry ∷ h.recent}
              (λ _. drop_last_current db (entry ∷ h.recent) (current, h.all_current))
              (λ _. (current, h.all_current)))
          (λ e _. (current, drop_current db key h.recent h.all_current));
  }

  carried :
      (db db' : Tables) (recent : List (CacheEntry E)) (P : String → Type 0)
      → ((id : String) (r : FlowRecord)
          → P id
          → flow_row id db.flows ≡ some r
          → flow_row id db'.flows ≡ some r)
      → All (λ e. P e.key) recent
      → AllCurrent db recent
      → AllCurrent db' recent
  carried db db' [] P keeps each all = _
  carried db db' (e ∷ recent) P keeps each all = (
    record {
      row = all.0.row;
      stored_row = keeps e.key all.0.row each.0 all.0.stored_row;
      compiled = all.0.compiled;
    },
    carried db db' recent P keeps each.1 all.1,
  )

  all_true : (recent : List (CacheEntry E)) → All {0, 0} (λ e. Unit) recent
  all_true [] = _
  all_true (e ∷ recent) = (_, all_true recent)

  -- A call that keeps the flows that are there.
  pub kept-Fresh :
      (capacity : ℕ) (db db' : Tables) (engines : EngineCache E)
      → ((id : String) (r : FlowRecord)
          → flow_row id db.flows ≡ some r
          → flow_row id db'.flows ≡ some r)
      → Fresh capacity db engines
      → Fresh capacity db' engines
  kept-Fresh capacity db db' engines keeps h = record {
    recent = h.recent;
    shows = h.shows;
    all_current =
        carried db db' h.recent (λ id. Unit) (λ id r _ found. keeps id r found) (all_true h.recent)
          h.all_current;
  }

  others :
      (key : String) (t : List (Slot E))
      → element key t ≡ none
      → All (λ e. (key == e.key) ≡ false) (contents t)
  others key [] h = _
  others key (s ∷ t) h = (
    ground (arith, h, eq_iff s.entry.key key, eq_iff key s.entry.key),
    others key t (ground (arith, h)),
  )

  others_left :
      (capacity : ℕ) (key : String) (engines : EngineCache E) (recent : List (CacheEntry E))
      → Shows capacity engines recent
      → All (λ e. (key == e.key) ≡ false) (drop key recent)
  others_left capacity key engines recent h =
      subst (λ l. All (λ e. (key == e.key) ≡ false) (drop key l)) h.contents_eq
        (subst (λ l. All (λ e. (key == e.key) ≡ false) l) (contents-without key h.slots)
          (others key (without key h.slots)
            (ground (arith, element-without key key h.slots h.holds_slots.apart, eq_refl key))))

  -- A call that keeps the other flows, after which the engine of its flow is evicted.
  pub evicted-Fresh :
      (capacity : ℕ) (db db' : Tables) (key : String) (engines : EngineCache E)
      → ((id : String) (r : FlowRecord)
          → (key == id) ≡ false
          → flow_row id db.flows ≡ some r
          → flow_row id db'.flows ≡ some r)
      → Fresh capacity db engines
      → Fresh capacity db' (delete key engines)
  evicted-Fresh capacity db db' key engines keeps h = record {
    recent = drop key h.recent;
    shows = delete-Shows capacity key engines h.recent h.shows;
    all_current =
        carried db db' (drop key h.recent) (λ id. (key == id) ≡ false) keeps
          (others_left capacity key engines h.recent h.shows)
          (drop_current db key h.recent h.all_current);
  }

  -- An engine that is found is current, and the cache stays so.
  pub lookup-Fresh :
      (capacity : ℕ) (fault : Option String) (id : String) (db : Tables) (engines : EngineCache E)
      → Fresh capacity db engines
      → Fresh capacity db (lookup_engine load_compile fault id db engines).1
        × ((engine : E)
            → (lookup_engine load_compile fault id db engines).0 ≡ ok engine
            → IsCurrent db id engine)
  unfolding lookup_engine
  lookup-Fresh capacity fault id db engines h =
      let P : Result EngineError E × EngineCache E → Type 0 =
        λ t. Fresh capacity db t.1 × ((engine : E) → t.0 ≡ ok engine → IsCurrent db id engine) in
      let (after, current) = get-Fresh capacity db id engines h in
      Option-match P (get id engines).0
        (λ _.
          Result-match P (get_flow fault id db)
            (λ rec found.
              Result-match P (load_compile rec.json)
                (λ engine compiled.
                  let now : IsCurrent db id engine = record {
                    row = rec;
                    stored_row = get_flow-row fault id db rec found;
                    compiled = compiled;
                  } in
                  (
                    set-Fresh capacity db id engine (get id engines).1 after now,
                    λ other same. subst (IsCurrent db id) (ok-injective same) now,
                  ))
                (λ e _. (after, λ engine same. absurd cc)))
            (λ e _. (after, λ engine same. absurd cc)))
        (λ engine hit.
          (after, λ other same. subst (IsCurrent db id) (ok-injective same) (current engine hit)))
