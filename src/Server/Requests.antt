-- ===== src/Server/Requests.antt =====
-- cmd/flowd/server/server.go: requests in any order, one after the other, and the engines that they find.
use llm_agent_flow.Base.{
  ℕ, String, true, false, not, ◌&&◌, Option, none, some, Result, ok, err, ◌==◌, ◌≡◌, sym, subst,
  ◌∙◌, Option-match, Bool-match, Result-match,
}
use llm_agent_flow.Store.{FlowRecord, Tables, Faults}
use llm_agent_flow.Store.Flows.{flow_row, put_flow, delete_flow}
use llm_agent_flow.Store.Flows.Laws.{
  put_flow-others, put_flow-create, put_flow-failed, delete_flow-others, delete_flow-failed,
}
use llm_agent_flow.Server.Current.{
  IsCurrent, Fresh, new-Fresh, kept-Fresh, evicted-Fresh, lookup-Fresh,
}
use llm_agent_flow.Server.Flows.{
  Server, CreateFlowRequest, Reply, new_server, engine_evict, handle_delete_flow, engine_for,
  engine_for_v2, handle_create_flow, handle_put_flow, compile_probe, name_of, flow_header_from_body,
}

module _ {E F : Type 0} (load_compile : String → Result String E)
    (load_compile_v2 : String → Result String F)
    (decode_head : String → Result String (String × String)) where
  -- A request, with any refusals of the database but that of the read after a replacement.
  pub data Request (s : Server E F) : Server E F → Type 0 where
    create_request :
        (faults : Faults) (now : ℕ) (req : Result String CreateFlowRequest)
        → Request s (handle_create_flow load_compile decode_head faults now req s).1
    put_request :
        (faults : Faults) (now : ℕ) (id : String) (req : Result String CreateFlowRequest)
        → faults 1 ≡ none
        → Request s (handle_put_flow load_compile decode_head faults now id req s).1
    delete_request :
        (fault : Option String) (id : String) → Request s (handle_delete_flow fault id s).1
    run_request :
        (fault : Option String) (id : String) → Request s (engine_for load_compile fault id s).1
    resumable_request :
        (fault : Option String) (id : String)
        → Request s (engine_for_v2 load_compile_v2 fault id s).1

  pub data Requests (s : Server E F) : Server E F → Type 0 where
    no_request : Requests s s
    next_request : (s' s'' : Server E F) → Requests s s' → Request s' s'' → Requests s s''

  pub BothFresh : ℕ → Server E F → Type 0
  BothFresh capacity s =
      Fresh load_compile capacity s.db s.engines × Fresh load_compile_v2 capacity s.db s.engines_v2

  BothFresh-kept :
      (capacity : ℕ) (db : Tables) (s : Server E F)
      → ((id : String) (r : FlowRecord)
          → flow_row id s.db.flows ≡ some r
          → flow_row id db.flows ≡ some r)
      → BothFresh capacity s
      → BothFresh capacity (record s { db = db })
  unfolding BothFresh
  BothFresh-kept capacity db s keeps h = (
    kept-Fresh load_compile capacity s.db db s.engines keeps h.0,
    kept-Fresh load_compile_v2 capacity s.db db s.engines_v2 keeps h.1,
  )

  BothFresh-evicted :
      (capacity : ℕ) (id : String) (db : Tables) (s : Server E F)
      → ((other : String)
          → (id == other) ≡ false
          → flow_row other db.flows ≡ flow_row other s.db.flows)
      → BothFresh capacity s
      → BothFresh capacity (engine_evict id (record s { db = db }))
  unfolding BothFresh engine_evict
  BothFresh-evicted capacity id db s keeps h = (
    evicted-Fresh load_compile capacity s.db db id s.engines
        (λ other r apart found. keeps other apart ∙ found) h.0,
    evicted-Fresh load_compile_v2 capacity s.db db id s.engines_v2
        (λ other r apart found. keeps other apart ∙ found) h.1,
  )

  create-BothFresh :
      (capacity : ℕ) (faults : Faults) (now : ℕ) (req : Result String CreateFlowRequest)
      (s : Server E F)
      → BothFresh capacity s
      → BothFresh capacity (handle_create_flow load_compile decode_head faults now req s).1
  unfolding handle_create_flow
  create-BothFresh capacity faults now (err e) s h = h
  create-BothFresh capacity faults now (ok req) s h =
      let P : Reply × Server E F → Type 0 = λ t. BothFresh capacity t.1 in
      Result-match P (flow_header_from_body decode_head req.id req.name req.flow)
        (λ head _.
          Option-match P (compile_probe load_compile req.flow)
            (λ _.
              let kept : BothFresh capacity
                  (record s { db = (put_flow faults now head.0 head.1 req.flow true s.db).1 }) =
                BothFresh-kept capacity (put_flow faults now head.0 head.1 req.flow true s.db).1 s
                  (λ other r. put_flow-create faults now head.0 head.1 req.flow other s.db r) h in
              Result-match P (put_flow faults now head.0 head.1 req.flow true s.db).0 (λ _ _. kept)
                (λ _ _. kept))
            (λ _ _. h))
        (λ _ _. h)

  put-BothFresh :
      (capacity : ℕ) (faults : Faults) (now : ℕ) (id : String)
      (req : Result String CreateFlowRequest) (s : Server E F)
      → faults 1 ≡ none
      → BothFresh capacity s
      → BothFresh capacity (handle_put_flow load_compile decode_head faults now id req s).1
  unfolding handle_put_flow
  put-BothFresh capacity faults now id (err e) s read h = h
  put-BothFresh capacity faults now id (ok req) s read h =
      let P : Reply × Server E F → Type 0 = λ t. BothFresh capacity t.1 in
      Bool-match P (not (req.id == "") && not (req.id == id)) (λ _. h)
        (λ _.
          Bool-match P (req.flow == "") (λ _. h)
            (λ _.
              Option-match P (compile_probe load_compile req.flow)
                (λ _.
                  let name = name_of decode_head id req in
                  Result-match P (put_flow faults now id name req.flow false s.db).0
                    (λ rec _.
                      BothFresh-evicted capacity id
                        (put_flow faults now id name req.flow false s.db).1 s
                        (λ other. put_flow-others faults now id name req.flow other false s.db) h)
                    (λ e failed.
                      subst (λ db. BothFresh capacity (record s { db = db }))
                        (sym (put_flow-failed faults now id name req.flow false s.db e read failed))
                        h))
                (λ _ _. h)))

  delete-BothFresh :
      (capacity : ℕ) (fault : Option String) (id : String) (s : Server E F)
      → BothFresh capacity s
      → BothFresh capacity (handle_delete_flow fault id s).1
  unfolding handle_delete_flow
  delete-BothFresh capacity fault id s h =
      let P : Reply × Server E F → Type 0 = λ t. BothFresh capacity t.1 in
      Option-match P (delete_flow fault id s.db).0
        (λ _.
          BothFresh-evicted capacity id (delete_flow fault id s.db).1 s
            (λ other. delete_flow-others fault id other s.db) h)
        (λ e failed.
          subst (λ db. BothFresh capacity (record s { db = db }))
            (sym (delete_flow-failed fault id s.db e failed)) h)

  Request-BothFresh :
      (capacity : ℕ) (s s' : Server E F)
      → Request s s'
      → BothFresh capacity s
      → BothFresh capacity s'
  unfolding BothFresh engine_for engine_for_v2
  Request-BothFresh capacity s s' (create_request faults now req) h =
      create-BothFresh capacity faults now req s h
  Request-BothFresh capacity s s' (put_request faults now id req read) h =
      put-BothFresh capacity faults now id req s read h
  Request-BothFresh capacity s s' (delete_request fault id) h =
      delete-BothFresh capacity fault id s h
  Request-BothFresh capacity s s' (run_request fault id) h =
      ((lookup-Fresh load_compile capacity fault id s.db s.engines h.0).0, h.1)
  Request-BothFresh capacity s s' (resumable_request fault id) h =
      (h.0, (lookup-Fresh load_compile_v2 capacity fault id s.db s.engines_v2 h.1).0)

  Requests-BothFresh :
      (capacity : ℕ) (db : Tables) (s : Server E F)
      → Requests (new_server capacity db) s
      → BothFresh capacity s
  unfolding BothFresh
  Requests-BothFresh capacity db s no_request =
      (new-Fresh load_compile capacity db, new-Fresh load_compile_v2 capacity db)
  Requests-BothFresh capacity db s (next_request s₁ s₂ before last) =
      Request-BothFresh capacity s₁ s₂ last (Requests-BothFresh capacity db s₁ before)

  -- After any requests to a new server, one after the other, in which no read of a replaced flow fails,
  -- an engine that is found for a flow is what the flow in the store compiles to, for both engines.
  pub engines-IsCurrent :
      (capacity : ℕ) (db : Tables) (s : Server E F) (fault : Option String) (id : String)
      → Requests (new_server capacity db) s
      → ((engine : E)
          → (engine_for load_compile fault id s).0 ≡ ok engine
          → IsCurrent load_compile s.db id engine)
        × ((engine : F)
            → (engine_for_v2 load_compile_v2 fault id s).0 ≡ ok engine
            → IsCurrent load_compile_v2 s.db id engine)
  unfolding BothFresh engine_for engine_for_v2
  engines-IsCurrent capacity db s fault id requests =
      let (fresh, fresh_v2) = Requests-BothFresh capacity db s requests in
      (
        (lookup-Fresh load_compile capacity fault id s.db s.engines fresh).1,
        (lookup-Fresh load_compile_v2 capacity fault id s.db s.engines_v2 fresh_v2).1,
      )
