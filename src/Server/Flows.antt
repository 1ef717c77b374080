-- ===== src/Server/Flows.antt =====
-- cmd/flowd/server/server.go: the flows of the daemon and the engines it keeps for them. The decoding of
-- JSON and the two `LoadCompile` are parameters; an error text is a constructor with what it quotes.
use llm_agent_flow.Base.{
  ℕ, String, true, false, not, ◌&&◌, Option, none, some, Result, ok, err, ◌==◌, if◌then◌else◌,
}
use llm_agent_flow.Store.{FlowRecord, Tables, Faults, StoreError, not_found, already_exists}
use llm_agent_flow.Store.Flows.{get_flow, put_flow, delete_flow}
use llm_agent_flow.Server.Lru.{EngineCache, new_engine_cache, get, set, delete}

pub record CreateFlowRequest : Type 0 where
  pub id : String
  pub name : String
  pub flow : String

pub data HttpError : Type 0 where
  decode_body : String → HttpError
  flow_required : HttpError
  flow_head : String → HttpError
  missing_flow_id : HttpError
  head_mismatch : String → String → HttpError
  url_mismatch : String → String → HttpError
  flow_compile : String → HttpError
  flow_exists : String → HttpError
  flow_not_found : String → HttpError
  store_failed : StoreError → HttpError

-- A status code, and the body.
pub record Reply : Type 0 where
  pub status : ℕ
  pub body : Option (Result HttpError FlowRecord)

abbrev pub write_error : ℕ → HttpError → Reply
write_error status e = record { status = status; body = some (err e) }

abbrev pub write_json : ℕ → FlowRecord → Reply
write_json status rec = record { status = status; body = some (ok rec) }

-- Why no engine is given for a flow.
pub data EngineError : Type 0 where
  load_failed : StoreError → EngineError
  compile_failed : String → EngineError

-- `engineFor` and `engineForV2`, which differ in the loader and the cache.
unfoldable pub lookup_engine :
    {E : Type 0}
    → (String → Result String E)
    → Option String
    → String
    → Tables
    → EngineCache E
    → Result EngineError E × EngineCache E
lookup_engine load_compile fault id db engines =
    let (hit, engines') = get id engines in
    elim hit [
      | some engine ↦ (ok engine, engines')
      | none ↦ elim (get_flow fault id db) [
        | err e ↦ (err (load_failed e), engines')
        | ok rec ↦ elim (load_compile rec.json) [
          | err e ↦ (err (compile_failed e), engines')
          | ok engine ↦ (ok engine, set id engine engines')
        ]
      ]
    ]

module _ (decode_head : String → Result String (String × String)) where
  -- The id and the name that a new flow gets.
  unfoldable pub flow_header_from_body :
      String → String → String → Result HttpError (String × String)
  flow_header_from_body req_id req_name body =
      if body == "" then err flow_required else elim (decode_head body) [
        | err e ↦ err (flow_head e)
        | ok head ↦
            let id = if req_id == "" then head.0 else req_id in
            let name = if req_name == "" then head.1 else req_name in
            if id == ""
            then err missing_flow_id
            else if not (head.0 == "") && not (head.0 == id)
            then err (head_mismatch head.0 id)
            else ok (id, name)
      ]

  -- The body's own name, or the empty text when the header is refused.
  unfoldable pub name_of : String → CreateFlowRequest → String
  unfolding flow_header_from_body
  name_of id req =
      if req.name == ""
      then elim (flow_header_from_body id "" req.flow) [ ok p ↦ p.1 | err e ↦ "" ]
      else req.name

unfoldable pub compile_probe : {E : Type 0} → (String → Result String E) → String → Option HttpError
compile_probe load_compile body = elim (load_compile body) [
  | ok engine ↦ none
  | err e ↦ some (flow_compile e)
]

-- The replies to an error of the store.
abbrev pub read_error : String → StoreError → Reply
read_error id not_found = write_error 404 (flow_not_found id)
read_error id e = write_error 500 (store_failed e)

abbrev pub create_error : String → StoreError → Reply
create_error id already_exists = write_error 409 (flow_exists id)
create_error id e = write_error 500 (store_failed e)

pub record Server (E F : Type 0) : Type 0 where
  pub db : Tables
  pub engines : EngineCache E
  pub engines_v2 : EngineCache F

module _ {E F : Type 0} where
  -- `New`, over the tables of its store.
  abbrev pub new_server : ℕ → Tables → Server E F
  new_server capacity db = record {
    db = db;
    engines = new_engine_cache capacity;
    engines_v2 = new_engine_cache capacity;
  }

  unfoldable pub engine_evict : String → Server E F → Server E F
  engine_evict id s = record s {
    engines = delete id s.engines;
    engines_v2 = delete id s.engines_v2;
  }

  unfoldable pub handle_get_flow : Option String → String → Server E F → Reply
  handle_get_flow fault id s = elim (get_flow fault id s.db) [
    | ok rec ↦ write_json 200 rec
    | err e ↦ read_error id e
  ]

  unfoldable pub handle_delete_flow : Option String → String → Server E F → Reply × Server E F
  unfolding engine_evict
  handle_delete_flow fault id s =
      let (error, db) = delete_flow fault id s.db in
      elim error [
        | none ↦ (record { status = 204; body = none }, engine_evict id (record s { db = db }))
        | some e ↦ (read_error id e, record s { db = db })
      ]

  module _ (load_compile : String → Result String E) where
    -- `engineFor`
    unfoldable pub engine_for :
        Option String → String → Server E F → Result EngineError E × Server E F
    unfolding lookup_engine
    engine_for fault id s =
        let (found, engines) = lookup_engine load_compile fault id s.db s.engines in
        (found, record s { engines = engines })

    module _ (decode_head : String → Result String (String × String)) where
      unfoldable pub handle_create_flow :
          Faults → (now : ℕ) → Result String CreateFlowRequest → Server E F → Reply × Server E F
      unfolding flow_header_from_body compile_probe
      handle_create_flow faults now (err e) s = (write_error 400 (decode_body e), s)
      handle_create_flow faults now (ok req) s =
          elim (flow_header_from_body decode_head req.id req.name req.flow) [
            | err e ↦ (write_error 400 e, s)
            | ok head ↦ elim (compile_probe load_compile req.flow) [
              | some e ↦ (write_error 400 e, s)
              | none ↦
                  let (result, db) = put_flow faults now head.0 head.1 req.flow true s.db in
                  elim result [
                    | ok rec ↦ (write_json 201 rec, record s { db = db })
                    | err e ↦ (create_error head.0 e, record s { db = db })
                  ]
            ]
          ]

      unfoldable pub handle_put_flow :
          Faults
          → (now : ℕ) → (id : String) → Result String CreateFlowRequest
          → Server E F
          → Reply × Server E F
      unfolding compile_probe engine_evict
      handle_put_flow faults now id (err e) s = (write_error 400 (decode_body e), s)
      handle_put_flow faults now id (ok req) s =
          if not (req.id == "") && not (req.id == id)
          then (write_error 400 (url_mismatch req.id id), s)
          else if req.flow == ""
          then (write_error 400 flow_required, s)
          else elim (compile_probe load_compile req.flow) [
            | some e ↦ (write_error 400 e, s)
            | none ↦
                let (result, db) =
                  put_flow faults now id (name_of decode_head id req) req.flow false s.db in
                elim result [
                  | err e ↦ (write_error 500 (store_failed e), record s { db = db })
                  | ok rec ↦ (write_json 200 rec, engine_evict id (record s { db = db }))
                ]
          ]

  module _ (load_compile_v2 : String → Result String F) where
    -- `engineForV2`
    unfoldable pub engine_for_v2 :
        Option String → String → Server E F → Result EngineError F × Server E F
    unfolding lookup_engine
    engine_for_v2 fault id s =
        let (found, engines) = lookup_engine load_compile_v2 fault id s.db s.engines_v2 in
        (found, record s { engines_v2 = engines })
