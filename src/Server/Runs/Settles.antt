-- ===== src/Server/Runs/Settles.antt =====
-- cmd/flowd/server/server.go: a run that was started is finished in the store, however its engine ends.
use llm_agent_flow.Base.{String, Option, none, some, List, [], Result, ok, err}
use llm_agent_flow.Server.Flows.{Server}
use llm_agent_flow.Server.Runs.{RunFailure, FlowEvent, final}

abbrev ending : List (String × String) → Option RunFailure → List (String × String) × String
ending outputs none = (outputs, "")
ending outputs (some e) = ([], e.text)

-- The outputs and the error text that a run is finished with.
unfoldable pub closing : Result RunFailure (List FlowEvent) → List (String × String) × String
closing (err e) = ([], e.text)
closing (ok events) = ending (final events ([], none)).0 (final events ([], none)).1
