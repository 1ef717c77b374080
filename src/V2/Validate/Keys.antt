-- ===== src/V2/Validate/Keys.antt =====
-- The text by which `Validate` tells edges apart does not separate a node id from a port name.
use llm_agent_flow.Base.{
  String, ◌≡◌, ◌≢◌, ap, none, List, ◌∷◌, ◌++◌, map, ◌+◌, arith, count, count-append, eq_iff,
}
use Prim.Native.String.{◌++◌ as concat}
use mathlib.Core.List.{map-append}
use text.Mathlib.TextLemmas.{append_assoc}
use llm_agent_flow.V2.Ir.{PortRef, Edge, Flow}
use llm_agent_flow.V2.Validate.{edge_key, validate}
use llm_agent_flow.V2.Validate.Accepts.{validate-IsWellFormed}

-- From the port `p.q` of the node `n`, and from the port `q` of the node `n.p`.
module _ (n p q : String) (target : PortRef) where
  abbrev pub long_port : Edge
  long_port = record {
    source = record { node = n; port = concat (concat p ".") q };
    target = target;
    condition = "";
  }

  abbrev pub long_node : Edge
  long_node = record {
    source = record { node = concat (concat n ".") p; port = q };
    target = target;
    condition = "";
  }

  same_key : edge_key long_port ≡ edge_key long_node
  unfolding edge_key
  same_key =
      ap (λ s. concat (concat (concat (concat s " -> ") target.node) ".") target.port)
        (simp append_assoc)

  -- A flow with both edges is rejected, although their sources are different ports.
  pub dotted_edges_rejected :
      (f : Flow) (before between after : List Edge)
      → f.edges ≡ before ++ (long_port ∷ (between ++ (long_node ∷ after)))
      → validate f ≢ none
  dotted_edges_rejected f before between after e h =
      let later = between ++ (long_node ∷ after) in
      let keys =
        rw (e, map-append, count-append) at
          ((validate-IsWellFormed f h).keys (edge_key long_port)) in
      let rest : count (edge_key long_port) (map edge_key later)
          ≡ count (edge_key long_port) (map edge_key between)
            + count (edge_key long_port) (map edge_key (long_node ∷ after)) =
        rw (map-append, count-append) in
      ground (
        arith,
        rest,
        same_key,
        keys,
        eq_iff (edge_key long_port) (edge_key long_port),
        eq_iff (edge_key long_node) (edge_key long_port),
      )
