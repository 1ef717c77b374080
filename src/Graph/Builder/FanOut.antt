-- ===== src/Graph/Builder/FanOut.antt =====
-- The nodes with several targets or several sources: `AddBranch`, `AddCopy`, `AddParallel`,
-- `AddCombine`, `AddStreamMerge` and `AddZip` of v2/flow/graph/branch.go, copy.go, parallel.go and
-- merge.go. Go visits a map in any order; the order is that of the entries given.
use llm_agent_flow.Base.{
  String, Bool, false, Option, none, some, List, [], ◌∷◌, ◌++◌, Result, ok, err, update, sort, ◌==◌,
  if◌then◌else◌,
}
use llm_agent_flow.V2.Value.{Value}
use llm_agent_flow.V2.Nodes.{NodeKind}
use llm_agent_flow.Graph.Types.{GoType, Reflect, Verdict, fits, deferred, unfit, panics, assignable}
use llm_agent_flow.Graph.Adapters.{
  port_in, port_out, Entries, Closure, branch_adapter, fan_out_adapter, combine_adapter,
  stream_merge_adapter, zip_adapter,
}
use llm_agent_flow.Graph.Builder.{
  NodeRef, GraphEdge, GraphError, nil_func, no_targets, empty_key, target_unfit, source_unfit,
  panicked, Graph, Built, stop, add_node, then_mark, mark_in_process,
}

abbrev pub branch_reason : String
branch_reason = "branch node holds a Go key function (in-process only)"

abbrev pub copy_reason : String
copy_reason = "copy fan-out node (in-process only)"

abbrev pub parallel_reason : String
parallel_reason = "parallel fan-out node (in-process only)"

abbrev pub combine_reason : String
combine_reason = "combine fan-in node (in-process only)"

abbrev pub merge_reason : String
merge_reason = "streaming merge fan-in node (in-process only)"

abbrev pub keys_of {ℓ} : {A : Type ℓ} → Entries A → List String
keys_of [] = []
keys_of ((k, a) ∷ m) = k ∷ keys_of m

unfoldable pub target_edges : String → Entries NodeRef → List GraphEdge
target_edges id [] = []
target_edges id ((k, target) ∷ m) =
    record { from = id; to = target.id; from_port = k; to_port = port_in } ∷ target_edges id m

unfoldable pub source_edges : String → Entries NodeRef → List GraphEdge
source_edges id [] = []
source_edges id ((k, src) ∷ m) =
    record { from = src.id; to = id; from_port = port_out; to_port = k } ∷ source_edges id m

abbrev pub with_edges : List GraphEdge → Graph → Graph
with_edges es g = record g { edges = g.edges ++ es }

-- `g.byID[id] = ref`, where `ref` has its input ports by now.
abbrev pub with_ports : NodeRef → Graph → Graph
with_ports ref g = record g { by_id = update g.by_id ref.id (some ref) }

-- The checks come before anything is registered.
abbrev pub after_check : Result GraphError (Unit {0}) → Graph → Built NodeRef → Built NodeRef
after_check (ok _) g next = next
after_check (err e) g next = stop g e

-- The node with a port for each target, and its edges.
unfoldable pub finish_fan_out :
    String → Graph → String → GoType → Entries NodeRef → NodeKind → Built NodeRef
unfolding add_node mark_in_process target_edges
finish_fan_out reason g id t targets kind =
    then_mark (add_node g id (some t) (some t) kind false)
      (λ ref h. (ref, with_edges (target_edges id targets) (mark_in_process id reason h)))

-- `finishMergeNode`, and the end of `AddCombine`.
unfoldable pub finish_merge_node :
    String
    → Graph
    → String
    → Entries NodeRef
    → Entries (Option GoType)
    → GoType
    → NodeKind
    → Built NodeRef
unfolding add_node mark_in_process source_edges
finish_merge_node reason g id sources in_ports out_t kind =
    then_mark (add_node g id none (some out_t) kind false) (λ ref h.
      let wired = record ref { in_ports = some in_ports } in
      (
        wired,
        with_edges (source_edges id sources) (mark_in_process id reason (with_ports wired h)),
      ))

unfoldable pub check_keys : String → Entries NodeRef → Result GraphError (Unit {0})
check_keys id [] = ok tt
check_keys id ((k, src) ∷ m) = if k == "" then err (empty_key id) else check_keys id m

abbrev pub has_type : Option GoType → GoType → Bool
has_type none t = false
has_type (some s) t = s == t

-- The loop of `validateMergeSources`.
unfoldable pub check_sources : String → GoType → Entries NodeRef → Result GraphError (Unit {0})
check_sources id elem_t [] = ok tt
check_sources id elem_t ((k, src) ∷ m) =
    let rest = check_sources id elem_t m in
    if k == ""
    then err (empty_key id)
    else if has_type src.out_t elem_t
    then rest
    else err (source_unfit id src.id)

abbrev pub out_types : Entries NodeRef → Entries (Option GoType)
out_types [] = []
out_types ((k, src) ∷ m) = (k, src.out_t) ∷ out_types m

abbrev pub elem_types : GoType → Entries NodeRef → Entries (Option GoType)
elem_types elem_t [] = []
elem_types elem_t ((k, src) ∷ m) = (k, some elem_t) ∷ elem_types elem_t m

-- `len(m) == 0`
unfoldable pub non_empty : String → Entries NodeRef → Result GraphError (Unit {0})
non_empty id [] = err (no_targets id)
non_empty id (_ ∷ _) = ok tt

unfoldable pub add_combine :
    Graph
    → String
    → GoType
    → Entries NodeRef
    → Option (Closure (Entries Value) Value)
    → Built NodeRef
unfolding check_keys finish_merge_node combine_adapter sort non_empty
add_combine g id out_t sources none = stop g (nil_func id)
add_combine g id out_t sources (some combine) = after_check (non_empty id sources) g (
    after_check (check_keys id sources) g (
      finish_merge_node combine_reason g id sources (out_types sources) out_t
        (combine_adapter id (sort (keys_of sources)) combine)))

-- `if ok, _ := …; !ok { return … }`, then the rest of the loop.
abbrev pub admitted :
    Verdict → GraphError → Result GraphError (Unit {0}) → Result GraphError (Unit {0})
admitted fits e rest = rest
admitted deferred e rest = rest
admitted unfit e rest = err e
admitted panics e rest = err panicked

-- `AddStreamMerge` and `AddZip`, with the adapter.
unfoldable pub add_merge :
    Graph → String → GoType → GoType → Entries NodeRef → NodeKind → Built NodeRef
unfolding check_sources finish_merge_node non_empty
add_merge g id elem_t out_t sources kind = after_check (non_empty id sources) g (
    after_check (check_sources id elem_t sources) g
      (finish_merge_node merge_reason g id sources (elem_types elem_t sources) out_t kind))

module _ (reflect : Reflect) where
  unfoldable pub check_targets : String → GoType → Entries NodeRef → Result GraphError (Unit {0})
  unfolding assignable
  check_targets id t [] = ok tt
  check_targets id t ((k, target) ∷ m) =
      let rest = check_targets id t m in
      if k == ""
      then err (empty_key id)
      else admitted (assignable reflect (some t) target.in_t) (target_unfit id target.id) rest

  -- What `AddBranch`, `AddCopy` and `AddParallel` have in common.
  unfoldable pub add_fan_out :
      String → Graph → String → GoType → Entries NodeRef → NodeKind → Built NodeRef
  unfolding check_targets finish_fan_out non_empty
  add_fan_out reason g id t targets kind =
      after_check (non_empty id targets) g
        (after_check (check_targets id t targets) g (finish_fan_out reason g id t targets kind))

  module _ (type_of : Value → Option GoType) where
    -- The keys of a branch are not sorted.
    unfoldable pub add_branch :
        Graph → String → GoType → Entries NodeRef → Option (Closure Value String) → Built NodeRef
    unfolding add_fan_out branch_adapter
    add_branch g id t routes none = stop g (nil_func id)
    add_branch g id t routes (some key) =
        add_fan_out branch_reason g id t routes
          (branch_adapter reflect type_of id key (keys_of routes) t)

    unfoldable pub add_copy : Graph → String → GoType → Entries NodeRef → Built NodeRef
    unfolding add_fan_out fan_out_adapter sort
    add_copy g id t targets =
        add_fan_out copy_reason g id t targets
          (fan_out_adapter reflect type_of id (sort (keys_of targets)) t)

    unfoldable pub add_parallel : Graph → String → GoType → Entries NodeRef → Built NodeRef
    unfolding add_fan_out fan_out_adapter sort
    add_parallel g id t targets =
        add_fan_out parallel_reason g id t targets
          (fan_out_adapter reflect type_of id (sort (keys_of targets)) t)

    unfoldable pub add_stream_merge :
        Graph
        → String
        → GoType
        → GoType
        → Entries NodeRef
        → Option (Closure (List Value) Value)
        → Built NodeRef
    unfolding add_merge stream_merge_adapter sort
    add_stream_merge g id elem_t out_t sources none = stop g (nil_func id)
    add_stream_merge g id elem_t out_t sources (some combine) =
        add_merge g id elem_t out_t sources
          (stream_merge_adapter reflect type_of id (sort (keys_of sources)) elem_t combine)

    unfoldable pub add_zip :
        Graph
        → String
        → GoType
        → GoType
        → Entries NodeRef
        → Option (Closure (List (List Value)) Value)
        → Built NodeRef
    unfolding add_merge zip_adapter sort
    add_zip g id elem_t out_t sources none = stop g (nil_func id)
    add_zip g id elem_t out_t sources (some combine) =
        add_merge g id elem_t out_t sources
          (zip_adapter reflect type_of id (sort (keys_of sources)) elem_t combine)
