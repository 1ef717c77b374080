-- ===== src/Graph/Streams.antt =====
-- Data streams and their concatenators: v2/flow/graph/stream.go. A source is what a stream will give: its
-- frames, and the error that it ends with if it does not end with io.EOF. Streams are numbered in the
-- order in which they are opened; the wrappers that only pass `Next` and `Close` on are left out.

pub mod Linear
pub mod Lookups
pub mod Steps
pub mod Readers
pub mod Releases
pub mod Chains
use llm_agent_flow.Base.{
  ℕ, ◌+◌, nat_eq, String, Bool, true, false, Option, none, some, List, [], ◌∷◌, ok, err, ◌==◌,
  if◌then◌else◌,
}
use Prim.Native.String.{◌++◌ as concat}
use llm_agent_flow.V2.Errors.{RunError, foreign, Run}
use llm_agent_flow.V2.Value.{Value, str}
use llm_agent_flow.Graph.Types.{GoType, Reflect, fits, deferred, unfit, panics, assignable}

pub record Source : Type 0 where
  pub frames : List Value
  pub failure : Option RunError

-- All streams, by the order in which they were opened.
pub record Streams : Type 0 where
  pub opened : ℕ
  pub sources : ℕ → Source
  pub closed : ℕ → Bool

abbrev pub stored_at : {A : Type 0} → ℕ → A → (ℕ → A) → ℕ → A
stored_at i v f j = if nat_eq i j then v else f j

unfoldable pub open_stream : Source → Streams → Streams
open_stream src s = record {
  opened = s.opened + 1;
  sources = stored_at s.opened src s.sources;
  closed = stored_at s.opened false s.closed;
}

unfoldable pub close_stream : ℕ → Streams → Streams
close_stream i s = record s { closed = stored_at i true s.closed }

-- A registered concatenator reads a stream to its value.
abbrev pub Concatenator : Type 0
Concatenator = ℕ → Streams → Run Value × Streams

-- The loop of the built-in concatenator of strings: what it returns, and what it leaves unread.
unfoldable pub join_frames : List Value → Option RunError → String → Run Value × List Value
join_frames [] none b = (ok (str b), [])
join_frames [] (some e) b = (err e, [])
join_frames (str s ∷ frames) failure b = join_frames frames failure (concat b s)
join_frames (_ ∷ frames) failure b = (err (foreign "graph: stream: element is not string"), frames)

unfoldable pub join_strings : Concatenator
unfolding join_frames close_stream
join_strings i s =
    let (result, rest) = join_frames (s.sources i).frames (s.sources i).failure "" in
    (
      result,
      close_stream i (record s {
        sources = stored_at i (record { frames = rest; failure = (s.sources i).failure }) s.sources;
      }),
    )

-- map[reflect.Type]func
abbrev pub Concatenators : Type 0
Concatenators = List (GoType × Concatenator)

unfoldable pub register_concat : GoType → Concatenator → Concatenators → Concatenators
register_concat t f [] = (t, f) ∷ []
register_concat t f ((k, g) ∷ r) =
    let rest = register_concat t f r in if k == t then (t, f) ∷ r else (k, g) ∷ rest

unfoldable pub exact_concat : GoType → Concatenators → Option Concatenator
exact_concat t [] = none
exact_concat t ((k, f) ∷ r) = let rest = exact_concat t r in if k == t then some f else rest

-- `lookup_panicked` is a method call on a nil `reflect.Type`.
pub data Lookup : Type 0 where
  found : Concatenator → Lookup
  missing lookup_panicked : Lookup

abbrev pub is_found : Lookup → Bool
is_found (found f) = true
is_found missing = false
is_found lookup_panicked = false

module _ (reflect : Reflect) where
  -- The registered types that fit the target.
  unfoldable pub matching : Option GoType → Concatenators → Option (List Concatenator)
  unfolding assignable
  matching t [] = some []
  matching t ((k, f) ∷ r) =
      let rest = matching t r in
      elim (assignable reflect (some k) t) [
        | fits ↦ elim rest [ none ↦ none | some fs ↦ some (f ∷ fs) ]
        | panics ↦ none
        | deferred ↦ rest
        | unfit ↦ rest
      ]

  abbrev pub only_one : Option (List Concatenator) → Lookup
  only_one none = lookup_panicked
  only_one (some []) = missing
  only_one (some (f ∷ [])) = found f
  only_one (some (f ∷ g ∷ fs)) = missing

  unfoldable pub lookup_concat : Concatenators → Option GoType → Lookup
  unfolding exact_concat matching
  lookup_concat registry none = only_one (matching none registry)
  lookup_concat registry (some t) = elim (exact_concat t registry) [
    | some f ↦ found f
    | none ↦ only_one (matching (some t) registry)
  ]
