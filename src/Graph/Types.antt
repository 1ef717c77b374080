-- ===== src/Graph/Types.antt =====
-- The type rules of the builder: v2/flow/graph/typecheck.go. A Go type is its identity as a text; of
-- `reflect` the code uses what `Reflect` holds, and `none` is a nil `reflect.Type`.
pub mod Delivers
use llm_agent_flow.Base.{
  String, Bool, true, false, not, ◌&&◌, ◌||◌, Option, none, some, ◌==◌, if◌then◌else◌,
}

abbrev pub GoType : Type 0
GoType = String

abbrev pub any_type : GoType
any_type = "interface {}"

pub record Reflect : Type 0 where
  pub is_interface : GoType → Bool
  pub is_pointer : GoType → Bool
  pub pointer_to : GoType → GoType
  pub implements : GoType → GoType → Bool

-- `deferred` is `(true, true)`; `panics` is a method call on a nil `reflect.Type`.
pub data Verdict : Type 0 where
  fits deferred unfit panics : Verdict

abbrev pub accepts : Verdict → Bool
accepts fits = true
accepts deferred = true
accepts unfit = false
accepts panics = false

module _ (reflect : Reflect) where
  -- `case to.Kind() == reflect.Interface`
  abbrev pub implements_or_pointer : GoType → GoType → Verdict
  implements_or_pointer from to =
      if reflect.implements from to
      then fits
      else if not (reflect.is_pointer from) && reflect.implements (reflect.pointer_to from) to
      then fits
      else unfit

  unfoldable pub assignable : Option GoType → Option GoType → Verdict
  assignable none none = fits
  assignable none (some to) =
      if to == any_type then fits else if reflect.is_interface to then panics else unfit
  assignable (some from) none = if from == any_type then deferred else panics
  assignable (some from) (some to) =
      if from == to
      then fits
      else if to == any_type
      then fits
      else if from == any_type
      then deferred
      else if reflect.is_interface to
      then implements_or_pointer from to
      else unfit

  -- `_, ok := raw.(In)`, by the dynamic type of `raw`, which is `none` for a nil interface value.
  unfoldable pub asserts : Option GoType → GoType → Bool
  asserts none to = false
  asserts (some dynamic) to =
      if reflect.is_interface to then reflect.implements dynamic to else dynamic == to
