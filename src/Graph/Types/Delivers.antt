-- ===== src/Graph/Types/Delivers.antt =====
-- What the static rules promise of the values that an edge carries.
use llm_agent_flow.Base.{Bool, true, not, ◌&&◌, ◌≡◌, some, arith, eq_iff, ◌==◌}
use llm_agent_flow.Graph.Types.{GoType, any_type, Reflect, fits, assignable, asserts}

-- Go's rules for `Implements`: every type has the methods of `any`, an interface has its own, what
-- has the methods of an interface has those it implements, and a pointer to an interface has none.
pub record IsGo (reflect : Reflect) : Type 0 where
  pub any_is_interface : reflect.is_interface any_type ≡ true
  pub implements_any : (t : GoType) → reflect.implements t any_type ≡ true
  pub implements_self : (t : GoType) → reflect.is_interface t ≡ true → reflect.implements t t ≡ true
  pub implements_trans :
      (r s t : GoType)
      → reflect.is_interface s ≡ true
      → reflect.implements r s ≡ true
      → reflect.implements s t ≡ true
      → reflect.implements r t ≡ true
  pub no_methods :
      (s t : GoType)
      → reflect.is_interface s ≡ true
      → reflect.implements (reflect.pointer_to s) t ≡ true
      → reflect.implements s t ≡ true

module _ (reflect : Reflect) (go : IsGo reflect) where
  -- The edge was accepted for the methods of the pointer type alone.
  abbrev pub only_by_pointer : GoType → GoType → Bool
  only_by_pointer from to =
      not (from == to) && not (to == any_type) && not (reflect.implements from to)

  -- An edge between known types that `assignable` accepts without deferring to run time hands over
  -- every value that is not a nil interface: a value of the source's type passes the assertion that
  -- the target node makes, except where only the pointer to the source's type has the methods of the
  -- target; such an edge is accepted too, and every value of it fails the assertion.
  pub assignable-asserts :
      (from to dynamic : GoType)
      → assignable reflect (some from) (some to) ≡ fits
      → asserts reflect (some dynamic) from ≡ true
      → asserts reflect (some dynamic) to ≡ not (only_by_pointer from to)
  unfolding assignable asserts
  assignable-asserts from to dynamic accepted valued = ground (
    arith,
    eq_iff from to,
    eq_iff to any_type,
    eq_iff from any_type,
    eq_iff dynamic from,
    eq_iff dynamic to,
    go.any_is_interface,
    go.implements_any dynamic,
    go.implements_trans dynamic from to,
    go.no_methods from to,
  )
