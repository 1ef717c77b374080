-- ===== src/V2/RoundRobin.antt =====
-- v2/flow/graph/combinators.go and merge.go: the round-robin merge of streams, and the fold that puts the
-- merged frames in a list for each source. A slice of length `n` is a function on the numbers below it.
-- The channel of a source holds what its puller will send: frames up to the end or the first error.
pub mod Pick
pub mod Delivers
use Prim.Native.Nat.{◌%◌}
use llm_agent_flow.Base.{
  ℕ, zero, suc, ◌+◌, ◌-◌, Bool, true, false, Option, none, some, List, [], ◌∷◌, ◌++◌, Result, ok,
  err, nat_eq, if◌then◌else◌,
}

-- s[i] = v
abbrev pub set_at {ℓ} : {A : Type ℓ} → (ℕ → A) → ℕ → A → ℕ → A
set_at s i v j = if nat_eq j i then v else s j

pub record RoundRobinReader (E T : Type 0) : Type 0 where
  pub n : ℕ
  pub chans : ℕ → List (Result E T)
  pub cur : ℕ
  pub exhausted : ℕ → Bool

-- What `Next` returns of an open reader: the end, or an item of a source.
pub data Next (E T : Type 0) : Type 0 where
  end_of_stream : Next E T
  item : ℕ → Result E T → RoundRobinReader E T → Next E T
  out_of_fuel : Next E T

module _ {E T : Type 0} where
  -- `pullRoundRobin`: a source that ends after its items.
  unfoldable pub pulled : List (Result E T) → List (Result E T)
  pulled [] = []
  pulled (ok v ∷ src) = ok v ∷ pulled src
  pulled (err e ∷ src) = err e ∷ []

  abbrev pub round_robin_merge : ℕ → (ℕ → List (Result E T)) → RoundRobinReader E T
  round_robin_merge n srcs = record {
    n = n;
    chans = λ i. pulled (srcs i);
    cur = 0;
    exhausted = λ i. false;
  }

  -- The search for a source that is not exhausted, from offset `off` on, with `left` offsets to go.
  unfoldable pub pick : RoundRobinReader E T → (off left : ℕ) → Option ℕ
  pick m off zero = none
  pick m off (suc left) =
      let i = (m.cur + off) % m.n in
      let rest = pick m (suc off) left in if m.exhausted i then rest else some i

  unfoldable pub next : ℕ → RoundRobinReader E T → Next E T
  unfolding pick
  next zero m = out_of_fuel
  next (suc fuel) m = elim (pick m 0 m.n) [
    | none ↦ end_of_stream
    | some i ↦ elim (m.chans i) [
      | [] ↦ next fuel (record m { exhausted = set_at m.exhausted i true; cur = i })
      | x ∷ rest ↦ item i x (record m { chans = set_at m.chans i rest; cur = (i + 1) % m.n })
    ]
  ]

  -- `drainMergedPerSource`, where each frame is tagged with the index of its source: `none` means that the
  -- fuel was not enough.
  unfoldable pub drain_merged_per_source :
      (fuel : ℕ) → RoundRobinReader E T → (ℕ → List T) → Option (Result E (ℕ → List T))
  unfolding next
  drain_merged_per_source zero m per_source = none
  drain_merged_per_source (suc fuel) m per_source = elim (next (suc fuel) m) [
    | end_of_stream ↦ some (ok per_source)
    | out_of_fuel ↦ none
    | item i x m' ↦ elim x [
      | err e ↦ some (err e)
      | ok v ↦ drain_merged_per_source fuel m' (set_at per_source i (per_source i ++ v ∷ []))
    ]
  ]
