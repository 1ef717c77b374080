-- ===== src/V2/RoundRobin/Delivers.antt =====
-- v2/flow/graph/combinators.go and merge.go: the merge ends, and delivers each source in its order.
use Prim.Native.Nat.{◌%◌}
use native.Mathlib.Nat.{mod-lt}
use mathlib.Core.List.{append-nil}
use llm_agent_flow.Base.{
  ℕ, zero, suc, ◌+◌, ◌<◌, true, false, Option, none, some, List, [], ◌∷◌, ◌++◌, Result, ok, err,
  nat_eq, if◌then◌else◌, ◌≡◌, refl, ◌∙◌, sym, ap, arith, length, Bool-cases, inl, inr, Option-cases,
  subst,
}
use llm_agent_flow.V2.RoundRobin.{
  RoundRobinReader, set_at, pulled, round_robin_merge, pick, Next, end_of_stream, item, out_of_fuel,
  next, drain_merged_per_source,
}
use llm_agent_flow.V2.RoundRobin.Pick.{
  sum, sum_set, reached, grown, set_same, set_other, List-cases, pick-some, pick-none,
}

module _ {E T : Type 0} where
  weight_at : RoundRobinReader E T → ℕ → ℕ
  weight_at m i = if m.exhausted i then 0 else suc (length (m.chans i))

  weight : RoundRobinReader E T → ℕ
  weight m = sum m.n (weight_at m)

  abbrev pub oks : List T → List (Result E T)
  oks [] = []
  oks (v ∷ vs) = ok v ∷ oks vs

  -- A reader that still has to deliver `left i` of source `i`.
  record Ready (m : RoundRobinReader E T) (left : ℕ → List T) : Type 0 where
    cur_below : m.cur < m.n
    frames : (i : ℕ) → m.chans i ≡ oks (left i)
    over : (i : ℕ) → m.exhausted i ≡ true → left i ≡ []

  data IsNext (m : RoundRobinReader E T) (left : ℕ → List T) : Next E T → Type 0 where
    is_end : ((i : ℕ) → i < m.n → left i ≡ []) → IsNext m left end_of_stream
    is_item :
        (i : ℕ) (v : T) (rest : List T) (m' : RoundRobinReader E T)
        → left i ≡ v ∷ rest
        → m'.n ≡ m.n
        → weight m' < weight m
        → Ready m' (set_at left i rest)
        → IsNext m left (item i (ok v) m')

  lighter :
      (m m' : RoundRobinReader E T) (i : ℕ)
      → m'.n ≡ m.n
      → i < m.n
      → weight_at m' i < weight_at m i
      → ((j : ℕ) → nat_eq j i ≡ false → weight_at m' j ≡ weight_at m j)
      → weight m' < weight m
  unfolding weight sum weight_at
  lighter m m' i same h less others =
      rw (same) (omega (arith, sum_set m.n i (weight_at m) (weight_at m') h others, less))

  -- A reader after a source was found at its end.
  abbrev closed_source : RoundRobinReader E T → ℕ → RoundRobinReader E T
  closed_source m i = record m { exhausted = set_at m.exhausted i true; cur = i }

  abbrev after_item : RoundRobinReader E T → ℕ → List (Result E T) → RoundRobinReader E T
  after_item m i rest = record m { chans = set_at m.chans i rest; cur = (i + 1) % m.n }

  closed-Ready :
      (m : RoundRobinReader E T) (left : ℕ → List T) (i : ℕ)
      → Ready m left
      → i < m.n
      → left i ≡ []
      → Ready (closed_source m i) left
  closed-Ready m left i h below empty = record {
    cur_below = below;
    frames = h.frames;
    over = λ j shut. elim (Bool-cases (nat_eq j i)) [
      | inl own ↦ let same : i ≡ j = ground (arith, own) in subst (λ k. left k ≡ []) same empty
      | inr other ↦ h.over j (sym (set_other m.exhausted i true j other) ∙ shut)
    ];
  }

  closed-weight :
      (m : RoundRobinReader E T) (i : ℕ)
      → i < m.n
      → m.exhausted i ≡ false
      → weight (closed_source m i) < weight m
  unfolding weight_at
  closed-weight m i below alive =
      lighter m (closed_source m i) i refl below
        (rw (set_same m.exhausted i true, alive) (omega arith))
        (λ j other. rw (set_other m.exhausted i true j other) refl)

  after-Ready :
      (m : RoundRobinReader E T) (left : ℕ → List T) (i : ℕ) (v : T) (rest : List T)
      → Ready m left
      → m.exhausted i ≡ false
      → left i ≡ v ∷ rest
      → Ready (after_item m i (oks rest)) (set_at left i rest)
  after-Ready m left i v rest h alive holds = record {
    cur_below = mod-lt (i + 1) (omega (arith, h.cur_below));
    frames = λ j. elim (Bool-cases (nat_eq j i)) [
      | inl own ↦ rw (own) refl
      | inr other ↦ rw (other) (h.frames j)
    ];
    over = λ j shut. elim (Bool-cases (nat_eq j i)) [
      | inl own ↦
          let same : j ≡ i = ground (arith, own) in
          absurd (ground (arith, shut, alive, ap m.exhausted same))
      | inr other ↦ rw (other) (h.over j shut)
    ];
  }

  after-weight :
      (m : RoundRobinReader E T) (i : ℕ) (x : Result E T) (rest : List (Result E T))
      → i < m.n
      → m.exhausted i ≡ false
      → m.chans i ≡ x ∷ rest
      → weight (after_item m i rest) < weight m
  unfolding weight_at
  after-weight m i x rest below alive holds =
      lighter m (after_item m i rest) i refl below
        (rw (alive, set_same m.chans i rest, holds) (omega arith))
        (λ j other. rw (set_other m.chans i rest j other) refl)

  -- What a lighter reader with the same items delivers next.
  carried :
      (m m' : RoundRobinReader E T) (left : ℕ → List T) (x : Next E T)
      → m'.n ≡ m.n
      → weight m' < weight m
      → IsNext m' left x
      → IsNext m left x
  carried m m' left x same less (is_end all) =
      is_end (λ i h. all i (subst (λ n. i < n) (sym same) h))
  carried m m' left x same less (is_item i v rest m'' holds kept lower ready) =
      is_item i v rest m'' holds (kept ∙ same) (omega (arith, less, lower)) ready

  next-IsNext :
      (fuel : ℕ) (m : RoundRobinReader E T) (left : ℕ → List T)
      → weight m < fuel
      → Ready m left
      → IsNext m left (next fuel m)
  unfolding next
  next-IsNext zero m left enough h = absurd (omega (arith, enough))
  next-IsNext (suc fuel) m left enough h = elim (Option-cases (pick m 0 m.n)) [
    | inl all_over ↦
        rw (next, all_over)
          (is_end (λ i below.
            let (off, bound, meets) = reached m.cur i m.n h.cur_below below in
            h.over i (
              subst (λ k. m.exhausted k ≡ true) meets
                (pick-none m 0 m.n all_over off (omega arith) (omega (arith, bound))))))
    | inr (i, found) ↦
        let (below, alive) = pick-some m 0 m.n i (omega (arith, h.cur_below)) found in
        elim (List-cases (left i)) [
          | inl empty ↦
              let lower = closed-weight m i below alive in
              let drained : m.chans i ≡ [] = h.frames i ∙ ap oks empty in
              rw (next, found, drained)
                (carried m (closed_source m i) left _ refl lower (
                  next-IsNext fuel (closed_source m i) left (omega (arith, enough, lower))
                    (closed-Ready m left i h below empty)))
          | inr (v, rest, holds) ↦
              let filled : m.chans i ≡ ok v ∷ oks rest = h.frames i ∙ ap oks holds in
              rw (next, found, filled)
                (is_item i v rest (after_item m i (oks rest)) holds refl
                  (after-weight m i (ok v) (oks rest) below alive filled)
                  (after-Ready m left i v rest h alive holds))
        ]
  ]

  -- What the fold returns: to the lists that it has, it adds what is left of each source.
  IsDrained : ℕ → (ℕ → List T) → (ℕ → List T) → Option (Result E (ℕ → List T)) → Type 0
  IsDrained n per_source left out =
      (all : ℕ → List T) × (out ≡ some (ok all))
      × ((i : ℕ) → i < n → all i ≡ per_source i ++ left i)

  drain-IsDrained :
      (fuel : ℕ) (m : RoundRobinReader E T) (left per_source : ℕ → List T)
      → weight m < fuel
      → Ready m left
      → IsDrained m.n per_source left (drain_merged_per_source fuel m per_source)
  unfolding IsDrained drain_merged_per_source
  drain-IsDrained zero m left per_source enough h = absurd (omega (arith, enough))
  drain-IsDrained (suc fuel) m left per_source enough h =
      step (next (suc fuel) m) (next-IsNext (suc fuel) m left enough h)
        (λ m' left' per' lighter_m' ready.
          drain-IsDrained fuel m' left' per' (omega (arith, enough, lighter_m')) ready)
    where
      step :
          (x : Next E T)
          → IsNext m left x
          → ((m' : RoundRobinReader E T) (left' per' : ℕ → List T)
              → weight m' < weight m
              → Ready m' left'
              → IsDrained m'.n per' left' (drain_merged_per_source fuel m' per'))
          → IsDrained m.n per_source left (elim x [
            | end_of_stream ↦ some (ok per_source)
            | out_of_fuel ↦ none
            | item i y m' ↦ elim y [
              | err e ↦ some (err e)
              | ok v ↦
                  drain_merged_per_source fuel m' (set_at per_source i (per_source i ++ v ∷ []))
            ]
          ])
      step x (is_end all) again =
          (per_source, refl, λ i below. rw (all i below) (sym (append-nil (per_source i))))
      step x (is_item i v rest m' holds same lower ready) again =
          let (all, given, adds) =
            again m' (set_at left i rest) (set_at per_source i (per_source i ++ v ∷ [])) lower
              ready in
          (
            all,
            given,
            λ j below.
                adds j (subst (λ n. j < n) (sym same) below)
                ∙ grown j left per_source i v rest holds,
          )

  pulled-oks : (vs : List T) → pulled (oks vs) ≡ oks vs
  unfolding pulled
  pulled-oks [] = refl
  pulled-oks (v ∷ vs) = ap (λ l. ok v ∷ l) (pulled-oks vs)

  -- The round-robin merge of sources that end without an error, folded into a list for each source,
  -- ends with enough fuel, and gives each of one or more sources its frames in order.
  pub drain-round_robin_merge :
      (n : ℕ) (srcs : ℕ → List T)
      → 0 < n
      → (fuel : ℕ) × (all : ℕ → List T) × (drain_merged_per_source fuel
            (round_robin_merge n (λ i. oks (srcs i)))
            (λ i. [])
          ≡ some (ok all))
        × ((i : ℕ) → i < n → all i ≡ srcs i)
  unfolding IsDrained
  drain-round_robin_merge n srcs positive =
      let m : RoundRobinReader E T = round_robin_merge n (λ i. oks (srcs i)) in
      let (all, given, same) =
        drain-IsDrained (suc (weight m)) m srcs (λ i. []) (omega arith)
          (record {
            cur_below = positive;
            frames = λ i. pulled-oks (srcs i);
            over = λ i shut. absurd cc;
          }) in
      (suc (weight m), all, given, same)
