-- ===== src/Graph/Streams/Readers.antt =====
-- The readers of `Stream` close the stream that they hold.
use llm_agent_flow.Base.{
  ℕ, arith, nat_eq, true, false, ◌≡◌, refl, Option, List, [], ◌∷◌, Bool-cases, inl, inr,
}
use llm_agent_flow.V2.Value.{Value}
use llm_agent_flow.Graph.Types.{GoType, Reflect}
use llm_agent_flow.Graph.Streams.{Streams, close_stream, Concatenator}
use llm_agent_flow.Graph.Builder.Components.{event_type}
use llm_agent_flow.Graph.Streams.Linear.{stream, Reader, boxed, folding, reader_next, reader_close}
use llm_agent_flow.Graph.Streams.Lookups.{AllClosed, Closes}
use llm_agent_flow.Graph.Streams.Steps.{ClosedBut}

pub close_stream-AllClosed :
    (i : ℕ) (t : GoType) (s : Streams) → ClosedBut (stream i t) s → AllClosed (close_stream i s)
unfolding close_stream
close_stream-AllClosed i t s but j low = elim (Bool-cases (nat_eq i j)) [
  | inl e ↦ rw e refl
  | inr e ↦ rw e (but j low (ground arith))
]

-- The calls that a consumer makes.
pub data ReaderCall : Type 0 where
  asks_next asks_close : ReaderCall

abbrev pub Folds : Reader → Type 0
Folds (boxed v done closed) = Unit
Folds (folding i f done closed) = Closes f

-- Of a reader that was not called yet: only its own stream is open.
abbrev pub Owns : Reader → Streams → Type 0
Owns (boxed v done closed) s = AllClosed s
Owns (folding i f done closed) s =
    (done ≡ false) × (closed ≡ false) × ((t : GoType) → ClosedBut (stream i t) s)

module _ (reflect : Reflect) (type_of : Value → Option GoType) (out_t : GoType) where
  abbrev pub answer : ReaderCall → Reader → Streams → Reader × Streams
  answer asks_next r s = let given = reader_next reflect type_of out_t r s in (given.1, given.2)
  answer asks_close r s = reader_close r s

  unfoldable pub answers : List ReaderCall → Reader → Streams → Reader × Streams
  unfolding reader_next reader_close
  answers [] r s = (r, s)
  answers (c ∷ cs) r s = let after = answer c r s in answers cs after.0 after.1

  pub answer-Folds : (c : ReaderCall) (r : Reader) (s : Streams) → Folds r → Folds (answer c r s).0
  unfolding reader_next reader_close
  answer-Folds asks_next (boxed v done true) s closes = tt
  answer-Folds asks_next (boxed v true false) s closes = tt
  answer-Folds asks_next (boxed v false false) s closes = tt
  answer-Folds asks_next (folding i f done true) s closes = closes
  answer-Folds asks_next (folding i f true false) s closes = closes
  answer-Folds asks_next (folding i f false false) s closes = closes
  answer-Folds asks_close (boxed v done closed) s closes = tt
  answer-Folds asks_close (folding i f done closed) s closes = closes

  -- `Next` of a reader whose streams are closed, or that was not called yet.
  folded_closed :
      (i : ℕ) (f : Concatenator) (s : Streams)
      → Closes f
      → ClosedBut (stream i event_type) s
      → AllClosed (close_stream i (f i s).1)
  folded_closed i f s closes but =
      close_stream-AllClosed i event_type (f i s).1
        (λ j low differs. closes.others i j s (but j (ground (arith, closes.opened i s)) differs))

  -- The first call closes what the reader owns.
  pub answer-AllClosed :
      (c : ReaderCall) (r : Reader) (s : Streams) → Folds r → Owns r s → AllClosed (answer c r s).1
  unfolding reader_next reader_close
  answer-AllClosed asks_next (boxed v done true) s closes owns = owns
  answer-AllClosed asks_next (boxed v true false) s closes owns = owns
  answer-AllClosed asks_next (boxed v false false) s closes owns = owns
  answer-AllClosed asks_next (folding i f done true) s closes owns = absurd (ground (arith, owns.1))
  answer-AllClosed asks_next (folding i f true false) s closes owns =
      absurd (ground (arith, owns.0))
  answer-AllClosed asks_next (folding i f false false) s closes owns =
      folded_closed i f s closes (owns.2 event_type)
  answer-AllClosed asks_close (boxed v done closed) s closes owns = owns
  answer-AllClosed asks_close (folding i f true closed) s closes owns =
      absurd (ground (arith, owns.0))
  answer-AllClosed asks_close (folding i f false closed) s closes owns =
      close_stream-AllClosed i event_type s (owns.2 event_type)

  -- Later calls leave the streams closed.
  answer-keeps :
      (c : ReaderCall) (r : Reader) (s : Streams)
      → Folds r
      → AllClosed s
      → AllClosed (answer c r s).1
  unfolding reader_next reader_close
  answer-keeps asks_next (boxed v done true) s closes all = all
  answer-keeps asks_next (boxed v true false) s closes all = all
  answer-keeps asks_next (boxed v false false) s closes all = all
  answer-keeps asks_next (folding i f done true) s closes all = all
  answer-keeps asks_next (folding i f true false) s closes all = all
  answer-keeps asks_next (folding i f false false) s closes all =
      folded_closed i f s closes (λ j low differs. all j low)
  answer-keeps asks_close (boxed v done closed) s closes all = all
  answer-keeps asks_close (folding i f true closed) s closes all = all
  answer-keeps asks_close (folding i f false closed) s closes all =
      close_stream-AllClosed i event_type s (λ j low differs. all j low)

  pub answers-AllClosed :
      (cs : List ReaderCall) (r : Reader) (s : Streams)
      → Folds r
      → AllClosed s
      → AllClosed (answers cs r s).1
  unfolding answers
  answers-AllClosed [] r s closes all = all
  answers-AllClosed (c ∷ cs) r s closes all =
      answers-AllClosed cs (answer c r s).0 (answer c r s).1 (answer-Folds c r s closes)
        (answer-keeps c r s closes all)
