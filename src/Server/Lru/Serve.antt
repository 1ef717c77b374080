-- ===== src/Server/Lru/Serve.antt =====
-- cmd/flowd/server/lru.go: sequences of calls on a new cache.
use llm_agent_flow.Base.{
  ℕ, String, Option, some, List, [], ◌∷◌, ◌≡◌, ◌≤◌, ◌<◌, refl, ◌∙◌, length, arith, ap,
}
use llm_agent_flow.Server.Lru.{CacheEntry, EngineCache, new_engine_cache, get, set, delete, len}
use llm_agent_flow.Server.Lru.Slots.{length-elements}
use llm_agent_flow.Server.Lru.Recency.{
  drop, length-used, length-stored, length-drop, used-stored, used, stored,
}
use llm_agent_flow.Server.Lru.Holds.{new-Holds}
use llm_agent_flow.Server.Lru.Refines.{Shows, get-Shows, set-Shows, delete-Shows}

pub data Call (A : Type 0) : Type 0 where
  get_call : String → Call A
  set_call : String → A → Call A
  delete_call : String → Call A

module _ {A : Type 0} where
  -- The answers of the lookups among the calls, and what is left.
  unfoldable pub serve : List (Call A) → EngineCache A → List (Option A) × EngineCache A
  serve [] c = ([], c)
  serve (get_call key ∷ calls) c =
      let (found, c') = get key c in let (answers, end) = serve calls c' in (found ∷ answers, end)
  serve (set_call key value ∷ calls) c = serve calls (set key value c)
  serve (delete_call key ∷ calls) c = serve calls (delete key c)

  unfoldable pub recall :
      ℕ → List (Call A) → List (CacheEntry A) → List (Option A) × List (CacheEntry A)
  recall capacity [] recent = ([], recent)
  recall capacity (get_call key ∷ calls) recent =
      let (found, recent') = used key recent in
      let (answers, end) = recall capacity calls recent' in (found ∷ answers, end)
  recall capacity (set_call key value ∷ calls) recent =
      recall capacity calls (stored capacity key value recent)
  recall capacity (delete_call key ∷ calls) recent = recall capacity calls (drop key recent)

  serve-Shows :
      (capacity : ℕ) (calls : List (Call A)) (c : EngineCache A) (recent : List (CacheEntry A))
      → Shows capacity c recent
      → ((serve calls c).0 ≡ (recall capacity calls recent).0)
        × Shows capacity (serve calls c).1 (recall capacity calls recent).1
  unfolding serve recall
  serve-Shows capacity [] c recent h = (refl, h)
  serve-Shows capacity (get_call key ∷ calls) c recent h =
      let (same, shown) = get-Shows capacity key c recent h in
      let (others, end) = serve-Shows capacity calls (get key c).1 (used key recent).1 shown in
      (cc, end)
  serve-Shows capacity (set_call key value ∷ calls) c recent h =
      serve-Shows capacity calls (set key value c) (stored capacity key value recent)
        (set-Shows capacity key value c recent h)
  serve-Shows capacity (delete_call key ∷ calls) c recent h =
      serve-Shows capacity calls (delete key c) (drop key recent)
        (delete-Shows capacity key c recent h)

  pub new-Shows : (capacity : ℕ) → Shows {A = A} capacity (new_engine_cache capacity) []
  new-Shows capacity = record {
    cap_eq = refl;
    slots = [];
    holds_slots = new-Holds capacity;
    contents_eq = refl;
  }

  length-Shows :
      (capacity : ℕ) (c : EngineCache A) (recent : List (CacheEntry A))
      → Shows capacity c recent
      → len c ≡ length recent
  length-Shows capacity c recent h =
      ap length h.holds_slots.order_eq ∙ length-elements h.slots ∙ ap length h.contents_eq

  -- The lookups among any calls on a new cache answer as the list of entries does, and the cache then
  -- holds as many entries as the list.
  pub serve-recall :
      (capacity : ℕ) (calls : List (Call A))
      → ((serve calls (new_engine_cache capacity)).0 ≡ (recall capacity calls []).0)
        × (len (serve calls (new_engine_cache capacity)).1 ≡ length (recall capacity calls []).1)
  serve-recall capacity calls =
      let (same, end) =
        serve-Shows capacity calls (new_engine_cache capacity) [] (new-Shows capacity) in
      (same, length-Shows capacity _ _ end)

  length-recall :
      (capacity : ℕ) (calls : List (Call A)) (recent : List (CacheEntry A))
      → 0 < capacity
      → length recent ≤ capacity
      → length (recall capacity calls recent).1 ≤ capacity
  unfolding recall
  length-recall capacity [] recent positive h = h
  length-recall capacity (get_call key ∷ calls) recent positive h =
      length-recall capacity calls (used key recent).1 positive
        (omega (arith, h, length-used key recent))
  length-recall capacity (set_call key value ∷ calls) recent positive h =
      length-recall capacity calls (stored capacity key value recent) positive
        (length-stored capacity key value recent positive h)
  length-recall capacity (delete_call key ∷ calls) recent positive h =
      length-recall capacity calls (drop key recent) positive
        (omega (arith, h, length-drop key recent))

  -- After any calls on a new cache with a positive capacity, it holds at most that many entries.
  pub len-serve :
      (capacity : ℕ) (calls : List (Call A))
      → 0 < capacity
      → len (serve calls (new_engine_cache capacity)).1 ≤ capacity
  len-serve capacity calls positive = omega (
    arith,
    (serve-recall capacity calls).1,
    length-recall capacity calls [] positive (omega arith),
  )

  -- After any calls on a new cache, of any capacity, a value that is set is the next answer for its key.
  pub get-set :
      (capacity : ℕ) (calls : List (Call A)) (key : String) (value : A)
      → (get key (set key value (serve calls (new_engine_cache capacity)).1)).0 ≡ some value
  get-set capacity calls key value =
      let recent = (recall capacity calls []).1 in
      let (same, end) =
        serve-Shows capacity calls (new_engine_cache capacity) [] (new-Shows capacity) in
      let kept =
        set-Shows capacity key value (serve calls (new_engine_cache capacity)).1 recent end in
      (get-Shows capacity key _ _ kept).0 ∙ used-stored capacity key value recent
