-- ===== src/Server/Lru.antt =====
-- cmd/flowd/server/lru.go: the cache of compiled engines. An element of the container/list is the number
-- of its allocation; `entries` is what the elements point to, `order` the list from the front. A `cap`
-- that is not positive is 0, since only `cap > 0` is read. Each method holds the mutex.
pub mod Recency
pub mod Slots
pub mod Holds
pub mod Refines
pub mod Serve
use llm_agent_flow.Base.{
  ℕ, suc, String, Bool, true, false, ◌&&◌, Option, none, some, List, [], ◌∷◌, length, ltb, nat_eq,
  update, if◌then◌else◌,
}

pub record CacheEntry (A : Type 0) : Type 0 where
  pub key : String
  pub value : A

pub record EngineCache (A : Type 0) : Type 0 where
  pub cap : ℕ
  pub items : String → Option ℕ
  pub order : List ℕ
  pub entries : ℕ → Option (CacheEntry A)
  pub next : ℕ

-- container/list
abbrev pub holds : ℕ → List ℕ → Bool
holds el [] = false
holds el (e ∷ order) = if nat_eq e el then true else holds el order

abbrev pub unlink : ℕ → List ℕ → List ℕ
unlink el [] = []
unlink el (e ∷ order) = if nat_eq e el then order else e ∷ unlink el order

abbrev pub move_to_front : ℕ → List ℕ → List ℕ
move_to_front el order = if holds el order then el ∷ unlink el order else order

abbrev pub back : List ℕ → Option ℕ
back [] = none
back (e ∷ []) = some e
back (e ∷ f ∷ order) = back (f ∷ order)

module _ {A : Type 0} where
  abbrev pub write : (ℕ → Option (CacheEntry A)) → ℕ → CacheEntry A → ℕ → Option (CacheEntry A)
  write entries el entry e = if nat_eq e el then some entry else entries e

  abbrev pub new_engine_cache : ℕ → EngineCache A
  new_engine_cache capacity = record {
    cap = capacity;
    items = λ key. none;
    order = [];
    entries = λ el. none;
    next = 0;
  }

  unfoldable pub get : String → EngineCache A → Option A × EngineCache A
  get key c = elim (c.items key) [
    | none ↦ (none, c)
    | some el ↦ elim (c.entries el) [
      | none ↦ (none, c)
      | some entry ↦ (some entry.value, record c { order = move_to_front el c.order })
    ]
  ]

  -- Remove the last element, and its key.
  unfoldable pub evict_lru : EngineCache A → EngineCache A
  evict_lru c = elim (back c.order) [
    | none ↦ c
    | some el ↦ elim (c.entries el) [
      | none ↦ c
      | some entry ↦ record c { order = unlink el c.order; items = update c.items entry.key none }
    ]
  ]

  abbrev pub push : String → A → EngineCache A → EngineCache A
  push key value c = record c {
    entries = write c.entries c.next (record { key = key; value = value });
    order = c.next ∷ c.order;
    items = update c.items key (some c.next);
    next = suc c.next;
  }

  -- `if c.cap > 0 && c.order.Len() > c.cap { c.evictLRU() }`
  unfoldable pub make_room : EngineCache A → EngineCache A
  make_room c = if ltb 0 c.cap && ltb c.cap (length c.order) then evict_lru c else c

  unfoldable pub set : String → A → EngineCache A → EngineCache A
  unfolding make_room
  set key value c = elim (c.items key) [
    | none ↦ make_room (push key value c)
    | some el ↦ elim (c.entries el) [
      | none ↦ c
      | some entry ↦ record c {
        entries = write c.entries el (record entry { value = value });
        order = move_to_front el c.order;
      }
    ]
  ]

  unfoldable pub delete : String → EngineCache A → EngineCache A
  delete key c = elim (c.items key) [
    | none ↦ c
    | some el ↦ record c { order = unlink el c.order; items = update c.items key none }
  ]

  abbrev pub len : EngineCache A → ℕ
  len c = length c.order
