-- ===== src/Server/Lru/Holds.antt =====
-- cmd/flowd/server/lru.go: what a cache with the given slots is, and that each method keeps it one.
use llm_agent_flow.Base.{
  ℕ, suc, String, false, none, some, List, [], ◌∷◌, ◌≡◌, ◌<◌, refl, All, arith, eq_iff, eq_refl,
  update,
}
use llm_agent_flow.Server.Lru.{
  EngineCache, new_engine_cache, holds, unlink, write, move_to_front, push, evict_lru,
}
use llm_agent_flow.Server.Lru.Slots.{
  Slot, elements, slot, element, without, slot-key, last_slot, Apart, element-some, element-none,
  All-slot, holds-element, unlink-element, All-without, element-without, Apart-without, untouched,
  holds-rest, slot-last, back-elements,
}

module _ {A : Type 0} where
  pub record Holds (c : EngineCache A) (t : List (Slot A)) : Type 0 where
    pub order_eq : c.order ≡ elements t
    pub items_eq : (key : String) → c.items key ≡ element key t
    pub entries_eq : All (λ s. c.entries s.at ≡ some s.entry) t
    pub older : All (λ s. s.at < c.next) t
    pub apart : Apart t

  pub new-Holds : (capacity : ℕ) → Holds (new_engine_cache capacity) []
  new-Holds capacity = record {
    order_eq = refl;
    items_eq = λ key. refl;
    entries_eq = _;
    older = _;
    apart = _;
  }

  -- The slot of a key with its entry replaced, at the front.
  abbrev pub front : String → Slot A → List (Slot A) → List (Slot A)
  front key s t = s ∷ without key t

  move-elements :
      (key : String) (t : List (Slot A)) (s : Slot A)
      → Apart t
      → slot key t ≡ some s
      → move_to_front s.at (elements t) ≡ s.at ∷ elements (without key t)
  move-elements key t s a h = rw (holds-element key t s h, unlink-element key t s a h) refl

  pub unlinked-Holds :
      (key : String) (c : EngineCache A) (t : List (Slot A)) (s : Slot A)
      → Holds c t
      → slot key t ≡ some s
      → Holds
          (record c { order = unlink s.at c.order; items = update c.items key none })
          (without key t)
  unlinked-Holds key c t s h found = record {
    order_eq = rw (h.order_eq) (unlink-element key t s h.apart found);
    items_eq = λ other. ground (
      arith,
      element-without key other t h.apart,
      h.items_eq other,
      eq_iff key other,
      eq_iff other key,
    );
    entries_eq = All-without (λ s. c.entries s.at ≡ some s.entry) key t h.entries_eq;
    older = All-without (λ s. s.at < c.next) key t h.older;
    apart = Apart-without key t h.apart;
  }

  pub touched-Holds :
      (key : String) (value : A) (c : EngineCache A) (t : List (Slot A)) (s : Slot A)
      → Holds c t
      → slot key t ≡ some s
      → Holds
          (record c {
            entries = write c.entries s.at (record { key = key; value = value });
            order = move_to_front s.at c.order;
          })
          (record { at = s.at; entry = record { key = key; value = value } } ∷ without key t)
  touched-Holds key value c t s h found = record {
    order_eq = rw (h.order_eq) (move-elements key t s h.apart found);
    items_eq = λ other. ground (
      arith,
      element-without key other t h.apart,
      element-some key t s found,
      h.items_eq other,
      eq_iff key other,
      eq_iff other key,
    );
    entries_eq = (
      ground arith,
      untouched c.entries s.at (record { key = key; value = value }) (without key t)
          (holds-rest key t s h.apart found)
          (All-without (λ s. c.entries s.at ≡ some s.entry) key t h.entries_eq),
    );
    older = (
      All-slot (λ s. s.at < c.next) key t s h.older found,
      All-without (λ s. s.at < c.next) key t h.older,
    );
    apart = (
      ground (arith, element-without key key t h.apart, eq_refl key),
      holds-rest key t s h.apart found,
      Apart-without key t h.apart,
    );
  }

  pub moved-Holds :
      (key : String) (c : EngineCache A) (t : List (Slot A)) (s : Slot A)
      → Holds c t
      → slot key t ≡ some s
      → Holds (record c { order = move_to_front s.at c.order }) (s ∷ without key t)
  moved-Holds key c t s h found = record {
    order_eq = rw (h.order_eq) (move-elements key t s h.apart found);
    items_eq = λ other. ground (
      arith,
      element-without key other t h.apart,
      element-some key t s found,
      slot-key key t s found,
      h.items_eq other,
      eq_iff key other,
      eq_iff other key,
    );
    entries_eq = (
      All-slot (λ s. c.entries s.at ≡ some s.entry) key t s h.entries_eq found,
      All-without (λ s. c.entries s.at ≡ some s.entry) key t h.entries_eq,
    );
    older = (
      All-slot (λ s. s.at < c.next) key t s h.older found,
      All-without (λ s. s.at < c.next) key t h.older,
    );
    apart = (
      ground
          (arith, element-without key s.entry.key t h.apart, slot-key key t s found, eq_refl key),
      holds-rest key t s h.apart found,
      Apart-without key t h.apart,
    );
  }

  unused : (el : ℕ) (t : List (Slot A)) → All (λ s. s.at < el) t → holds el (elements t) ≡ false
  unused el [] older = refl
  unused el (s ∷ t) older = ground (arith, older.0, unused el t older.1)

  older_suc : (el : ℕ) (t : List (Slot A)) → All (λ s. s.at < el) t → All (λ s. s.at < suc el) t
  older_suc el [] older = older
  older_suc el (s ∷ t) older = (omega (arith, older.0), older_suc el t older.1)

  pub pushed-Holds :
      (key : String) (value : A) (c : EngineCache A) (t : List (Slot A))
      → Holds c t
      → slot key t ≡ none
      → Holds
          (push key value c)
          (record { at = c.next; entry = record { key = key; value = value } } ∷ t)
  pushed-Holds key value c t h absent = record {
    order_eq = rw (h.order_eq) refl;
    items_eq = λ other. ground (arith, h.items_eq other, eq_iff key other);
    entries_eq = (
      ground arith,
      untouched c.entries c.next (record { key = key; value = value }) t (unused c.next t h.older)
          h.entries_eq,
    );
    older = (omega arith, older_suc c.next t h.older);
    apart = (element-none key t absent, unused c.next t h.older, h.apart);
  }

  -- The method that removes the last element removes the last slot.
  pub evicted-Holds :
      (c : EngineCache A) (t : List (Slot A)) (s : Slot A)
      → Holds c t
      → last_slot t ≡ some s
      → Holds (evict_lru c) (without s.entry.key t)
  unfolding evict_lru
  evicted-Holds c t s h last =
      let found : slot s.entry.key t ≡ some s = slot-last t s h.apart last in
      let target : c.entries s.at ≡ some s.entry =
        All-slot (λ s. c.entries s.at ≡ some s.entry) s.entry.key t s h.entries_eq found in
      rw (evict_lru, h.order_eq, back-elements t s last, target)
        (unlinked-Holds s.entry.key c t s h found)
