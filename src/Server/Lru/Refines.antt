-- ===== src/Server/Lru/Refines.antt =====
-- cmd/flowd/server/lru.go keeps the entries in order of their use: every sequence of calls answers as the
-- list of entries does.
use llm_agent_flow.Base.{
  ℕ, String, ◌&&◌, Option, some, List, ◌∷◌, ◌≡◌, refl, ◌∙◌, length, ltb, Bool-cases, Option-cases,
  inl, inr, Option-match, ap, sym,
}
use llm_agent_flow.Server.Lru.{
  CacheEntry, EngineCache, make_room, get, set, delete, push, evict_lru, back, move_to_front, write,
}
use llm_agent_flow.Server.Lru.Slots.{
  Slot, contents, slot, without, All-slot, element-some, element-none, drop-absent, find-none,
  find-some, slot-key, contents-without, last_slot-cons, drop_last-contents, length-elements,
}
use llm_agent_flow.Server.Lru.Recency.{drop, drop_last, room, used, stored}
use llm_agent_flow.Server.Lru.Holds.{
  Holds, moved-Holds, touched-Holds, unlinked-Holds, pushed-Holds, evicted-Holds,
}

module _ {A : Type 0} where
  -- A cache of a capacity shows a list of entries.
  pub record Shows (capacity : ℕ) (c : EngineCache A) (recent : List (CacheEntry A)) : Type 0 where
    pub cap_eq : c.cap ≡ capacity
    pub slots : List (Slot A)
    pub holds_slots : Holds c slots
    pub contents_eq : contents slots ≡ recent

  found_entry :
      (key : String) (c : EngineCache A) (t : List (Slot A)) (s : Slot A)
      → Holds c t
      → slot key t ≡ some s
      → (c.items key ≡ some s.at) × (c.entries s.at ≡ some s.entry)
  found_entry key c t s h found = (
    h.items_eq key ∙ element-some key t s found,
    All-slot (λ s. c.entries s.at ≡ some s.entry) key t s h.entries_eq found,
  )

  -- What a lookup answers and leaves.
  Got : ℕ → Option A × EngineCache A → Option A × List (CacheEntry A) → Type 0
  Got capacity (answer, c) (expected, recent) = (answer ≡ expected) × Shows capacity c recent

  Got-slots :
      (key : String) (c : EngineCache A) (t : List (Slot A))
      → Holds c t
      → Got c.cap (get key c) (used key (contents t))
  unfolding get used Got
  Got-slots key c t h = elim (Option-cases (slot key t)) [
    | inl absent ↦
        rw (get, used, h.items_eq key, element-none key t absent, find-none key t absent)
          (refl, record { cap_eq = refl; slots = t; holds_slots = h; contents_eq = refl })
    | inr (s, found) ↦
        let (item, target) = found_entry key c t s h found in
        rw (get, used, item, target, find-some key t s found)
          (
            refl,
            record {
              cap_eq = refl;
              slots = s ∷ without key t;
              holds_slots = moved-Holds key c t s h found;
              contents_eq = ap (λ rest. s.entry ∷ rest) (contents-without key t);
            },
          )
  ]

  pub get-Shows :
      (capacity : ℕ) (key : String) (c : EngineCache A) (recent : List (CacheEntry A))
      → Shows capacity c recent
      → ((get key c).0 ≡ (used key recent).0) × Shows capacity (get key c).1 (used key recent).1
  unfolding Got
  get-Shows capacity key c recent h =
      rw (sym h.contents_eq, sym h.cap_eq) (Got-slots key c h.slots h.holds_slots)

  deleted_slots :
      (key : String) (c : EngineCache A) (t : List (Slot A))
      → Holds c t
      → Shows c.cap (delete key c) (drop key (contents t))
  unfolding delete
  deleted_slots key c t h = elim (Option-cases (slot key t)) [
    | inl absent ↦
        rw (delete, h.items_eq key, element-none key t absent)
          (record {
            cap_eq = refl;
            slots = t;
            holds_slots = h;
            contents_eq = sym (drop-absent key t absent);
          })
    | inr (s, found) ↦
        rw (delete, (found_entry key c t s h found).0)
          (record {
            cap_eq = refl;
            slots = without key t;
            holds_slots = unlinked-Holds key c t s h found;
            contents_eq = contents-without key t;
          })
  ]

  pub delete-Shows :
      (capacity : ℕ) (key : String) (c : EngineCache A) (recent : List (CacheEntry A))
      → Shows capacity c recent
      → Shows capacity (delete key c) (drop key recent)
  delete-Shows capacity key c recent h =
      rw (sym h.contents_eq, sym h.cap_eq) (deleted_slots key c h.slots h.holds_slots)

  cap-evict_lru : (c : EngineCache A) → (evict_lru c).cap ≡ c.cap
  unfolding evict_lru
  cap-evict_lru c =
      Option-match {B = EngineCache A} (λ c'. c'.cap ≡ c.cap) (back c.order) (λ _. refl)
        (λ el _.
          Option-match {B = EngineCache A} (λ c'. c'.cap ≡ c.cap) (c.entries el) (λ _. refl)
            (λ entry _. refl))

  -- The cache after a new key was pushed, when it is trimmed.
  trimmed_slots :
      (c : EngineCache A) (s : Slot A) (t : List (Slot A))
      → Holds c (s ∷ t)
      → Shows c.cap (evict_lru c) (drop_last (contents (s ∷ t)))
  unfolding evict_lru
  trimmed_slots c s t h =
      let (r, last) = last_slot-cons s t in
      record {
        cap_eq = cap-evict_lru c;
        slots = without r.entry.key (s ∷ t);
        holds_slots = evicted-Holds c (s ∷ t) r h last;
        contents_eq =
            contents-without r.entry.key (s ∷ t) ∙ sym (drop_last-contents (s ∷ t) r h.apart last);
      }

  roomy_slots :
      (c : EngineCache A) (s : Slot A) (t : List (Slot A))
      → Holds c (s ∷ t)
      → Shows c.cap (make_room c) (room c.cap (contents (s ∷ t)))
  unfolding make_room room
  roomy_slots c s t h =
      let measured : length c.order ≡ length (contents (s ∷ t)) =
        ap length h.order_eq ∙ length-elements (s ∷ t) in
      elim (Bool-cases (ltb 0 c.cap && ltb c.cap (length (contents (s ∷ t))))) [
        | inl full ↦ rw (make_room, room, measured, full) (trimmed_slots c s t h)
        | inr roomy ↦
            rw (make_room, room, measured, roomy)
              (record { cap_eq = refl; slots = s ∷ t; holds_slots = h; contents_eq = refl })
      ]

  touched_slots :
      (key : String) (value : A) (c : EngineCache A) (t : List (Slot A)) (s : Slot A)
      → Holds c t
      → slot key t ≡ some s
      → Shows c.cap
          (record c {
            entries = write c.entries s.at (record s.entry { value = value });
            order = move_to_front s.at c.order;
          })
          (record { key = key; value = value } ∷ drop key (contents t))
  touched_slots key value c t s h found = rw (slot-key key t s found) (record {
    cap_eq = refl;
    slots = record { at = s.at; entry = record { key = key; value = value } } ∷ without key t;
    holds_slots = touched-Holds key value c t s h found;
    contents_eq = ap (λ rest. record { key = key; value = value } ∷ rest) (contents-without key t);
  })

  set_slots :
      (key : String) (value : A) (c : EngineCache A) (t : List (Slot A))
      → Holds c t
      → Shows c.cap (set key value c) (stored c.cap key value (contents t))
  unfolding set stored
  set_slots key value c t h = elim (Option-cases (slot key t)) [
    | inl absent ↦
        rw (set, stored, h.items_eq key, element-none key t absent, find-none key t absent)
          (roomy_slots (push key value c)
            (record { at = c.next; entry = record { key = key; value = value } }) t
            (pushed-Holds key value c t h absent))
    | inr (s, found) ↦
        let (item, target) = found_entry key c t s h found in
        rw (set, stored, item, target, find-some key t s found)
          (touched_slots key value c t s h found)
  ]

  pub set-Shows :
      (capacity : ℕ) (key : String) (value : A) (c : EngineCache A) (recent : List (CacheEntry A))
      → Shows capacity c recent
      → Shows capacity (set key value c) (stored capacity key value recent)
  set-Shows capacity key value c recent h =
      rw (sym h.contents_eq, sym h.cap_eq) (set_slots key value c h.slots h.holds_slots)
