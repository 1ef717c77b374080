-- ===== src/Server/Lru/Slots.antt =====
-- The slots of the list of cmd/flowd/server/lru.go: an element and the entry that it points to.
use llm_agent_flow.Base.{
  ℕ, String, true, false, Option, none, some, List, [], ◌∷◌, ◌≡◌, refl, All, length, arith, eq_iff,
  eq_refl, ◌==◌, Bool-cases, inl, inr, subst, ap, if◌then◌else◌,
}
use llm_agent_flow.Server.Lru.{CacheEntry, holds, unlink, back, write}
use llm_agent_flow.Server.Lru.Recency.{find, drop, drop_last}

pub record Slot (A : Type 0) : Type 0 where
  pub at : ℕ
  pub entry : CacheEntry A

module _ {A : Type 0} where
  abbrev pub elements : List (Slot A) → List ℕ
  elements [] = []
  elements (s ∷ t) = s.at ∷ elements t

  abbrev pub contents : List (Slot A) → List (CacheEntry A)
  contents [] = []
  contents (s ∷ t) = s.entry ∷ contents t

  abbrev pub slot : String → List (Slot A) → Option (Slot A)
  slot key [] = none
  slot key (s ∷ t) = if s.entry.key == key then some s else slot key t

  abbrev pub element : String → List (Slot A) → Option ℕ
  element key [] = none
  element key (s ∷ t) = if s.entry.key == key then some s.at else element key t

  abbrev pub without : String → List (Slot A) → List (Slot A)
  without key [] = []
  without key (s ∷ t) = if s.entry.key == key then t else s ∷ without key t

  abbrev pub last_slot : List (Slot A) → Option (Slot A)
  last_slot [] = none
  last_slot (s ∷ []) = some s
  last_slot (s ∷ s' ∷ t) = last_slot (s' ∷ t)

  -- No element and no key occurs twice.
  abbrev pub Apart : List (Slot A) → Type 0
  Apart [] = Unit
  Apart (s ∷ t) = (element s.entry.key t ≡ none) × (holds s.at (elements t) ≡ false) × Apart t

  pub length-elements : (t : List (Slot A)) → length (elements t) ≡ length (contents t)
  length-elements [] = refl
  length-elements (s ∷ t) = omega (arith, length-elements t)

  -- What the slot of a key has to do with the rest of the list.
  pub element-none : (key : String) (t : List (Slot A)) → slot key t ≡ none → element key t ≡ none
  element-none key [] h = refl
  element-none key (s ∷ t) h = ground (arith, element-none key t)

  pub element-some :
      (key : String) (t : List (Slot A)) (s : Slot A)
      → slot key t ≡ some s
      → element key t ≡ some s.at
  element-some key [] s h = cc
  element-some key (r ∷ t) s h = ground (arith, element-some key t s)

  pub slot-key :
      (key : String) (t : List (Slot A)) (s : Slot A) → slot key t ≡ some s → s.entry.key ≡ key
  slot-key key [] s h = cc
  slot-key key (r ∷ t) s h = ground (arith, slot-key key t s, eq_iff r.entry.key key)

  pub find-none :
      (key : String) (t : List (Slot A)) → slot key t ≡ none → find key (contents t) ≡ none
  find-none key [] h = refl
  find-none key (s ∷ t) h = ground (arith, find-none key t)

  pub find-some :
      (key : String) (t : List (Slot A)) (s : Slot A)
      → slot key t ≡ some s
      → find key (contents t) ≡ some s.entry
  find-some key [] s h = cc
  find-some key (r ∷ t) s h = ground (arith, find-some key t s)

  pub contents-without :
      (key : String) (t : List (Slot A)) → contents (without key t) ≡ drop key (contents t)
  contents-without key [] = refl
  contents-without key (s ∷ t) = ground (arith, contents-without key t)

  pub drop-absent :
      (key : String) (t : List (Slot A)) → slot key t ≡ none → drop key (contents t) ≡ contents t
  drop-absent key [] h = refl
  drop-absent key (s ∷ t) h = ground (arith, drop-absent key t)

  pub All-slot {ℓ} :
      (P : Slot A → Type ℓ) (key : String) (t : List (Slot A)) (s : Slot A)
      → All P t
      → slot key t ≡ some s
      → P s
  All-slot P key [] s all h = cc
  All-slot P key (r ∷ t) s all h = elim (Bool-cases (r.entry.key == key)) [
    | inl same ↦ subst P (ground arith) all.0
    | inr other ↦ All-slot P key t s all.1 (ground arith)
  ]

  pub holds-element :
      (key : String) (t : List (Slot A)) (s : Slot A)
      → slot key t ≡ some s
      → holds s.at (elements t) ≡ true
  holds-element key [] s h = cc
  holds-element key (r ∷ t) s h = ground (arith, holds-element key t s)

  pub unlink-element :
      (key : String) (t : List (Slot A)) (s : Slot A)
      → Apart t
      → slot key t ≡ some s
      → unlink s.at (elements t) ≡ elements (without key t)
  unlink-element key [] s a h = cc
  unlink-element key (r ∷ t) s a h =
      ground (arith, unlink-element key t s a.2, holds-element key t s, a.1)

  pub All-without {ℓ} :
      (P : Slot A → Type ℓ) (key : String) (t : List (Slot A)) → All P t → All P (without key t)
  All-without P key [] all = all
  All-without P key (s ∷ t) all = elim (Bool-cases (s.entry.key == key)) [
    | inl same ↦ simp (same) all.1
    | inr other ↦ simp (other) (all.0, All-without P key t all.1)
  ]

  pub element-without :
      (key other : String) (t : List (Slot A))
      → Apart t
      → element other (without key t) ≡ (if other == key then none else element other t)
  element-without key other [] a = ground arith
  element-without key other (s ∷ t) a = ground (
    arith,
    element-without key other t a.2,
    a.0,
    eq_iff s.entry.key key,
    eq_iff s.entry.key other,
    eq_iff other key,
  )

  holds-without :
      (el : ℕ) (key : String) (t : List (Slot A))
      → holds el (elements t) ≡ false
      → holds el (elements (without key t)) ≡ false
  holds-without el key [] h = refl
  holds-without el key (s ∷ t) h = ground (arith, holds-without el key t)

  pub Apart-without : (key : String) (t : List (Slot A)) → Apart t → Apart (without key t)
  Apart-without key [] a = a
  Apart-without key (s ∷ t) a = elim (Bool-cases (s.entry.key == key)) [
    | inl same ↦ simp (same) a.2
    | inr other ↦ simp (other) (
      ground (arith, element-without key s.entry.key t a.2, a.0),
      holds-without s.at key t a.1,
      Apart-without key t a.2,
    )
  ]

  -- An entry that is written leaves the slots of other elements.
  pub untouched :
      (entries : ℕ → Option (CacheEntry A)) (el : ℕ) (entry : CacheEntry A) (t : List (Slot A))
      → holds el (elements t) ≡ false
      → All (λ s. entries s.at ≡ some s.entry) t
      → All (λ s. write entries el entry s.at ≡ some s.entry) t
  untouched entries el entry [] h all = all
  untouched entries el entry (s ∷ t) h all =
      (ground (arith, h, all.0), untouched entries el entry t (ground (arith, h)) all.1)

  -- The element of a key is not among the rest.
  pub holds-rest :
      (key : String) (t : List (Slot A)) (s : Slot A)
      → Apart t
      → slot key t ≡ some s
      → holds s.at (elements (without key t)) ≡ false
  holds-rest key [] s a h = refl
  holds-rest key (r ∷ t) s a h = ground (arith, holds-rest key t s a.2, holds-element key t s, a.1)

  other_key :
      (key : String) (t : List (Slot A)) (s : Slot A)
      → element key t ≡ none
      → slot s.entry.key t ≡ some s
      → (key == s.entry.key) ≡ false
  other_key key t s missing found =
      ground (arith, element-some s.entry.key t s found, missing, eq_iff key s.entry.key)

  -- The last slot is the one that a list without its last entry lacks.
  pub slot-last :
      (t : List (Slot A)) (s : Slot A)
      → Apart t
      → last_slot t ≡ some s
      → slot s.entry.key t ≡ some s
  slot-last [] s a h = cc
  slot-last (r ∷ []) s a h = ground (arith, eq_refl s.entry.key)
  slot-last (r ∷ r' ∷ t) s a h =
      let found : slot s.entry.key (r' ∷ t) ≡ some s = slot-last (r' ∷ t) s a.2 h in
      let other : (r.entry.key == s.entry.key) ≡ false =
        other_key r.entry.key (r' ∷ t) s a.0 found in
      rw (other) found

  pub back-elements :
      (t : List (Slot A)) (s : Slot A) → last_slot t ≡ some s → back (elements t) ≡ some s.at
  back-elements [] s h = cc
  back-elements (r ∷ []) s h = cc
  back-elements (r ∷ r' ∷ t) s h = back-elements (r' ∷ t) s h

  pub last_slot-cons :
      (r : Slot A) (t : List (Slot A)) → (s : Slot A) × (last_slot (r ∷ t) ≡ some s)
  last_slot-cons r [] = (r, refl)
  last_slot-cons r (r' ∷ t) = last_slot-cons r' t

  pub drop_last-contents :
      (t : List (Slot A)) (s : Slot A)
      → Apart t
      → last_slot t ≡ some s
      → drop_last (contents t) ≡ drop s.entry.key (contents t)
  drop_last-contents [] s a h = refl
  drop_last-contents (r ∷ []) s a h = ground (arith, eq_refl s.entry.key)
  drop_last-contents (r ∷ r' ∷ t) s a h =
      let other : (r.entry.key == s.entry.key) ≡ false =
        other_key r.entry.key (r' ∷ t) s a.0 (slot-last (r' ∷ t) s a.2 h) in
      rw (other) (ap (λ rest. r.entry ∷ rest) (drop_last-contents (r' ∷ t) s a.2 h))
