-- ===== src/Mqtt/Items.antt =====
-- main/mqtt.c: `print_user_property`, with the heap blocks that it takes and frees. A heap gives for
-- each address how many blocks are live there; `none` is a free of an address without one.
use air_shifter_rough.Common.{
  ℕ, ◌+◌, ◌-◌, ◌≡◌, refl, ap, false, Option, none, some, List, [], ◌∷◌, arith, ◌==◌, ==_self,
  if◌then◌else◌, ◌>>=◌, Option-cases, Bool-cases, inl, inr,
}

abbrev pub Heap : Type 0
Heap = ℕ → ℕ

abbrev pub at : ℕ → ℕ → ℕ
at a b = if a == b then 1 else 0

-- the heap with one more block
abbrev pub with_block : ℕ → Heap → Heap
with_block a h b = h b + at a b

unfoldable pub free : ℕ → Heap → Option Heap
free a h = if h a == 0 then none else some (λ b. h b - at a b)

-- free of a pointer that may be NULL
abbrev pub free_pointer : Option ℕ → Heap → Option Heap
free_pointer none h = some h
free_pointer (some a) h = free a h

-- the addresses of the two strings of an entry of the array
pub record Item : Type 0 where
  pub key : ℕ
  pub value : ℕ

-- the loop over the entries, which also prints them
unfoldable pub free_items : List Item → Heap → Option Heap
unfolding free
free_items [] h = some h
free_items (t ∷ ts) h = do
  after_key ← free t.key h
  after_value ← free t.value after_key
  free_items ts after_value

-- The calls for one list of user properties: its number of entries, a uint8_t; malloc; and
-- esp_mqtt5_client_get_user_property into an array with room for so many, where `none` is an error.
pub record PropertyApi : Type 0 where
  pub count : ℕ
  pub malloc : Heap → Option ℕ
  pub get : Option ℕ → ℕ → Heap → Option (List Item) × Heap

abbrev pub allocated : Option ℕ → Heap → Heap
allocated none h = h
allocated (some a) h = with_block a h

-- what follows the call of the client
abbrev pub free_all : Option ℕ → Option (List Item) × Heap → Option Heap
free_all item (none, h) = free_pointer item h
free_all item (some items, h) = do after ← free_items items h; free_pointer item after

-- `none` is a null list.
unfoldable pub print_user_property : Option PropertyApi → Heap → Option Heap
unfolding free_items free
print_user_property none h = some h
print_user_property (some api) h =
    let item = api.malloc h in
    if api.count == 0 then some h else free_all item (api.get item api.count (allocated item h))

abbrev pub occurs : ℕ → List Item → ℕ
occurs b [] = 0
occurs b (t ∷ ts) = at t.key b + at t.value b + occurs b ts

-- What the client promises: it allocates the strings of the entries that it gives, and nothing
-- when it fails.
pub record PropertyLaws (api : PropertyApi) : Type 0 where
  pub given :
      (item : Option ℕ) (h : Heap) (items : List Item) (after : Heap)
      → api.get item api.count h ≡ (some items, after)
      → (b : ℕ) → after b ≡ h b + occurs b items
  pub refused :
      (item : Option ℕ) (h after : Heap)
      → api.get item api.count h ≡ (none, after)
      → (b : ℕ) → after b ≡ h b

-- A block that is live can be freed.
free_lem :
    (a : ℕ) (h g : Heap)
    → ((b : ℕ) → h b ≡ g b + at a b)
    → (after : Heap) × (free a h ≡ some after) × ((b : ℕ) → after b ≡ g b)
unfolding free
free_lem a h g e =
    let here = ==_self a in
    let live : (h a == 0) ≡ false = let x = e a in ground arith in
    ((λ b. h b - at a b), rw live refl, λ b. let x = e b in omega (arith, x))

free_items_lem :
    (items : List Item) (h g : Heap)
    → ((b : ℕ) → h b ≡ g b + occurs b items)
    → (after : Heap) × (free_items items h ≡ some after) × ((b : ℕ) → after b ≡ g b)
unfolding free_items
free_items_lem [] h g e = (h, refl, λ b. let x = e b in omega (arith, x))
free_items_lem (t ∷ ts) h g e =
    let (h₁, f₁, e₁) =
      free_lem t.key h (λ b. g b + at t.value b + occurs b ts)
        (λ b. let x = e b in omega (arith, x)) in
    let (h₂, f₂, e₂) =
      free_lem t.value h₁ (λ b. g b + occurs b ts) (λ b. let x = e₁ b in omega (arith, x)) in
    let (h₃, f₃, e₃) = free_items_lem ts h₂ g e₂ in (h₃, rw (f₁, f₂) f₃, e₃)

free_pointer_lem :
    (item : Option ℕ) (h g : Heap)
    → ((b : ℕ) → h b ≡ allocated item g b)
    → (after : Heap) × (free_pointer item h ≡ some after) × ((b : ℕ) → after b ≡ g b)
free_pointer_lem none h g e = (h, refl, e)
free_pointer_lem (some a) h g e = free_lem a h g e

-- the results of the client's call
data Got (api : PropertyApi) (item : Option ℕ) (h : Heap) : Type 0 where
  failed :
      (after : Heap)
      → api.get item api.count h ≡ (none, after)
      → ((b : ℕ) → after b ≡ h b)
      → Got api item h
  gave :
      (items : List Item) (after : Heap)
      → api.get item api.count h ≡ (some items, after)
      → ((b : ℕ) → after b ≡ h b + occurs b items)
      → Got api item h

got : (api : PropertyApi) → PropertyLaws api → (item : Option ℕ) (h : Heap) → Got api item h
got api laws item h = elim (Option-cases (api.get item api.count h).0) [
  | inl e ↦
      let all : api.get item api.count h ≡ (none, (api.get item api.count h).1) =
        ap (λ o. (o, (api.get item api.count h).1)) e in
      failed _ all (laws.refused item h _ all)
  | inr (items, e) ↦
      let all : api.get item api.count h ≡ (some items, (api.get item api.count h).1) =
        ap (λ o. (o, (api.get item api.count h).1)) e in
      gave items _ all (laws.given item h items _ all)
]

-- When the client allocates the strings of the entries that it gives and nothing when it fails:
-- print_user_property, for any list of user properties and any result of malloc, frees only live
-- blocks, and leaves at every address as many live blocks as before, so it neither frees twice nor
-- leaks.
pub print_user_property-frees :
    (list : Option PropertyApi) (h : Heap)
    → ((api : PropertyApi) → list ≡ some api → PropertyLaws api)
    → (after : Heap) × (print_user_property list h ≡ some after) × ((b : ℕ) → after b ≡ h b)
unfolding print_user_property
print_user_property-frees none h laws = (h, refl, λ b. refl)
print_user_property-frees (some api) h laws = elim (Bool-cases (api.count == 0)) [
  | inl empty ↦ (h, rw empty refl, λ b. refl)
  | inr some_there ↦
      let item = api.malloc h in
      elim (got api (laws api refl) item (allocated item h)) [
        | failed after e same ↦
            let (last, f, g) = free_pointer_lem item after h same in (last, rw (some_there, e) f, g)
        | gave items after e more ↦
            let (freed, f, g) = free_items_lem items after (allocated item h) more in
            let (last, f', g') = free_pointer_lem item freed h g in
            (last, rw (some_there, e, f) f', g')
      ]
]
