-- ===== src/Devirt/Sorted.antt =====
-- Sets of functions in the order of their addresses.
use crab_llvm.Prelude.{
  ℕ, ◌≤◌, ◌≡◌, ◌⊎◌, inl, inr, refl, true, false, List, [], ◌∷◌, ltb, Bool-cases, arith,
}
use mathlib.Core.List.{Memᴰ}
use mathlib.Core.List.Memᴰ
use crab_llvm.Devirt.{Function, insert_sorted}

-- By address, from the lowest.
unfoldable pub IsSorted : List Function → Type 0
IsSorted [] = Unit
IsSorted (f ∷ fs) = ((g : Function) → Memᴰ g fs → f.address ≤ g.address) × IsSorted fs

le_of_test : (a b : ℕ) → ltb a b ≡ true → a ≤ b
le_of_test a b h = ground arith

le_of_not_test : (a b : ℕ) → ltb a b ≡ false → b ≤ a
le_of_not_test a b h = ground arith

pub insert_sorted-in :
    (g f : Function) (fs : List Function) → Memᴰ g (insert_sorted f fs) → (g ≡ f) ⊎ Memᴰ g fs
unfolding insert_sorted
insert_sorted-in g f [] m = Memᴰ.cases_cons m
insert_sorted-in g f (h ∷ fs) m = elim (Bool-cases (ltb f.address h.address)) [
  | inl below ↦ Memᴰ.cases_cons (rw below at m)
  | inr above ↦ elim (Memᴰ.cases_cons (rw above at m)) [
    | inl same ↦ inr (Memᴰ.head same)
    | inr later ↦ elim (insert_sorted-in g f fs later) [
      | inl same ↦ inl same
      | inr old ↦ inr (Memᴰ.tail old)
    ]
  ]
]

pub insert_sorted-new : (f : Function) (fs : List Function) → Memᴰ f (insert_sorted f fs)
unfolding insert_sorted
insert_sorted-new f [] = Memᴰ.head refl
insert_sorted-new f (h ∷ fs) = elim (Bool-cases (ltb f.address h.address)) [
  | inl below ↦ rw below (Memᴰ.head refl)
  | inr above ↦ rw above (Memᴰ.tail (insert_sorted-new f fs))
]

pub insert_sorted-old :
    (g f : Function) (fs : List Function) → Memᴰ g fs → Memᴰ g (insert_sorted f fs)
unfolding insert_sorted
insert_sorted-old g f [] m = elim m [ ]
insert_sorted-old g f (h ∷ fs) m = elim (Bool-cases (ltb f.address h.address)) [
  | inl below ↦ rw below (Memᴰ.tail m)
  | inr above ↦ rw above (elim (Memᴰ.cases_cons m) [
    | inl same ↦ Memᴰ.head same
    | inr later ↦ Memᴰ.tail (insert_sorted-old g f fs later)
  ])
]

pub insert_sorted-IsSorted :
    (f : Function) (fs : List Function) → IsSorted fs → IsSorted (insert_sorted f fs)
unfolding insert_sorted IsSorted
insert_sorted-IsSorted f [] ok = (λ g m. elim m [ ], tt)
insert_sorted-IsSorted f (h ∷ fs) (least, ok) = elim (Bool-cases (ltb f.address h.address)) [
  | inl below ↦ rw below (first below, (least, ok))
  | inr above ↦ rw above (second above, insert_sorted-IsSorted f fs ok)
]
  where
    first :
        (ltb f.address h.address) ≡ true → (g : Function) → Memᴰ g (h ∷ fs) → f.address ≤ g.address
    first below g m = elim (Memᴰ.cases_cons m) [
      | inl same ↦ rw same (le_of_test f.address h.address below)
      | inr later ↦ omega (arith, le_of_test f.address h.address below, least g later)
    ]

    second :
        (ltb f.address h.address) ≡ false
        → (g : Function) → Memᴰ g (insert_sorted f fs)
        → h.address ≤ g.address
    second above g m = elim (insert_sorted-in g f fs m) [
      | inl same ↦ rw same (le_of_not_test f.address h.address above)
      | inr later ↦ least g later
    ]
