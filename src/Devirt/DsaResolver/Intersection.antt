-- ===== src/Devirt/DsaResolver/Intersection.antt =====
-- About std::sort and std::set_intersection on functions.
use Prim.Native.Nat.{compare, Ordering}
use crab_llvm.Prelude.{
  ℕ, ◌≤◌, ◌<◌, ◌≡◌, inl, inr, refl, ap, ◌∙◌, Bool, false, ◌&&◌, ◌||◌, List, [], ◌∷◌, ◌==◌,
  Bool-cases, ==_iff, arith,
}
use mathlib.Core.List.{Memᴰ}
use mathlib.Core.List.Memᴰ
use crab_llvm.Devirt.{Function, has, insert_sorted, sort, set_intersection}
use crab_llvm.Devirt.Sorted.{IsSorted, insert_sorted-IsSorted}

has-insert_sorted :
    (a : ℕ) (f : Function) (fs : List Function)
    → has a (insert_sorted f fs) ≡ a == f.address || has a fs
unfolding has insert_sorted
has-insert_sorted a f [] = refl
has-insert_sorted a f (g ∷ fs) = ground (arith, has-insert_sorted a f fs)

pub has-sort : (a : ℕ) (fs : List Function) → has a (sort fs) ≡ has a fs
unfolding has sort
has-sort a [] = refl
has-sort a (f ∷ fs) =
    has-insert_sorted a f (sort fs) ∙ ap (λ b. a == f.address || b) (has-sort a fs)

pub sort-IsSorted : (fs : List Function) → IsSorted (sort fs)
unfolding sort
sort-IsSorted [] = unfold IsSorted in tt
sort-IsSorted (f ∷ fs) = insert_sorted-IsSorted f (sort fs) (sort-IsSorted fs)

-- An address below the first is not there.
has-below :
    (a n : ℕ) (fs : List Function)
    → ((g : Function) → Memᴰ g fs → n ≤ g.address)
    → a < n
    → has a fs ≡ false
unfolding has
has-below a n [] least h = refl
has-below a n (f ∷ fs) least h =
    let least_f = least f (Memᴰ.head refl) in
    ground (arith, has-below a n fs (λ g m. least g (Memᴰ.tail m)) h)

-- The first of a sorted list is the lowest.
sorted_below :
    (a : ℕ) (f : Function) (fs : List Function)
    → IsSorted (f ∷ fs)
    → a < f.address
    → has a (f ∷ fs) ≡ false
unfolding IsSorted
sorted_below a f fs (least, ok) h = has-below a f.address (f ∷ fs) least' h
  where
    least' : (g : Function) → Memᴰ g (f ∷ fs) → f.address ≤ g.address
    least' g m = elim (Memᴰ.cases_cons m) [
      | inl same ↦ rw same (omega arith)
      | inr later ↦ least g later
    ]

IsSorted-rest : (f : Function) (fs : List Function) → IsSorted (f ∷ fs) → IsSorted fs
unfolding IsSorted
IsSorted-rest f fs (least, ok) = ok

and_false : (r : Bool) → r && false ≡ false
and_false r = ground arith

drop_second : (a b : ℕ) (r s : Bool) → (a ≡ b → r ≡ false) → r && s ≡ r && (a == b || s)
drop_second a b r s h = elim (Bool-cases (a == b)) [
  | inl same ↦ rw (h ((==_iff a b).0 same)) refl
  | inr other ↦ rw other refl
]

below_of : (a m n : ℕ) → a ≡ m → compare m n ≡ Ordering.lt → a < n
below_of a m n e h = ground arith

above_of : (a m n : ℕ) → a ≡ n → compare m n ≡ Ordering.gt → a < m
above_of a m n e h = ground arith

meet :
    (a m n : ℕ) (r s : Bool)
    → compare m n ≡ Ordering.eq
    → a == m || r && s ≡ (a == m || r) && (a == n || s)
meet a m n r s h = ground arith

-- One step of the merge: the address is that of the dropped element only if it is below the rest.
drop_first : (a b : ℕ) (r s : Bool) → (a ≡ b → s ≡ false) → r && s ≡ (a == b || r) && s
drop_first a b r s h = elim (Bool-cases (a == b)) [
  | inl same ↦ rw (h ((==_iff a b).0 same), same) (and_false r)
  | inr other ↦ rw other refl
]

pub has-set_intersection :
    (a : ℕ) (fs gs : List Function)
    → IsSorted fs
    → IsSorted gs
    → has a (set_intersection fs gs) ≡ has a fs && has a gs
unfolding set_intersection
has-set_intersection a [] gs ok ok' = unfold has in refl
has-set_intersection a (f ∷ fs) [] ok ok' = unfold has in ground arith
has-set_intersection a (f ∷ fs) (g ∷ gs) ok ok' =
    on (compare f.address g.address) refl
      (has-set_intersection a fs (g ∷ gs) (IsSorted-rest f fs ok) ok')
      (has-set_intersection a (f ∷ fs) gs ok (IsSorted-rest g gs ok'))
      (has-set_intersection a fs gs (IsSorted-rest f fs ok) (IsSorted-rest g gs ok'))
  where
    on :
        (o : Ordering)
        → compare f.address g.address ≡ o
        → has a (set_intersection fs (g ∷ gs)) ≡ has a fs && has a (g ∷ gs)
        → has a (set_intersection (f ∷ fs) gs) ≡ has a (f ∷ fs) && has a gs
        → has a (set_intersection fs gs) ≡ has a fs && has a gs
        → has a (set_intersection (f ∷ fs) (g ∷ gs)) ≡ has a (f ∷ fs) && has a (g ∷ gs)
    on Ordering.lt e h1 h2 h3 =
        rw (set_intersection, e)
          (h1
            ∙ (unfold has in
                drop_first a f.address (has a fs) (has a (g ∷ gs))
                  (λ same. sorted_below a g gs ok' (below_of a f.address g.address same e))))
    on Ordering.gt e h1 h2 h3 =
        rw (set_intersection, e)
          (h2
            ∙ (unfold has in
                drop_second a g.address (has a (f ∷ fs)) (has a gs)
                  (λ same. sorted_below a f fs ok (above_of a f.address g.address same e))))
    on Ordering.eq e h1 h2 h3 =
        rw (set_intersection, e)
          (unfold has in
            ap (λ b. a == f.address || b) h3 ∙ meet a f.address g.address (has a fs) (has a gs) e)
