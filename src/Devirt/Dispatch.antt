-- ===== src/Devirt/Dispatch.antt =====
-- About bounce_code: what a run of a bounce function does.
use crab_llvm.Prelude.{
  ℕ, zero, suc, ◌+◌, ◌≡◌, ◌⊎◌, inl, inr, refl, sym, ap, ◌∙◌, Bool, true, false, ◌||◌, Option, some,
  List, [], ◌∷◌, ◌++◌, ◌==◌, if◌then◌else◌, length, get_elem?, Bool-cases, ==_iff, arith,
  true_ne_false, some_inj, subst,
}
use mathlib.Core.List.{append-nil, append_assoc}
use crab_llvm.Devirt.{
  Function, has, Block, direct_call, test, add_calls, block_of, default_block, add_tests,
  bounce_code, Outcome, called, returned, unreachable, run, run_bounce,
}

-- What a bounce function is to do with a pointer.
unfoldable pub dispatch : Bool → Bool → List Function → ℕ → Outcome
unfolding has
dispatch allow_indirect_calls is_void targets p =
    if has p targets
    then called p
    else if allow_indirect_calls
    then (if is_void then returned else called p)
    else unreachable

get_elem?-append :
    (xs ys : List Block) (i : ℕ) (b : Block)
    → get_elem? xs i ≡ some b
    → get_elem? (xs ++ ys) i ≡ some b
get_elem?-append [] ys i b h = ground arith
get_elem?-append (x ∷ xs) ys zero b h = h
get_elem?-append (x ∷ xs) ys (suc i) b h = get_elem?-append xs ys i b h

get_elem?-last : (xs ys : List Block) (b : Block) → get_elem? (xs ++ b ∷ ys) (length xs) ≡ some b
get_elem?-last [] ys b = refl
get_elem?-last (x ∷ xs) ys b = get_elem?-last xs ys b

-- The blocks that the map names call a function of the right address.
Calls : List Block → List (ℕ × ℕ) → Type 0
Calls blocks map =
    (a l : ℕ)
    → block_of a map ≡ some l
    → (f : Function) × (get_elem? blocks l ≡ some (direct_call f)) × (f.address ≡ a)

with_call :
    (f : Function) (blocks : List Block) (map : List (ℕ × ℕ))
    → Calls blocks map
    → Calls (blocks ++ direct_call f ∷ []) ((f.address, length blocks) ∷ map)
unfolding Calls block_of
with_call f blocks map h a l e = elim (Bool-cases (a == f.address)) [
  | inl same ↦
      let at_end = some_inj _ _ (rw same at e) in
      (
        f,
        subst (λ m. get_elem? (blocks ++ direct_call f ∷ []) m ≡ some (direct_call f)) at_end
            (get_elem?-last blocks [] (direct_call f)),
        sym ((==_iff a f.address).0 same),
      )
  | inr other ↦
      let (g, at_l, is_a) = h a l (rw other at e) in
      (g, get_elem?-append blocks (direct_call f ∷ []) l (direct_call g) at_l, is_a)
]

add_calls-Calls :
    (fs : List Function) (blocks : List Block) (map : List (ℕ × ℕ))
    → Calls blocks map
    → Calls (add_calls fs blocks map).0 (add_calls fs blocks map).1
unfolding add_calls Calls block_of
add_calls-Calls [] blocks map h = h
add_calls-Calls (f ∷ fs) blocks map h =
    add_calls-Calls fs (blocks ++ direct_call f ∷ []) ((f.address, length blocks) ∷ map)
      (with_call f blocks map h)

-- Every target is in the map.
add_calls-block_of :
    (fs : List Function) (blocks : List Block) (map : List (ℕ × ℕ)) (a : ℕ)
    → (has a fs ≡ true) ⊎ ((l : ℕ) × (block_of a map ≡ some l))
    → (l : ℕ) × (block_of a (add_calls fs blocks map).1 ≡ some l)
unfolding add_calls block_of has
add_calls-block_of [] blocks map a (inl h) = absurd (true_ne_false (sym h))
add_calls-block_of [] blocks map a (inr h) = h
add_calls-block_of (f ∷ fs) blocks map a h =
    add_calls-block_of fs (blocks ++ direct_call f ∷ []) ((f.address, length blocks) ∷ map) a
      (known_in h)
  where
    known_in :
        (has a (f ∷ fs) ≡ true) ⊎ ((l : ℕ) × (block_of a map ≡ some l))
        → (has a fs ≡ true) ⊎ ((l : ℕ) × (block_of a ((f.address, length blocks) ∷ map) ≡ some l))
    known_in h = elim (Bool-cases (a == f.address)) [
      | inl same ↦ inr (length blocks, rw same refl)
      | inr other ↦ elim h [
        | inl later ↦ inl (rw other at later)
        | inr (l, e) ↦ inr (l, rw other e)
      ]
    ]

-- The tests come behind the blocks that are there.
add_tests-extends :
    (map : List (ℕ × ℕ)) (fs : List Function) (tail : ℕ) (blocks : List Block)
    → (more : List Block) × ((add_tests map fs tail blocks).0 ≡ blocks ++ more)
unfolding add_tests
add_tests-extends map [] tail blocks = ([], sym (append-nil blocks))
add_tests-extends map (f ∷ fs) tail blocks =
    let t = test f (block_of f.address map) tail in
    let (more, e) = add_tests-extends map fs (length blocks) (blocks ++ t ∷ []) in
    (t ∷ more, e ∙ append_assoc blocks (t ∷ []) more)

-- Steps of a run.
run_call :
    (n : ℕ) (blocks : List Block) (l p : ℕ) (f : Function)
    → get_elem? blocks l ≡ some (direct_call f)
    → run (suc n) blocks l p ≡ some (called f.address)
unfolding run
run_call n blocks l p f h = rw (run, h) refl

run_test :
    (n : ℕ) (blocks : List Block) (l p l' tail : ℕ) (f : Function) (o : Option ℕ)
    → get_elem? blocks l ≡ some (test f o tail)
    → o ≡ some l'
    → run (suc n) blocks l p ≡ (if f.address == p then run n blocks l' p else run n blocks tail p)
unfolding run
run_test n blocks l p l' tail f o h e = rw (run, h) (rw e refl)

-- The fuel for the tests of a list, with `suc k` left behind them.
tests_fuel : List Function → ℕ → ℕ
tests_fuel [] k = suc k
tests_fuel (f ∷ fs) k = tests_fuel fs (suc k)

tests_fuel_lem : (fs : List Function) (k : ℕ) → tests_fuel fs k ≡ length fs + suc k
unfolding tests_fuel
tests_fuel_lem [] k = omega arith
tests_fuel_lem (f ∷ fs) k = omega (arith, tests_fuel_lem fs (suc k))

-- A test, where the map leads to a call.
run_tested :
    (k : ℕ) (final : List Block) (map : List (ℕ × ℕ)) (l0 tail p : ℕ) (f : Function)
    → Calls final map
    → (l : ℕ) × (block_of f.address map ≡ some l)
    → get_elem? final l0 ≡ some (test f (block_of f.address map) tail)
    → run (suc (suc k)) final l0 p
      ≡ (if f.address == p then some (called p) else run (suc k) final tail p)
unfolding Calls
run_tested k final map l0 tail p f calls (l, e) h =
    let (g, at_l, is_f) = calls f.address l e in
    run_test (suc k) final l0 p l tail f _ h e
    ∙ hit (Bool-cases (f.address == p))
        (run_call k final l p g at_l ∙ ap (λ a. some (called a)) is_f)
  where
    hit :
        ((f.address == p) ≡ true) ⊎ ((f.address == p) ≡ false)
        → run (suc k) final l p ≡ some (called f.address)
        → (if f.address == p then run (suc k) final l p else run (suc k) final tail p)
          ≡ (if f.address == p then some (called p) else run (suc k) final tail p)
    hit (inl same) r = rw same (r ∙ ap (λ a. some (called a)) ((==_iff f.address p).0 same))
    hit (inr other) r = rw other refl

choose :
    (a b : ℕ) (h : Bool) (x y : Option Outcome)
    → (if h then x else (if a == b then x else y)) ≡ (if b == a || h then x else y)
choose a b h x y = ground arith

has_later : (a : ℕ) (f : Function) (fs : List Function) → has a fs ≡ true → has a (f ∷ fs) ≡ true
unfolding has
has_later a f fs h = ground arith

has_here : (f : Function) (fs : List Function) → has f.address (f ∷ fs) ≡ true
unfolding has
has_here f fs = ground arith

-- The tests, run from the one to test first.
run-add_tests :
    (map : List (ℕ × ℕ)) (final : List Block) (p : ℕ) (fs : List Function) (tail : ℕ)
    (blocks : List Block) (k : ℕ)
    → Calls final map
    → ((a : ℕ) → has a fs ≡ true → (l : ℕ) × (block_of a map ≡ some l))
    → (more : List Block) → (add_tests map fs tail blocks).0 ++ more ≡ final
    → run (tests_fuel fs k) final (add_tests map fs tail blocks).1 p
      ≡ (if has p fs then some (called p) else run (suc k) final tail p)
unfolding add_tests tests_fuel
run-add_tests map final p [] tail blocks k calls known more e = unfold has in refl
run-add_tests map final p (f ∷ fs) tail blocks k calls known more e =
    run-add_tests map final p fs (length blocks)
      (blocks ++ test f (block_of f.address map) tail ∷ []) (suc k) calls
      (λ a m. known a (has_later a f fs m)) more e
    ∙ ap (λ o. if has p fs then some (called p) else o)
        (run_tested k final map (length blocks) tail p f calls (known f.address (has_here f fs))
          placed)
    ∙ (unfold has in choose f.address p (has p fs) (some (called p)) (run (suc k) final tail p))
  where
    placed : get_elem? final (length blocks) ≡ some (test f (block_of f.address map) tail)
    placed =
        let t = test f (block_of f.address map) tail in
        let (later, e') = add_tests-extends map fs (length blocks) (blocks ++ t ∷ []) in
        subst (λ bs. get_elem? bs (length blocks) ≡ some t) e
          (get_elem?-append _ more (length blocks) t (
            rw e' (
              get_elem?-append (blocks ++ t ∷ []) later (length blocks) t
                (get_elem?-last blocks [] t))))

Calls-nil : Calls [] []
unfolding Calls block_of
Calls-nil a l h = ground arith

Calls-append :
    (blocks more : List Block) (map : List (ℕ × ℕ)) → Calls blocks map → Calls (blocks ++ more) map
unfolding Calls
Calls-append blocks more map h a l e =
    let (f, at_l, is_a) = h a l e in (f, get_elem?-append blocks more l (direct_call f) at_l, is_a)

-- The last block of the chain.
run_default :
    (allow_indirect_calls is_void : Bool) (blocks : List Block) (l p : ℕ)
    → get_elem? blocks l ≡ some (default_block allow_indirect_calls is_void)
    → run (suc 0) blocks l p
      ≡ some
          (if allow_indirect_calls then (if is_void then returned else called p) else unreachable)
unfolding run default_block
run_default true true blocks l p h = rw (run, h) refl
run_default true false blocks l p h = rw (run, h) refl
run_default false is_void blocks l p h = rw (run, h) refl

some_if : (b : Bool) (x y : Outcome) → (if b then some x else some y) ≡ some (if b then x else y)
some_if true x y = refl
some_if false x y = refl

-- With one unit of fuel for each target and one more, a run of the code for some targets ends, for
-- every pointer: it calls the target at this address if there is one. Otherwise it reaches
-- undefined behaviour where indirect calls are not allowed; where they are allowed it calls the
-- pointer, unless the call's type is void, where it returns without a call.
pub bounce_code-dispatch :
    (allow_indirect_calls : Bool) (t : ℕ) (is_void : Bool) (targets : List Function) (p : ℕ)
    → run_bounce (length targets + 1) (bounce_code allow_indirect_calls t is_void targets) p
      ≡ some (dispatch allow_indirect_calls is_void targets p)
unfolding bounce_code run_bounce dispatch
bounce_code-dispatch allow_indirect_calls t is_void targets p =
    let ending = default_block allow_indirect_calls is_void in
    let calls = add_calls targets [] [] in
    let (more, e) = add_tests-extends calls.1 targets (length calls.0) (calls.0 ++ ending ∷ []) in
    let code = (add_tests calls.1 targets (length calls.0) (calls.0 ++ ending ∷ [])).0 in
    let placed =
      subst (λ bs. get_elem? bs (length calls.0) ≡ some ending) (sym e)
        (get_elem?-append (calls.0 ++ ending ∷ []) more (length calls.0) ending
          (get_elem?-last calls.0 [] ending)) in
    let all_calls =
      subst (λ bs. Calls bs calls.1) (sym e)
        (Calls-append (calls.0 ++ ending ∷ []) more calls.1
          (Calls-append calls.0 (ending ∷ []) calls.1 (add_calls-Calls targets [] [] Calls-nil))) in
    ap (λ n. run n code (add_tests calls.1 targets (length calls.0) (calls.0 ++ ending ∷ [])).1 p)
      (sym (tests_fuel_lem targets 0))
    ∙ run-add_tests calls.1 code p targets (length calls.0) (calls.0 ++ ending ∷ []) 0 all_calls
        (λ a h. add_calls-block_of targets [] [] a (inl h)) [] (append-nil code)
    ∙ ap (λ o. if has p targets then some (called p) else o)
        (run_default allow_indirect_calls is_void code (length calls.0) p placed)
    ∙ some_if (has p targets) _ _
