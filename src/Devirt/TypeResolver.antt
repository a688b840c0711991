-- ===== src/Devirt/TypeResolver.antt =====
-- About the pass with CallSiteResolverByTypes.
use crab_llvm.Prelude.{
  ℕ, ◌+◌, ◌≡◌, ◌⊎◌, inl, inr, refl, sym, ap, ◌∙◌, Bool, true, false, Option, none, some, List, [],
  ◌∷◌, ◌==◌, Bool-cases, Option-cases, ==_iff, ==_refl, arith, some_inj, subst, length, get_elem?,
}
use mathlib.Core.List.{Memᴰ}
use crab_llvm.Devirt.{
  Function, CallSite, has, is_indirect_call, find_targets, populate_type_alias_sets, type_alias_id,
  type_bounce, cache_type_bounce, CallType, type_resolver, Bounce, run_bounce, called, Instruction,
  resolve_call_sites, find_bounce,
}
use crab_llvm.Devirt.Resolve.{fresh_state, resolve_call_sites-dispatch, resolve_call_sites-replaces}
use crab_llvm.Devirt.Resolve.Drain.{IsResolver}
use crab_llvm.Devirt.Resolve.Visit.{IsCall}
use crab_llvm.Devirt.Dispatch.{dispatch}
use crab_llvm.Devirt.AliasSets.{
  functions_of, functions_of_found, Belongs, populate_type_alias_sets-exact,
}

-- A call site whose called value has the type that it has behind a cast.
abbrev pub IsPlain : CallSite → Type 0
IsPlain cs = type_alias_id cs true ≡ cs.called_type

find_bounce_cases :
    (t u : ℕ) (b b' : ℕ) (cache : List (ℕ × ℕ))
    → find_bounce t ((u, b) ∷ cache) ≡ some b'
    → ((t ≡ u) × (b' ≡ b)) ⊎ (find_bounce t cache ≡ some b')
unfolding find_bounce
find_bounce_cases t u b b' cache h = elim (Bool-cases (t == u)) [
  | inl e ↦ inl ((==_iff t u).0 e, sym (some_inj _ _ (rw e at h)))
  | inr e ↦ inr (rw e at h)
]

cache_cases :
    (cache : List (ℕ × ℕ)) (cs cs' : CallSite) (b b' : ℕ)
    → type_bounce (cache_type_bounce cache cs b) cs' ≡ some b'
    → (type_bounce cache cs' ≡ some b') ⊎ ((b' ≡ b) × (cs'.called_type ≡ cs.called_type))
unfolding type_bounce cache_type_bounce type_alias_id
cache_cases cache cs cs' b b' h = elim (Option-cases (find_bounce cs.called_type cache)) [
  | inl unknown ↦
      elim (find_bounce_cases cs'.called_type cs.called_type b b' cache
        (rw (cache_type_bounce, unknown) at h)) [
          | inl (same, is_b) ↦ inr (is_b, same)
          | inr old ↦ inl old
        ]
  | inr (c, known) ↦ inl (rw (cache_type_bounce, known) at h)
]

pub type_resolver-IsResolver :
    (allow_indirect_calls : Bool) (type : CallType) (map : List (ℕ × List Function))
    → IsResolver allow_indirect_calls type (type_resolver map) IsPlain
unfolding type_resolver
type_resolver-IsResolver allow_indirect_calls type map = record {
  cached = λ cache cs cs' b b' plain plain' found. elim (cache_cases cache cs cs' b b' found) [
    | inl old ↦ inl old
    | inr (is_b, same) ↦ inr (is_b, ap (λ t. find_targets t map) (plain' ∙ same ∙ sym plain), same)
  ];
}

has-Mem : (f : Function) (fs : List Function) → Memᴰ f fs → has f.address fs ≡ true
unfolding has
has-Mem f [] m = elim m [ ]
has-Mem f (g ∷ fs) (Memᴰ.head same) =
    rw (ap (λ h. f.address == h.address) (sym same) ∙ ==_refl f.address) refl
has-Mem f (g ∷ fs) (Memᴰ.tail m) = ground (arith, has-Mem f fs m)

dispatch-has :
    (allow_indirect_calls is_void : Bool) (fs : List Function) (p : ℕ)
    → has p fs ≡ true
    → dispatch allow_indirect_calls is_void fs p ≡ called p
unfolding dispatch
dispatch-has allow_indirect_calls is_void fs p h = rw h refl

-- A set with a member is found, and is not empty.
targets_of_member :
    (f : Function) (t : ℕ) (map : List (ℕ × List Function))
    → Memᴰ f (functions_of t map)
    → (g : Function) × (gs : List Function) × (find_targets t map ≡ some (g ∷ gs))
unfolding functions_of
targets_of_member f t map m = on (find_targets t map) m refl
  where
    on :
        (o : Option (List Function))
        → Memᴰ f (elim o [ none ↦ [] | some fs ↦ fs ])
        → find_targets t map ≡ o
        → (g : Function) × (gs : List Function) × (find_targets t map ≡ some (g ∷ gs))
    on none m e = elim m [ ]
    on (some []) m e = elim m [ ]
    on (some (g ∷ gs)) m e = (g, gs, e)

pub no_bounce : (cs : CallSite) → type_bounce [] cs ≡ none
unfolding type_bounce find_bounce
no_bounce cs = refl

-- With the resolver by types, where no indirect call of the code is through a cast pointer: an
-- indirect call that is no inline assembly and has no variable arguments becomes a call of a bounce
-- function, if the module has a function of the called type that may be called indirectly; and for
-- the pointer to any such function, the bounce function's run calls just it.
pub resolve_call_sites-type_resolver :
    (allow_indirect_calls : Bool) (type : CallType) (m : List Function) (code : List Instruction)
    → ((i : Instruction) (cs : CallSite)
        → Memᴰ i code
        → IsCall i cs
        → is_indirect_call cs ≡ true
        → IsPlain cs)
    → (i : Instruction) (cs : CallSite) → Memᴰ i code
    → IsCall i cs
    → is_indirect_call cs ≡ true
    → type.is_var_arg cs.called_type ≡ false
    → (f : Function) → Belongs cs.called_type m f
    → let resolver = type_resolver (populate_type_alias_sets m) in
      let st =
        (resolve_call_sites allow_indirect_calls type resolver code
          (fresh_state allow_indirect_calls type resolver [])).0 in
      (b : ℕ) × (bounce : Bounce) × (fuel : ℕ) × Memᴰ (cs, b) st.replaced
      × (get_elem? st.bounces b ≡ some bounce)
      × (run_bounce fuel bounce f.address ≡ some (called f.address))
unfolding type_resolver
resolve_call_sites-type_resolver allow_indirect_calls type m code plain i cs in_code is_call
      indirect fixed f belongs =
    let map = populate_type_alias_sets m in
    let resolver = type_resolver map in
    let at_type = ((populate_type_alias_sets-exact m cs.called_type).1 f).1 belongs in
    let same = plain i cs in_code is_call indirect in
    let (g, gs, found) = targets_of_member f cs.called_type map at_type in
    let targets = ap (λ t. find_targets t map) same ∙ found in
    let (b, replaced) =
      resolve_call_sites-replaces allow_indirect_calls type resolver code
        (fresh_state allow_indirect_calls type resolver []) i cs in_code is_call indirect
        (record { fixed = fixed; target = g; others = gs; targets = targets }) in
    let (ts, bounce, is_ts, at_b, runs) =
      resolve_call_sites-dispatch allow_indirect_calls type resolver IsPlain code []
        (type_resolver-IsResolver allow_indirect_calls type map) plain no_bounce cs b replaced in
    let listed =
      functions_of_found cs.called_type map ts (ap (λ t. find_targets t map) (sym same) ∙ is_ts) in
    (
      b,
      bounce,
      length ts + 1,
      replaced,
      at_b,
      runs f.address
          ∙ ap some (
              dispatch-has allow_indirect_calls (type.is_void cs.called_type) ts f.address
                (has-Mem f ts (subst (Memᴰ f) listed at_type))),
    )
