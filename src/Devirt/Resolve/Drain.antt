-- ===== src/Devirt/Resolve/Drain.antt =====
-- About the loop over the worklist: the state between two calls.
use crab_llvm.Prelude.{
  ℕ, zero, suc, ◌≡◌, ◌⊎◌, inl, inr, refl, sym, ap, ◌∙◌, Bool, false, Option, none, some, List, [],
  ◌∷◌, ◌++◌, length, get_elem?, Bool-cases, Option-cases, arith, true_ne_false, subst,
}
use mathlib.Core.List.{Memᴰ}
use mathlib.Core.List.Memᴰ
use crab_llvm.Devirt.{
  Function, CallSite, Bounce, bounce_code, CallSiteResolver, CallType, State, new_bounce,
  mk_bounce_fn, replace_call, mk_direct_call, drain,
}

module _ {C : Type 0} (allow_indirect_calls : Bool) (type : CallType)
    (resolver : CallSiteResolver C) where
  -- What a resolver's cache promises for the call sites in `Site`: a bounce function is found only
  -- for a call site with the targets and the called type of the one that it was cached for.
  pub record IsResolver (Site : CallSite → Type 0) : Type 0 where
    pub cached :
        (c : C) (cs cs' : CallSite) (b b' : ℕ)
        → Site cs
        → Site cs'
        → resolver.get_bounce_function (resolver.cache_bounce_function c cs b) cs' ≡ some b'
        → (resolver.get_bounce_function c cs' ≡ some b')
          ⊎ ((b' ≡ b)
              × (resolver.get_targets cs' ≡ resolver.get_targets cs)
              × (cs'.called_type ≡ cs.called_type))

  -- The bounce function `b` is the code for the targets of the call site.
  pub record Serves (bounces : List Bounce) (cs : CallSite) (b : ℕ) : Type 0 where
    pub target : Function
    pub others : List Function
    pub targets : resolver.get_targets cs ≡ some (target ∷ others)
    pub code :
        get_elem? bounces b
        ≡ some (
            bounce_code allow_indirect_calls cs.called_type
              (type.is_void cs.called_type)
              (target ∷ others))

  pub record IsResolvable (cs : CallSite) : Type 0 where
    pub fixed : type.is_var_arg cs.called_type ≡ false
    pub target : Function
    pub others : List Function
    pub targets : resolver.get_targets cs ≡ some (target ∷ others)

  -- What mk_bounce_fn does: nothing, find a function, or make one.
  data Made (cs : CallSite) (st : State C) : Option ℕ × State C → Type 0 where
    unresolved : ¬ IsResolvable cs → Made cs st (none, st)
    reused : (b : ℕ) → resolver.get_bounce_function st.cache cs ≡ some b → Made cs st (some b, st)
    created :
        (f : Function) (fs : List Function)
        → resolver.get_targets cs ≡ some (f ∷ fs)
        → Made cs st (
          some (length st.bounces),
          record st {
            cache = resolver.cache_bounce_function st.cache cs (length st.bounces);
            bounces =
                st.bounces
                ++ bounce_code allow_indirect_calls cs.called_type
                    (type.is_void cs.called_type)
                    (f ∷ fs)
                  ∷ [];
          },
        )

  new_bounce-Made :
      (cs : CallSite) (st : State C) (o : Option (List Function))
      → resolver.get_targets cs ≡ o
      → Made cs st (new_bounce allow_indirect_calls type resolver cs o st)
  unfolding new_bounce
  new_bounce-Made cs st none e = unresolved (λ r. ground (arith, e, r.targets))
  new_bounce-Made cs st (some []) e = unresolved (λ r. ground (arith, e, r.targets))
  new_bounce-Made cs st (some (f ∷ fs)) e = created f fs e

  mk_bounce_fn-Made :
      (cs : CallSite) (st : State C)
      → Made cs st (mk_bounce_fn allow_indirect_calls type resolver cs st)
  unfolding mk_bounce_fn
  mk_bounce_fn-Made cs st = elim (Bool-cases (type.is_var_arg cs.called_type)) [
    | inl var_arg ↦ rw var_arg (unresolved (λ r. true_ne_false (sym var_arg ∙ r.fixed)))
    | inr fixed ↦ elim (Option-cases (resolver.get_bounce_function st.cache cs)) [
      | inl unknown ↦ rw (fixed, unknown) (new_bounce-Made cs st (resolver.get_targets cs) refl)
      | inr (b, known) ↦ rw (fixed, known) (reused b known)
    ]
  ]

  get_elem?-append :
      (xs ys : List Bounce) (i : ℕ) (b : Bounce)
      → get_elem? xs i ≡ some b
      → get_elem? (xs ++ ys) i ≡ some b
  get_elem?-append [] ys i b h = ground arith
  get_elem?-append (x ∷ xs) ys zero b h = h
  get_elem?-append (x ∷ xs) ys (suc i) b h = get_elem?-append xs ys i b h

  get_elem?-last : (xs : List Bounce) (b : Bounce) → get_elem? (xs ++ b ∷ []) (length xs) ≡ some b
  get_elem?-last [] b = refl
  get_elem?-last (x ∷ xs) b = get_elem?-last xs b

  Serves-append :
      (bounces more : List Bounce) (cs : CallSite) (b : ℕ)
      → Serves bounces cs b
      → Serves (bounces ++ more) cs b
  Serves-append bounces more cs b s = record {
    target = s.target;
    others = s.others;
    targets = s.targets;
    code = get_elem?-append bounces more b _ s.code;
  }

  module _ (Site : CallSite → Type 0) (laws : IsResolver Site) where
    -- The invariant: what the cache finds and what stands for a replaced call serves the call site.
    pub record IsServed (st : State C) : Type 0 where
      pub cache_served :
          (cs : CallSite) (b : ℕ)
          → Site cs
          → resolver.get_bounce_function st.cache cs ≡ some b
          → Serves st.bounces cs b
      pub replaced_served :
          (cs : CallSite) (b : ℕ) → Memᴰ (cs, b) st.replaced → Serves st.bounces cs b

    -- A new function serves the call site that it was made for.
    new-Serves :
        (cs : CallSite) (bounces : List Bounce) (f : Function) (fs : List Function)
        → resolver.get_targets cs ≡ some (f ∷ fs)
        → (cs' : CallSite) → resolver.get_targets cs' ≡ resolver.get_targets cs
        → cs'.called_type ≡ cs.called_type
        → Serves
            (bounces
              ++ bounce_code allow_indirect_calls cs.called_type
                  (type.is_void cs.called_type)
                  (f ∷ fs)
                ∷ [])
            cs'
            (length bounces)
    new-Serves cs bounces f fs e cs' same_targets same_type = record {
      target = f;
      others = fs;
      targets = same_targets ∙ e;
      code =
          get_elem?-last bounces _
          ∙ ap (λ t. some (bounce_code allow_indirect_calls t (type.is_void t) (f ∷ fs)))
              (sym same_type);
    }

    with_new :
        (bounces : List Bounce) (replaced : List (CallSite × ℕ)) (cs : CallSite) (b : ℕ)
        → Serves bounces cs b
        → ((cs' : CallSite) (b' : ℕ) → Memᴰ (cs', b') replaced → Serves bounces cs' b')
        → (cs' : CallSite) (b' : ℕ) → Memᴰ (cs', b') ((cs, b) ∷ replaced)
        → Serves bounces cs' b'
    with_new bounces replaced cs b new old cs' b' (Memᴰ.head e) =
        subst (λ r. Serves bounces r.0 r.1) (sym e) new
    with_new bounces replaced cs b new old cs' b' (Memᴰ.tail m) = old cs' b' m

    replace_call-IsServed :
        (cs : CallSite) (st : State C) (r : Option ℕ × State C)
        → Site cs
        → IsServed st
        → Made cs st r
        → IsServed (replace_call allow_indirect_calls type resolver cs r)
    unfolding replace_call
    replace_call-IsServed cs st r site ok (unresolved not_resolvable) = ok
    replace_call-IsServed cs st r site ok (reused b e) = record {
      cache_served = ok.cache_served;
      replaced_served =
          with_new st.bounces st.replaced cs b (ok.cache_served cs b site e) ok.replaced_served;
    }
    replace_call-IsServed cs st r site ok (created f fs e) = record {
      cache_served = λ cs' b' site' found.
          elim (laws.cached st.cache cs cs' (length st.bounces) b' site site' found) [
            | inl old ↦ Serves-append st.bounces _ cs' b' (ok.cache_served cs' b' site' old)
            | inr (new, same_targets, same_type) ↦
                subst (Serves _ cs') (sym new)
                  (new-Serves cs st.bounces f fs e cs' same_targets same_type)
          ];
      replaced_served =
          with_new _ st.replaced cs (length st.bounces)
            (new-Serves cs st.bounces f fs e cs refl refl)
            (λ cs' b' m. Serves-append st.bounces _ cs' b' (ok.replaced_served cs' b' m));
    }

    mk_direct_call-IsServed :
        (cs : CallSite) (st : State C)
        → Site cs
        → IsServed st
        → IsServed (mk_direct_call allow_indirect_calls type resolver cs st)
    unfolding mk_direct_call
    mk_direct_call-IsServed cs st site ok =
        let counted = record st { num_indirect_calls = suc st.num_indirect_calls } in
        replace_call-IsServed cs counted _ site
          (record { cache_served = ok.cache_served; replaced_served = ok.replaced_served })
          (mk_bounce_fn-Made cs counted)

    pub drain-IsServed :
        (worklist : List CallSite) (st : State C)
        → ((cs : CallSite) → Memᴰ cs worklist → Site cs)
        → IsServed st
        → IsServed (drain allow_indirect_calls type resolver worklist st)
    unfolding drain
    drain-IsServed [] st sites ok = ok
    drain-IsServed (cs ∷ worklist) st sites ok =
        drain-IsServed worklist _ (λ cs' m. sites cs' (Memᴰ.tail m))
          (mk_direct_call-IsServed cs st (sites cs (Memᴰ.head refl)) ok)

  -- What is replaced stays so.
  replace_call-keeps :
      (cs : CallSite) (st : State C) (r : Option ℕ × State C) (x : CallSite × ℕ)
      → Made cs st r
      → Memᴰ x st.replaced
      → Memᴰ x (replace_call allow_indirect_calls type resolver cs r).replaced
  unfolding replace_call
  replace_call-keeps cs st r x (unresolved not_resolvable) m = m
  replace_call-keeps cs st r x (reused b e) m = Memᴰ.tail m
  replace_call-keeps cs st r x (created f fs e) m = Memᴰ.tail m

  drain-keeps :
      (worklist : List CallSite) (st : State C) (x : CallSite × ℕ)
      → Memᴰ x st.replaced
      → Memᴰ x (drain allow_indirect_calls type resolver worklist st).replaced
  unfolding drain mk_direct_call
  drain-keeps [] st x m = m
  drain-keeps (cs ∷ worklist) st x m =
      let counted = record st { num_indirect_calls = suc st.num_indirect_calls } in
      drain-keeps worklist _ x (replace_call-keeps cs counted _ x (mk_bounce_fn-Made cs counted) m)

  replace_call_lem :
      (cs : CallSite) (st : State C) (r : Option ℕ × State C)
      → IsResolvable cs
      → Made cs st r
      → (b : ℕ) × Memᴰ (cs, b) (replace_call allow_indirect_calls type resolver cs r).replaced
  unfolding replace_call
  replace_call_lem cs st r can (unresolved not_resolvable) = absurd (not_resolvable can)
  replace_call_lem cs st r can (reused b e) = (b, Memᴰ.head refl)
  replace_call_lem cs st r can (created f fs e) = (length st.bounces, Memᴰ.head refl)

  pub drain_lem :
      (worklist : List CallSite) (st : State C) (cs : CallSite)
      → Memᴰ cs worklist
      → IsResolvable cs
      → (b : ℕ) × Memᴰ (cs, b) (drain allow_indirect_calls type resolver worklist st).replaced
  unfolding drain mk_direct_call
  drain_lem [] st cs m can = elim m [ ]
  drain_lem (cs' ∷ worklist) st cs (Memᴰ.head e) can =
      let counted = record st { num_indirect_calls = suc st.num_indirect_calls } in
      let (b, m) =
        replace_call_lem cs' counted _ (subst IsResolvable e can) (mk_bounce_fn-Made cs' counted) in
      (
        b,
        Memᴰ.cast (ap (λ c. (c, b)) e) (
            drain-keeps worklist (mk_direct_call allow_indirect_calls type resolver cs' st) (cs', b)
              m),
      )
  drain_lem (cs' ∷ worklist) st cs (Memᴰ.tail m) can = drain_lem worklist _ cs m can
