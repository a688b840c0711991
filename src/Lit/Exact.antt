-- ===== src/Lit/Exact.antt =====
-- Which values have a literal, and which one.
use crab_llvm.Prelude.{
  ℕ, ◌-◌, ◌^◌, ◌<◌, ◌≡◌, ◌≢◌, ◌↔◌, ◌⊎◌, ◌∙◌, inl, inr, refl, sym, ap, Bool, true, false, none, some,
  ◌∷◌, arith, ltb, ◌==◌, if◌then◌else◌, Option-cases,
}
use crab_llvm.CmpInst.{signed_value}
use crab_llvm.Llvm.{int, pointer, Value}
use crab_llvm.Utils.Types.{CrabBuilderParams}
use crab_llvm.Utils.Numbers.{to_z_number, is_signed_bignum, to_z_number-signed_value}
use crab_llvm.Lit.{
  Lit, bool_cst, int_cst, VariableFactory, LitState, find_lit, get_bool_lit, get_int_lit,
  get_ptr_lit, remember, make_lit, get_lit,
}
use crab_llvm.Lit.Cache.{find_lit_self, find_lit_ne, make_lit_cache}

-- A value with no literal: a constant expression, a bignum that the parameters exclude, or a value
-- that is no Boolean, integer or pointer.
abbrev pub lacks_literal : CrabBuilderParams → Value → Bool
lacks_literal params (Value.const_int w bits) =
    if w == 1 then false else if params.enable_bignums then false else is_signed_bignum w bits
lacks_literal params Value.null = false
lacks_literal params (Value.const_expr i t) = true
lacks_literal params (Value.undef i (int w)) = false
lacks_literal params (Value.undef i pointer) = false
lacks_literal params (Value.undef i t) = true
lacks_literal params (Value.reg i (int w)) = false
lacks_literal params (Value.reg i pointer) = false
lacks_literal params (Value.reg i t) = true

module _ (vfac : VariableFactory) (params : CrabBuilderParams) where
  -- A value that is not cached gets no literal exactly if it is one of those.
  pub make_lit-none_iff :
      (v : Value) (st : LitState)
      → ((make_lit vfac params v st).0 ≡ none) ↔ (lacks_literal params v ≡ true)
  unfolding make_lit get_bool_lit get_int_lit get_ptr_lit remember to_z_number
  make_lit-none_iff (Value.const_int w bits) st = ground arith
  make_lit-none_iff v st = ground arith

  -- The literal of an integer constant is its signed value, and that of an i1 constant is true for
  -- the pattern 1.
  make_lit-const_int :
      (w bits : ℕ) (st : LitState)
      → 0 < w
      → bits < 2 ^ w
      → lacks_literal params (Value.const_int w bits) ≡ false
      → (make_lit vfac params (Value.const_int w bits) st).0
        ≡ some (if w == 1 then bool_cst (ltb 0 bits) else int_cst (signed_value (w - 1) bits))
  unfolding make_lit get_bool_lit get_int_lit remember
  make_lit-const_int w bits st pos_w range h =
      ground (arith, to_z_number-signed_value w bits params pos_w range, to_z w bits)
    where
      to_z :
          (w bits : ℕ)
          → (to_z_number w bits params).1
            ≡ (if params.enable_bignums then false else is_signed_bignum w bits)
      to_z w bits = unfold to_z_number in refl

  pub get_lit_hit :
      (v : Value) (st : LitState) (l : Lit)
      → find_lit v st.cache ≡ some l
      → get_lit vfac params v st ≡ (some l, st)
  unfolding get_lit
  get_lit_hit v st l h = rw (h, get_lit)

  pub get_lit_miss :
      (v : Value) (st : LitState)
      → find_lit v st.cache ≡ none
      → get_lit vfac params v st ≡ make_lit vfac params v st
  unfolding get_lit
  get_lit_miss v st h = rw (h, get_lit)

  -- A literal that was given out is in the cache.
  pub find_lit-get_lit :
      (v : Value) (st : LitState) (l : Lit)
      → (get_lit vfac params v st).0 ≡ some l
      → find_lit v (get_lit vfac params v st).1.cache ≡ some l
  find_lit-get_lit v st l h = elim (Option-cases (find_lit v st.cache)) [
    | inr (m, e) ↦ rw (get_lit_hit v st m e) (e ∙ ap (λ r. r.0) (sym (get_lit_hit v st m e)) ∙ h)
    | inl e ↦
        rw (get_lit_miss v st e)
          (in_cache (make_lit_cache vfac params v st) (rw (get_lit_miss v st e) at h))
  ]
    where
      in_cache :
          ((make_lit vfac params v st).0 ≡ none) × ((make_lit vfac params v st).1.cache ≡ st.cache)
            ⊎ ((l : Lit) × ((make_lit vfac params v st).0 ≡ some l)
                × ((make_lit vfac params v st).1.cache ≡ (v, l) ∷ st.cache))
          → (make_lit vfac params v st).0 ≡ some l
          → find_lit v (make_lit vfac params v st).1.cache ≡ some l
      in_cache (inl (nothing, e)) g = cc
      in_cache (inr (m, e, grown)) g = rw grown (find_lit_self v m st.cache ∙ sym e ∙ g)

  -- A second request for a value gives the first literal again and changes nothing, also for an
  -- undef value; and no request changes the literal of another value.
  get_lit_again :
      (v : Value) (st : LitState) (l : Lit)
      → (get_lit vfac params v st).0 ≡ some l
      → (get_lit vfac params v (get_lit vfac params v st).1
          ≡ (some l, (get_lit vfac params v st).1))
        × ((u : Value)
            → u ≢ v
            → find_lit u (get_lit vfac params v st).1.cache ≡ find_lit u st.cache)
  get_lit_again v st l h = (
    get_lit_hit v (get_lit vfac params v st).1 l (find_lit-get_lit v st l h),
    λ u ne. elim (Option-cases (find_lit v st.cache)) [
      | inr (m, e) ↦ rw (get_lit_hit v st m e)
      | inl e ↦ rw (get_lit_miss v st e) (others u ne (make_lit_cache vfac params v st))
    ],
  )
    where
      others :
          (u : Value)
          → u ≢ v
          → ((make_lit vfac params v st).0 ≡ none)
              × ((make_lit vfac params v st).1.cache ≡ st.cache)
            ⊎ ((l : Lit) × ((make_lit vfac params v st).0 ≡ some l)
                × ((make_lit vfac params v st).1.cache ≡ (v, l) ∷ st.cache))
          → find_lit u (make_lit vfac params v st).1.cache ≡ find_lit u st.cache
      others u ne (inl (nothing, e)) = rw e
      others u ne (inr (m, e, grown)) = rw grown (find_lit_ne u v m st.cache (λ q. ne (sym q)))
