-- ===== src/Builder/Call.antt =====
-- The parameters of a call in visitCallInst, and of a function's declaration in build_cfg, of
-- lib/Clam/CfgBuilder.cc, without ShadowMem.
pub mod Types
pub mod Regions
pub mod Arguments
pub mod Returns
pub mod Interface
mod Tests
use crab_llvm.Prelude.{
  ℕ, Bool, true, false, not, ◌&&◌, ◌||◌, Option, none, some, List, [], ◌∷◌, ◌++◌, ◌==◌,
  if◌then◌else◌, ◌>>=◌,
}
use crab_llvm.Llvm.{Ty, Value, type_of, width_of}
use crab_llvm.Utils.Types.{
  CrabBuilderParams, is_tracked, is_tracked_type, is_bool, is_integer, is_pointer,
  should_call_site_return, does_call_site_return,
}
use crab_llvm.Lit.{
  Lit, bool_cst, bool_var, int_cst, int_var, ptr_null, ptr_var, Var, exp_var, get_var,
  VariableFactory, LitState, get_lit, mk_bool_var, mk_int_var, mk_ptr_var, mk_int_array_var,
  mk_bool_array_var, mk_array_var, mk_array_singleton_var, Region, RegionType,
}
use crab_llvm.Crab.{Stmt, bool_assign_var, assign, ptr_assign, array_assign}
use crab_llvm.Builder.Casts.{normalize_func_param_or_ret}
use crab_llvm.Builder.Memory.{is_int_or_bool, get_singleton_value, is_arr}

-- What the heap analysis says of a call or a function: the regions that it only reads, that it
-- modifies, and that it makes.
pub record Effects : Type 0 where
  pub only_reads : List Region
  pub mods : List Region
  pub news : List Region

-- The statements so far, the inputs and the outputs, and the state of the factory.
pub record Signature : Type 0 where
  pub code : List Stmt
  pub inputs : List Var
  pub outputs : List Var
  pub lits : LitState

-- get_read_only_regions, get_modified_regions and get_new_regions.
unfoldable pub get_regions : List Region → List Region
unfolding is_int_or_bool
get_regions [] = []
get_regions (r ∷ rs) = let rest = get_regions rs in if is_int_or_bool r then r ∷ rest else rest

-- std::find, which compares the identities.
unfoldable pub has_region : Region → List Region → Bool
has_region r [] = false
has_region r (s ∷ rs) = (s.id == r.id) || has_region r rs

-- Whether a variable is the one that is returned.
abbrev pub is_named : Option Var → Var → Bool
is_named none x = false
is_named (some y) x = x.name == y.name

abbrev pub returned : Option Var → List Var
returned none = []
returned (some x) = x ∷ []

module _ (vfac : VariableFactory) (params : CrabBuilderParams) where
  abbrev pub is_lowered : Region → Bool
  is_lowered r = get_singleton_value r params.lower_singleton_aliases

  -- The variable of a region, a scalar or an array; none is the error exit.
  unfoldable pub param_var : Region → Option Var
  unfolding get_singleton_value mk_array_var mk_array_singleton_var
  param_var r =
      if is_lowered r then mk_array_singleton_var vfac r none else mk_array_var vfac r none

  -- The regions that are only read are inputs.
  unfoldable pub add_reads : List Region → Signature → Option Signature
  unfolding param_var
  add_reads [] sig = some sig
  add_reads (r ∷ rs) sig = do
    x ← param_var r
    add_reads rs (record sig { inputs = sig.inputs ++ (x ∷ []) })

  -- The new regions are outputs.
  unfoldable pub add_news : List Region → Signature → Option Signature
  unfolding mk_array_var
  add_news [] sig = some sig
  add_news (r ∷ rs) sig = do
    x ← mk_array_var vfac r none
    add_news rs (record sig { outputs = sig.outputs ++ (x ∷ []) })

  -- A call: the modified regions, but the new ones, are inputs and outputs.
  unfoldable pub call_mods : List Region → List Region → Signature → Option Signature
  unfolding has_region param_var
  call_mods news [] sig = some sig
  call_mods news (r ∷ rs) sig =
      let skipped = call_mods news rs sig in
      if has_region r news then skipped else (do
        x ← param_var r
        call_mods news rs
            (record sig { inputs = sig.inputs ++ (x ∷ []); outputs = sig.outputs ++ (x ∷ []) }))

  -- The actual parameters.
  unfoldable pub call_args : List Value → Signature → Option Signature
  unfolding is_tracked normalize_func_param_or_ret
  call_args [] sig = some sig
  call_args (v ∷ vs) sig =
      let skipped = call_args vs sig in
      if is_tracked v params
      then (do
        out ← normalize_func_param_or_ret vfac params v sig.lits
        call_args vs (record sig {
          code = sig.code ++ out.1.0;
          inputs = sig.inputs ++ (out.0 ∷ []);
          lits = out.1.1;
        }))
      else skipped

  -- A new variable of a type, as the call and the declaration make it for a value that is not there.
  unfoldable pub fresh_return : Ty → LitState → Option (Var × LitState)
  unfolding is_bool is_integer is_pointer mk_bool_var mk_int_var mk_ptr_var width_of
  fresh_return t st =
      if is_bool t
      then some (mk_bool_var vfac params st)
      else if is_integer t
      then some (mk_int_var vfac params (width_of t) st)
      else if is_pointer t params
      then some (mk_ptr_var vfac params st)
      else none

  abbrev add_output : Var × LitState → Signature → Signature
  add_output out sig = record sig { outputs = sig.outputs ++ (out.0 ∷ []); lits = out.1 }

  -- The returned value of a call `I` of a function with the type `t`; none is an error.
  unfoldable pub call_return : Value → Ty → Signature → Option Signature
  unfolding should_call_site_return does_call_site_return get_var fresh_return
  call_return I t sig =
      let (ref, lits') = get_lit vfac params I sig.lits in
      let own : Option Signature = (do l ← ref; x ← get_var l; some (add_output (x, lits') sig)) in
      let made : Option Signature = elim (fresh_return t sig.lits) [
        | some out ↦ some (add_output out sig)
        | none ↦ some sig
      ] in
      if should_call_site_return (some t) params
      then (if does_call_site_return I params then own else made)
      else if does_call_site_return I params
      then none
      else some sig

  abbrev empty_signature : LitState → Signature
  empty_signature st = record { code = []; inputs = []; outputs = []; lits = st }

  -- The parameters of the call `I` of a function with the return type `t`.
  unfoldable pub call_signature : Value → Ty → List Value → Effects → LitState → Option Signature
  unfolding call_args call_return is_arr get_regions add_reads call_mods add_news
  call_signature I t args eff st =
      let arrays : Signature → Option Signature = (λ sig. do
        sig1 ← add_reads (get_regions eff.only_reads) sig
        sig2 ← call_mods (get_regions eff.news) (get_regions eff.mods) sig1
        add_news (get_regions eff.news) sig2) in
      do
        sig ← call_args args (empty_signature st)
        sig' ← call_return I t sig
        (if is_arr params then arrays sig' else some sig')

  -- The returned value of a declaration, made for a function that does not return.
  unfoldable pub declared_return : Option Var → Ty → LitState → Option Var × LitState
  unfolding is_tracked_type is_bool is_integer mk_bool_var mk_int_var mk_ptr_var width_of
  declared_return (some x) t st = (some x, st)
  declared_return none t st =
      let made : Var × LitState =
        if is_bool t
        then mk_bool_var vfac params st
        else if is_integer t
        then mk_int_var vfac params (width_of t) st
        else mk_ptr_var vfac params st in
      if is_tracked_type t params then (some made.0, made.1) else (none, st)

  -- A new input for the argument with the literal, and its assignment.
  unfoldable pub renamed : Value → Lit → Var → LitState → List Stmt × Var × LitState
  unfolding mk_bool_var mk_int_var mk_ptr_var width_of type_of
  renamed arg (bool_var y) x st =
      let (z, st') = mk_bool_var vfac params st in (bool_assign_var x z false ∷ [], z, st')
  renamed arg (int_var y) x st =
      let (z, st') = mk_int_var vfac params (width_of (type_of arg)) st in
      (assign x (exp_var z) ∷ [], z, st')
  renamed arg (ptr_var y) x st =
      let (z, st') = mk_ptr_var vfac params st in (ptr_assign x z ∷ [], z, st')
  renamed arg l x st = ([], x, st)

  -- The formal parameters; one with the variable that is returned is renamed. New statements stand
  -- in front of the earlier ones.
  unfoldable pub declared_args : Option Var → List Value → Signature → Option Signature
  unfolding is_tracked get_var renamed
  declared_args ret [] sig = some sig
  declared_args ret (v ∷ vs) sig =
      let (ref, lits') = get_lit vfac params v sig.lits in
      let skipped = declared_args ret vs sig in
      if is_tracked v params
      then (do
        l ← ref
        x ← get_var l
        (let new = renamed v l x lits' in
            let out : List Stmt × Var × LitState = if is_named ret x then new else ([], x, lits') in
            declared_args ret vs (record sig {
              code = out.0 ++ sig.code;
              inputs = sig.inputs ++ (out.1 ∷ []);
              lits = out.2;
            })))
      else skipped

  -- The input version of a modified region and the statement that copies it to the region's variable
  -- `x`; none where there is no such version.
  unfoldable pub input_version : Region → Var → LitState → Option (Stmt × Var × LitState)
  unfolding get_singleton_value is_integer is_bool mk_int_var mk_bool_var mk_int_array_var
      mk_bool_array_var width_of
  input_version r x st =
      let scalar : Ty → Option (Stmt × Var × LitState) = (λ t.
        let (i, st1) = mk_int_var vfac params (width_of t) st in
        let (b, st2) = mk_bool_var vfac params st in
        if is_integer t
        then some (assign x (exp_var i), i, st1)
        else if is_bool t
        then some (bool_assign_var x b false, b, st2)
        else none) in
      let (ia, st3) = mk_int_array_var vfac params 0 st in
      let (ba, st4) = mk_bool_array_var vfac params st in
      if is_lowered r
      then elim r.singleton [ none ↦ none | some t ↦ scalar t ]
      else elim r.region_type [
        | RegionType.int_region ↦ some (array_assign x ia, ia, st3)
        | RegionType.bool_region ↦ some (array_assign x ba, ba, st4)
        | _ ↦ none
      ]

  -- One modified region of a declaration, whose variable is `x`.
  unfoldable pub declare_mod : Region → Var → Signature → Signature
  unfolding input_version
  declare_mod r x sig = elim (input_version r x sig.lits) [
    | none ↦ record sig { outputs = sig.outputs ++ (x ∷ []) }
    | some (copy, y, st) ↦ record {
      code = copy ∷ sig.code;
      inputs = sig.inputs ++ (y ∷ []);
      outputs = sig.outputs ++ (x ∷ []);
      lits = st;
    }
  ]

  unfoldable pub declared_mods : List Region → List Region → Signature → Option Signature
  unfolding has_region param_var declare_mod
  declared_mods news [] sig = some sig
  declared_mods news (r ∷ rs) sig =
      let skipped = declared_mods news rs sig in
      if has_region r news
      then skipped
      else (do x ← param_var r; declared_mods news rs (declare_mod r x sig))

  -- The declaration of a function with the return type `t`, the formal parameters, and the variable
  -- that its exit block returns, if there is one.
  unfoldable pub declared_signature :
      Bool → Option Var → Ty → List Value → Effects → LitState → Option Signature
  unfolding declared_return declared_args is_arr get_regions add_reads declared_mods add_news
  declared_signature is_main ret t formals eff st =
      let (out, lits') = declared_return ret t st in
      let start_sig : Signature = record {
        code = [];
        inputs = [];
        outputs = returned out;
        lits = lits';
      } in
      let arrays : Signature → Option Signature = (λ sig. do
        sig1 ← add_reads (get_regions eff.only_reads) sig
        sig2 ← declared_mods (get_regions eff.news) (get_regions eff.mods) sig1
        add_news (get_regions eff.news) sig2) in
      do
        sig ← declared_args out formals start_sig
        (if is_arr params && not is_main then arrays sig else some sig)
