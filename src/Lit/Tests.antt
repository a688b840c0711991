-- ===== src/Lit/Tests.antt =====
-- The factory on concrete values: register 1 of type i32, the i8 constant with pattern 200, undef.
use crab_llvm.Prelude.{◌≡◌, ◌↔◌, refl, some, none, true, false}
use crab_llvm.Llvm.{int, Value}
use crab_llvm.Utils.Numbers.{is_signed_bignum}
use crab_llvm.Lit.{Lit, int_var, int_type, find_lit, make_lit, get_lit, get_int_lit, remember}
use crab_llvm.Lit.Cache.{IsValid, get_lit-IsValid}
use crab_llvm.Lit.Exact.{lacks_literal, make_lit-none_iff}
use crab_llvm.Lit.Sample.{
  sample_factory, sample_factory-IsVariableFactory, sample_params, empty_state, empty_state-IsValid,
}

abbrev counter : Value
counter = Value.reg 1 (int 32)

abbrev some_undef : Value
some_undef = Value.undef 4 (int 32)

get_lit-IsValid_example :
    IsValid sample_factory sample_params sample_factory-IsVariableFactory
      (get_lit sample_factory sample_params counter empty_state).1
get_lit-IsValid_example =
    get_lit-IsValid sample_factory sample_params sample_factory-IsVariableFactory counter
      empty_state empty_state-IsValid

make_lit-none_iff_example :
    ((make_lit sample_factory sample_params counter empty_state).0 ≡ none)
    ↔ (lacks_literal sample_params counter ≡ true)
make_lit-none_iff_example = make_lit-none_iff sample_factory sample_params counter empty_state

has_literal : lacks_literal sample_params (Value.const_int 8 200) ≡ false
unfolding is_signed_bignum
has_literal = refl

abbrev undef_lit : Lit
undef_lit = int_var (record { name = 1; var_type = int_type; bitwidth = 32 })

made_undef : (get_lit sample_factory sample_params some_undef empty_state).0 ≡ some undef_lit
unfolding get_lit find_lit make_lit get_int_lit remember
made_undef = refl
