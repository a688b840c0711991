-- ===== src/Utils/Uses.antt =====
-- The questions about all uses of a value.
use Prim.Native.String.{String}
use mathlib.Core.Logic.{ite}
use crab_llvm.Prelude.{Bool, true, false, not, ◌&&◌, ◌||◌, List, [], ◌∷◌, Option, some}
use crab_llvm.Llvm.{Value, Value-discrete, type_of}
use crab_llvm.Utils.Types.{is_bool}
use crab_llvm.Utils.Names.{is_assert_fn, is_assume_fn, is_not_assume_fn}

-- A user of a value, as far as the code looks into it: a select has its own value and its
-- condition, a call the called value and the name of the function that it is, if it is one.
pub data User : Type 0 where
  branch_user gep_user other_user : User
  select_user : Value → Value → User
  call_user : Value → Option String → User

same : Value → Value → Bool
unfolding Value-discrete
same v u = ite (Value-discrete v u) true false

is_branch : User → Bool
is_branch User.branch_user = true
is_branch _ = false

is_gep : User → Bool
is_gep User.gep_user = true
is_gep _ = false

is_branch_or_int_select : Value → User → Bool
unfolding same is_bool type_of
is_branch_or_int_select v User.branch_user = true
is_branch_or_int_select v (User.select_user si cond) =
    not (is_bool (type_of si) || not (same cond v))
is_branch_or_int_select v _ = false

is_indirect_call : Value → User → Bool
unfolding same
is_indirect_call v (User.call_user callee name) = same callee v
is_indirect_call v _ = false

is_verifier_user : User → Bool
unfolding is_assert_fn is_assume_fn is_not_assume_fn
is_verifier_user (User.call_user callee (some n)) =
    is_assert_fn n || (is_assume_fn n || is_not_assume_fn n)
is_verifier_user _ = false

all_users : (User → Bool) → List User → Bool
all_users p [] = true
all_users p (u ∷ us) = p u && all_users p us

unfoldable pub all_uses_are_br_inst : List User → Bool
unfolding is_branch all_users
all_uses_are_br_inst us = all_users is_branch us

unfoldable pub all_uses_are_br_or_int_select_cond_inst : Value → List User → Bool
unfolding is_branch_or_int_select all_users
all_uses_are_br_or_int_select_cond_inst v us = all_users (is_branch_or_int_select v) us

unfoldable pub all_uses_are_indirect_calls : Value → List User → Bool
unfolding is_indirect_call all_users
all_uses_are_indirect_calls v us = all_users (is_indirect_call v) us

unfoldable pub all_uses_are_verifier_calls : List User → Bool
unfolding is_verifier_user all_users
all_uses_are_verifier_calls us = all_users is_verifier_user us

unfoldable pub all_uses_are_gep : List User → Bool
unfolding is_gep all_users
all_uses_are_gep us = all_users is_gep us
