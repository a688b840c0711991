-- ===== src/Devirt/Sample.antt =====
-- A module of four functions with an indirect call.
use crab_llvm.Prelude.{◌==◌, true, false, some, List, [], ◌∷◌}
use crab_llvm.Devirt.{
  Function, Called, CallSite, CallType, Instruction, call, other_inst, Dsa, Settings,
}

abbrev pub open_file : Function
open_file = record {
  address = 10;
  name = "open_file";
  pointer_type = 7;
  is_intrinsic = false;
  has_local_linkage = true;
  has_address_taken = true;
  is_declaration = false;
}

abbrev pub close_file : Function
close_file = record open_file { address = 4; name = "close_file"; has_local_linkage = false }

abbrev main : Function
main = record open_file { address = 6; name = "main" }

abbrev pub other_type : Function
other_type = record open_file { address = 8; name = "other_type"; pointer_type = 9 }

abbrev pub functions : List Function
functions = open_file ∷ close_file ∷ main ∷ other_type ∷ []

abbrev pub site : CallSite
site = record { instruction = 1; called = Called.other_value; called_type = 7 }

-- The pointer of this call is loaded through a cast from a pointer to the other type.
abbrev pub cast_site : CallSite
cast_site = record {
  instruction = 2;
  called = Called.loaded_through_cast (some 9);
  called_type = 7;
}

abbrev pub code : List Instruction
code = other_inst ∷ call false site ∷ []

-- Calls of type 7 return nothing.
abbrev pub types : CallType
types = record { is_void = λ t. t == 7; is_var_arg = λ t. false }

-- A pointer analysis that finds two of the functions for each call.
abbrev pub sample_dsa : Dsa
sample_dsa = record { is_complete = λ cs. true; targets = λ cs. open_file ∷ main ∷ [] }

abbrev pub sample_settings : Settings
sample_settings = record { allow_incomplete = false; max_num_targets = 3 }
