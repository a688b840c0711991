-- ===== src/Utils/Types.antt =====
-- Which types and values are translated.
use crab_llvm.Prelude.{◌≡◌, ◌↔◌, ◌⊎◌, Bool, true, false, not, ◌&&◌, arith, ◌==◌, Option, none, some}
use crab_llvm.Llvm.{Ty, int, pointer, void, Value, type_of}

pub data Precision : Type 0 where
  num ptr arr : Precision

-- The fields of CrabBuilderParams that the modelled code reads.
pub record CrabBuilderParams : Type 0 where
  pub precision_level : Precision
  pub interprocedural : Bool
  pub include_useless_havoc : Bool
  pub enable_bignums : Bool
  pub lower_singleton_aliases : Bool
  pub use_array_smashing : Bool

unfoldable pub track_pointers : CrabBuilderParams → Bool
track_pointers params = elim params.precision_level [ Precision.ptr ↦ true | _ ↦ false ]

unfoldable pub is_pointer_ty : Ty → Bool
is_pointer_ty pointer = true
is_pointer_ty _ = false

unfoldable pub is_integer_ty : Ty → Bool
is_integer_ty (int w) = true
is_integer_ty _ = false

unfoldable pub is_void_ty : Ty → Bool
is_void_ty void = true
is_void_ty _ = false

-- isIntegerTy(1)
unfoldable pub is_bool : Ty → Bool
is_bool (int w) = w == 1
is_bool _ = false

unfoldable pub is_integer : Ty → Bool
unfolding is_integer_ty is_bool
is_integer t = is_integer_ty t && not (is_bool t)

unfoldable pub is_pointer : Ty → CrabBuilderParams → Bool
unfolding is_pointer_ty track_pointers
is_pointer t params = is_pointer_ty t && track_pointers params

unfoldable pub is_tracked_type : Ty → CrabBuilderParams → Bool
unfolding is_pointer_ty is_integer_ty track_pointers
is_tracked_type t params = elim (is_pointer_ty t) [
  | true ↦ track_pointers params
  | false ↦ is_integer_ty t
]

unfoldable pub is_tracked : Value → CrabBuilderParams → Bool
unfolding is_tracked_type type_of
is_tracked v params = is_tracked_type (type_of v) params

-- The callee's return type, where the callee is known.
unfoldable pub should_call_site_return : Option Ty → CrabBuilderParams → Bool
unfolding is_void_ty is_tracked_type
should_call_site_return none params = false
should_call_site_return (some t) params = not (is_void_ty t) && is_tracked_type t params

unfoldable pub does_call_site_return : Value → CrabBuilderParams → Bool
unfolding is_void_ty is_tracked
does_call_site_return call params = not (is_void_ty (type_of call)) && is_tracked call params

-- Casts: the kind, the source and the destination type.
pub data CastOp : Type 0 where
  trunc zext sext int_to_ptr ptr_to_int bit_cast other_cast : CastOp

unfoldable pub is_int_to_bool : CastOp → Ty → Bool
unfolding is_bool
is_int_to_bool CastOp.trunc dest = is_bool dest
is_int_to_bool _ dest = false

unfoldable pub is_bool_to_int : CastOp → Ty → Bool
unfolding is_bool
is_bool_to_int CastOp.zext src = is_bool src
is_bool_to_int CastOp.sext src = is_bool src
is_bool_to_int _ src = false

-- A type is tracked exactly if it is a Boolean, an integer, or a pointer while pointers are
-- tracked; no type is of two of these kinds.
is_tracked_type_iff :
    (t : Ty) (params : CrabBuilderParams)
    → ((is_tracked_type t params ≡ true)
        ↔ ((is_bool t ≡ true) ⊎ ((is_integer t ≡ true) ⊎ (is_pointer t params ≡ true))))
      × (is_bool t && is_integer t ≡ false)
      × (is_bool t && is_pointer t params ≡ false)
      × (is_integer t && is_pointer t params ≡ false)
unfolding is_tracked_type is_bool is_integer is_pointer
is_tracked_type_iff (int w) params = ground arith
is_tracked_type_iff t params = ground arith

-- A tracked call result is one whose callee returns a tracked type, where the type of the call is
-- the callee's return type.
call_sites_agree :
    (call : Value) (params : CrabBuilderParams)
    → should_call_site_return (some (type_of call)) params ≡ does_call_site_return call params
unfolding should_call_site_return does_call_site_return
call_sites_agree call params = ground arith
