-- ===== src/Utils/Names.antt =====
-- The verifier's functions, known by their names.
use Prim.Native.String.{String}
use text.Mathlib.Text.{◌==◌, starts_with}
use text.Mathlib.TextEquality.{eq_iff}
use crab_llvm.Prelude.{
  ◌≡◌, Bool, true, false, ◌&&◌, ◌||◌, arith, ℕ, ◌+◌, ◌≤◌, ◌↔◌, subst, sym, refl, Bool-cases, inl,
  inr,
}

unfoldable pub is_assert_fn : String → Bool
is_assert_fn n = n == "verifier.assert" || (n == "crab.assert" || n == "__CRAB_assert")

unfoldable pub is_sea_horn_fail : String → Bool
is_sea_horn_fail n = n == "seahorn.fail"

unfoldable pub is_error_fn : String → Bool
is_error_fn n =
    n == "seahorn.error"
    || (n == "verifier.error" || (n == "__VERIFIER_error" || n == "__SEAHORN_error"))

unfoldable pub is_assume_fn : String → Bool
is_assume_fn n = n == "verifier.assume" || (n == "__VERIFIER_assume" || n == "__CRAB_assume")

unfoldable pub is_not_assume_fn : String → Bool
is_not_assume_fn n =
    n == "verifier.assume.not" || (n == "__VERIFIER_assume_not" || n == "__CRAB_assume_not")

unfoldable pub is_verifier_call : String → Bool
unfolding is_assert_fn is_sea_horn_fail is_error_fn is_assume_fn is_not_assume_fn
is_verifier_call n =
    is_assert_fn n
    || (is_error_fn n || (is_assume_fn n || (is_not_assume_fn n || is_sea_horn_fail n)))

unfoldable pub is_crab_intrinsic : String → Bool
is_crab_intrinsic n = starts_with n "__CRAB_intrinsic_"

unfoldable pub is_zero_initializer : String → Bool
is_zero_initializer n = starts_with n "verifier.zero_initializer"

unfoldable pub is_int_initializer : String → Bool
is_int_initializer n = starts_with n "verifier.int_initializer"

bit : Bool → ℕ
bit true = 1
bit false = 0

-- How many of the five kinds a name is of.
unfoldable pub kinds : String → ℕ
unfolding is_assert_fn is_sea_horn_fail is_error_fn is_assume_fn is_not_assume_fn bit
kinds n =
    bit (is_assert_fn n)
    + bit (is_error_fn n)
    + bit (is_assume_fn n)
    + bit (is_not_assume_fn n)
    + bit (is_sea_horn_fail n)

module _ (P : String → Type 0) (n : String) where
  of_name : (a : String) → (n == a) ≡ true → P a → P n
  of_name a h p = subst P (sym ((eq_iff n a).0 h)) p

  of_names : (a : String) (b : Bool) → (n == a || b) ≡ true → P a → (b ≡ true → P n) → P n
  of_names a b h p rest = elim (Bool-cases (n == a)) [
    | inl e ↦ of_name a e p
    | inr e ↦ rest (rw e at h)
  ]

abbrev AtMostOne : String → Type 0
AtMostOne n = kinds n ≤ 1

assert-AtMostOne : (n : String) → is_assert_fn n ≡ true → AtMostOne n
unfolding is_assert_fn kinds
assert-AtMostOne n h = of_names AtMostOne n "verifier.assert" _ h (omega arith) λ h'.
    of_names AtMostOne n "crab.assert" _ h' (omega arith)
      λ h''. of_name AtMostOne n "__CRAB_assert" h'' (omega arith)

error-AtMostOne : (n : String) → is_error_fn n ≡ true → AtMostOne n
unfolding is_error_fn kinds
error-AtMostOne n h = of_names AtMostOne n "seahorn.error" _ h (omega arith) λ h'.
    of_names AtMostOne n "verifier.error" _ h' (omega arith) λ h''.
      of_names AtMostOne n "__VERIFIER_error" _ h'' (omega arith)
        λ h3. of_name AtMostOne n "__SEAHORN_error" h3 (omega arith)

assume-AtMostOne : (n : String) → is_assume_fn n ≡ true → AtMostOne n
unfolding is_assume_fn kinds
assume-AtMostOne n h = of_names AtMostOne n "verifier.assume" _ h (omega arith) λ h'.
    of_names AtMostOne n "__VERIFIER_assume" _ h' (omega arith)
      λ h''. of_name AtMostOne n "__CRAB_assume" h'' (omega arith)

not_assume-AtMostOne : (n : String) → is_not_assume_fn n ≡ true → AtMostOne n
unfolding is_not_assume_fn kinds
not_assume-AtMostOne n h = of_names AtMostOne n "verifier.assume.not" _ h (omega arith) λ h'.
    of_names AtMostOne n "__VERIFIER_assume_not" _ h' (omega arith)
      λ h''. of_name AtMostOne n "__CRAB_assume_not" h'' (omega arith)

kinds_lem :
    (n : String)
    → kinds n
      ≡ bit (is_assert_fn n)
        + bit (is_error_fn n)
        + bit (is_assume_fn n)
        + bit (is_not_assume_fn n)
        + bit (is_sea_horn_fail n)
unfolding kinds
kinds_lem n = refl

at_most_one : (n : String) → AtMostOne n
unfolding bit
at_most_one n = ground (
  arith,
  kinds_lem n,
  assert-AtMostOne n,
  error-AtMostOne n,
  assume-AtMostOne n,
  not_assume-AtMostOne n,
)

call_lem :
    (n : String)
    → is_verifier_call n
      ≡ is_assert_fn n
        || (is_error_fn n || (is_assume_fn n || (is_not_assume_fn n || is_sea_horn_fail n)))
unfolding is_verifier_call
call_lem n = refl

call_iff : (n : String) → (is_verifier_call n ≡ true) ↔ (kinds n ≡ 1)
unfolding bit
call_iff n = ground (arith, kinds_lem n, call_lem n, at_most_one n)

-- No function is of two kinds, so the order in which `is_verifier_call` and its users ask does not
-- matter; and it is a verifier call exactly if it is of one kind.
pub kinds-le-one : (n : String) → (kinds n ≤ 1) × ((is_verifier_call n ≡ true) ↔ (kinds n ≡ 1))
kinds-le-one n = (at_most_one n, call_iff n)

-- At most one of the three kinds of checks.
pub checks_one :
    (n : String)
    → (is_assert_fn n && is_assume_fn n ≡ false)
      × (is_assert_fn n && is_not_assume_fn n ≡ false)
      × (is_assume_fn n && is_not_assume_fn n ≡ false)
      × (is_error_fn n && is_assert_fn n ≡ false)
      × (is_error_fn n && is_assume_fn n ≡ false)
      × (is_error_fn n && is_not_assume_fn n ≡ false)
      × (is_sea_horn_fail n && is_assert_fn n ≡ false)
      × (is_sea_horn_fail n && is_assume_fn n ≡ false)
      × (is_sea_horn_fail n && is_not_assume_fn n ≡ false)
unfolding bit
checks_one n = ground (arith, kinds_lem n, at_most_one n)
