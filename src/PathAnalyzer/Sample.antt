-- ===== src/PathAnalyzer/Sample.antt =====
-- A path of one block, x := 0; y := x; assume(x != 0), with two domains and a meaning of statements.
use crab_llvm.Prelude.{
  ℕ, ◌≡◌, inl, inr, refl, sym, ap, ◌∙◌, Bool, true, false, not, ◌&&◌, Option, none, some, List, [],
  ◌∷◌, ◌==◌, if◌then◌else◌, Bool-cases, ==_refl, arith, some_inj,
}
use crab_llvm.PathAnalyzer.{Kind, Statement, Wrapper, Cfg, Domain, is_assume, is_empty, member}
use crab_llvm.PathAnalyzer.Slicing.{Agree, SameOutcome, IsMeaning, block, go_on}

abbrev pub set_x : Statement
set_x = record {
  address = 1;
  kind = Kind.other_kind;
  uses = [];
  defs = 0 ∷ [];
  criteria = [];
  contradiction = false;
}

abbrev pub copy_x : Statement
copy_x = record {
  address = 2;
  kind = Kind.other_kind;
  uses = 0 ∷ [];
  defs = 1 ∷ [];
  criteria = [];
  contradiction = false;
}

abbrev pub assume_x : Statement
assume_x = record {
  address = 3;
  kind = Kind.assume;
  uses = 0 ∷ [];
  defs = [];
  criteria = 0 ∷ [];
  contradiction = false;
}

abbrev pub in_block : Statement → Wrapper
in_block s = record { stmt = s; parent = 0 }

abbrev pub path : List Wrapper
path = in_block set_x ∷ in_block copy_x ∷ in_block assume_x ∷ []

-- Block 0 has the statements, and block 1 follows it.
abbrev successors : ℕ → List ℕ
successors b = if b == 0 then 1 ∷ [] else []

abbrev statements : ℕ → List Statement
statements b = if b == 0 then set_x ∷ copy_x ∷ assume_x ∷ [] else []

abbrev pub cfg : Cfg
cfg = record { node = statements; next_nodes = successors }

-- 0 says nothing, 1 that x is 0, and 2 is bottom.
abbrev transfer : Statement → ℕ → ℕ
transfer s d =
    if d == 2 then 2 else if s.address == 1 then 1 else if s.address == 3 && (d == 1) then 2 else d

abbrev pub zero_domain : Domain ℕ
zero_domain = record {
  top = 0;
  is_bottom = λ d. d == 2;
  transfer = transfer;
  moved_is_bottom = false;
}

-- A domain that never finds bottom.
abbrev pub top_domain : Domain ℕ
top_domain = record {
  top = 0;
  is_bottom = λ d. false;
  transfer = λ s d. d;
  moved_is_bottom = false;
}

-- A statement without definitions blocks where the first variable that it uses is 0; another one
-- sets what it defines to 0.
unfoldable blocks : Statement → (ℕ → ℕ) → Bool
unfolding is_empty
blocks s σ = elim s.uses [ [] ↦ false | x ∷ _ ↦ is_empty s.defs && (σ x == 0) ]

unfoldable after : Statement → (ℕ → ℕ) → ℕ → ℕ
unfolding member
after s σ x = if member x s.defs then 0 else σ x

unfoldable pub step : Statement → (ℕ → ℕ) → Option (ℕ → ℕ)
unfolding blocks after
step s σ = if blocks s σ then none else some (after s σ)

step-blocks : (s : Statement) (σ : ℕ → ℕ) → blocks s σ ≡ true → step s σ ≡ none
unfolding step
step-blocks s σ h = rw (step, h) refl

step_goes_on : (s : Statement) (σ : ℕ → ℕ) → blocks s σ ≡ false → step s σ ≡ some (after s σ)
unfolding step
step_goes_on s σ h = rw (step, h) refl

none_ne_some : (σ : ℕ → ℕ) → ¬ (◌≡◌ {A = Option (ℕ → ℕ)} none (some σ))
none_ne_some σ h = ground arith

step-frame :
    (s : Statement) (σ σ' : ℕ → ℕ) (x : ℕ)
    → step s σ ≡ some σ'
    → member x s.defs ≡ false
    → σ' x ≡ σ x
unfolding after
step-frame s σ σ' x h m = elim (Bool-cases (blocks s σ)) [
  | inl b ↦ absurd (none_ne_some σ' (sym (step-blocks s σ b) ∙ h))
  | inr b ↦ ap (λ f. f x) (sym (some_inj _ _ (sym (step_goes_on s σ b) ∙ h))) ∙ (rw (after, m) refl)
]

blocks-Agree : (s : Statement) (σ τ : ℕ → ℕ) → Agree step s.uses σ τ → blocks s σ ≡ blocks s τ
unfolding blocks
blocks-Agree s σ τ agree = on s.uses agree
  where
    on :
        (uses : List ℕ)
        → Agree step uses σ τ
        → blocks (record s { uses = uses }) σ ≡ blocks (record s { uses = uses }) τ
    on [] agree = refl
    on (x ∷ uses) agree = rw (agree x (unfold member in rw (==_refl x) refl)) refl

step-local :
    (s : Statement) (σ τ : ℕ → ℕ)
    → Agree step s.uses σ τ
    → SameOutcome step s.defs (step s σ) (step s τ)
unfolding after
step-local s σ τ agree = elim (Bool-cases (blocks s σ)) [
  | inl b ↦ rw (step-blocks s σ b, step-blocks s τ (sym (blocks-Agree s σ τ agree) ∙ b)) block
  | inr b ↦
      rw (step_goes_on s σ b, step_goes_on s τ (sym (blocks-Agree s σ τ agree) ∙ b))
        (go_on (after s σ) (after s τ) (λ x m. rw (after, m) refl))
]

step-total :
    (s : Statement) (σ : ℕ → ℕ)
    → is_assume s.kind && s.contradiction ≡ false
    → is_empty s.defs && not (is_empty s.uses) ≡ false
    → (σ' : ℕ → ℕ) × (step s σ ≡ some σ')
unfolding blocks is_empty
step-total s σ ok h = (after s σ, step_goes_on s σ (not_blocked s.uses h))
  where
    not_blocked :
        (uses : List ℕ)
        → is_empty s.defs && not (is_empty uses) ≡ false
        → blocks (record s { uses = uses }) σ ≡ false
    not_blocked [] h = refl
    not_blocked (x ∷ uses) h = ground arith

pub step-IsMeaning : IsMeaning step
step-IsMeaning = record { frame = step-frame; local = step-local; total = step-total }
