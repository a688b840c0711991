-- ===== src/Devirt/Resolve/Visit.antt =====
-- About the visitor: what is in the worklist.
use crab_llvm.Prelude.{◌≡◌, inl, inr, refl, sym, true, false, List, [], ◌∷◌, Bool-cases, subst}
use mathlib.Core.List.{Memᴰ}
use mathlib.Core.List.Memᴰ
use crab_llvm.Devirt.{
  CallSite, is_indirect_call, Instruction, call, invoke, other_inst, visit_call_site, visit,
}

-- The call site of an instruction that is not inline assembly.
pub data IsCall : Instruction → CallSite → Type 0 where
  by_call : (cs : CallSite) → IsCall (call false cs) cs
  by_invoke : (cs : CallSite) → IsCall (invoke cs) cs

-- The visitor finds the indirect calls that are not inline assembly.
visit_call_site-keeps :
    (cs x : CallSite) (worklist : List CallSite)
    → Memᴰ x worklist
    → Memᴰ x (visit_call_site cs worklist)
unfolding visit_call_site
visit_call_site-keeps cs x worklist m = elim (Bool-cases (is_indirect_call cs)) [
  | inl e ↦ rw e (Memᴰ.tail m)
  | inr e ↦ rw e m
]

visit-keeps :
    (code : List Instruction) (worklist : List CallSite) (x : CallSite)
    → Memᴰ x worklist
    → Memᴰ x (visit code worklist)
unfolding visit
visit-keeps [] worklist x m = m
visit-keeps (call true cs ∷ code) worklist x m = visit-keeps code worklist x m
visit-keeps (call false cs ∷ code) worklist x m =
    visit-keeps code _ x (visit_call_site-keeps cs x worklist m)
visit-keeps (invoke cs ∷ code) worklist x m =
    visit-keeps code _ x (visit_call_site-keeps cs x worklist m)
visit-keeps (other_inst ∷ code) worklist x m = visit-keeps code worklist x m

visit_call_site-indirect :
    (cs : CallSite) (worklist : List CallSite)
    → is_indirect_call cs ≡ true
    → Memᴰ cs (visit_call_site cs worklist)
unfolding visit_call_site
visit_call_site-indirect cs worklist e = rw e (Memᴰ.head refl)

pub visit-indirect :
    (code : List Instruction) (worklist : List CallSite) (i : Instruction) (cs : CallSite)
    → Memᴰ i code
    → IsCall i cs
    → is_indirect_call cs ≡ true
    → Memᴰ cs (visit code worklist)
unfolding visit
visit-indirect [] worklist i cs m is_call e = elim m [ ]
visit-indirect (j ∷ code) worklist i cs (Memᴰ.head same) is_call e =
    found j (subst (λ k. IsCall k cs) same is_call)
  where
    found : (j : Instruction) → IsCall j cs → Memᴰ cs (visit (j ∷ code) worklist)
    found j (by_call cs') = visit-keeps code _ cs (visit_call_site-indirect cs worklist e)
    found j (by_invoke cs') = visit-keeps code _ cs (visit_call_site-indirect cs worklist e)
visit-indirect (call true cs' ∷ code) worklist i cs (Memᴰ.tail m) is_call e =
    visit-indirect code worklist i cs m is_call e
visit-indirect (call false cs' ∷ code) worklist i cs (Memᴰ.tail m) is_call e =
    visit-indirect code _ i cs m is_call e
visit-indirect (invoke cs' ∷ code) worklist i cs (Memᴰ.tail m) is_call e =
    visit-indirect code _ i cs m is_call e
visit-indirect (other_inst ∷ code) worklist i cs (Memᴰ.tail m) is_call e =
    visit-indirect code worklist i cs m is_call e

module _ (P : CallSite → Type 0) where
  visit_call_site-all :
      (cs : CallSite) (worklist : List CallSite)
      → (is_indirect_call cs ≡ true → P cs)
      → ((x : CallSite) → Memᴰ x worklist → P x)
      → (x : CallSite) → Memᴰ x (visit_call_site cs worklist)
      → P x
  unfolding visit_call_site
  visit_call_site-all cs worklist here old x m = elim (Bool-cases (is_indirect_call cs)) [
    | inl e ↦ elim (Memᴰ.cases_cons (rw (visit_call_site, e) at m)) [
      | inl same ↦ subst P (sym same) (here e)
      | inr later ↦ old x later
    ]
    | inr e ↦ old x (rw (visit_call_site, e) at m)
  ]

  -- The worklist has nothing but indirect calls of the code.
  pub visit-all :
      (code : List Instruction) (worklist : List CallSite)
      → ((i : Instruction) (cs : CallSite)
          → Memᴰ i code
          → IsCall i cs
          → is_indirect_call cs ≡ true
          → P cs)
      → ((x : CallSite) → Memᴰ x worklist → P x)
      → (x : CallSite) → Memᴰ x (visit code worklist)
      → P x
  unfolding visit
  visit-all [] worklist from old x m = old x m
  visit-all (call true cs ∷ code) worklist from old x m =
      visit-all code worklist (λ i cs' n. from i cs' (Memᴰ.tail n)) old x m
  visit-all (call false cs ∷ code) worklist from old x m =
      visit-all code _ (λ i cs' n. from i cs' (Memᴰ.tail n))
        (visit_call_site-all cs worklist (from (call false cs) cs (Memᴰ.head refl) (by_call cs))
          old)
        x m
  visit-all (invoke cs ∷ code) worklist from old x m =
      visit-all code _ (λ i cs' n. from i cs' (Memᴰ.tail n))
        (visit_call_site-all cs worklist (from (invoke cs) cs (Memᴰ.head refl) (by_invoke cs)) old)
        x m
  visit-all (other_inst ∷ code) worklist from old x m =
      visit-all code worklist (λ i cs' n. from i cs' (Memᴰ.tail n)) old x m
