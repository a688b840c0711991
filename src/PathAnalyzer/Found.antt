-- ===== src/PathAnalyzer/Found.antt =====
-- About solve_path: where it finds bottom.
use crab_llvm.Prelude.{
  ℕ, ◌≡◌, ◌⊎◌, inl, inr, refl, sym, ap, ◌∙◌, Bool, true, false, not, ◌&&◌, List, [], ◌∷◌,
  if◌then◌else◌, Bool-cases,
}
use crab_llvm.PathAnalyzer.{
  Statement, Wrapper, Cfg, Domain, is_boolean, Progress, solve_block, solve_blocks, solve_path,
  store,
}

module _ {D : Type 0} (dom : Domain D) (cfg : Cfg) where
  -- The post-condition of statements, with no early end.
  unfoldable pub post : List Statement → D → D
  post [] d = d
  post (s ∷ ss) d = post ss (dom.transfer s d)

  -- The statements that the loop does not skip: all, or the Boolean ones.
  unfoldable pub considered : Bool → List Statement → List Statement
  considered only_bool [] = []
  considered only_bool (s ∷ ss) =
      let rest = considered only_bool ss in
      if only_bool && not (is_boolean s.kind) then rest else s ∷ rest

  -- The value at the entry of the last block of a path, by the statements that are considered.
  unfoldable pub last_entry : Bool → List ℕ → D → D
  unfolding post considered
  last_entry only_bool [] d = d
  last_entry only_bool (b ∷ []) d = d
  last_entry only_bool (b ∷ c ∷ path) d =
      last_entry only_bool (c ∷ path) (post (considered only_bool (cfg.node b)) d)

  -- Crab's transformers keep bottom.
  abbrev pub IsStrict : Type 0
  IsStrict =
      (s : Statement) (d : D) → dom.is_bottom d ≡ true → dom.is_bottom (dom.transfer s d) ≡ true

  post_bottom :
      (ss : List Statement) (d : D)
      → IsStrict
      → dom.is_bottom d ≡ true
      → dom.is_bottom (post ss d) ≡ true
  unfolding post
  post_bottom [] d strict h = h
  post_bottom (s ∷ ss) d strict h = post_bottom ss (dom.transfer s d) strict (strict s d h)

  -- The block's loop stops early only where the post-condition is bottom too.
  solve_block_cases :
      (o : Bool) (b : ℕ) (ss : List Statement) (p : Progress D)
      → IsStrict
      → ((solve_block dom cfg o b ss p).value ≡ post (considered o ss) p.value)
        ⊎ ((dom.is_bottom (solve_block dom cfg o b ss p).value ≡ true)
            × (dom.is_bottom (post (considered o ss) p.value) ≡ true))
  unfolding solve_block post considered
  solve_block_cases o b [] p strict = inl refl
  solve_block_cases o b (s ∷ ss) p strict = elim (Bool-cases (o && not (is_boolean s.kind))) [
    | inl skip ↦ rw skip (solve_block_cases o b ss _ strict)
    | inr take ↦ elim (Bool-cases (dom.is_bottom (dom.transfer s p.value))) [
      | inl stop ↦
          rw (take, stop)
            (inr (stop, post_bottom (considered o ss) (dom.transfer s p.value) strict stop))
      | inr go ↦ rw (take, go) (solve_block_cases o b ss _ strict)
    ]
  ]

  entry_bottom :
      (o : Bool) (path : List ℕ) (d : D)
      → IsStrict
      → dom.is_bottom d ≡ true
      → dom.is_bottom (last_entry o path d) ≡ true
  unfolding last_entry
  entry_bottom o [] d strict h = h
  entry_bottom o (b ∷ []) d strict h = h
  entry_bottom o (b ∷ c ∷ path) d strict h =
      entry_bottom o (c ∷ path) (post (considered o (cfg.node b)) d) strict
        (post_bottom (considered o (cfg.node b)) d strict h)

  -- The state in which the loop goes on to the next block.
  unfoldable pub next_block : Bool → ℕ → Progress D → Progress D
  next_block o b p =
      solve_block dom cfg o b (cfg.node b)
        (record p { bottom_stmt = 0; fwd = store dom cfg b p.value p.fwd })

  pub found_here :
      (o : Bool) (b : ℕ) (path : List ℕ) (p : Progress D)
      → dom.is_bottom p.value ≡ true
      → solve_blocks dom cfg o (b ∷ path) p ≡ (true, p)
  unfolding solve_blocks
  found_here o b path p h = rw h refl

  pub goes_on :
      (o : Bool) (b : ℕ) (path : List ℕ) (p : Progress D)
      → dom.is_bottom p.value ≡ false
      → solve_blocks dom cfg o (b ∷ path) p ≡ solve_blocks dom cfg o path (next_block o b p)
  unfolding solve_blocks next_block
  goes_on o b path p h = rw h refl

  pub next_block_cases :
      (o : Bool) (b : ℕ) (p : Progress D)
      → IsStrict
      → ((next_block o b p).value ≡ post (considered o (cfg.node b)) p.value)
        ⊎ ((dom.is_bottom (next_block o b p).value ≡ true)
            × (dom.is_bottom (post (considered o (cfg.node b)) p.value) ≡ true))
  unfolding next_block
  next_block_cases o b p strict = solve_block_cases o b (cfg.node b) _ strict

  solve_blocks-found :
      (o : Bool) (b : ℕ) (path : List ℕ) (p : Progress D)
      → IsStrict
      → (solve_blocks dom cfg o (b ∷ path) p).0 ≡ dom.is_bottom (last_entry o (b ∷ path) p.value)
  unfolding last_entry
  solve_blocks-found o b [] p strict = elim (Bool-cases (dom.is_bottom p.value)) [
    | inl h ↦ rw (found_here o b [] p h) (sym h)
    | inr h ↦ rw (goes_on o b [] p h) (unfold solve_blocks in sym h)
  ]
  solve_blocks-found o b (c ∷ path) p strict = elim (Bool-cases (dom.is_bottom p.value)) [
    | inl h ↦
        rw (found_here o b (c ∷ path) p h) (sym (entry_bottom o (b ∷ c ∷ path) p.value strict h))
    | inr h ↦ rw (goes_on o b (c ∷ path) p h) (
        solve_blocks-found o c path (next_block o b p) strict
        ∙ same_entry (next_block_cases o b p strict))
  ]
    where
      same_entry :
          ((next_block o b p).value ≡ post (considered o (cfg.node b)) p.value)
            ⊎ ((dom.is_bottom (next_block o b p).value ≡ true)
                × (dom.is_bottom (post (considered o (cfg.node b)) p.value) ≡ true))
          → dom.is_bottom (last_entry o (c ∷ path) (next_block o b p).value)
            ≡ dom.is_bottom (last_entry o (c ∷ path) (post (considered o (cfg.node b)) p.value))
      same_entry (inl e) = ap (λ d. dom.is_bottom (last_entry o (c ∷ path) d)) e
      same_entry (inr (e, f)) =
          entry_bottom o (c ∷ path) (next_block o b p).value strict e
          ∙ sym (entry_bottom o (c ∷ path) (post (considered o (cfg.node b)) p.value) strict f)

  -- On a path that is not empty, bottom is found exactly if the post-condition of the statements
  -- that are considered, all of them or only the Boolean ones, of all blocks but the last is
  -- bottom, for a transformer that keeps bottom: whether the last block's own statements lead to
  -- bottom does not count.
  pub solve_path-found :
      (init : D) (only_bool : Bool) (b : ℕ) (path : List ℕ) (stmts : List Wrapper)
      (fwd : List (ℕ × D))
      → IsStrict
      → (solve_path dom cfg init only_bool (b ∷ path) stmts fwd).0
        ≡ dom.is_bottom (last_entry only_bool (b ∷ path) init)
  unfolding solve_path
  solve_path-found init only_bool b path stmts fwd strict =
      solve_blocks-found only_bool b path _ strict
