-- ===== src/PathAnalyzer/Post.antt =====
-- About solve: strongest post-conditions along the path.
use crab_llvm.Prelude.{
  ℕ, ◌≡◌, true_ne_false, ◌⊎◌, inl, inr, refl, sym, ap, ◌∙◌, Bool, true, false, not, ◌&&◌, Option,
  none, some, List, [], ◌∷◌, ◌==◌, if◌then◌else◌, Bool-cases, subst,
}
use crab_llvm.PathAnalyzer.{
  Analyzer, Check, check_path, solve, solve_layers, finish, Statement, Cfg, Domain, is_boolean,
  Progress, solve_block, solve_blocks, solve_path, lookup, store,
}
use crab_llvm.PathAnalyzer.Found.{
  IsStrict, post, considered, last_entry, next_block, found_here, goes_on, next_block_cases,
  solve_path-found,
}
use crab_llvm.PathAnalyzer.Stored.{or_else, or_else_assoc, or_else-none, lookup-store}

module _ {D : Type 0} (dom : Domain D) (cfg : Cfg) where
  -- The value at the entry of the last block of a path.
  unfoldable pub entry_of_last : List ℕ → D → D
  unfolding post
  entry_of_last [] d = d
  entry_of_last (b ∷ []) d = d
  entry_of_last (b ∷ c ∷ path) d = entry_of_last (c ∷ path) (post dom cfg (cfg.node b) d)

  considered-all : (ss : List Statement) → considered dom cfg false ss ≡ ss
  unfolding considered
  considered-all [] = refl
  considered-all (s ∷ ss) = ap (λ t. s ∷ t) (considered-all ss)

  last_entry-all : (path : List ℕ) (d : D) → last_entry dom cfg false path d ≡ entry_of_last path d
  unfolding last_entry entry_of_last
  last_entry-all [] d = refl
  last_entry-all (b ∷ []) d = refl
  last_entry-all (b ∷ c ∷ path) d =
      rw (considered-all (cfg.node b)) (last_entry-all (c ∷ path) (post dom cfg (cfg.node b) d))

  all_cases :
      (b : ℕ) (p : Progress D)
      → IsStrict dom cfg
      → ((next_block dom cfg false b p).value ≡ post dom cfg (cfg.node b) p.value)
        ⊎ ((dom.is_bottom (next_block dom cfg false b p).value ≡ true)
            × (dom.is_bottom (post dom cfg (cfg.node b) p.value) ≡ true))
  all_cases b p strict =
      subst
        (λ ss.
          ((next_block dom cfg false b p).value ≡ post dom cfg ss p.value)
          ⊎ ((dom.is_bottom (next_block dom cfg false b p).value ≡ true)
              × (dom.is_bottom (post dom cfg ss p.value) ≡ true)))
        (considered-all (cfg.node b)) (next_block_cases dom cfg false b p strict)

  solve_block-fwd :
      (o : Bool) (b : ℕ) (ss : List Statement) (p : Progress D)
      → (solve_block dom cfg o b ss p).fwd ≡ p.fwd
  unfolding solve_block
  solve_block-fwd o b [] p = refl
  solve_block-fwd o b (s ∷ ss) p = elim (Bool-cases (o && not (is_boolean s.kind))) [
    | inl h ↦ rw h (solve_block-fwd o b ss _)
    | inr h ↦ elim (Bool-cases (dom.is_bottom (dom.transfer s p.value))) [
      | inl k ↦ rw (h, k) refl
      | inr k ↦ rw (h, k) (solve_block-fwd o b ss _)
    ]
  ]

  -- The value at the entry of a block, the first time that the path visits it.
  unfoldable pub entry_of : ℕ → List ℕ → D → Option D
  unfolding post
  entry_of b [] d = none
  entry_of b (c ∷ path) d =
      let rest = entry_of b path (post dom cfg (cfg.node c) d) in if b == c then some d else rest

  or_else-entry_of :
      (b c : ℕ) (path : List ℕ) (d : D)
      → or_else (if b == c then some d else none) (entry_of b path (post dom cfg (cfg.node c) d))
        ≡ entry_of b (c ∷ path) d
  unfolding entry_of or_else
  or_else-entry_of b c path d = elim (Bool-cases (b == c)) [
    | inl same ↦ rw same refl
    | inr other ↦ rw other refl
  ]

  fwd-next_block :
      (b : ℕ) (p : Progress D) → (next_block dom cfg false b p).fwd ≡ store dom cfg b p.value p.fwd
  unfolding next_block
  fwd-next_block b p = solve_block-fwd false b (cfg.node b) _

  -- The map behind the first block, with what the rest of the path adds.
  fwd_step :
      (b c : ℕ) (path : List ℕ) (p : Progress D)
      → or_else
          (lookup b (next_block dom cfg false c p).fwd)
          (entry_of b path (post dom cfg (cfg.node c) p.value))
        ≡ or_else (lookup b p.fwd) (entry_of b (c ∷ path) p.value)
  fwd_step b c path p =
      rw (fwd-next_block c p, lookup-store dom cfg b c p.value p.fwd)
        (or_else_assoc (lookup b p.fwd) _ _
          ∙ ap (or_else (lookup b p.fwd)) (or_else-entry_of b c path p.value))

  not_found :
      (b : ℕ) (path : List ℕ) (p : Progress D)
      → (solve_blocks dom cfg false (b ∷ path) p).0 ≡ false
      → dom.is_bottom p.value ≡ false
  not_found b path p h = elim (Bool-cases (dom.is_bottom p.value)) [
    | inl e ↦ e ∙ sym (ap (λ r. r.0) (found_here dom cfg false b path p e)) ∙ h
    | inr e ↦ e
  ]

  not_found-post :
      (b c : ℕ) (path : List ℕ) (p : Progress D)
      → IsStrict dom cfg
      → (solve_blocks dom cfg false path (next_block dom cfg false c p)).0 ≡ false
      → entry_of b path (next_block dom cfg false c p).value
        ≡ entry_of b path (post dom cfg (cfg.node c) p.value)
  not_found-post b c [] p strict h = unfold entry_of in refl
  not_found-post b c (e ∷ path) p strict h = elim (all_cases c p strict) [
    | inl same ↦ ap (entry_of b (e ∷ path)) same
    | inr (bottom, _) ↦
        absurd (true_ne_false (sym bottom ∙ not_found e path (next_block dom cfg false c p) h))
  ]

  solve_blocks-fwd :
      (b : ℕ) (path : List ℕ) (p : Progress D)
      → IsStrict dom cfg
      → (solve_blocks dom cfg false path p).0 ≡ false
      → lookup b (solve_blocks dom cfg false path p).1.fwd
        ≡ or_else (lookup b p.fwd) (entry_of b path p.value)
  solve_blocks-fwd b [] p strict h =
      unfold solve_blocks entry_of in sym (or_else-none (lookup b p.fwd))
  solve_blocks-fwd b (c ∷ path) p strict h =
      let same = goes_on dom cfg false c path p (not_found c path p h) in
      let rest = sym (ap (λ r. r.0) same) ∙ h in
      ap (λ r. lookup b r.1.fwd) same
      ∙ solve_blocks-fwd b path (next_block dom cfg false c p) strict rest
      ∙ ap (or_else (lookup b (next_block dom cfg false c p).fwd))
          (not_found-post b c path p strict rest)
      ∙ fwd_step b c path p

  -- Where bottom is not found, the map has for each block the value at its entry the first time that
  -- the path visits it, and nothing for another block; for a transformer that keeps bottom.
  pub solve_path-fwd :
      (init : D) (b : ℕ) (path : List ℕ)
      → IsStrict dom cfg
      → (solve_path dom cfg init false path [] []).0 ≡ false
      → lookup b (solve_path dom cfg init false path [] []).1.fwd ≡ entry_of b path init
  unfolding solve_path
  solve_path-fwd init b path strict h =
      solve_blocks-fwd b path _ strict h ∙ unfold lookup or_else in refl

  connected_lem :
      (init : D) (b : ℕ) (path : List ℕ) (layered : Bool)
      → check_path cfg [] (b ∷ path) ≡ Check.connected
      → solve dom cfg init (b ∷ path) layered
        ≡ finish dom cfg (solve_layers dom cfg init (b ∷ path) layered)
  unfolding solve
  connected_lem init b path layered h = rw (h, solve) refl

  finish_not_found :
      (r : Bool × Progress D)
      → r.0 ≡ false
      → finish dom cfg r ≡ some (true, record { fwd_dom_map = r.1.fwd; core = [] })
  unfolding finish
  finish_not_found (false, p) h = refl
  finish_not_found (true, p) h = absurd (true_ne_false h)

  -- Without layered solving, a path that is connected and visits no block twice is found feasible if
  -- the post-condition of all its blocks but the last is not bottom, for a transformer that keeps
  -- bottom: the core is empty, and the constraints of each block of the path are the value at its entry.
  pub solve_lem :
      (init : D) (b : ℕ) (path : List ℕ)
      → IsStrict dom cfg
      → check_path cfg [] (b ∷ path) ≡ Check.connected
      → dom.is_bottom (entry_of_last (b ∷ path) init) ≡ false
      → (a : Analyzer D) × (solve dom cfg init (b ∷ path) false ≡ some (true, a))
        × (a.core ≡ [])
        × ((c : ℕ) → lookup c a.fwd_dom_map ≡ entry_of c (b ∷ path) init)
  solve_lem init b path strict connected live =
      let whole = solve_path dom cfg init false (b ∷ path) [] [] in
      let not_bottom =
        solve_path-found dom cfg init false b path [] [] strict
        ∙ ap dom.is_bottom (last_entry-all (b ∷ path) init)
        ∙ live in
      (
        record { fwd_dom_map = whole.1.fwd; core = [] },
        connected_lem init b path false connected
            ∙ unfold solve_layers in finish_not_found whole not_bottom,
        refl,
        λ c. solve_path-fwd init c (b ∷ path) strict not_bottom,
      )
