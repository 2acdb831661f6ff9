-- ===== src/AccessControl/RulesFile/Decompose/Outcomes.antt =====
-- `decompose` over all the blocks of a file: every target in order, or every offending block.
use embyr_rs.Base.{
  List, [], ◌∷◌, ◌++◌, Any, here, there, Any-empty, Any-append_cases, Any-append_left,
  Any-append_right, ◌≡◌, ◌↔◌, ◌≢◌, ◌⊎◌, inl, inr, refl, sym, ap, subst, ok_inj, err_inj,
  Result-cases, ok, err,
}
use embyr_rs.Domain.FieldValue.{Float}
use embyr_rs.AccessControl.RulesFile.{
  MatchBlock, DecomposedTarget, OffendingBlock, RulesFileError, Checked,
}
use embyr_rs.AccessControl.RulesFile.Reports.{decompose_block-Reports}
use embyr_rs.AccessControl.RulesFile.Decompose.{
  collect_target, decompose_block, decompose_each, unless_offending, decompose,
}

append_empty : (xs ys : List OffendingBlock) → (xs ++ ys) ≡ [] → xs ≡ []
append_empty [] ys e = refl
append_empty (x ∷ xs) ys e = cc

collected_ok :
    {t : DecomposedTarget} (p : List DecomposedTarget × List OffendingBlock)
    {ts : List DecomposedTarget}
    → collect_target (ok t) p ≡ (ts, [])
    → ((t ∷ p.0) ≡ ts) × (p ≡ (p.0, []))
collected_ok (ts', os) e = (cc, cc)

collected_err :
    (x : RulesFileError) (p : List DecomposedTarget × List OffendingBlock)
    {ts : List DecomposedTarget}
    → x.offending_blocks ≢ []
    → ¬ (collect_target (err x) p ≡ (ts, []))
collected_err x (ts', os) n e = n (append_empty (x.offending_blocks) os (ap (λ p. p.1) e))

none_offending :
    (p : List DecomposedTarget × List OffendingBlock) {ts : List DecomposedTarget}
    → unless_offending p ≡ ok ts
    → p ≡ (ts, [])
none_offending (ts', []) e = ap (λ ts. (ts, [])) (ok_inj e)
none_offending (ts', o ∷ os) e = cc

some_offending :
    (p : List DecomposedTarget × List OffendingBlock) {e : RulesFileError}
    → unless_offending p ≡ err e
    → p.1 ≡ e.offending_blocks
some_offending (ts, []) h = cc
some_offending (ts, o ∷ os) h = ap (λ e. e.offending_blocks) (err_inj h)

-- The list holds the offending block.
abbrev pub Names : OffendingBlock → List OffendingBlock → Type 0
Names o os = Any (λ x. x ≡ o) os

-- The result is an error with the offending block.
abbrev pub Offends : OffendingBlock → Checked DecomposedTarget → Type 0
Offends o r = (e : RulesFileError) × (r ≡ err e) × Names o (e.offending_blocks)

collect_iff :
    (o : OffendingBlock) (r : Checked DecomposedTarget)
    (p : List DecomposedTarget × List OffendingBlock)
    → Names o ((collect_target r p).1) ↔ (Offends o r ⊎ Names o (p.1))
collect_iff o (ok t) (ts, os) = (λ a. inr a, λ a. elim a [ inl (e, q, x) ↦ cc | inr x ↦ x ])
collect_iff o (err x) (ts, os) = (
  λ a. elim (Any-append_cases (x.offending_blocks) os a) [
    | inl y ↦ inl (x, refl, y)
    | inr y ↦ inr y
  ],
  λ a. elim a [
    | inl (e, q, y) ↦
        Any-append_left os (subst (λ e. Names o (e.offending_blocks)) (sym (err_inj q)) y)
    | inr y ↦ Any-append_right (x.offending_blocks) y
  ],
)

module _ (F : Type 0) ⦃float : Float F⦄ where
  -- The blocks and the targets, one by one and in order.
  abbrev pub Decomposed : List MatchBlock → List DecomposedTarget → Type 0
  Decomposed [] [] = Unit
  Decomposed (b ∷ bs) (t ∷ ts) = (decompose_block F b ≡ ok t) × Decomposed bs ts
  Decomposed _ _ = ⊥

  decompose_each-Decomposed :
      (bs : List MatchBlock) (ts : List DecomposedTarget)
      → Decomposed bs ts
      → decompose_each F bs ≡ (ts, [])
  unfolding decompose_each
  decompose_each-Decomposed [] [] d = refl
  decompose_each-Decomposed [] (t ∷ ts) d = absurd d
  decompose_each-Decomposed (b ∷ bs) [] d = absurd d
  decompose_each-Decomposed (b ∷ bs) (t ∷ ts) (d, ds) =
      rw d (rw (decompose_each-Decomposed bs ts ds) refl)

  Decomposed-decompose_each :
      (bs : List MatchBlock) (ts : List DecomposedTarget)
      → decompose_each F bs ≡ (ts, [])
      → Decomposed bs ts
  unfolding decompose_each
  Decomposed-decompose_each [] [] e = tt
  Decomposed-decompose_each [] (t ∷ ts) e = cc
  Decomposed-decompose_each (b ∷ bs) ts e = elim (Result-cases (decompose_block F b)) [
    | inl (t, f) ↦
        let (u, v) = collected_ok (decompose_each F bs) (rw f at e) in
        subst (Decomposed (b ∷ bs)) u (f, Decomposed-decompose_each bs ((decompose_each F bs).0) v)
    | inr (x, f) ↦
        absurd (collected_err x (decompose_each F bs) (decompose_block-Reports F b x f) (rw f at e))
  ]

  -- `decompose` takes a list of blocks to a list of targets exactly when it decomposes each block to its
  -- target, in order.
  pub decompose_iff :
      (bs : List MatchBlock) (ts : List DecomposedTarget)
      → (decompose F bs ≡ ok ts) ↔ Decomposed bs ts
  unfolding decompose
  decompose_iff bs ts = (
    λ e. Decomposed-decompose_each bs ts (none_offending (decompose_each F bs) e),
    λ d. rw (decompose_each-Decomposed bs ts d) refl,
  )

  offending_iff :
      (bs : List MatchBlock) (o : OffendingBlock)
      → Names o ((decompose_each F bs).1) ↔ Any (λ b. Offends o (decompose_block F b)) bs
  unfolding decompose_each
  offending_iff [] o = (λ a. absurd (Any-empty a), λ a. absurd (Any-empty a))
  offending_iff (b ∷ bs) o =
      let (to, back) = collect_iff o (decompose_block F b) (decompose_each F bs) in
      (
        λ a. elim (to a) [ inl x ↦ here x | inr x ↦ there ((offending_iff bs o).0 x) ],
        λ a. elim a [ here x ↦ back (inl x) | there x ↦ back (inr ((offending_iff bs o).1 x)) ],
      )

  -- Where `decompose` fails on a list of blocks, its error names an offending block exactly when the
  -- decomposition of some block of the list fails with it.
  pub decompose_err_iff :
      (bs : List MatchBlock) (e : RulesFileError) (o : OffendingBlock)
      → decompose F bs ≡ err e
      → Names o (e.offending_blocks) ↔ Any (λ b. Offends o (decompose_block F b)) bs
  unfolding decompose
  decompose_err_iff bs e o h =
      subst (λ os. Names o os ↔ Any (λ b. Offends o (decompose_block F b)) bs)
        (some_offending (decompose_each F bs) h) (offending_iff bs o)
