-- ===== src/AccessControl/Parser/Complete/Connectives.antt =====
-- The parser accepts exactly what the grammar spells, with the grammar's condition.
use mathlib.Core.List.{append-nil, append_assoc}
use embyr_rs.Base.{
  ℕ, zero, suc, ◌+◌, ◌*◌, ◌≤◌, List, [], ◌∷◌, ◌++◌, length, length-append, ◌≡◌, refl, sym, ap, ◌∙◌,
  ◌↔◌, arith, ok,
}
use embyr_rs.AccessControl.Syntax.{Condition}
use embyr_rs.AccessControl.Token.{Token, Parsed}
use embyr_rs.AccessControl.Operands.{parse_base_operand, expect_r_paren}
use embyr_rs.AccessControl.Parser.{
  parse_comparison, parse_exists, parse_word, parse_or, or_loop, parse_and, and_loop, parse_unary,
  parse_primary, parse_tokens,
}
use embyr_rs.AccessControl.Parser.Grammar.{
  BeginsComparison, Primary, Unary, Conjunction, Disjunction,
}
use embyr_rs.AccessControl.Parser.Sound.Connectives.{parse_tokens_sound}
use embyr_rs.AccessControl.Parser.Complete.{EndsOperand}
use embyr_rs.AccessControl.Parser.Complete.Comparisons.{Comparison-complete}

module _ {F : Type 0} where
  -- A conjunction, and then a disjunction, may end before these tokens.
  abbrev EndsConjunction : List (Token F) → Type 0
  EndsConjunction (Token.plus ∷ ts) = ⊥
  EndsConjunction (Token.minus ∷ ts) = ⊥
  EndsConjunction (Token.and ∷ ts) = ⊥
  EndsConjunction _ = Unit

  abbrev EndsDisjunction : List (Token F) → Type 0
  EndsDisjunction (Token.plus ∷ ts) = ⊥
  EndsDisjunction (Token.minus ∷ ts) = ⊥
  EndsDisjunction (Token.and ∷ ts) = ⊥
  EndsDisjunction (Token.or ∷ ts) = ⊥
  EndsDisjunction _ = Unit

  operand_of_conjunction : (ts : List (Token F)) → EndsConjunction ts → EndsOperand ts
  operand_of_conjunction [] e = tt
  operand_of_conjunction (Token.plus ∷ ts) e = absurd e
  operand_of_conjunction (Token.minus ∷ ts) e = absurd e
  operand_of_conjunction (_ ∷ ts) e = tt

  conjunction_of_disjunction : (ts : List (Token F)) → EndsDisjunction ts → EndsConjunction ts
  conjunction_of_disjunction [] e = tt
  conjunction_of_disjunction (Token.plus ∷ ts) e = absurd e
  conjunction_of_disjunction (Token.minus ∷ ts) e = absurd e
  conjunction_of_disjunction (Token.and ∷ ts) e = absurd e
  conjunction_of_disjunction (_ ∷ ts) e = tt

  or_loop_end :
      (n : ℕ) (c : Condition F) (rest : List (Token F))
      → 1 ≤ n
      → EndsDisjunction rest
      → or_loop n c rest ≡ ok (c, rest)
  unfolding or_loop
  or_loop_end zero c rest l e = absurd (omega arith)
  or_loop_end (suc n) c [] l e = refl
  or_loop_end (suc n) c (Token.or ∷ ts) l e = absurd e
  or_loop_end (suc n) c (_ ∷ ts) l e = refl

  and_loop_end :
      (n : ℕ) (c : Condition F) (rest : List (Token F))
      → 1 ≤ n
      → EndsConjunction rest
      → and_loop n c rest ≡ ok (c, rest)
  unfolding and_loop
  and_loop_end zero c rest l e = absurd (omega arith)
  and_loop_end (suc n) c [] l e = refl
  and_loop_end (suc n) c (Token.and ∷ ts) l e = absurd e
  and_loop_end (suc n) c (_ ∷ ts) l e = refl

  comparison_at :
      (us rest : List (Token F)) (c : Condition F) (n : ℕ)
      → BeginsComparison us
      → parse_comparison (us ++ rest) ≡ ok (c, rest)
      → parse_primary (suc n) (us ++ rest) ≡ ok (c, rest)
  unfolding parse_primary parse_word
  comparison_at (Token.word w ∷ us) rest c n (t, f) e = rw (t, f) e
  comparison_at (Token.get_call p f ∷ us) rest c n b e = e
  comparison_at [] rest c n b e = absurd b
  comparison_at (_ ∷ us) rest c n b e = absurd b

  unary_at :
      {us : List (Token F)} {c : Condition F}
      → Primary us c
      → (n : ℕ) (rest : List (Token F))
      → parse_unary (suc n) (us ++ rest) ≡ parse_primary n (us ++ rest)
  unfolding parse_unary
  unary_at (Primary.grouped d) n rest = refl
  unary_at Primary.is_true n rest = refl
  unary_at Primary.is_false n rest = refl
  unary_at (Primary.exists e) n rest = refl
  unary_at {us} (Primary.comparison b g) n rest = comparison_unary us b
    where
      comparison_unary :
          (us : List (Token F))
          → BeginsComparison us
          → parse_unary (suc n) (us ++ rest) ≡ parse_primary n (us ++ rest)
      comparison_unary (Token.word w ∷ us) b = refl
      comparison_unary (Token.get_call p f ∷ us) b = refl
      comparison_unary [] b = absurd b
      comparison_unary (_ ∷ us) b = absurd b

  -- Where a method is left in its loop: `fuel` units remain, enough for the rest.
  abbrev Reaches : ℕ → Parsed F (Condition F) → (ℕ → Parsed F (Condition F)) → Type 0
  Reaches m r loop = (fuel : ℕ) × (4 * m + 1 ≤ fuel) × (r ≡ loop fuel)

  and_step :
      (us rest : List (Token F)) (c d : Condition F) (k : ℕ)
      → 4 * suc (length us + length rest) + 1 ≤ k
      → ((m : ℕ)
          → 4 * (length us + length rest) + 2 ≤ m
          → parse_unary m (us ++ rest) ≡ ok (d, rest))
      → Reaches
          (length rest)
          (and_loop k c (Token.and ∷ (us ++ rest)))
          (λ m. and_loop m (Condition.and c d) rest)
  unfolding and_loop
  and_step us rest c d zero l h = absurd (omega arith)
  and_step us rest c d (suc k) l h = (k, omega arith, rw (h k (omega arith)) refl)

  or_step :
      (us rest : List (Token F)) (c d : Condition F) (k : ℕ)
      → 4 * suc (length us + length rest) + 1 ≤ k
      → ((m : ℕ) → 4 * (length us + length rest) + 3 ≤ m → parse_and m (us ++ rest) ≡ ok (d, rest))
      → Reaches
          (length rest)
          (or_loop k c (Token.or ∷ (us ++ rest)))
          (λ m. or_loop m (Condition.or c d) rest)
  unfolding or_loop
  or_step us rest c d zero l h = absurd (omega arith)
  or_step us rest c d (suc k) l h = (k, omega arith, rw (h k (omega arith)) refl)

  and_completes :
      (us rest : List (Token F)) (c : Condition F) (n : ℕ)
      → EndsConjunction rest
      → Reaches (length rest) (parse_and n (us ++ rest)) (λ m. and_loop m c rest)
      → parse_and n (us ++ rest) ≡ ok (c, rest)
  and_completes us rest c n ends (k, l, e) = e ∙ and_loop_end k c rest (omega arith) ends

  or_completes :
      (us rest : List (Token F)) (c : Condition F) (n : ℕ)
      → EndsDisjunction rest
      → Reaches (length rest) (parse_or n (us ++ rest)) (λ m. or_loop m c rest)
      → parse_or n (us ++ rest) ≡ ok (c, rest)
  or_completes us rest c n ends (k, l, e) = e ∙ or_loop_end k c rest (omega arith) ends

  mutual
    unfolding parse_or parse_exists parse_base_operand parse_word expect_r_paren

    Primary-complete :
        {us : List (Token F)} {c : Condition F}
        → Primary us c
        → (n : ℕ) (rest : List (Token F)) → 4 * (length us + length rest) + 1 ≤ n
        → EndsOperand rest
        → parse_primary n (us ++ rest) ≡ ok (c, rest)
    Primary-complete p zero rest l ends = absurd (omega arith)
    Primary-complete (Primary.grouped {ts} {c} d) (suc n) rest l ends =
        let inner = or_completes ts (Token.r_paren ∷ rest) c n tt (
          Disjunction-reach d n (Token.r_paren ∷ rest)
            (omega (arith, length-append ts (Token.r_paren ∷ []))) tt) in
        rw (append_assoc ts (Token.r_paren ∷ []) rest, inner) refl
    Primary-complete Primary.is_true (suc n) rest l ends = refl
    Primary-complete Primary.is_false (suc n) rest l ends = refl
    Primary-complete (Primary.exists e) (suc n) rest l ends = rw e refl
    Primary-complete (Primary.comparison {ts} {c} b g) (suc n) rest l ends =
        comparison_at ts rest c n b (Comparison-complete rest g ends)

    Unary-complete :
        {us : List (Token F)} {c : Condition F}
        → Unary us c
        → (n : ℕ) (rest : List (Token F)) → 4 * (length us + length rest) + 2 ≤ n
        → EndsOperand rest
        → parse_unary n (us ++ rest) ≡ ok (c, rest)
    Unary-complete u zero rest l ends = absurd (omega arith)
    Unary-complete (Unary.primary p) (suc n) rest l ends =
        unary_at p n rest ∙ Primary-complete p n rest (omega arith) ends
    Unary-complete (Unary.not {ts} u) (suc n) rest l ends =
        rw (Unary-complete u n rest (omega arith) ends) refl

    Conjunction-reach :
        {us : List (Token F)} {c : Condition F}
        → Conjunction us c
        → (n : ℕ) (rest : List (Token F)) → 4 * (length us + length rest) + 3 ≤ n
        → EndsOperand rest
        → Reaches (length rest) (parse_and n (us ++ rest)) (λ m. and_loop m c rest)
    Conjunction-reach g zero rest l ends = absurd (omega arith)
    Conjunction-reach (Conjunction.unary u) (suc n) rest l ends =
        (n, omega arith, rw (Unary-complete u n rest (omega arith) ends) refl)
    Conjunction-reach (Conjunction.and {ts} {us} {c} {d} g u) (suc n) rest l ends =
        let (k, m, e) =
          Conjunction-reach g (suc n) (Token.and ∷ (us ++ rest))
            (omega (arith, length-append ts (Token.and ∷ us), length-append us rest)) tt in
        let (j, m', e') =
          and_step us rest c d k (omega (arith, length-append us rest))
            (λ i b. Unary-complete u i rest b ends) in
        (j, m', ap (parse_and (suc n)) (append_assoc ts (Token.and ∷ us) rest) ∙ e ∙ e')

    Disjunction-reach :
        {us : List (Token F)} {c : Condition F}
        → Disjunction us c
        → (n : ℕ) (rest : List (Token F)) → 4 * (length us + length rest) + 4 ≤ n
        → EndsConjunction rest
        → Reaches (length rest) (parse_or n (us ++ rest)) (λ m. or_loop m c rest)
    Disjunction-reach d zero rest l ends = absurd (omega arith)
    Disjunction-reach (Disjunction.conjunction {ts} {c} g) (suc n) rest l ends =
        let inner =
          and_completes ts rest c n ends
            (Conjunction-reach g n rest (omega arith) (operand_of_conjunction rest ends)) in
        (n, omega arith, rw inner refl)
    Disjunction-reach (Disjunction.or {ts} {us} {c} {d} g h) (suc n) rest l ends =
        let (k, m, e) =
          Disjunction-reach g (suc n) (Token.or ∷ (us ++ rest))
            (omega (arith, length-append ts (Token.or ∷ us), length-append us rest)) tt in
        let (j, m', e') = or_step us rest c d k (omega (arith, length-append us rest)) (λ i b.
          and_completes us rest d i ends
            (Conjunction-reach h i rest b (operand_of_conjunction rest ends))) in
        (j, m', ap (parse_or (suc n)) (append_assoc ts (Token.or ∷ us) rest) ∙ e ∙ e')

  parse_or_all :
      (ts : List (Token F)) (c : Condition F)
      → Disjunction ts c
      → parse_or (4 * length ts + 4) ts ≡ ok (c, [])
  parse_or_all ts c d =
      ap (parse_or (4 * length ts + 4)) (sym (append-nil ts))
      ∙ or_completes ts [] c (4 * length ts + 4) tt
          (Disjunction-reach d (4 * length ts + 4) [] (omega arith) tt)

  -- The parser accepts a list of tokens, with a condition, exactly when the grammar of Parser/Grammar
  -- derives the whole list as that condition. In that grammar a comparison begins with a word other
  -- than `true` and `false` or with a `get(…)`: not with a string, a number or an `exists(…)`.
  pub parse_tokens_iff :
      (ts : List (Token F)) (c : Condition F) → (parse_tokens ts ≡ ok c) ↔ Disjunction ts c
  unfolding parse_tokens
  parse_tokens_iff ts c = (parse_tokens_sound ts c, λ d. rw (parse_or_all ts c d) refl)
