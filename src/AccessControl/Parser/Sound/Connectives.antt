-- ===== src/AccessControl/Parser/Sound/Connectives.antt =====
-- `parse_or`, `parse_and`, `parse_unary` and `parse_primary` against the grammar.
use mathlib.Core.List.{append-nil, append_assoc}
use embyr_rs.Base.{
  ℕ, zero, suc, ◌+◌, ◌*◌, ◌<◌, true, List, [], ◌∷◌, ◌++◌, length, ◌≡◌, refl, sym, ap, ◌∙◌, subst,
  Bool-cases, arith, inl, inr, Result, ok, err, ◌>>=◌,
}
use embyr_rs.Base.Text.{Text, codes, text_eq, text_eq_sound}
use embyr_rs.AccessControl.Syntax.{Operand, Condition, CompareOp}
use embyr_rs.AccessControl.Token.{ConditionParseError, Token, Parsed}
use embyr_rs.AccessControl.PathTemplates.{parse_path_template}
use embyr_rs.AccessControl.Operands.{parse_base_operand, expect_r_paren}
use embyr_rs.AccessControl.Operands.Total.{Within}
use embyr_rs.AccessControl.Parser.{
  parse_comparison, parse_exists, parse_word, parse_or, or_loop, parse_and, and_loop, parse_unary,
  parse_primary, complete, parse_tokens,
}
use embyr_rs.AccessControl.Parser.Fuel.{parse_comparison-Within}
use embyr_rs.AccessControl.Parser.Grammar.{
  Comparison, BeginsComparison, Primary, Unary, Conjunction, Disjunction,
}
use embyr_rs.AccessControl.Parser.Sound.{Derived, Derived->>=, Derived-cons, Derived-map}
use embyr_rs.AccessControl.Parser.Sound.Conditions.{Comparison-sound}

module _ {F : Type 0} where
  -- A parser that uses up a token uses the first one.
  first_token :
      (t : Token F) (ts used rest : List (Token F))
      → t ∷ ts ≡ used ++ rest
      → length rest < suc (length ts)
      → (more : List (Token F)) × (used ≡ t ∷ more)
  first_token t ts [] rest e l = absurd (omega (arith, ap length e))
  first_token t ts (u ∷ more) rest e l = (more, cc)

  begins_with :
      (t : Token F) (ts : List (Token F)) (r : Parsed F (Condition F))
      → ((more : List (Token F)) → BeginsComparison (t ∷ more))
      → Within (suc (length ts)) r
      → Derived Comparison (t ∷ ts) r
      → Derived Primary (t ∷ ts) r
  begins_with t ts (err e) b w d = tt
  begins_with t ts (ok (c, rest)) b w (used, e, g) =
      let (more, same) = first_token t ts used rest e w in
      (used, e, Primary.comparison (subst BeginsComparison (sym same) (b more)) g)

  word_sound :
      (w : Text) (ts : List (Token F)) → Derived Primary (Token.word w ∷ ts) (parse_word w ts)
  unfolding parse_word
  word_sound w ts = elim (Bool-cases (text_eq w (codes "true"))) [
    | inl e ↦
        rw (text_eq_sound w (codes "true") e)
          (Token.word (codes "true") ∷ [], refl, Primary.is_true)
    | inr e ↦ (elim (Bool-cases (text_eq w (codes "false"))) [
      | inl e' ↦
          rw (text_eq_sound w (codes "false") e')
            (Token.word (codes "false") ∷ [], refl, Primary.is_false)
      | inr e' ↦
          rw (e, e')
            (begins_with (Token.word w) ts (parse_comparison (Token.word w ∷ ts)) (λ more. (e, e'))
              (parse_comparison-Within (Token.word w ∷ ts)) (Comparison-sound (Token.word w ∷ ts)))
    ])
  ]

  exists_sound :
      (p : Text) (ts : List (Token F))
      → Derived Primary (Token.exists_call p ∷ ts) (parse_exists (Token.exists_call p ∷ ts))
  unfolding parse_exists parse_base_operand
  exists_sound p ts = exists_value (parse_path_template p) refl
    where
      exists_value :
          (r : Result ConditionParseError _)
          → parse_path_template p ≡ r
          → Derived Primary (Token.exists_call p ∷ ts) (
              (r >>= λ t. ok (Operand.cross_document_exists t, ts)) >>= λ (o, rest).
              ok (Condition.compare o CompareOp.eq (Operand.bool_literal true), rest))
      exists_value (err e) h = tt
      exists_value (ok t) h = (Token.exists_call p ∷ [], refl, Primary.exists h)

  close_sound :
      (used rest : List (Token F)) (c : Condition F)
      → Disjunction used c
      → Derived
          (λ more a. Primary (Token.l_paren ∷ (used ++ more)) a)
          rest
          (expect_r_paren rest >>= λ after. ok (c, after))
  unfolding expect_r_paren
  close_sound used [] c d = tt
  close_sound used (Token.r_paren ∷ rest) c d = (Token.r_paren ∷ [], refl, Primary.grouped d)
  close_sound used (_ ∷ rest) c d = tt

  mutual
    unfolding parse_or

    or_sound : (n : ℕ) (ts : List (Token F)) → Derived Disjunction ts (parse_or n ts)
    or_sound zero ts = tt
    or_sound (suc n) ts =
        Derived->>= Disjunction Conjunction ts (parse_and n ts) _ (and_sound n ts)
          λ left used rest g. or_loop_sound n left used rest (Disjunction.conjunction g)

    or_loop_sound :
        (n : ℕ) (left : Condition F) (before ts : List (Token F))
        → Disjunction before left
        → Derived (λ more c. Disjunction (before ++ more) c) ts (or_loop n left ts)
    or_loop_sound zero left before ts d = tt
    or_loop_sound (suc n) left before [] d =
        ([], refl, subst (λ x. Disjunction x left) (sym (append-nil before)) d)
    or_loop_sound (suc n) left before (Token.or ∷ ts) d = Derived-cons _ Token.or ts _ (
        Derived->>= _ Conjunction ts (parse_and n ts) _ (and_sound n ts) λ right used rest g.
          Derived-map _ _ rest (or_loop n (Condition.or left right) rest)
            (λ more c. subst (λ x. Disjunction x c) (append_assoc before (Token.or ∷ used) more))
            (or_loop_sound n (Condition.or left right) (before ++ Token.or ∷ used) rest
              (Disjunction.or d g)))
    or_loop_sound (suc n) left before (t ∷ ts) d =
        ([], refl, subst (λ x. Disjunction x left) (sym (append-nil before)) d)

    and_sound : (n : ℕ) (ts : List (Token F)) → Derived Conjunction ts (parse_and n ts)
    and_sound zero ts = tt
    and_sound (suc n) ts =
        Derived->>= Conjunction Unary ts (parse_unary n ts) _ (Unary-sound n ts)
          λ left used rest g. and_loop_sound n left used rest (Conjunction.unary g)

    and_loop_sound :
        (n : ℕ) (left : Condition F) (before ts : List (Token F))
        → Conjunction before left
        → Derived (λ more c. Conjunction (before ++ more) c) ts (and_loop n left ts)
    and_loop_sound zero left before ts d = tt
    and_loop_sound (suc n) left before [] d =
        ([], refl, subst (λ x. Conjunction x left) (sym (append-nil before)) d)
    and_loop_sound (suc n) left before (Token.and ∷ ts) d = Derived-cons _ Token.and ts _ (
        Derived->>= _ Unary ts (parse_unary n ts) _ (Unary-sound n ts) λ right used rest g.
          Derived-map _ _ rest (and_loop n (Condition.and left right) rest)
            (λ more c. subst (λ x. Conjunction x c) (append_assoc before (Token.and ∷ used) more))
            (and_loop_sound n (Condition.and left right) (before ++ Token.and ∷ used) rest
              (Conjunction.and d g)))
    and_loop_sound (suc n) left before (t ∷ ts) d =
        ([], refl, subst (λ x. Conjunction x left) (sym (append-nil before)) d)

    Unary-sound : (n : ℕ) (ts : List (Token F)) → Derived Unary ts (parse_unary n ts)
    Unary-sound zero ts = tt
    Unary-sound (suc n) [] =
        Derived-map Primary Unary [] (parse_primary n []) (λ more c. Unary.primary)
          (Primary-sound n [])
    Unary-sound (suc n) (Token.not ∷ ts) = Derived-cons _ Token.not ts _ (
        Derived->>= _ Unary ts (parse_unary n ts) _ (Unary-sound n ts) λ inner used rest g. (
          [],
          refl,
          subst (λ x. Unary (Token.not ∷ x) (Condition.not inner)) (sym (append-nil used))
              (Unary.not g),
        ))
    Unary-sound (suc n) (t ∷ ts) =
        Derived-map Primary Unary (t ∷ ts) (parse_primary n (t ∷ ts)) (λ more c. Unary.primary)
          (Primary-sound n (t ∷ ts))

    Primary-sound : (n : ℕ) (ts : List (Token F)) → Derived Primary ts (parse_primary n ts)
    Primary-sound zero ts = tt
    Primary-sound (suc n) [] = tt
    Primary-sound (suc n) (Token.l_paren ∷ ts) = Derived-cons _ Token.l_paren ts _ (
        Derived->>= _ Disjunction ts (parse_or n ts) _ (or_sound n ts)
          λ inner used rest g. close_sound used rest inner g)
    Primary-sound (suc n) (Token.word w ∷ ts) = word_sound w ts
    Primary-sound (suc n) (Token.exists_call p ∷ ts) = exists_sound p ts
    Primary-sound (suc n) (Token.get_call p f ∷ ts) =
        begins_with (Token.get_call p f) ts (parse_comparison (Token.get_call p f ∷ ts))
          (λ more. tt) (parse_comparison-Within (Token.get_call p f ∷ ts))
          (Comparison-sound (Token.get_call p f ∷ ts))
    Primary-sound (suc n) (_ ∷ ts) = tt

  complete-Derived :
      (ts : List (Token F)) (r : Parsed F (Condition F)) (c : Condition F)
      → Derived Disjunction ts r
      → (r >>= complete) ≡ ok c
      → Disjunction ts c
  complete-Derived ts (err e) c d h = cc
  complete-Derived ts (ok (a, [])) c (used, e, g) h =
      subst (λ x. Disjunction x c) (sym (e ∙ append-nil used)) (subst (Disjunction used) (cc) g)
  complete-Derived ts (ok (a, t ∷ rest)) c d h = cc

  -- Tokens that the parser accepts are spelled as the grammar says: the condition returned is a
  -- derivation of the whole list of tokens.
  pub parse_tokens_sound :
      (ts : List (Token F)) (c : Condition F) → parse_tokens ts ≡ ok c → Disjunction ts c
  unfolding parse_tokens
  parse_tokens_sound ts c h =
      complete-Derived ts (parse_or (4 * length ts + 4) ts) c (or_sound (4 * length ts + 4) ts) h
