-- ===== src/AccessControl/Parser/Fuel.antt =====
-- The parser's fuel is enough: it always comes to a condition or to an error of the source's.
use embyr_rs.Base.{
  ℕ, zero, suc, ◌+◌, ◌*◌, ◌≤◌, ◌<◌, List, [], ◌∷◌, length, arith, Bool-cases, inl, inr, ok, err,
  ◌>>=◌,
}
use embyr_rs.Base.Text.{Text, codes, text_eq}
use embyr_rs.AccessControl.Syntax.{Operand, Operands, Condition}
use embyr_rs.AccessControl.Token.{Token, Parsed}
use embyr_rs.AccessControl.Operands.{parse_base_operand, parse_operand, expect_r_paren}
use embyr_rs.AccessControl.Operands.Total.{
  Within, Within-mono, Within->>=, Shrinks->>=, expect_r_paren-Shrinks, parse_base_operand-Within,
  parse_operand-Within,
}
use embyr_rs.AccessControl.Operands.Proper.{IsProper}
use embyr_rs.AccessControl.Parser.{
  next_item, list_items, parse_list_literal, in_list, compare_op, compare_right, comparison_rest,
  parse_comparison, parse_exists, parse_word, parse_or, or_loop, parse_and, and_loop, parse_unary,
  parse_primary, complete, parse_tokens,
}

module _ {F : Type 0} where
  next_item-Within :
      (items : List (Token F) → Parsed F (Operands F)) (item : Operand F) (ts : List (Token F))
      (m : ℕ)
      → ((rest : List (Token F)) → length rest < length ts → Within m (items rest))
      → length ts ≤ m
      → Within m (next_item items item ts)
  unfolding next_item
  next_item-Within items item [] m w l = λ e. cc
  next_item-Within items item (Token.comma ∷ ts) m w l =
      Within->>= _ _ (items ts) _ (w ts (omega arith)) λ more rest q. q
  next_item-Within items item (Token.r_bracket ∷ ts) m w l = omega arith
  next_item-Within items item (_ ∷ ts) m w l = λ e. cc

  list_items-Within :
      (n : ℕ) (ts : List (Token F)) → length ts < n → Within (length ts) (list_items n ts)
  unfolding list_items
  list_items-Within zero ts l = absurd (omega arith)
  list_items-Within (suc n) ts l =
      Within->>= _ _ (parse_operand ts) _ (parse_operand-Within ts) λ item rest p.
        next_item-Within (list_items n) item rest (length ts)
          (λ later q.
            Within-mono _ _ (list_items n later) (omega arith)
              (list_items-Within n later (omega arith)))
          (omega arith)

  parse_list_literal-Within : (ts : List (Token F)) → Within (length ts) (parse_list_literal ts)
  unfolding parse_list_literal
  parse_list_literal-Within [] = λ e. cc
  parse_list_literal-Within (Token.l_bracket ∷ []) =
      Within->>= _ _ (list_items 1 []) _ (list_items-Within 1 [] (omega arith))
        λ items rest p. omega arith
  parse_list_literal-Within (Token.l_bracket ∷ Token.r_bracket ∷ ts) = omega arith
  parse_list_literal-Within (Token.l_bracket ∷ t ∷ ts) =
      Within->>= _ _ (list_items _ (t ∷ ts)) _
        (list_items-Within (suc (suc (length ts))) (t ∷ ts) (omega arith))
        λ items rest p. omega arith
  parse_list_literal-Within (_ ∷ ts) = λ e. cc

  in_list-Within : (left : Operand F) (ts : List (Token F)) → Within (length ts) (in_list left ts)
  unfolding in_list
  in_list-Within left [] = λ e. cc
  in_list-Within left (Token.l_bracket ∷ ts) =
      Within->>= _ _ (parse_list_literal (Token.l_bracket ∷ ts)) _
        (parse_list_literal-Within (Token.l_bracket ∷ ts)) λ list rest p. p
  in_list-Within left (_ ∷ ts) = λ e. cc

  compare_op-Within : (ts : List (Token F)) → Within (length ts) (compare_op ts)
  unfolding compare_op
  compare_op-Within [] = λ e. cc
  compare_op-Within (Token.eq ∷ ts) = omega arith
  compare_op-Within (Token.ne ∷ ts) = omega arith
  compare_op-Within (Token.lt ∷ ts) = omega arith
  compare_op-Within (Token.le ∷ ts) = omega arith
  compare_op-Within (Token.gt ∷ ts) = omega arith
  compare_op-Within (Token.ge ∷ ts) = omega arith
  compare_op-Within (_ ∷ ts) = λ e. cc

  compare_right-Within :
      (left : Operand F) (ts : List (Token F)) → Within (length ts) (compare_right left ts)
  unfolding compare_right
  compare_right-Within left ts = Within->>= _ _ (compare_op ts) _ (compare_op-Within ts) λ op a p.
      Within->>= _ _ (parse_operand a) _ (parse_operand-Within a) λ right rest q. omega arith

  comparison_rest-Within :
      (left : Operand F) (ts : List (Token F)) → Within (length ts) (comparison_rest left ts)
  unfolding comparison_rest
  comparison_rest-Within left [] = compare_right-Within left []
  comparison_rest-Within left (Token.word w ∷ ts) = elim (Bool-cases (text_eq w (codes "in"))) [
    | inl e ↦ rw e (Within-mono _ _ (in_list left ts) (omega arith) (in_list-Within left ts))
    | inr e ↦ rw e (compare_right-Within left (Token.word w ∷ ts))
  ]
  comparison_rest-Within left (t ∷ ts) = compare_right-Within left (t ∷ ts)

  pub parse_comparison-Within : (ts : List (Token F)) → Within (length ts) (parse_comparison ts)
  unfolding parse_comparison
  parse_comparison-Within ts =
      Within->>= _ _ (parse_operand ts) _ (parse_operand-Within ts) λ left rest p.
        Within-mono _ _ (comparison_rest left rest) (omega arith) (comparison_rest-Within left rest)

  parse_exists-Within : (ts : List (Token F)) → Within (length ts) (parse_exists ts)
  unfolding parse_exists
  parse_exists-Within ts =
      Within->>= _ _ (parse_base_operand ts) _ (parse_base_operand-Within ts) λ o rest p. p

  parse_word-Within : (w : Text) (ts : List (Token F)) → Within (suc (length ts)) (parse_word w ts)
  unfolding parse_word
  parse_word-Within w ts = elim (Bool-cases (text_eq w (codes "true"))) [
    | inl e ↦ rw e (omega arith)
    | inr e ↦ (elim (Bool-cases (text_eq w (codes "false"))) [
      | inl e' ↦ rw (e, e') (omega arith)
      | inr e' ↦ rw (e, e') (parse_comparison-Within (Token.word w ∷ ts))
    ])
  ]

  -- Enough fuel for each of the methods: four units a token, and one for each method below it.
  mutual
    unfolding parse_or

    parse_or-Within :
        (n : ℕ) (ts : List (Token F)) → 4 * length ts + 4 ≤ n → Within (length ts) (parse_or n ts)
    parse_or-Within zero ts l = absurd (omega arith)
    parse_or-Within (suc n) ts l =
        Within->>= _ _ (parse_and n ts) _ (parse_and-Within n ts (omega arith)) λ left rest p.
          Within-mono _ _ (or_loop n left rest) (omega arith)
            (or_loop-Within n left rest (omega arith))

    or_loop-Within :
        (n : ℕ) (left : Condition F) (ts : List (Token F))
        → 4 * length ts + 1 ≤ n
        → Within (suc (length ts)) (or_loop n left ts)
    or_loop-Within zero left ts l = absurd (omega arith)
    or_loop-Within (suc n) left [] l = omega arith
    or_loop-Within (suc n) left (Token.or ∷ ts) l =
        Within->>= _ _ (parse_and n ts) _ (parse_and-Within n ts (omega arith)) λ right rest p.
          Within-mono _ _ (or_loop n (Condition.or left right) rest) (omega arith)
            (or_loop-Within n (Condition.or left right) rest (omega arith))
    or_loop-Within (suc n) left (t ∷ ts) l = omega arith

    parse_and-Within :
        (n : ℕ) (ts : List (Token F)) → 4 * length ts + 3 ≤ n → Within (length ts) (parse_and n ts)
    parse_and-Within zero ts l = absurd (omega arith)
    parse_and-Within (suc n) ts l =
        Within->>= _ _ (parse_unary n ts) _ (parse_unary-Within n ts (omega arith)) λ left rest p.
          Within-mono _ _ (and_loop n left rest) (omega arith)
            (and_loop-Within n left rest (omega arith))

    and_loop-Within :
        (n : ℕ) (left : Condition F) (ts : List (Token F))
        → 4 * length ts + 1 ≤ n
        → Within (suc (length ts)) (and_loop n left ts)
    and_loop-Within zero left ts l = absurd (omega arith)
    and_loop-Within (suc n) left [] l = omega arith
    and_loop-Within (suc n) left (Token.and ∷ ts) l =
        Within->>= _ _ (parse_unary n ts) _ (parse_unary-Within n ts (omega arith)) λ right rest p.
          Within-mono _ _ (and_loop n (Condition.and left right) rest) (omega arith)
            (and_loop-Within n (Condition.and left right) rest (omega arith))
    and_loop-Within (suc n) left (t ∷ ts) l = omega arith

    parse_unary-Within :
        (n : ℕ) (ts : List (Token F))
        → 4 * length ts + 2 ≤ n
        → Within (length ts) (parse_unary n ts)
    parse_unary-Within zero ts l = absurd (omega arith)
    parse_unary-Within (suc n) [] l = parse_primary-Within n [] (omega arith)
    parse_unary-Within (suc n) (Token.not ∷ ts) l =
        Within->>= _ _ (parse_unary n ts) _ (parse_unary-Within n ts (omega arith))
          λ inner rest p. omega arith
    parse_unary-Within (suc n) (t ∷ ts) l = parse_primary-Within n (t ∷ ts) (omega arith)

    parse_primary-Within :
        (n : ℕ) (ts : List (Token F))
        → 4 * length ts + 1 ≤ n
        → Within (length ts) (parse_primary n ts)
    parse_primary-Within zero ts l = absurd (omega arith)
    parse_primary-Within (suc n) [] l = λ e. cc
    parse_primary-Within (suc n) (Token.l_paren ∷ ts) l =
        Within->>= _ _ (parse_or n ts) _ (parse_or-Within n ts (omega arith)) λ inner close p.
          Shrinks->>= _ _ (expect_r_paren close) _ (expect_r_paren-Shrinks close)
            λ rest q. omega arith
    parse_primary-Within (suc n) (Token.word w ∷ ts) l = parse_word-Within w ts
    parse_primary-Within (suc n) (Token.exists_call p ∷ ts) l =
        parse_exists-Within (Token.exists_call p ∷ ts)
    parse_primary-Within (suc n) (Token.get_call p f ∷ ts) l =
        parse_comparison-Within (Token.get_call p f ∷ ts)
    parse_primary-Within (suc n) (_ ∷ ts) l = λ e. cc

  complete-IsProper : (c : Condition F) (ts : List (Token F)) → IsProper (complete (c, ts))
  complete-IsProper c [] = tt
  complete-IsProper c (t ∷ ts) = λ e. cc

  IsProper-of_Within : (m : ℕ) (r : Parsed F (Condition F)) → Within m r → IsProper (r >>= complete)
  IsProper-of_Within m (err e) w = w
  IsProper-of_Within m (ok (c, ts)) w = complete-IsProper c ts

  -- The parser comes to a condition or to one of the source's errors on every list of tokens: its fuel
  -- is never used up.
  pub parse_tokens-IsProper : (ts : List (Token F)) → IsProper (parse_tokens ts)
  unfolding parse_tokens
  parse_tokens-IsProper ts =
      IsProper-of_Within (length ts) (parse_or (4 * length ts + 4) ts)
        (parse_or-Within _ ts (omega arith))
