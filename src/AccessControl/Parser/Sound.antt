-- ===== src/AccessControl/Parser/Sound.antt =====
-- What the parser accepts is spelled as the grammar says.
pub mod Conditions
pub mod Connectives
use mathlib.Core.List.{append-nil, append_assoc}
use embyr_rs.Base.{
  ℕ, zero, suc, Bool, true, false, List, [], ◌∷◌, ◌++◌, drop, length, ◌≡◌, refl, sym, ap, ◌∙◌,
  subst, Bool-cases, inl, inr, if◌then◌else◌, Result, ok, err, ◌>>=◌,
}
use embyr_rs.Base.Int.{ℤ}
use embyr_rs.Base.Text.{Text, codes, text_eq, text_eq_sound}
use embyr_rs.AccessControl.Syntax.{Operand, Operands, Condition, CompareOp, ArithmeticOp}
use embyr_rs.AccessControl.Token.{ConditionParseError, Token, Parsed}
use embyr_rs.AccessControl.PathTemplates.{parse_path_template}
use embyr_rs.AccessControl.Operands.{
  duration_unit, word_to_operand, parse_base_operand, expect_l_paren, expect_amount, expect_comma,
  expect_unit, expect_r_paren, parse_duration_value, parse_arithmetic_rhs, single_arithmetic,
  parse_right, parse_arithmetic, parse_operand,
}
use embyr_rs.AccessControl.Parser.Grammar.{BaseOperand, RightOperand, FullOperand}

module _ {F : Type 0} where
  -- The tokens before the rest spell the value, as `G` says; an error promises nothing.
  abbrev pub Derived :
      {A : Type 0} → (List (Token F) → A → Type 0) → List (Token F) → Parsed F A → Type 0
  Derived G ts (err e) = Unit
  Derived G ts (ok (a, rest)) = (used : List (Token F)) × (ts ≡ used ++ rest) × G used a

  module _ {A : Type 0} (G : List (Token F) → A → Type 0) where
    -- A value from elsewhere, and then what follows it.
    pub Derived-value :
        {B : Type 0} (ts : List (Token F)) (r : Result ConditionParseError B) (f : B → Parsed F A)
        → ((b : B) → r ≡ ok b → Derived G ts (f b))
        → Derived G ts (r >>= f)
    Derived-value ts (err e) f h = tt
    Derived-value ts (ok b) f h = h b refl

    -- One parser after another: what is used is what both use.
    pub Derived->>= :
        {B : Type 0} (H : List (Token F) → B → Type 0) (ts : List (Token F)) (r : Parsed F B)
        (f : B × List (Token F) → Parsed F A)
        → Derived H ts r
        → ((b : B) (used rest : List (Token F))
            → H used b
            → Derived (λ more a. G (used ++ more) a) rest (f (b, rest)))
        → Derived G ts (r >>= f)
    Derived->>= H ts (err e) f d h = tt
    Derived->>= H ts (ok (b, rest)) f (used, e, g) h = join (f (b, rest)) (h b used rest g)
      where
        join : (r : Parsed F A) → Derived (λ more a. G (used ++ more) a) rest r → Derived G ts r
        join (err e) d = tt
        join (ok (a, rest')) (more, e', g') =
            (used ++ more, e ∙ ap (λ x. used ++ x) e' ∙ sym (append_assoc used more rest'), g')

    -- A token before what a parser reads.
    pub Derived-cons :
        (t : Token F) (ts : List (Token F)) (r : Parsed F A)
        → Derived (λ more a. G (t ∷ more) a) ts r
        → Derived G (t ∷ ts) r
    Derived-cons t ts (err e) d = tt
    Derived-cons t ts (ok (a, rest)) (used, e, g) = (t ∷ used, ap (λ x. t ∷ x) e, g)

    pub Derived-map :
        (H : List (Token F) → A → Type 0) (ts : List (Token F)) (r : Parsed F A)
        → ((more : List (Token F)) (a : A) → G more a → H more a)
        → Derived G ts r
        → Derived H ts r
    Derived-map H ts (err e) h d = tt
    Derived-map H ts (ok (a, rest)) h (used, e, g) = (used, e, h used a g)

  BaseOperand-sound : (ts : List (Token F)) → Derived BaseOperand ts (parse_base_operand ts)
  unfolding parse_base_operand
  BaseOperand-sound [] = tt
  BaseOperand-sound (Token.word w ∷ ts) =
      Derived-value BaseOperand _ (word_to_operand w) _
        λ o e. (Token.word w ∷ [], refl, BaseOperand.word e)
  BaseOperand-sound (Token.string_literal s ∷ ts) =
      (Token.string_literal s ∷ [], refl, BaseOperand.string_literal)
  BaseOperand-sound (Token.int_literal v ∷ ts) =
      (Token.int_literal v ∷ [], refl, BaseOperand.int_literal)
  BaseOperand-sound (Token.double_literal v ∷ ts) =
      (Token.double_literal v ∷ [], refl, BaseOperand.double_literal)
  BaseOperand-sound (Token.exists_call p ∷ ts) =
      Derived-value BaseOperand _ (parse_path_template p) _
        λ t e. (Token.exists_call p ∷ [], refl, BaseOperand.exists_call e)
  BaseOperand-sound (Token.get_call p f ∷ ts) =
      Derived-value BaseOperand _ (parse_path_template p) _
        λ t e. (Token.get_call p f ∷ [], refl, BaseOperand.get_call e)
  BaseOperand-sound (_ ∷ ts) = tt

  -- The tokens of a duration after its word, one after the other.
  duration_sound :
      (ts : List (Token F))
      → Derived RightOperand
          (Token.word (codes "duration.value") ∷ ts)
          (parse_duration_value (Token.word (codes "duration.value") ∷ ts))
  unfolding parse_duration_value expect_l_paren expect_amount expect_comma expect_unit
      expect_r_paren
  duration_sound
        (Token.l_paren
          ∷ Token.int_literal v
          ∷ Token.comma
          ∷ Token.single_quoted_unit u
          ∷ Token.r_paren
          ∷ ts) =
      Derived-value RightOperand _ (duration_unit u) _ λ unit e. (
        Token.word (codes "duration.value")
            ∷ Token.l_paren
            ∷ Token.int_literal v
            ∷ Token.comma
            ∷ Token.single_quoted_unit u
            ∷ Token.r_paren
            ∷ [],
        refl,
        RightOperand.duration e,
      )
  duration_sound
        (Token.l_paren ∷ Token.int_literal v ∷ Token.comma ∷ Token.single_quoted_unit u ∷ []) =
      Derived-value RightOperand _ (duration_unit u) _ λ unit e. tt
  duration_sound
        (Token.l_paren ∷ Token.int_literal v ∷ Token.comma ∷ Token.single_quoted_unit u ∷ t ∷ ts) =
      Derived-value RightOperand _ (duration_unit u) _ λ unit e. tt
  duration_sound _ = tt

  base_right : (ts : List (Token F)) → Derived RightOperand ts (parse_base_operand ts)
  base_right ts =
      Derived-map BaseOperand RightOperand ts (parse_base_operand ts)
        (λ more o g. RightOperand.base g) (BaseOperand-sound ts)

  RightOperand-sound : (ts : List (Token F)) → Derived RightOperand ts (parse_arithmetic_rhs ts)
  unfolding parse_arithmetic_rhs
  RightOperand-sound [] = base_right []
  RightOperand-sound (Token.word w ∷ ts) = elim (Bool-cases (text_eq w (codes "duration.value"))) [
    | inl e ↦ rw (text_eq_sound w (codes "duration.value") e) (duration_sound ts)
    | inr e ↦ rw e (base_right (Token.word w ∷ ts))
  ]
  RightOperand-sound (t ∷ ts) = base_right (t ∷ ts)

  -- After `base op right` no further operator.
  single_arithmetic_sound :
      (G : List (Token F) → Operand F → Type 0) (base : Operand F) (op : ArithmeticOp)
      (right : Operand F) (ts : List (Token F))
      → G [] (Operand.arithmetic base op right)
      → Derived G ts (single_arithmetic base op right ts)
  unfolding single_arithmetic
  single_arithmetic_sound G base op right [] g = ([], refl, g)
  single_arithmetic_sound G base op right (Token.plus ∷ ts) g = tt
  single_arithmetic_sound G base op right (Token.minus ∷ ts) g = tt
  single_arithmetic_sound G base op right (t ∷ ts) g = ([], refl, g)

  parse_right_sound :
      (G : List (Token F) → Operand F → Type 0) (base : Operand F) (op : ArithmeticOp)
      (ts : List (Token F))
      → ((us : List (Token F)) (r : Operand F)
          → RightOperand us r
          → G us (Operand.arithmetic base op r))
      → Derived G ts (parse_right base op ts)
  unfolding parse_right
  parse_right_sound G base op ts g =
      Derived->>= G RightOperand ts (parse_arithmetic_rhs ts) _ (RightOperand-sound ts)
        λ right used rest r.
          single_arithmetic_sound (λ more a. G (used ++ more) a) base op right rest
            (subst (λ x. G x (Operand.arithmetic base op right)) (sym (append-nil used))
              (g used right r))

  arithmetic_sound :
      (base : Operand F) (before ts : List (Token F))
      → BaseOperand before base
      → Derived (λ more o. FullOperand (before ++ more) o) ts (parse_arithmetic base ts)
  unfolding parse_arithmetic
  arithmetic_sound base before [] b =
      ([], refl, subst (λ x. FullOperand x base) (sym (append-nil before)) (FullOperand.base b))
  arithmetic_sound base before (Token.plus ∷ ts) b =
      Derived-cons _ Token.plus ts (parse_right base ArithmeticOp.add ts)
        (parse_right_sound _ base ArithmeticOp.add ts λ us r g. FullOperand.add b g)
  arithmetic_sound base before (Token.minus ∷ ts) b =
      Derived-cons _ Token.minus ts (parse_right base ArithmeticOp.sub ts)
        (parse_right_sound _ base ArithmeticOp.sub ts λ us r g. FullOperand.sub b g)
  arithmetic_sound base before (t ∷ ts) b =
      ([], refl, subst (λ x. FullOperand x base) (sym (append-nil before)) (FullOperand.base b))

  pub operand_sound : (ts : List (Token F)) → Derived FullOperand ts (parse_operand ts)
  unfolding parse_operand
  operand_sound ts =
      Derived->>= FullOperand BaseOperand ts (parse_base_operand ts) _ (BaseOperand-sound ts)
        λ base used rest b. arithmetic_sound base used rest b
