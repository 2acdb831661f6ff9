-- ===== src/AccessControl/Parser/Grammar.antt =====
-- The grammar of conditions, independently of the parser: which tokens spell which condition. The
-- operators of one level associate to the left; an operand has one arithmetic operator at most.
use embyr_rs.Base.{List, [], ◌∷◌, ◌++◌, ◌≡◌, true, false, ok}
use embyr_rs.Base.Int.{ℤ}
use embyr_rs.Base.Text.{Text, codes, text_eq}
use embyr_rs.AccessControl.Syntax.{
  PathTemplate, Operand, Operands, Condition, CompareOp, ArithmeticOp, DurationUnit,
}
use embyr_rs.AccessControl.Token.{Token}
use embyr_rs.AccessControl.PathTemplates.{parse_path_template}
use embyr_rs.AccessControl.Operands.{duration_unit, word_to_operand}

module _ {F : Type 0} where
  pub data BaseOperand : List (Token F) → Operand F → Type 0 where
    word : {w : Text} {o : Operand F} → word_to_operand w ≡ ok o → BaseOperand (Token.word w ∷ []) o
    string_literal :
        {s : Text} → BaseOperand (Token.string_literal s ∷ []) (Operand.string_literal s)
    int_literal : {v : ℤ} → BaseOperand (Token.int_literal v ∷ []) (Operand.int_literal v)
    double_literal : {v : F} → BaseOperand (Token.double_literal v ∷ []) (Operand.double_literal v)
    exists_call :
        {p : Text} {t : PathTemplate}
        → parse_path_template p ≡ ok t
        → BaseOperand (Token.exists_call p ∷ []) (Operand.cross_document_exists t)
    get_call :
        {p f : Text} {t : PathTemplate}
        → parse_path_template p ≡ ok t
        → BaseOperand (Token.get_call p f ∷ []) (Operand.cross_document_get t f)

  -- Right of an arithmetic operator a duration may stand too.
  pub data RightOperand : List (Token F) → Operand F → Type 0 where
    base : {ts : List (Token F)} {o : Operand F} → BaseOperand ts o → RightOperand ts o
    duration :
        {v : ℤ} {u : Text} {unit : DurationUnit}
        → duration_unit u ≡ ok unit
        → RightOperand
            (Token.word (codes "duration.value")
              ∷ Token.l_paren
              ∷ Token.int_literal v
              ∷ Token.comma
              ∷ Token.single_quoted_unit u
              ∷ Token.r_paren
              ∷ [])
            (Operand.duration_literal v unit)

  pub data FullOperand : List (Token F) → Operand F → Type 0 where
    base : {ts : List (Token F)} {o : Operand F} → BaseOperand ts o → FullOperand ts o
    add :
        {ts us : List (Token F)} {l r : Operand F}
        → BaseOperand ts l
        → RightOperand us r
        → FullOperand (ts ++ Token.plus ∷ us) (Operand.arithmetic l ArithmeticOp.add r)
    sub :
        {ts us : List (Token F)} {l r : Operand F}
        → BaseOperand ts l
        → RightOperand us r
        → FullOperand (ts ++ Token.minus ∷ us) (Operand.arithmetic l ArithmeticOp.sub r)

  -- The items of a list, up to its closing bracket.
  pub data Items : List (Token F) → Operands F → Type 0 where
    last :
        {ts : List (Token F)} {o : Operand F}
        → FullOperand ts o
        → Items (ts ++ Token.r_bracket ∷ []) (Operands.operand o Operands.no_operands)
    more :
        {ts us : List (Token F)} {o : Operand F} {os : Operands F}
        → FullOperand ts o
        → Items us os
        → Items (ts ++ Token.comma ∷ us) (Operands.operand o os)

  pub data ListLiteral : List (Token F) → Operand F → Type 0 where
    empty :
        ListLiteral
          (Token.l_bracket ∷ Token.r_bracket ∷ [])
          (Operand.list_literal Operands.no_operands)
    items :
        {ts : List (Token F)} {os : Operands F}
        → Items ts os
        → ListLiteral (Token.l_bracket ∷ ts) (Operand.list_literal os)

  pub data Relation : List (Token F) → CompareOp → Type 0 where
    eq : Relation (Token.eq ∷ []) CompareOp.eq
    ne : Relation (Token.ne ∷ []) CompareOp.ne
    lt : Relation (Token.lt ∷ []) CompareOp.lt
    le : Relation (Token.le ∷ []) CompareOp.le
    gt : Relation (Token.gt ∷ []) CompareOp.gt
    ge : Relation (Token.ge ∷ []) CompareOp.ge

  pub data Comparison : List (Token F) → Condition F → Type 0 where
    is_in :
        {ts us : List (Token F)} {l list : Operand F}
        → FullOperand ts l
        → ListLiteral us list
        → Comparison (ts ++ Token.word (codes "in") ∷ us) (Condition.is_in l list)
    compare :
        {ts us vs : List (Token F)} {l r : Operand F} {op : CompareOp}
        → FullOperand ts l
        → Relation us op
        → FullOperand vs r
        → Comparison (ts ++ (us ++ vs)) (Condition.compare l op r)

  -- A comparison begins with a `get(…)` or with a word that is no literal condition.
  abbrev pub BeginsComparison : List (Token F) → Type 0
  BeginsComparison (Token.word w ∷ ts) =
      (text_eq w (codes "true") ≡ false) × (text_eq w (codes "false") ≡ false)
  BeginsComparison (Token.get_call p f ∷ ts) = Unit
  BeginsComparison _ = ⊥

  mutual
    pub data Primary : List (Token F) → Condition F → Type 0 where
      grouped :
          {ts : List (Token F)} {c : Condition F}
          → Disjunction ts c
          → Primary (Token.l_paren ∷ (ts ++ Token.r_paren ∷ [])) c
      is_true : Primary (Token.word (codes "true") ∷ []) (Condition.literal true)
      is_false : Primary (Token.word (codes "false") ∷ []) (Condition.literal false)
      exists :
          {p : Text} {t : PathTemplate}
          → parse_path_template p ≡ ok t
          → Primary (Token.exists_call p ∷ []) (
              Condition.compare
                (Operand.cross_document_exists t)
                CompareOp.eq
                (Operand.bool_literal true))
      comparison :
          {ts : List (Token F)} {c : Condition F}
          → BeginsComparison ts
          → Comparison ts c
          → Primary ts c

    pub data Unary : List (Token F) → Condition F → Type 0 where
      primary : {ts : List (Token F)} {c : Condition F} → Primary ts c → Unary ts c
      not :
          {ts : List (Token F)} {c : Condition F}
          → Unary ts c
          → Unary (Token.not ∷ ts) (Condition.not c)

    pub data Conjunction : List (Token F) → Condition F → Type 0 where
      unary : {ts : List (Token F)} {c : Condition F} → Unary ts c → Conjunction ts c
      and :
          {ts us : List (Token F)} {c d : Condition F}
          → Conjunction ts c
          → Unary us d
          → Conjunction (ts ++ Token.and ∷ us) (Condition.and c d)

    pub data Disjunction : List (Token F) → Condition F → Type 0 where
      conjunction : {ts : List (Token F)} {c : Condition F} → Conjunction ts c → Disjunction ts c
      or :
          {ts us : List (Token F)} {c d : Condition F}
          → Disjunction ts c
          → Conjunction us d
          → Disjunction (ts ++ Token.or ∷ us) (Condition.or c d)
