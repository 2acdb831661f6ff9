-- ===== src/AccessControl/Parser/Complete/Comparisons.antt =====
-- What the grammar spells is accepted by the parser: lists and comparisons.
use mathlib.Core.List.{append_assoc}
use embyr_rs.Base.{
  ℕ, zero, suc, ◌≤◌, List, [], ◌∷◌, ◌++◌, length, length-append, ◌≡◌, refl, arith, ok,
}
use embyr_rs.Base.Text.{codes}
use embyr_rs.AccessControl.Syntax.{Operand, Operands, Condition, CompareOp}
use embyr_rs.AccessControl.Token.{Token}
use embyr_rs.AccessControl.Parser.{
  next_item, list_items, parse_list_literal, in_list, compare_op, compare_right, comparison_rest,
  parse_comparison,
}
use embyr_rs.AccessControl.Parser.Grammar.{
  BaseOperand, FullOperand, Items, ListLiteral, Relation, Comparison,
}
use embyr_rs.AccessControl.Parser.Complete.{EndsOperand, FullOperand-complete}

module _ {F : Type 0} where
  -- The tokens do not close a list at once.
  abbrev BeginsItem : List (Token F) → Type 0
  BeginsItem [] = ⊥
  BeginsItem (Token.r_bracket ∷ ts) = ⊥
  BeginsItem _ = Unit

  BaseOperand-BeginsItem :
      {us : List (Token F)} {o : Operand F} (rest : List (Token F))
      → BaseOperand us o
      → BeginsItem (us ++ rest)
  BaseOperand-BeginsItem rest (BaseOperand.word e) = tt
  BaseOperand-BeginsItem rest BaseOperand.string_literal = tt
  BaseOperand-BeginsItem rest BaseOperand.int_literal = tt
  BaseOperand-BeginsItem rest BaseOperand.double_literal = tt
  BaseOperand-BeginsItem rest (BaseOperand.exists_call e) = tt
  BaseOperand-BeginsItem rest (BaseOperand.get_call e) = tt

  FullOperand-BeginsItem :
      {us : List (Token F)} {o : Operand F} (rest : List (Token F))
      → FullOperand us o
      → BeginsItem (us ++ rest)
  FullOperand-BeginsItem rest (FullOperand.base g) = BaseOperand-BeginsItem rest g
  FullOperand-BeginsItem rest (FullOperand.add {ts} {us} g h) =
      rw (append_assoc ts (Token.plus ∷ us) rest) (BaseOperand-BeginsItem _ g)
  FullOperand-BeginsItem rest (FullOperand.sub {ts} {us} g h) =
      rw (append_assoc ts (Token.minus ∷ us) rest) (BaseOperand-BeginsItem _ g)

  Items-BeginsItem :
      {us : List (Token F)} {os : Operands F} (rest : List (Token F))
      → Items us os
      → BeginsItem (us ++ rest)
  Items-BeginsItem rest (Items.last {ts} g) =
      rw (append_assoc ts (Token.r_bracket ∷ []) rest) (FullOperand-BeginsItem _ g)
  Items-BeginsItem rest (Items.more {ts} {us} g h) =
      rw (append_assoc ts (Token.comma ∷ us) rest) (FullOperand-BeginsItem _ g)

  Items-complete :
      (n : ℕ) {us : List (Token F)} {os : Operands F} (rest : List (Token F))
      → Items us os
      → length us ≤ n
      → list_items n (us ++ rest) ≡ ok (os, rest)
  unfolding list_items next_item
  Items-complete zero rest (Items.last {ts} g) l =
      absurd (omega (arith, length-append ts (Token.r_bracket ∷ [])))
  Items-complete zero rest (Items.more {ts} {us} g h) l =
      absurd (omega (arith, length-append ts (Token.comma ∷ us)))
  Items-complete (suc n) rest (Items.last {ts} {o} g) l =
      rw
        (
          append_assoc ts (Token.r_bracket ∷ []) rest,
          FullOperand-complete (Token.r_bracket ∷ rest) g tt,
        )
        refl
  Items-complete (suc n) rest (Items.more {ts} {us} {o} {os} g h) l =
      let later = Items-complete n rest h (omega (arith, length-append ts (Token.comma ∷ us))) in
      rw
        (
          append_assoc ts (Token.comma ∷ us) rest,
          FullOperand-complete (Token.comma ∷ (us ++ rest)) g tt,
          later,
        )
        refl

  some_list :
      (ts rest : List (Token F)) (os : Operands F)
      → BeginsItem ts
      → list_items (suc (length ts)) ts ≡ ok (os, rest)
      → parse_list_literal (Token.l_bracket ∷ ts) ≡ ok (Operand.list_literal os, rest)
  unfolding parse_list_literal
  some_list [] rest os b e = absurd b
  some_list (Token.r_bracket ∷ ts) rest os b e = absurd b
  some_list (_ ∷ ts) rest os b e = rw e refl

  ListLiteral-complete :
      {us : List (Token F)} {list : Operand F} (rest : List (Token F))
      → ListLiteral us list
      → parse_list_literal (us ++ rest) ≡ ok (list, rest)
  unfolding parse_list_literal
  ListLiteral-complete rest ListLiteral.empty = refl
  ListLiteral-complete rest (ListLiteral.items {ts} {os} g) =
      some_list (ts ++ rest) rest os (Items-BeginsItem rest g)
        (Items-complete _ rest g (omega (arith, length-append ts rest)))

  in_list_complete :
      {us : List (Token F)} {list : Operand F} (left : Operand F) (rest : List (Token F))
      → ListLiteral us list
      → in_list left (us ++ rest) ≡ ok (Condition.is_in left list, rest)
  unfolding in_list
  in_list_complete left rest ListLiteral.empty =
      rw (ListLiteral-complete rest ListLiteral.empty) refl
  in_list_complete left rest (ListLiteral.items g) =
      rw (ListLiteral-complete rest (ListLiteral.items g)) refl

  right_complete :
      {us vs : List (Token F)} {op : CompareOp} {r : Operand F} (left : Operand F)
      (rest : List (Token F))
      → Relation us op
      → FullOperand vs r
      → EndsOperand rest
      → comparison_rest left (us ++ (vs ++ rest)) ≡ ok (Condition.compare left op r, rest)
  unfolding comparison_rest compare_right compare_op
  right_complete left rest Relation.eq g n = rw (FullOperand-complete rest g n) refl
  right_complete left rest Relation.ne g n = rw (FullOperand-complete rest g n) refl
  right_complete left rest Relation.lt g n = rw (FullOperand-complete rest g n) refl
  right_complete left rest Relation.le g n = rw (FullOperand-complete rest g n) refl
  right_complete left rest Relation.gt g n = rw (FullOperand-complete rest g n) refl
  right_complete left rest Relation.ge g n = rw (FullOperand-complete rest g n) refl

  Relation-EndsOperand :
      {us : List (Token F)} {op : CompareOp} (rest : List (Token F))
      → Relation us op
      → EndsOperand (us ++ rest)
  Relation-EndsOperand rest Relation.eq = tt
  Relation-EndsOperand rest Relation.ne = tt
  Relation-EndsOperand rest Relation.lt = tt
  Relation-EndsOperand rest Relation.le = tt
  Relation-EndsOperand rest Relation.gt = tt
  Relation-EndsOperand rest Relation.ge = tt

  pub Comparison-complete :
      {us : List (Token F)} {c : Condition F} (rest : List (Token F))
      → Comparison us c
      → EndsOperand rest
      → parse_comparison (us ++ rest) ≡ ok (c, rest)
  unfolding parse_comparison comparison_rest
  Comparison-complete rest (Comparison.is_in {ts} {us} {l} g h) n =
      rw
        (
          append_assoc ts (Token.word (codes "in") ∷ us) rest,
          FullOperand-complete (Token.word (codes "in") ∷ (us ++ rest)) g tt,
        )
        (in_list_complete l rest h)
  Comparison-complete rest (Comparison.compare {ts} {us} {vs} {l} g r h) n =
      rw
        (
          append_assoc ts (us ++ vs) rest,
          append_assoc us vs rest,
          FullOperand-complete (us ++ (vs ++ rest)) g (Relation-EndsOperand (vs ++ rest) r),
        )
        (right_complete l rest r h n)
