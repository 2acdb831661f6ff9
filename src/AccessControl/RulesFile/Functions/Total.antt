-- ===== src/AccessControl/RulesFile/Functions/Total.antt =====
-- The fuel of the function blocks and of the expansion of calls is enough.
use embyr_rs.Base.{
  ℕ, zero, suc, ◌≤◌, ◌==◌, Bool, not, ◌&&◌, ◌||◌, Bool-cases, Option, none, some, Option-cases, [],
  ◌∷◌, length, ◌≢◌, inl, inr, arith, ok, ok_or, ◌>>◌,
}
use embyr_rs.Base.Text.{Text, codes, is_ascii_alphabetic}
use embyr_rs.Base.Dict.{Dict, get}
use embyr_rs.Domain.FieldValue.{Float}
use embyr_rs.AccessControl.Scan.{span, next_is, is_word_char}
use embyr_rs.AccessControl.Scan.Leaves.{length-span_first, is_word_char-of_ident}
use embyr_rs.AccessControl.Tokenizer.{parse_condition}
use embyr_rs.AccessControl.Tokenizer.Total.{parse_condition-ends}
use embyr_rs.AccessControl.RulesFile.{
  single, shell_syntax_error, syntax_construct, function_parameters, unreachable_construct,
  Construct, Checked,
}
use embyr_rs.AccessControl.RulesFile.Ends.{
  Ends, Ends->>=, Ends->>, Ends-if, Ends-ok_or, require_parsed-Ends, guard-Ends,
}
use embyr_rs.AccessControl.RulesFile.Shell.{
  trim, trim_start, is_empty, starts_with_space, keyword, bracketed, find_char, find_matching_close,
  find_char_paren_close,
}
use embyr_rs.AccessControl.RulesFile.Shell.Lengths.{
  length-trim_start, Fits, bracketed-Fits, find_char-length, find_matching_close-length,
  keyword-length,
}
use embyr_rs.AccessControl.RulesFile.Decompose.{require_parsed}
use embyr_rs.AccessControl.RulesFile.Functions.{
  guard, is_function_name, is_reserved, return_expression, function_block, insert_new, add_function,
  functions_from, parse_function_blocks, Turn, splice, is_builtin, expand_ident, expand_turn,
  expand_from, expand_function_calls,
}

-- What a turn leaves.
abbrev LeavesAtMost : ℕ → Checked Turn → Type 0
LeavesAtMost m r = Ends (λ t. length (t.2) ≤ m) r

Fits-mono : (k m : ℕ) (o : Option (Text × Text)) → k ≤ m → Fits k o → Fits m o
Fits-mono k m none l f = tt
Fits-mono k m (some (s, rest)) l f = omega arith

splice-Ends :
    (p body : Text) (m : ℕ) (o : Option (Text × Text)) → Fits m o → LeavesAtMost m (splice p body o)
unfolding splice
splice-Ends p body m none f = (λ e. cc, tt)
splice-Ends p body m (some (args, after)) f =
    Ends-if (λ t. length (t.2) ≤ m) (is_empty (trim args)) _ _ (omega arith) (λ e. cc, tt)

spliced :
    (p body : Text) (m : ℕ) (rest : Text)
    → length rest ≤ m
    → LeavesAtMost m (splice p body (find_char_paren_close rest))
unfolding find_char_paren_close
spliced p body m rest l =
    splice-Ends p body m (bracketed b'(' b')' rest)
      (Fits-mono (length rest) m (bracketed b'(' b')' rest) l (bracketed-Fits b'(' b')' rest))

expand_ident-Ends :
    (p : Text) (m : ℕ) (o : Option Text) (w : Text × Text)
    → length (w.1) ≤ m
    → LeavesAtMost m (expand_ident p o w)
unfolding expand_ident
expand_ident-Ends p m (some body) (ident, rest) l =
    Ends-if (λ t. length (t.2) ≤ m) (next_is b'(' rest) _ _ (spliced p body m rest l) l
expand_ident-Ends p m none (ident, rest) l =
    Ends-if (λ t. length (t.2) ≤ m) (next_is b'(' rest && not (is_builtin ident)) _ _ (λ e. cc, tt)
      l

expand_turn-Ends :
    (functions : Dict Text) (p : Text) (q : Option ℕ) (c : ℕ) (cs : Text)
    → LeavesAtMost (length cs) (expand_turn functions p q c cs)
unfolding expand_turn
expand_turn-Ends functions p (some q) c cs = omega arith
expand_turn-Ends functions p none c cs =
    Ends-if (λ t. length (t.2) ≤ length cs) ((c == b'"') || (c == b'\'')) _ _ (omega arith)
      (elim (Bool-cases (is_ascii_alphabetic c || c == b'_')) [
        | inl e ↦ rw e (
            expand_ident-Ends p (length cs) _ (span is_word_char (c ∷ cs))
              (length-span_first is_word_char c cs (is_word_char-of_ident c e)))
        | inr e ↦ rw e (omega arith)
      ])

expand_from-Ends :
    (n : ℕ) (functions : Dict Text) (p : Text) (q : Option ℕ) (cs : Text)
    → length cs ≤ n
    → Ends (λ s. Unit) (expand_from n functions p q cs)
unfolding expand_from
expand_from-Ends n functions p q [] l = tt
expand_from-Ends zero functions p q (c ∷ cs) l = absurd (omega arith)
expand_from-Ends (suc n) functions p q (c ∷ cs) l =
    Ends->>= (λ t. length (t.2) ≤ length cs) (λ s. Unit) (expand_turn functions p q c cs) _
      (expand_turn-Ends functions p q c cs)
      λ t f.
        Ends->>= (λ s. Unit) (λ s. Unit) (expand_from n functions p (t.1) (t.2)) _
          (expand_from-Ends n functions p (t.1) (t.2) (omega arith)) λ out u. tt

pub expand_function_calls-Ends :
    (condition : Text) (functions : Dict Text) (p : Text)
    → Ends (λ s. Unit) (expand_function_calls condition functions p)
unfolding expand_function_calls
expand_function_calls-Ends condition functions p =
    expand_from-Ends (length condition) functions p none condition (omega arith)

-- What a definition leaves behind it.
abbrev Behind : Text → Text × Text × Text → Type 0
Behind s b = length (b.2) ≤ length s

guarded :
    (s : Text) (b : Bool) (c : Construct) (r : Checked (Text × Text × Text))
    → c ≢ unreachable_construct
    → Ends (Behind s) r
    → Ends (Behind s) (guard b (single [] c) >> r)
guarded s b c r real p = Ends->> (Behind s) (guard b (single [] c)) r (guard-Ends b [] c real) p

-- The second part is no longer than the text.
abbrev Second : Text → Text × Text → Type 0
Second s p = length (p.1) ≤ length s

found-Ends :
    (s t : Text) (c : ℕ)
    → length t ≤ length s
    → Ends (Second s) (ok_or shell_syntax_error (find_char c t))
found-Ends s t c l =
    Ends-ok_or (Second s) [] syntax_construct (find_char c t) (λ e. cc)
      λ p e. let k = find_char-length c t e in omega (arith, k, l)

closed-Ends :
    (s t : Text)
    → length t ≤ length s
    → Ends (Second s) (ok_or shell_syntax_error (find_matching_close (trim_start t)))
closed-Ends s t l =
    Ends-ok_or (Second s) [] syntax_construct (find_matching_close (trim_start t)) (λ e. cc)
      λ p e.
        let k = find_matching_close-length (trim_start t) e in
        let j = length-trim_start t in omega (arith, k, j, l)

insert_new-Ends :
    (o : Option Text) (functions : Dict Text) (b : Text × Text × Text)
    → Ends (λ p. length (p.1) ≤ length (b.2)) (insert_new o functions b)
insert_new-Ends none functions (name, expr, rest) = omega arith
insert_new-Ends (some t) functions b = (λ e. cc, tt)

module _ (F : Type 0) ⦃float : Float F⦄ where
  function_block-Ends : (s : Text) → Ends (Behind s) (function_block F s)
  unfolding function_block
  function_block-Ends s =
      Ends->>= (Second s) (Behind s) (ok_or shell_syntax_error (find_char b'(' s)) _
        (found-Ends s s b'(' (omega arith))
        λ p l.
          guarded s (is_function_name (trim (p.0))) syntax_construct _ (λ e. cc)
            (guarded s (not (is_reserved (trim (p.0)))) syntax_construct _ (λ e. cc)
              (Ends->>= (Second s) (Behind s) (ok_or shell_syntax_error (find_char b')' (p.1))) _
                (found-Ends s (p.1) b')' l)
                λ q k.
                  guarded s (is_empty (trim (q.0))) function_parameters _ (λ e. cc)
                    (Ends->>= (Second s) (Behind s)
                      (ok_or shell_syntax_error (find_matching_close (trim_start (q.1)))) _
                      (closed-Ends s (q.1) k)
                      λ r j.
                        Ends->>= (λ x. Unit) (Behind s)
                          (ok_or shell_syntax_error (return_expression (trim (r.0)))) _
                          (Ends-ok_or (λ x. Unit) [] syntax_construct
                            (return_expression (trim (r.0))) (λ e. cc) λ x e. tt)
                          λ x u.
                            guarded s (not (is_empty x)) syntax_construct _ (λ e. cc)
                              (Ends->> (Behind s) (require_parsed [] (parse_condition {F = F} x))
                                (ok (trim (p.0), x, r.1))
                                (require_parsed-Ends [] (parse_condition {F = F} x)
                                  (parse_condition-ends x))
                                j))))

  functions_from-Ends :
      (n : ℕ) (functions : Dict Text) (s : Text)
      → suc (length s) ≤ n
      → Ends (λ p. Unit) (functions_from F n functions s)
  unfolding functions_from
  functions_from-Ends zero functions s l = absurd (omega arith)
  functions_from-Ends (suc n) functions s l =
      elim (Option-cases (keyword (codes "function") starts_with_space (trim_start s))) [
        | inl e ↦ rw e tt
        | inr (rest, e) ↦
            let k = keyword-length b'f' (codes "unction") starts_with_space (trim_start s) rest e in
            let j = length-trim_start s in
            let i = length-trim_start rest in
            rw e (
              Ends->>= (Behind (trim_start rest)) (λ p. Unit) (function_block F (trim_start rest)) _
                (function_block-Ends (trim_start rest))
                λ b m.
                  Ends->>= (λ p. length (p.1) ≤ length (b.2)) (λ p. Unit) (add_function functions b)
                    _ (insert_new-Ends (get (b.0) functions) functions b)
                    λ p o. functions_from-Ends n (p.0) (p.1) (omega (arith, k, j, i, m, o, l)))
      ]

  pub parse_function_blocks-Ends : (s : Text) → Ends (λ p. Unit) (parse_function_blocks F s)
  unfolding parse_function_blocks
  parse_function_blocks-Ends s = functions_from-Ends (suc (length s)) [] s (omega arith)
