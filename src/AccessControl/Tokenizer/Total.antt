-- ===== src/AccessControl/Tokenizer/Total.antt =====
-- The fuel of the tokenizer and of `parse_condition` is enough: every turn uses up a character.
use embyr_rs.Base.{
  ℕ, zero, suc, ◌≤◌, ◌==◌, Bool, true, false, ◌&&◌, ◌||◌, Option, none, some, [], ◌∷◌, length, ◌≡◌,
  ◌≢◌, refl, arith, if◌then◌else◌, Bool-cases, inl, inr, Result, ok, err, ◌>>=◌, ◌>>◌,
}
use embyr_rs.Base.Text.{Text, codes, is_ascii_digit, is_ascii_alphabetic}
use embyr_rs.Domain.FieldValue.{Float}
use embyr_rs.AccessControl.Token.{
  ConditionParseError, syntax_error, outside_grammar, unsupported_construct, custom_function,
  wildcard_path, out_of_fuel, Token,
}
use embyr_rs.AccessControl.Scan.Leaves.{
  TokenLeaves, Leaves-if, length-span_first, Leaves-mono, length-strip_first, is_word_char-of_ident,
  number-Leaves, exists_token-Leaves, get_token-Leaves, word_token-Leaves, string_token-Leaves,
  unit_token-Leaves,
}
use embyr_rs.AccessControl.Scan.{
  Scanned, is_whitespace, next_is, next_is_digit, is_word_char, span, exists_token, get_token,
  word_token,
}
use embyr_rs.AccessControl.Operands.Proper.{IsProper, IsProper->>=}
use embyr_rs.AccessControl.Parser.Fuel.{parse_tokens-IsProper}
use embyr_rs.AccessControl.Tokenizer.{
  skip, exists_or, get_or, scan_word, scan_operator, scan_token, tokens_from, tokenize, masked,
  scan_calls, detect_unsupported_construct, parse_condition,
}

-- The scan leaves no more than `m` characters, or fails with an error of the source's.
length-skip : (cs : Text) → length (skip cs) ≤ length cs
length-skip [] = omega arith
length-skip (c ∷ cs) = omega arith

module _ (F : Type 0) ⦃float : Float F⦄ where
  exists_or-Leaves :
      (m : ℕ) (o : Option Text) (below : Scanned (Token F))
      → ((s : Text) → o ≡ some s → length s ≤ m)
      → TokenLeaves F m below
      → TokenLeaves F m (exists_or o below)
  exists_or-Leaves m none below h p = p
  exists_or-Leaves m (some s) below h p =
      Leaves-mono _ _ (exists_token s) (h s refl) (exists_token-Leaves F s)

  get_or-Leaves :
      (m : ℕ) (o : Option Text) (below : Scanned (Token F))
      → ((s : Text) → o ≡ some s → length s ≤ m)
      → TokenLeaves F m below
      → TokenLeaves F m (get_or o below)
  get_or-Leaves m none below h p = p
  get_or-Leaves m (some s) below h p =
      Leaves-mono _ _ (get_token s) (h s refl) (get_token-Leaves F s)

  ident_or-Leaves :
      (c : ℕ) (cs : Text) (below : Scanned (Token F))
      → TokenLeaves F (length cs) below
      → TokenLeaves F
          (length cs)
          (if is_ascii_alphabetic c || c == b'_' then word_token (c ∷ cs) else below)
  ident_or-Leaves c cs below p = elim (Bool-cases (is_ascii_alphabetic c || c == b'_')) [
    | inl e ↦ rw e (word_token-Leaves F c cs e)
    | inr e ↦ rw e p
  ]

  scan_word-Leaves : (c : ℕ) (cs : Text) → TokenLeaves F (length cs) (scan_word c cs)
  unfolding scan_word
  scan_word-Leaves c cs =
      exists_or-Leaves (length cs) _ _ (length-strip_first b'e' (codes "xists(") c cs) (
        get_or-Leaves (length cs) _ _ (length-strip_first b'g' (codes "et(") c cs) (
          ident_or-Leaves c cs _ (
            Leaves-if _ (c == b'"') _ _ (string_token-Leaves F cs) (
              Leaves-if _ (c == b'\'') _ _ (unit_token-Leaves F cs) (
                Leaves-if _ (c == b'*' || (c == b'/' || c == b'%')) (err outside_grammar)
                  (err syntax_error) (λ e. cc) (λ e. cc))))))

  scan_operator-Leaves : (c : ℕ) (cs : Text) → TokenLeaves F (length cs) (scan_operator c cs)
  unfolding scan_operator
  scan_operator-Leaves c cs =
      let same : length cs ≤ length cs = omega arith in
      Leaves-if _ (c == b'!' && next_is b'=' cs) _ _ (length-skip cs) (
        Leaves-if _ (c == b'!') _ _ same (
          Leaves-if _ (c == b'<' && next_is b'=' cs) _ _ (length-skip cs) (
            Leaves-if _ (c == b'<') _ _ same (
              Leaves-if _ (c == b'>' && next_is b'=' cs) _ _ (length-skip cs) (
                Leaves-if _ (c == b'>') _ _ same (
                  Leaves-if _ (c == b'+') _ _ same (
                    Leaves-if _ (is_ascii_digit c || (c == b'-' && next_is_digit cs)) _ _
                      (number-Leaves F c cs)
                      (Leaves-if _ (c == b'-') _ _ same (scan_word-Leaves c cs)))))))))

  scan_token-Leaves : (c : ℕ) (cs : Text) → TokenLeaves F (length cs) (scan_token c cs)
  unfolding scan_token
  scan_token-Leaves c cs =
      let same : length cs ≤ length cs = omega arith in
      Leaves-if _ (c == b'(') _ _ same (
        Leaves-if _ (c == b')') _ _ same (
          Leaves-if _ (c == b'[') _ _ same (
            Leaves-if _ (c == b']') _ _ same (
              Leaves-if _ (c == b',') _ _ same (
                Leaves-if _ (c == b'&' && next_is b'&' cs) _ _ (length-skip cs) (
                  Leaves-if _ (c == b'|' && next_is b'|' cs) _ _ (length-skip cs) (
                    Leaves-if _ (c == b'=' && next_is b'=' cs) _ _ (length-skip cs)
                      (scan_operator-Leaves c cs))))))))

  IsProper-after :
      {B : Type 0} (m : ℕ) (r : Scanned (Token F))
      (f : Token F × Text → Result ConditionParseError B)
      → TokenLeaves F m r
      → ((t : Token F) (rest : Text) → length rest ≤ m → IsProper (f (t, rest)))
      → IsProper (r >>= f)
  IsProper-after m (err e) f p q = p
  IsProper-after m (ok (t, rest)) f p q = q t rest p

  tokens_from-IsProper : (n : ℕ) (cs : Text) → length cs ≤ n → IsProper (tokens_from {F = F} n cs)
  unfolding tokens_from
  tokens_from-IsProper n [] l = tt
  tokens_from-IsProper zero (c ∷ cs) l = absurd (omega arith)
  tokens_from-IsProper (suc n) (c ∷ cs) l = elim (Bool-cases (is_whitespace c)) [
    | inl e ↦ rw (e, tokens_from) (tokens_from-IsProper n cs (omega arith))
    | inr e ↦
        rw (e, tokens_from)
          (IsProper-after (length cs) (scan_token c cs) _ (scan_token-Leaves c cs) λ t rest q.
            IsProper->>= (tokens_from n rest) _ (tokens_from-IsProper n rest (omega arith))
              λ ts. tt)
  ]

IsProper-if :
    {A : Type 0} (b : Bool) (r s : Result ConditionParseError A)
    → IsProper r
    → IsProper s
    → IsProper (if b then r else s)
IsProper-if true r s p q = p
IsProper-if false r s p q = q

-- Where the next turn of the loop begins.
abbrev after_turn : ℕ → Text → Text
after_turn c cs = if is_ascii_alphabetic c || c == b'_' then (span is_word_char (c ∷ cs)).1 else cs

length-after_turn : (c : ℕ) (cs : Text) → length (after_turn c cs) ≤ length cs
length-after_turn c cs = elim (Bool-cases (is_ascii_alphabetic c || c == b'_')) [
  | inl e ↦ rw e (length-span_first is_word_char c cs (is_word_char-of_ident c e))
  | inr e ↦ rw e (omega arith)
]

scan_calls-IsProper : (n : ℕ) (cs : Text) → length cs ≤ n → IsProper (scan_calls n cs)
unfolding scan_calls
scan_calls-IsProper n [] l = tt
scan_calls-IsProper zero (c ∷ cs) l = absurd (omega arith)
scan_calls-IsProper (suc n) (c ∷ cs) l =
    IsProper-if {A = Unit {0}} _ (err (unsupported_construct custom_function))
      (scan_calls n (after_turn c cs)) (λ e. cc)
      (scan_calls-IsProper n (after_turn c cs) (omega (arith, length-after_turn c cs)))

detect_unsupported_construct-IsProper :
    (source : Text) → IsProper (detect_unsupported_construct source)
unfolding detect_unsupported_construct
detect_unsupported_construct-IsProper source =
    IsProper-if _ (err (unsupported_construct wildcard_path)) _ (λ e. cc)
      (scan_calls-IsProper _ (masked false source) (omega arith))

not_out_of_fuel : {A : Type 0} (r : Result ConditionParseError A) → IsProper r → r ≢ err out_of_fuel
not_out_of_fuel (err e) p q = p (cc)
not_out_of_fuel (ok c) p q = cc

IsProper->> :
    {A B : Type 0} (r : Result ConditionParseError A) (s : Result ConditionParseError B)
    → IsProper r
    → IsProper s
    → IsProper (r >> s)
IsProper->> (err e) s p q = p
IsProper->> (ok a) s p q = q

module _ {F : Type 0} ⦃float : Float F⦄ where
  -- Every source text is parsed to a condition or to one of the source's errors: neither the scans for
  -- unsupported constructs, nor the tokenizer, nor the recursive descent uses up its fuel.
  pub parse_condition-ends : (source : Text) → parse_condition {F = F} source ≢ err out_of_fuel
  unfolding parse_condition tokenize
  parse_condition-ends source = not_out_of_fuel (parse_condition source) (
      IsProper->> (detect_unsupported_construct source) _
        (detect_unsupported_construct-IsProper source)
        (IsProper->>= (tokens_from (length source) source) _
          (tokens_from-IsProper F (length source) source (omega arith)) parse_tokens-IsProper))
