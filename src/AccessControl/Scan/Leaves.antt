-- ===== src/AccessControl/Scan/Leaves.antt =====
-- The scans go forward: what they leave is no longer than what they were given.
use embyr_rs.Base.{
  ℕ, suc, ◌≤◌, ◌==◌, Bool, true, false, ◌&&◌, ◌||◌, Option, none, some, [], ◌∷◌, length, ◌≡◌, ◌≢◌,
  refl, ap, arith, if◌then◌else◌, Bool-cases, inl, inr, ok, err, ok_or, ◌>>=◌,
}
use embyr_rs.Base.Text.{Text, codes, strip_prefix, is_ascii_digit, is_ascii_alphabetic}
use embyr_rs.Domain.FieldValue.{Float}
use embyr_rs.AccessControl.Token.{syntax_error, out_of_fuel, Token}
use embyr_rs.AccessControl.Scan.{
  Scanned, next_is_digit, is_word_char, is_name_char, keep, span, depth_after, keep_inside,
  find_matching_paren, parse_i64, closed, quoted, double_token, integer_token, number_rest, number,
  exists_token, field_token, get_suffix, get_token, word_token, string_token, unit_token,
}

-- The scan leaves no more than `m` characters, or fails with an error of the source's.
abbrev pub Leaves : {A : Type 0} → ℕ → Scanned A → Type 0
Leaves m (err e) = e ≢ out_of_fuel
Leaves m (ok (a, rest)) = length rest ≤ m

module _ {A : Type 0} (m : ℕ) where
  pub Leaves-if :
      (b : Bool) (r s : Scanned A) → Leaves m r → Leaves m s → Leaves m (if b then r else s)
  Leaves-if true r s p q = p
  Leaves-if false r s p q = q

  pub Leaves->>= :
      {B : Type 0} (k : ℕ) (r : Scanned B) (f : B × Text → Scanned A)
      → Leaves k r
      → ((b : B) (rest : Text) → length rest ≤ k → Leaves m (f (b, rest)))
      → Leaves m (r >>= f)
  Leaves->>= k (err e) f p q = p
  Leaves->>= k (ok (b, rest)) f p q = q b rest p

  Leaves-ok_or :
      {B : Type 0} (o : Option B) (f : B → Scanned A)
      → ((b : B) → Leaves m (f b))
      → Leaves m (ok_or syntax_error o >>= f)
  Leaves-ok_or none f q = λ e. cc
  Leaves-ok_or (some b) f q = q b

length-keep : (c : ℕ) (p : Text × Text) → length ((keep c p).1) ≡ length (p.1)
length-keep c (s, rest) = refl

pub length-span : (p : ℕ → Bool) (cs : Text) → length ((span p cs).1) ≤ length cs
unfolding span
length-span p [] = omega arith
length-span p (c ∷ cs) = elim (Bool-cases (p c)) [
  | inl e ↦ rw e (omega (arith, length-keep c (span p cs), length-span p cs))
  | inr e ↦ rw e (omega arith)
]

keep_inside-Leaves : (m c : ℕ) (r : Scanned Text) → Leaves m r → Leaves m (keep_inside c r)
keep_inside-Leaves m c (err e) p = p
keep_inside-Leaves m c (ok (s, rest)) p = p

Leaves-suc : {A : Type 0} (m : ℕ) (r : Scanned A) → Leaves m r → Leaves (suc m) r
Leaves-suc m (err e) p = p
Leaves-suc m (ok (a, rest)) p = omega arith

find_matching_paren-Leaves :
    (depth : ℕ) (cs : Text) → Leaves (length cs) (find_matching_paren depth cs)
unfolding find_matching_paren
find_matching_paren-Leaves depth [] = λ e. cc
find_matching_paren-Leaves depth (c ∷ cs) =
    Leaves-if (suc (length cs)) (c == b')' && depth == 1) _ _ (omega arith) (
      keep_inside-Leaves (suc (length cs)) c (find_matching_paren (depth_after depth c) cs) (
        Leaves-suc (length cs) (find_matching_paren (depth_after depth c) cs)
          (find_matching_paren-Leaves (depth_after depth c) cs)))

closed-Leaves : (m : ℕ) (p : Text × Text) → length (p.1) ≤ m → Leaves m (closed p)
closed-Leaves m (s, []) l = λ e. cc
closed-Leaves m (s, c ∷ rest) l = omega arith

quoted-Leaves : (q : ℕ) (cs : Text) → Leaves (length cs) (quoted q cs)
unfolding quoted
quoted-Leaves q cs = closed-Leaves (length cs) (span _ cs) (length-span _ cs)

pub Leaves-mono : {A : Type 0} (m k : ℕ) (r : Scanned A) → m ≤ k → Leaves m r → Leaves k r
Leaves-mono m k (err e) l p = p
Leaves-mono m k (ok (a, rest)) l p = omega arith

length-strip_prefix : (p cs s : Text) → strip_prefix p cs ≡ some s → length s ≤ length cs
length-strip_prefix [] cs s h = omega (arith, ap length (some_inj h))
  where
    some_inj : {a b : Text} → some a ≡ some b → a ≡ b
    some_inj e = cc
length-strip_prefix (a ∷ p) [] s h = cc
length-strip_prefix (a ∷ p) (b ∷ cs) s h = elim (Bool-cases (a == b)) [
  | inl e ↦ omega (arith, length-strip_prefix p cs s (rw e at h))
  | inr e ↦ let refused = rw e at h in cc
]

pub length-strip_first :
    (a : ℕ) (p : Text) (c : ℕ) (cs s : Text)
    → strip_prefix (a ∷ p) (c ∷ cs) ≡ some s
    → length s ≤ length cs
length-strip_first a p c cs s h = elim (Bool-cases (a == c)) [
  | inl e ↦ length-strip_prefix p cs s (rw e at h)
  | inr e ↦ let refused = rw e at h in cc
]

pub length-span_first :
    (p : ℕ → Bool) (c : ℕ) (cs : Text) → p c ≡ true → length ((span p (c ∷ cs)).1) ≤ length cs
unfolding span
length-span_first p c cs e = rw e (omega (arith, length-keep c (span p cs), length-span p cs))

pub is_word_char-of_ident :
    (c : ℕ) → (is_ascii_alphabetic c || c == b'_') ≡ true → is_word_char c ≡ true
is_word_char-of_ident c h = ground arith

module _ (F : Type 0) ⦃float : Float F⦄ where
  -- The same of a token.
  abbrev pub TokenLeaves : ℕ → Scanned (Token F) → Type 0
  TokenLeaves m r = Leaves m r

  double_token-Leaves : (text rest : Text) → TokenLeaves (length rest) (double_token text rest)
  unfolding double_token
  double_token-Leaves text rest =
      Leaves-ok_or (length rest) (float.of_decimal text) _ λ v. omega arith

  integer_token-Leaves : (text rest : Text) → TokenLeaves (length rest) (integer_token text rest)
  unfolding integer_token
  integer_token-Leaves text rest = Leaves-ok_or (length rest) (parse_i64 text) _ λ v. omega arith

  number_rest-Leaves : (text cs : Text) → TokenLeaves (length cs) (number_rest text cs)
  unfolding number_rest
  number_rest-Leaves text [] = integer_token-Leaves text []
  number_rest-Leaves text (c ∷ cs) =
      Leaves-if (suc (length cs)) (c == b'.') _ _
        (Leaves-if (suc (length cs)) (next_is_digit cs) _ _
          (Leaves-mono _ _ (double_token _ ((span is_ascii_digit cs).1))
            (omega (arith, length-span is_ascii_digit cs))
            (double_token-Leaves _ ((span is_ascii_digit cs).1)))
          (λ e. cc))
        (integer_token-Leaves text (c ∷ cs))

  pub number-Leaves : (c : ℕ) (cs : Text) → TokenLeaves (length cs) (number c cs)
  unfolding number
  number-Leaves c cs =
      Leaves-mono _ _ (number_rest _ ((span is_ascii_digit cs).1)) (length-span is_ascii_digit cs)
        (number_rest-Leaves _ ((span is_ascii_digit cs).1))

  pub exists_token-Leaves : (inside : Text) → TokenLeaves (length inside) (exists_token inside)
  unfolding exists_token
  exists_token-Leaves inside =
      Leaves->>= _ _ (find_matching_paren 1 inside) _ (find_matching_paren-Leaves 1 inside)
        λ p rest l. l

  field_token-Leaves :
      (m : ℕ) (raw : Text) (p : Text × Text) → length (p.1) ≤ m → TokenLeaves m (field_token raw p)
  field_token-Leaves m raw ([], rest) l = λ e. cc
  field_token-Leaves m raw (c ∷ s, rest) l = l

  get_suffix-Leaves :
      (raw cs : Text) (o : Option Text)
      → ((s : Text) → o ≡ some s → length s ≤ length cs)
      → TokenLeaves (length cs) (get_suffix raw o)
  unfolding get_suffix
  get_suffix-Leaves raw cs none h = λ e. cc
  get_suffix-Leaves raw cs (some s) h =
      field_token-Leaves _ raw (span is_name_char s)
        (omega (arith, length-span is_name_char s, h s refl))

  pub get_token-Leaves : (inside : Text) → TokenLeaves (length inside) (get_token inside)
  unfolding get_token
  get_token-Leaves inside =
      Leaves->>= _ _ (find_matching_paren 1 inside) _ (find_matching_paren-Leaves 1 inside)
        λ raw rest l. Leaves-mono _ _ (get_suffix raw (strip_prefix (codes ".data.") rest)) l (
          get_suffix-Leaves raw rest (strip_prefix (codes ".data.") rest)
            (length-strip_prefix (codes ".data.") rest))

  pub word_token-Leaves :
      (c : ℕ) (cs : Text)
      → (is_ascii_alphabetic c || c == b'_') ≡ true
      → TokenLeaves (length cs) (word_token (c ∷ cs))
  unfolding word_token
  word_token-Leaves c cs h = length-span_first is_word_char c cs (is_word_char-of_ident c h)

  pub string_token-Leaves : (cs : Text) → TokenLeaves (length cs) (string_token cs)
  unfolding string_token
  string_token-Leaves cs = Leaves->>= _ _ (quoted b'"' cs) _ (quoted-Leaves b'"' cs) λ s rest l. l

  pub unit_token-Leaves : (cs : Text) → TokenLeaves (length cs) (unit_token cs)
  unfolding unit_token
  unit_token-Leaves cs = Leaves->>= _ _ (quoted b'\'' cs) _ (quoted-Leaves b'\'' cs) λ s rest l. l
