-- ===== src/AccessControl/RulesFile/Shell/Lengths.antt =====
-- The scans over a rules file go forward: how long the parts are that they return.
use embyr_rs.Base.{
  ℕ, zero, suc, ◌+◌, ◌≤◌, ◌==◌, Bool, true, false, Bool-cases, ◌&&◌, Option, none, some,
  Option-cases, [], ◌∷◌, length, length-append, ◌≡◌, ap, subst, inl, inr, arith, if◌then◌else◌,
}
use embyr_rs.Base.Text.{Text, strip_prefix, strip_prefix_sound}
use embyr_rs.AccessControl.Scan.{is_whitespace}
use embyr_rs.AccessControl.Scan.Leaves.{length-span}
use embyr_rs.AccessControl.RulesFile.Ends.{Ends, Ends->>=, Ends-if}
use embyr_rs.AccessControl.RulesFile.Shell.{
  trim_start, keyword, before, find_char, depth_at, closing, bracketed, find_matching_close,
  in_segment, variable_end, pattern_segment, pattern_from, slash_first, find_path_pattern_end,
}

pub length-trim_start : (s : Text) → length (trim_start s) ≤ length s
unfolding trim_start
length-trim_start s = length-span is_whitespace s

-- The two parts leave out a character at least.
abbrev pub Fits : ℕ → Option (Text × Text) → Type 0
Fits m none = Unit
Fits m (some (s, rest)) = suc (length s + length rest) ≤ m

before-Fits : (m c : ℕ) (o : Option (Text × Text)) → Fits m o → Fits (suc m) (before c o)
before-Fits m c none f = tt
before-Fits m c (some (s, rest)) f = omega arith

Fits-if :
    (m : ℕ) (b : Bool) (o u : Option (Text × Text))
    → Fits m o
    → Fits m u
    → Fits m (if b then o else u)
Fits-if m true o u f g = f
Fits-if m false o u f g = g

pub find_char-Fits : (c : ℕ) (s : Text) → Fits (length s) (find_char c s)
unfolding find_char
find_char-Fits c [] = tt
find_char-Fits c (a ∷ s) =
    Fits-if (suc (length s)) (a == c) _ _ (omega arith)
      (before-Fits (length s) a (find_char c s) (find_char-Fits c s))

closing-Fits : (o c d : ℕ) (s : Text) → Fits (length s) (closing o c d s)
unfolding closing
closing-Fits o c d [] = tt
closing-Fits o c d (a ∷ s) = Fits-if (suc (length s)) (a == c && d == 1) _ _ (omega arith) (
    before-Fits (length s) a (closing o c (depth_at o c d a) s)
      (closing-Fits o c (depth_at o c d a) s))

Fits-suc : (m : ℕ) (o : Option (Text × Text)) → Fits m o → Fits (suc m) o
Fits-suc m none f = tt
Fits-suc m (some (s, rest)) f = omega arith

pub bracketed-Fits : (o c : ℕ) (s : Text) → Fits (length s) (bracketed o c s)
unfolding bracketed
bracketed-Fits o c [] = tt
bracketed-Fits o c (a ∷ s) =
    Fits-if (suc (length s)) (a == o) _ _
      (Fits-suc (length s) (closing o c 1 s) (closing-Fits o c 1 s)) tt

pair_inj : {p q : Text × Text} → some p ≡ some q → p ≡ q
pair_inj h = cc

text_inj : {s t : Text} → some s ≡ some t → s ≡ t
text_inj h = cc

fit :
    (m : ℕ) (o : Option (Text × Text)) {p : Text × Text}
    → Fits m o
    → o ≡ some p
    → suc (length (p.0) + length (p.1)) ≤ m
fit m none f e = cc
fit m (some (s, rest)) f e = subst (λ p. suc (length (p.0) + length (p.1)) ≤ m) (pair_inj e) f

pub find_char-length :
    (c : ℕ) (s : Text) {p : Text × Text}
    → find_char c s ≡ some p
    → suc (length (p.0) + length (p.1)) ≤ length s
find_char-length c s e = fit (length s) (find_char c s) (find_char-Fits c s) e

pub find_matching_close-length :
    (s : Text) {p : Text × Text}
    → find_matching_close s ≡ some p
    → suc (length (p.0) + length (p.1)) ≤ length s
unfolding find_matching_close
find_matching_close-length s e =
    fit (length s) (bracketed b'{' b'}' s) (bracketed-Fits b'{' b'}' s) e

pub keyword-length :
    (a : ℕ) (word : Text) (p : Text → Bool) (s rest : Text)
    → keyword (a ∷ word) p s ≡ some rest
    → suc (length rest) ≤ length s
unfolding keyword
keyword-length a word p s rest h = elim (Option-cases (strip_prefix (a ∷ word) s)) [
  | inl e ↦ let bad = rw e at h in cc
  | inr (r, e) ↦
      let h' = rw e at h in
      (elim (Bool-cases (p r)) [
        | inl q ↦
            let same = ap length (text_inj (rw q at h')) in
            let whole = ap length (strip_prefix_sound (a ∷ word) s r e) in
            let parts = length-append (a ∷ word) r in omega (arith, same, whole, parts)
        | inr q ↦ let bad = rw q at h' in cc
      ])
]

variable_end-Ends :
    (m : ℕ) (o : Option (Text × Text)) → Fits m o → Ends (λ p. length (p.1) ≤ m) (variable_end o)
variable_end-Ends m none f = (λ e. cc, tt)
variable_end-Ends m (some (s, rest)) f = omega arith

pattern_segment-Ends : (s : Text) → Ends (λ p. length (p.1) ≤ length s) (pattern_segment s)
unfolding pattern_segment
pattern_segment-Ends [] = omega arith
pattern_segment-Ends (c ∷ s) =
    Ends-if (λ p. length (p.1) ≤ suc (length s)) (c == b'{') _ _
      (variable_end-Ends (suc (length s)) (find_char b'}' s)
        (Fits-suc (length s) (find_char b'}' s) (find_char-Fits b'}' s)))
      (length-span in_segment (c ∷ s))

pattern_from-Ends :
    (n : ℕ) (s : Text) → suc (length s) ≤ n → Ends (λ p. length (p.1) ≤ length s) (pattern_from n s)
unfolding pattern_from
pattern_from-Ends zero s l = absurd (omega arith)
pattern_from-Ends (suc n) [] l = omega arith
pattern_from-Ends (suc n) (c ∷ cs) l =
    Ends-if (λ p. length (p.1) ≤ suc (length cs)) (c == b'/') _ _
      (Ends->>= (λ p. length (p.1) ≤ length cs) (λ p. length (p.1) ≤ suc (length cs))
        (pattern_segment cs) _ (pattern_segment-Ends cs)
        λ p f.
          Ends->>= (λ q. length (q.1) ≤ length (p.1)) (λ p. length (p.1) ≤ suc (length cs))
            (pattern_from n (p.1)) _ (pattern_from-Ends n (p.1) (omega arith)) λ q g. omega arith)
      (omega arith)

pub find_path_pattern_end-Ends :
    (s : Text) → Ends (λ p. length (p.1) ≤ length s) (find_path_pattern_end s)
unfolding find_path_pattern_end
find_path_pattern_end-Ends s =
    Ends-if (λ p. length (p.1) ≤ length s) (slash_first s) _ _
      (pattern_from-Ends (suc (length s)) s (omega arith)) (λ e. cc, tt)
