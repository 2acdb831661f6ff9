-- ===== src/AccessControl/RulesFile/Rewrite/WholeWords.antt =====
-- `rewrite_path_variable` replaces the whole words of the text that are the variable.
use embyr_rs.Base.{
  ℕ, zero, suc, ◌≤◌, Bool, true, false, not, ◌&&◌, Bool-cases, Option, none, some, Option-cases,
  List, [], ◌∷◌, ◌++◌, length, length-append, all, ◌≡◌, inl, inr, refl, sym, ap, ◌∙◌, subst, arith,
  some_inj, if◌then◌else◌, and_true,
}
use embyr_rs.Base.Text.{
  Text, codes, text_eq, text_eq_sound, text_eq_refl, strip_prefix, strip_prefix_sound,
  strip_prefix-append,
}
use embyr_rs.AccessControl.Scan.{is_name_char}
use embyr_rs.AccessControl.RulesFile.Rewrite.{
  is_boundary, first, last_or, whole_word, matches_here, rewrite_from, rewrite_path_variable,
}
use embyr_rs.AccessControl.RulesFile.Rewrite.Words.{
  starts_word, glue, words, rewrite_words, inside, words-cons, words-split, words-append,
}

-- What is expected from a position on, by the character before it and the words from there.
abbrev expected : Text → Option ℕ → List Text → Text
expected var prev ws = if is_boundary prev then rewrite_words var ws else inside var ws

glue_other : (c : ℕ) (ws : List Text) → is_name_char c ≡ false → glue c ws ≡ (c ∷ []) ∷ ws
glue_other c [] n = refl
glue_other c (w ∷ ws) n = rw n refl

-- A word that begins otherwise is not the variable.
not_variable :
    (var : Text) (c : ℕ)
    → starts_word var ≡ true
    → is_name_char c ≡ false
    → text_eq (c ∷ []) var ≡ false
not_variable var c v n = elim (Bool-cases (text_eq (c ∷ []) var)) [
  | inl e ↦ let w = subst (λ x. starts_word x ≡ true) (sym (text_eq_sound (c ∷ []) var e)) v in cc
  | inr e ↦ e
]

-- A turn at a character that is no word character.
expected_other :
    (var : Text) (prev : Option ℕ) (c : ℕ) (s : Text)
    → starts_word var ≡ true
    → is_name_char c ≡ false
    → expected var prev (words (c ∷ s)) ≡ c ∷ expected var (some c) (words s)
unfolding words rewrite_words
expected_other var prev c s v n = elim (Bool-cases (is_boundary prev)) [
  | inl b ↦ rw b (rw (glue_other c (words s) n) (rw (not_variable var c v n) (rw n refl)))
  | inr b ↦ rw b (rw (glue_other c (words s) n) (rw n (rw (not_variable var c v n) refl)))
]

inside-glue :
    (var : Text) (c : ℕ) (us : List Text)
    → is_name_char c ≡ true
    → inside var (glue c us) ≡ c ∷ inside var us
unfolding rewrite_words
inside-glue var c [] n = rw n refl
inside-glue var c (u ∷ us) n = elim (Bool-cases (starts_word u)) [
  | inl e ↦ rw n (rw e (rw n refl))
  | inr e ↦ rw n (rw e (rw n refl))
]

some-none : {r : Text} → some r ≡ none → ⊥
some-none e = cc

here_occurs :
    (word r : Text) (prev : Option ℕ)
    → is_boundary prev ≡ true
    → is_boundary (first r) ≡ true
    → whole_word prev (strip_prefix word (word ++ r)) ≡ some r
here_occurs word r prev b l = rw (strip_prefix-append word r) (rw b (rw l refl))

-- A first word that is the variable would have been an occurrence.
not_occurrence :
    (var : Text) (prev : Option ℕ) (c : ℕ) (s w : Text) (ws : List Text)
    → matches_here var prev (c ∷ s) ≡ none
    → is_boundary prev ≡ true
    → is_name_char c ≡ true
    → words (c ∷ s) ≡ (c ∷ w) ∷ ws
    → text_eq (c ∷ w) var ≡ false
unfolding matches_here
not_occurrence var prev c s w ws m b n h =
    let (r, q, l) = words-split c s w ws h in
    elim (Bool-cases (text_eq (c ∷ w) var)) [
      | inl e ↦
          let same = sym (text_eq_sound (c ∷ w) var e) in
          let m' = subst (λ x. whole_word prev (strip_prefix x (c ∷ s)) ≡ none) same m in
          let m'' = subst (λ y. whole_word prev (strip_prefix (c ∷ w) (c ∷ y)) ≡ none) q m' in
          absurd (some-none (sym (here_occurs (c ∷ w) r prev b (l n)) ∙ m''))
      | inr e ↦ e
    ]

same_first :
    (var : Text) (c : ℕ) (w : Text) (ws us : List Text)
    → text_eq (c ∷ w) var ≡ false
    → is_name_char c ≡ true
    → glue c us ≡ (c ∷ w) ∷ ws
    → rewrite_words var (glue c us) ≡ inside var (glue c us)
unfolding rewrite_words
same_first var c w ws us apart n e = rw e (rw n (rw apart refl))

-- A turn at a word character that begins no occurrence of the variable.
expected_name :
    (var : Text) (prev : Option ℕ) (c : ℕ) (s : Text)
    → matches_here var prev (c ∷ s) ≡ none
    → is_name_char c ≡ true
    → expected var prev (words (c ∷ s)) ≡ c ∷ expected var (some c) (words s)
unfolding words rewrite_words
expected_name var prev c s m n = elim (Bool-cases (is_boundary prev)) [
  | inl b ↦
      let (w, ws, e) = words-cons c s in
      let apart = not_occurrence var prev c s w ws m b n e in
      rw b (rw n (same_first var c w ws (words s) apart n e ∙ inside-glue var c (words s) n))
  | inr b ↦ rw b (rw n (inside-glue var c (words s) n))
]

not_true : (b : Bool) → not b ≡ true → b ≡ false
not_true b e = ground arith

-- No run goes on behind an occurrence.
inside-words :
    (var after : Text)
    → is_boundary (first after) ≡ true
    → inside var (words after) ≡ rewrite_words var (words after)
unfolding words rewrite_words
inside-words var [] b = refl
inside-words var (d ∷ after) b =
    let (w, ws, e) = words-cons d after in rw e (rw (not_true (is_name_char d) b) refl)

rest_rewritten :
    (var after : Text) (before : Option ℕ)
    → is_boundary (first after) ≡ true
    → rewrite_words var (words after) ≡ expected var before (words after)
rest_rewritten var after before b = elim (Bool-cases (is_boundary before)) [
  | inl e ↦ rw e refl
  | inr e ↦ rw e (sym (inside-words var after b))
]

-- A turn at an occurrence.
expected_match :
    (v : ℕ) (vs after : Text) (before : Option ℕ)
    → all is_name_char (v ∷ vs) ≡ true
    → is_boundary (first after) ≡ true
    → rewrite_words (v ∷ vs) (words (v ∷ vs ++ after))
      ≡ (codes "request.path." ++ (v ∷ vs)) ++ expected (v ∷ vs) before (words after)
unfolding rewrite_words
expected_match v vs after before a b = rw (words-append v vs after a b) (
    rw (text_eq_refl (v ∷ vs))
      (ap (λ t. (codes "request.path." ++ (v ∷ vs)) ++ t) (rest_rewritten (v ∷ vs) after before b)))

pub matches_here_sound :
    (var : Text) (prev : Option ℕ) (cs after : Text)
    → matches_here var prev cs ≡ some after
    → (cs ≡ var ++ after) × (is_boundary prev ≡ true) × (is_boundary (first after) ≡ true)
unfolding matches_here
matches_here_sound var prev cs after h = elim (Option-cases (strip_prefix var cs)) [
  | inl e ↦ absurd (some-none (sym (rw e at h)))
  | inr (r, e) ↦ (elim (Bool-cases (is_boundary prev && is_boundary (first r))) [
    | inl b ↦
        let (p, q) = and_true {a = is_boundary prev} {b = is_boundary (first r)} b in
        let h' = rw e at h in
        let h'' = rw b at h' in
        let same = some_inj h'' in
        (
          strip_prefix_sound var cs r e ∙ ap (λ t. var ++ t) same,
          p,
          subst (λ t. is_boundary (first t) ≡ true) same q,
        )
    | inr b ↦ let h' = rw e at h in let h'' = rw b at h' in absurd (some-none (sym h''))
  ])
]

expected_turn :
    (v : ℕ) (vs : Text) (prev : Option ℕ) (c : ℕ) (s : Text)
    → is_name_char v ≡ true
    → matches_here (v ∷ vs) prev (c ∷ s) ≡ none
    → expected (v ∷ vs) prev (words (c ∷ s)) ≡ c ∷ expected (v ∷ vs) (some c) (words s)
expected_turn v vs prev c s n m = elim (Bool-cases (is_name_char c)) [
  | inl e ↦ expected_name (v ∷ vs) prev c s m e
  | inr e ↦ expected_other (v ∷ vs) prev c s n e
]

expected_empty : (var : Text) (prev : Option ℕ) → expected var prev [] ≡ []
unfolding rewrite_words
expected_empty var prev = elim (Bool-cases (is_boundary prev)) [
  | inl e ↦ rw e refl
  | inr e ↦ rw e refl
]

shorter :
    (v : ℕ) (vs after : Text) (c : ℕ) (cs : Text) (n : ℕ)
    → c ∷ cs ≡ (v ∷ vs) ++ after
    → length (c ∷ cs) ≤ suc n
    → length after ≤ n
shorter v vs after c cs n q l =
    let e = ap length q in let f = length-append (v ∷ vs) after in omega arith

rewrite_from-words :
    (n v : ℕ) (vs : Text) (prev : Option ℕ) (cs : Text)
    → all is_name_char (v ∷ vs) ≡ true
    → length cs ≤ n
    → rewrite_from n (v ∷ vs) prev cs ≡ some (expected (v ∷ vs) prev (words cs))
unfolding rewrite_from words
rewrite_from-words n v vs prev [] a l = rw (expected_empty (v ∷ vs) prev) refl
rewrite_from-words zero v vs prev (c ∷ cs) a l = absurd (omega arith)
rewrite_from-words (suc n) v vs prev (c ∷ cs) a l =
    elim (Option-cases (matches_here (v ∷ vs) prev (c ∷ cs))) [
      | inl m ↦
          let name = (and_true {a = is_name_char v} {b = all is_name_char vs} a).0 in
          rw m (
            rw (rewrite_from-words n v vs (some c) cs a (omega arith))
              (ap some (sym (expected_turn v vs prev c cs name m))))
      | inr (after, m) ↦
          let (q, b, b') = matches_here_sound (v ∷ vs) prev (c ∷ cs) after m in
          let before = last_or prev (v ∷ vs) in
          rw m (
            rw (rewrite_from-words n v vs before after a (shorter v vs after c cs n q l)) (
              rw b (
                ap some (
                  sym (
                    ap (λ t. rewrite_words (v ∷ vs) (words t)) q
                    ∙ expected_match v vs after before a b')))))
    ]

-- For a variable whose name consists of word characters, the rewriting ends, and replaces exactly the
-- whole words of the text that are the variable.
pub rewrite_path_variable-words :
    (condition var : Text)
    → starts_word var ≡ true
    → all is_name_char var ≡ true
    → rewrite_path_variable condition var ≡ some (rewrite_words var (words condition))
unfolding rewrite_path_variable
rewrite_path_variable-words condition [] v a = cc
rewrite_path_variable-words condition (v ∷ vs) w a =
    rewrite_from-words (length condition) v vs none condition a (omega arith)
