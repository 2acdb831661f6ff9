-- ===== src/AccessControl/RulesFile/Rewrite/Words.antt =====
-- The words of a condition, and the rewriting word by word.
use embyr_rs.Base.{
  ℕ, Bool, true, false, not, ◌&&◌, Bool-cases, List, [], ◌∷◌, ◌++◌, all, ◌≡◌, inl, inr, refl, sym,
  ap, ◌∙◌, arith, if◌then◌else◌, and_true, and_intro,
}
use embyr_rs.Base.Text.{Text, codes, text_eq}
use embyr_rs.AccessControl.Scan.{is_name_char}
use embyr_rs.AccessControl.RulesFile.Rewrite.{is_boundary, first}

-- The words of a text: its maximal runs of word characters, and every other character by itself.
abbrev pub starts_word : Text → Bool
starts_word [] = false
starts_word (c ∷ s) = is_name_char c

abbrev pub glue : ℕ → List Text → List Text
glue c [] = (c ∷ []) ∷ []
glue c (w ∷ ws) = if is_name_char c && starts_word w then (c ∷ w) ∷ ws else (c ∷ []) ∷ w ∷ ws

unfoldable pub words : Text → List Text
words [] = []
words (c ∷ s) = glue c (words s)

-- A word, rewritten if it is the variable.
abbrev pub rewrite_word : Text → Text → Text
rewrite_word var w = if text_eq w var then codes "request.path." ++ var else w

unfoldable pub rewrite_words : Text → List Text → Text
rewrite_words var [] = []
rewrite_words var (w ∷ ws) = rewrite_word var w ++ rewrite_words var ws

-- The rest of a run that began before the text is not the variable; what follows the run is rewritten.
abbrev pub inside : Text → List Text → Text
inside var [] = []
inside var (w ∷ ws) =
    if starts_word w then w ++ rewrite_words var ws else rewrite_words var (w ∷ ws)

pub bool_apart : (a b : Bool) → (a && b) ≡ false → a ≡ true → not b ≡ true
bool_apart a b e n = ground arith

pub bool_second : (a b : Bool) → not b ≡ true → (a && b) ≡ false
bool_second a b e = ground arith

glue-cons :
    (c : ℕ) (ws : List Text) → (w : Text) × (rest : List Text) × (glue c ws ≡ (c ∷ w) ∷ rest)
glue-cons c [] = ([], [], refl)
glue-cons c (w ∷ ws) = elim (Bool-cases (is_name_char c && starts_word w)) [
  | inl e ↦ (w, ws, rw e refl)
  | inr e ↦ ([], w ∷ ws, rw e refl)
]

pub words-cons : (c : ℕ) (s : Text) → (w : Text) × (ws : List Text) × (words (c ∷ s) ≡ (c ∷ w) ∷ ws)
unfolding words
words-cons c s = glue-cons c (words s)

pub glue_joined :
    (c : ℕ) (w : Text) (ws : List Text)
    → (is_name_char c && starts_word w) ≡ true
    → glue c (w ∷ ws) ≡ (c ∷ w) ∷ ws
glue_joined c w ws e = rw e refl

glue_apart :
    (c : ℕ) (w : Text) (ws : List Text)
    → (is_name_char c && starts_word w) ≡ false
    → glue c (w ∷ ws) ≡ (c ∷ []) ∷ w ∷ ws
glue_apart c w ws e = rw e refl

no_boundary :
    (c d : ℕ)
    → (is_name_char c && is_name_char d) ≡ false
    → is_name_char c ≡ true
    → not (is_name_char d) ≡ true
no_boundary c d e n = bool_apart (is_name_char c) (is_name_char d) e n

tail_eq :
    {c : ℕ} {w v : Text} {ws vs : List Text}
    → Path (List Text) ((c ∷ w) ∷ ws) ((c ∷ v) ∷ vs)
    → v ≡ w
tail_eq h = cc

-- What is behind the first word is no word character, if the first word consists of such.
pub words-split :
    (c : ℕ) (s w : Text) (ws : List Text)
    → words (c ∷ s) ≡ (c ∷ w) ∷ ws
    → (r : Text) × (s ≡ w ++ r) × (is_name_char c ≡ true → is_boundary (first r) ≡ true)
unfolding words
words-split c [] w ws h = ([], rw (tail_eq h) refl, λ n. refl)
words-split c (d ∷ s) w ws h =
    let (w', ws', e) = words-cons d s in
    let (r, q, b) = words-split d s w' ws' e in
    elim (Bool-cases (is_name_char c && is_name_char d)) [
      | inl f ↦
          let t = tail_eq (sym (glue_joined c (d ∷ w') ws' f) ∙ sym (ap (glue c) e) ∙ h) in
          (
            r,
            rw t (ap (λ x. d ∷ x) q),
            λ n. b ((and_true {a = is_name_char c} {b = is_name_char d} f).1),
          )
      | inr f ↦
          let t = tail_eq (sym (glue_apart c (d ∷ w') ws' f) ∙ sym (ap (glue c) e) ∙ h) in
          (d ∷ s, rw t refl, no_boundary c d f)
    ]

pub words-append :
    (v : ℕ) (vs after : Text)
    → all is_name_char (v ∷ vs) ≡ true
    → is_boundary (first after) ≡ true
    → words (v ∷ vs ++ after) ≡ (v ∷ vs) ∷ words after
unfolding words
words-append v [] [] a b = refl
words-append v [] (d ∷ after) a b =
    let (w, ws, e) = words-cons d after in
    rw e (glue_apart v (d ∷ w) ws (bool_second (is_name_char v) (is_name_char d) b))
words-append v (u ∷ vs) after a b =
    let (n, m) = and_true {a = is_name_char v} {b = all is_name_char (u ∷ vs)} a in
    let (n', m') = and_true {a = is_name_char u} {b = all is_name_char vs} m in
    rw (words-append u vs after m b) (
      glue_joined v (u ∷ vs) (words after)
        (and_intro {a = is_name_char v} {b = is_name_char u} n n'))
