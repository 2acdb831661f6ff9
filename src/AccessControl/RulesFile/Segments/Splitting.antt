-- ===== src/AccessControl/RulesFile/Segments/Splitting.antt =====
-- `split` and `join` at a character undo each other, and what stands between braces.
use embyr_rs.Base.{
  ℕ, ◌==◌, ==_iff, false, Bool-cases, some, Option-cases, List, [], ◌∷◌, ◌++◌, All, ◌≡◌, inl, inr,
  refl, ◌∙◌, ap, arith,
}
use embyr_rs.Base.Text.{Text, codes, strip_prefix, strip_prefix_sound, join}
use embyr_rs.AccessControl.PathTemplates.{split, cons_first, strip_last}
use embyr_rs.AccessControl.RulesFile.Segments.{braced}

-- A text without the character.
abbrev pub Lacks : ℕ → Text → Type 0
Lacks c s = All (λ a. (a == c) ≡ false) s

cons_first-Lacks-All :
    (c a : ℕ) (ts : List Text)
    → (a == c) ≡ false
    → All (Lacks c) ts
    → All (Lacks c) (cons_first a ts)
cons_first-Lacks-All c a [] e h = ((e, tt), tt)
cons_first-Lacks-All c a (t ∷ ts) e h = ((e, h.0), h.1)

pub split-Lacks-All : (c : ℕ) (s : Text) → All (Lacks c) (split c s)
unfolding split
split-Lacks-All c [] = (tt, tt)
split-Lacks-All c (a ∷ s) = elim (Bool-cases (a == c)) [
  | inl e ↦ rw e (tt, split-Lacks-All c s)
  | inr e ↦ rw e (cons_first-Lacks-All c a (split c s) e (split-Lacks-All c s))
]

-- `split` takes a joined list apart, where there is a part and no part has the separator.
pub split-join :
    (c : ℕ) (t : Text) (ts : List Text)
    → All (Lacks c) (t ∷ ts)
    → split c (join (c ∷ []) (t ∷ ts)) ≡ t ∷ ts
unfolding split
split-join c [] [] h = refl
split-join c (a ∷ t) [] h = rw (h.0.0) (rw (split-join c t [] (h.0.1, tt)) refl)
split-join c [] (u ∷ ts) h = rw ((==_iff c c).1 refl) (ap (λ r. [] ∷ r) (split-join c u ts (h.1)))
split-join c (a ∷ t) (u ∷ ts) h = rw (h.0.0) (rw (split-join c t (u ∷ ts) (h.0.1, h.1)) refl)

-- `join` puts back together what `split` took apart.
join-cons_first :
    (c a : ℕ) (s : Text) (ts : List Text)
    → join (c ∷ []) (cons_first a (s ∷ ts)) ≡ a ∷ join (c ∷ []) (s ∷ ts)
join-cons_first c a s [] = refl
join-cons_first c a s (t ∷ ts) = refl

pub split-cons : (c : ℕ) (s : Text) → (t : Text) × (ts : List Text) × (split c s ≡ t ∷ ts)
unfolding split
split-cons c [] = ([], [], refl)
split-cons c (a ∷ s) = elim (Bool-cases (a == c)) [
  | inl e ↦ ([], split c s, rw e refl)
  | inr e ↦ let (t, ts, q) = split-cons c s in (a ∷ t, ts, rw e (rw q refl))
]

join-split_step :
    (c a : ℕ) (s : Text)
    → ((t : Text) × (ts : List Text) × (split c s ≡ t ∷ ts))
    → join (c ∷ []) (split c s) ≡ s
    → join (c ∷ []) (split c (a ∷ s)) ≡ a ∷ s
unfolding split
join-split_step c a s (t, ts, q) h = elim (Bool-cases (a == c)) [
  | inl e ↦ rw e (rw q (let same = (==_iff a c).0 e in let h' = rw q at h in cc))
  | inr e ↦ rw e (rw q (join-cons_first c a t ts ∙ ap (λ r. a ∷ r) (rw q at h)))
]

pub join-split : (c : ℕ) (s : Text) → join (c ∷ []) (split c s) ≡ s
unfolding split
join-split c [] = refl
join-split c (a ∷ s) = join-split_step c a s (split-cons c s) (join-split c s)

strip_last_sound : (c : ℕ) (s r : Text) → strip_last c s ≡ some r → s ≡ r ++ c ∷ []
unfolding strip_last
strip_last_sound c [] r h = cc
strip_last_sound c (a ∷ []) r h = ground (arith, ==_iff a c)
strip_last_sound c (a ∷ b ∷ s) r h = elim (Option-cases (strip_last c (b ∷ s))) [
  | inl e ↦ let bad = rw e at h in cc
  | inr (t, e) ↦ let good = rw e at h in rw (strip_last_sound c (b ∷ s) t e) (cc good)
]

pub braced_sound : (seg inner : Text) → braced seg ≡ some inner → seg ≡ b'{' ∷ inner ++ b'}' ∷ []
unfolding braced
braced_sound seg inner h = elim (Option-cases (strip_prefix (codes "{") seg)) [
  | inl e ↦ let bad = rw e at h in cc
  | inr (s, e) ↦
      strip_prefix_sound (codes "{") seg s e
      ∙ ap (λ r. b'{' ∷ r) (strip_last_sound b'}' s inner (rw e at h))
]
