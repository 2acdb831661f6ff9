-- ===== src/AccessControl/RulesFile/Rewrite/Total.antt =====
-- The rewriting ends for every variable that has a name.
use embyr_rs.Base.{
  ℕ, zero, suc, ◌≤◌, Option, none, some, Option-cases, [], ◌∷◌, ◌++◌, length, length-append, ◌≡◌,
  ◌≢◌, refl, ap, inl, inr, arith,
}
use embyr_rs.Base.Text.{Text, codes}
use embyr_rs.AccessControl.RulesFile.Rewrite.{
  last_or, matches_here, rewrite_from, rewrite_path_variable,
}
use embyr_rs.AccessControl.RulesFile.Rewrite.WholeWords.{matches_here_sound}

shorter :
    (v : ℕ) (vs cs after : Text) (n : ℕ)
    → cs ≡ (v ∷ vs) ++ after
    → length cs ≤ suc n
    → length after ≤ n
shorter v vs cs after n q l =
    let e = ap length q in let f = length-append (v ∷ vs) after in omega arith

rewrite_from-some :
    (n v : ℕ) (vs : Text) (prev : Option ℕ) (cs : Text)
    → length cs ≤ n
    → (r : Text) × (rewrite_from n (v ∷ vs) prev cs ≡ some r)
unfolding rewrite_from
rewrite_from-some n v vs prev [] l = ([], refl)
rewrite_from-some zero v vs prev (c ∷ cs) l = absurd (omega arith)
rewrite_from-some (suc n) v vs prev (c ∷ cs) l =
    elim (Option-cases (matches_here (v ∷ vs) prev (c ∷ cs))) [
      | inl m ↦
          let (r, e) = rewrite_from-some n v vs (some c) cs (omega arith) in
          (c ∷ r, rw m (rw e refl))
      | inr (after, m) ↦
          let (q, b, b') = matches_here_sound (v ∷ vs) prev (c ∷ cs) after m in
          let before = last_or prev (v ∷ vs) in
          let (r, e) = rewrite_from-some n v vs before after (shorter v vs (c ∷ cs) after n q l) in
          ((codes "request.path." ++ (v ∷ vs)) ++ r, rw m (rw e refl))
    ]

pub rewrite_path_variable-some :
    (condition var : Text) → var ≢ [] → (r : Text) × (rewrite_path_variable condition var ≡ some r)
unfolding rewrite_path_variable
rewrite_path_variable-some condition [] n = absurd (n refl)
rewrite_path_variable-some condition (v ∷ vs) n =
    rewrite_from-some (length condition) v vs none condition (omega arith)
