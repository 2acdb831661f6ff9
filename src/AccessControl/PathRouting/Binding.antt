-- ===== src/AccessControl/PathRouting/Binding.antt =====
-- `bind_ancestor` and `bind_recursive_prefix` against the paths that a pattern stands for.
use embyr_rs.Base.{
  ℕ, suc, ◌+◌, ◌-◌, ◌≤◌, Option, none, some, List, [], ◌∷◌, length, ◌≡◌, ◌≢◌, refl, sym, ap, ◌∙◌,
  ◌↔◌, arith, All, Bool-cases, inl, inr,
}
use embyr_rs.Base.Text.{Text, text_eq, text_eq_iff, text_eq_sound, text_eq_refl}
use embyr_rs.Base.Dict.{Dict, get, insert, get-insert, get-insert_self}
use embyr_rs.AccessControl.PathRouting.{
  PathSegment, literal, wildcard, recursive_wildcard, bind_positions, bind_ancestor, with_remainder,
  bind_recursive_prefix,
}

-- A concrete path, as the source passes it.
abbrev pub as_literals : List Text → List PathSegment
as_literals [] = []
as_literals (t ∷ ts) = literal t ∷ as_literals ts

-- The paths that begin as the pattern says: a literal stands for itself, a wildcard for any name,
-- and a recursive wildcard, which no ancestor holds, for nothing.
abbrev pub MatchesPrefix : List PathSegment → List Text → Type 0
MatchesPrefix [] ts = Unit
MatchesPrefix (literal x ∷ ps) (t ∷ ts) = (x ≡ t) × MatchesPrefix ps ts
MatchesPrefix (wildcard v ∷ ps) (t ∷ ts) = MatchesPrefix ps ts
MatchesPrefix (recursive_wildcard ∷ ps) (t ∷ ts) = ⊥
MatchesPrefix (p ∷ ps) [] = ⊥

-- The paths of the pattern's own length.
abbrev pub Matches : List PathSegment → List Text → Type 0
Matches ps ts = (length ps ≡ length ts) × MatchesPrefix ps ts

-- The path that the bindings make of a pattern.
abbrev pub instantiate : Dict Text → List PathSegment → List Text
instantiate bindings [] = []
instantiate bindings (literal x ∷ ps) = x ∷ instantiate bindings ps
instantiate bindings (wildcard v ∷ ps) = elim (get v bindings) [
  | some t ↦ t ∷ instantiate bindings ps
  | none ↦ instantiate bindings ps
]
instantiate bindings (recursive_wildcard ∷ ps) = instantiate bindings ps

-- No two wildcards of the pattern have one name.
abbrev pub HasDistinctNames : List PathSegment → Type 0
HasDistinctNames [] = Unit
HasDistinctNames (wildcard v ∷ ps) = All (λ p. p ≢ wildcard v) ps × HasDistinctNames ps
HasDistinctNames (_ ∷ ps) = HasDistinctNames ps

length-as_literals : (ts : List Text) → length (as_literals ts) ≡ length ts
length-as_literals [] = refl
length-as_literals (t ∷ ts) = ap suc (length-as_literals ts)

bind_positions-some :
    (ps : List PathSegment) (ts : List Text) (acc : Dict Text)
    → length ps ≤ length ts
    → MatchesPrefix ps ts
    → (b : Dict Text) × (bind_positions ps (as_literals ts) acc ≡ some b)
unfolding bind_positions
bind_positions-some [] ts acc l m = (acc, refl)
bind_positions-some (p ∷ ps) [] acc l m = absurd (omega arith)
bind_positions-some (literal x ∷ ps) (t ∷ ts) acc l (e, m) =
    rw (e, text_eq_refl t) (bind_positions-some ps ts acc (omega arith) m)
bind_positions-some (wildcard v ∷ ps) (t ∷ ts) acc l m =
    bind_positions-some ps ts (insert v t acc) (omega arith) m
bind_positions-some (recursive_wildcard ∷ ps) (t ∷ ts) acc l m = absurd m

bind_positions_matches :
    (ps : List PathSegment) (ts : List Text) (acc b : Dict Text)
    → length ps ≤ length ts
    → bind_positions ps (as_literals ts) acc ≡ some b
    → MatchesPrefix ps ts
unfolding bind_positions
bind_positions_matches [] ts acc b l h = tt
bind_positions_matches (p ∷ ps) [] acc b l h = absurd (omega arith)
bind_positions_matches (literal x ∷ ps) (t ∷ ts) acc b l h = elim (Bool-cases (text_eq x t)) [
  | inl e ↦ (text_eq_sound x t e, bind_positions_matches ps ts acc b (omega arith) (rw e at h))
  | inr e ↦ let refused = rw e at h in cc
]
bind_positions_matches (wildcard v ∷ ps) (t ∷ ts) acc b l h =
    bind_positions_matches ps ts (insert v t acc) b (omega arith) h
bind_positions_matches (recursive_wildcard ∷ ps) (t ∷ ts) acc b l h = cc

pub MatchesPrefix-length :
    (ps : List PathSegment) (ts : List Text) → MatchesPrefix ps ts → length ps ≤ length ts
MatchesPrefix-length [] ts m = omega arith
MatchesPrefix-length (literal x ∷ ps) (t ∷ ts) (e, m) = omega (arith, MatchesPrefix-length ps ts m)
MatchesPrefix-length (wildcard v ∷ ps) (t ∷ ts) m = omega (arith, MatchesPrefix-length ps ts m)
MatchesPrefix-length (recursive_wildcard ∷ ps) (t ∷ ts) m = absurd m
MatchesPrefix-length (literal x ∷ ps) [] m = absurd m
MatchesPrefix-length (wildcard v ∷ ps) [] m = absurd m
MatchesPrefix-length (recursive_wildcard ∷ ps) [] m = absurd m

bind_ancestor_eq :
    (ps : List PathSegment) (ts : List Text)
    → length ps ≡ length ts
    → bind_ancestor ps (as_literals ts) ≡ bind_positions ps (as_literals ts) []
unfolding bind_ancestor
bind_ancestor_eq ps ts h = ground (arith, length-as_literals ts)

bind_ancestor-length :
    (ps : List PathSegment) (ts : List Text) (b : Dict Text)
    → bind_ancestor ps (as_literals ts) ≡ some b
    → length ps ≡ length ts
unfolding bind_ancestor
bind_ancestor-length ps ts b h = ground (arith, length-as_literals ts)

bind_recursive_prefix_eq :
    (ps : List PathSegment) (ts : List Text)
    → length ps ≤ length ts
    → bind_recursive_prefix ps (as_literals ts)
      ≡ with_remainder (length ts - length ps) (bind_positions ps (as_literals ts) [])
unfolding bind_recursive_prefix
bind_recursive_prefix_eq ps ts h = ground (arith, length-as_literals ts)

bind_recursive_prefix-length :
    (ps : List PathSegment) (ts : List Text) (b : Dict Text × ℕ)
    → bind_recursive_prefix ps (as_literals ts) ≡ some b
    → length ps ≤ length ts
unfolding bind_recursive_prefix
bind_recursive_prefix-length ps ts b h = ground (arith, length-as_literals ts)

with_remainder-some :
    (n m : ℕ) (o : Option (Dict Text)) (b : Dict Text)
    → with_remainder n o ≡ some (b, m)
    → (o ≡ some b) × (n ≡ m)
with_remainder-some n m none b h = cc
with_remainder-some n m (some c) b h = ground arith

-- A concrete ancestor is bound exactly when it is one of the pattern's paths.
pub bind_ancestor_iff :
    (ps : List PathSegment) (ts : List Text)
    → ((b : Dict Text) × (bind_ancestor ps (as_literals ts) ≡ some b)) ↔ Matches ps ts
bind_ancestor_iff ps ts = (
  λ (b, h).
      let l = bind_ancestor-length ps ts b h in
      (l, bind_positions_matches ps ts [] b (omega arith) (sym (bind_ancestor_eq ps ts l) ∙ h)),
  λ (l, m). rw (bind_ancestor_eq ps ts l) (bind_positions-some ps ts [] (omega arith) m),
)

-- A concrete document is bound by a recursive prefix exactly when it lies below the prefix, and the
-- remainder is what the prefix leaves of the path.
pub bind_recursive_prefix_iff :
    (ps : List PathSegment) (ts : List Text) (n : ℕ)
    → ((b : Dict Text) × (bind_recursive_prefix ps (as_literals ts) ≡ some (b, n)))
      ↔ (MatchesPrefix ps ts × (length ts ≡ length ps + n))
bind_recursive_prefix_iff ps ts n = (
  λ (b, h).
      let l = bind_recursive_prefix-length ps ts (b, n) h in
      let (bound, rest) =
        with_remainder-some _ n _ b (sym (bind_recursive_prefix_eq ps ts l) ∙ h) in
      (bind_positions_matches ps ts [] b l bound, omega arith),
  λ (m, e).
      let l = MatchesPrefix-length ps ts m in
      let (b, bound) = bind_positions-some ps ts [] l m in
      let rest : length ts - length ps ≡ n = omega arith in
      (b, bind_recursive_prefix_eq ps ts l ∙ cc),
)

bind_positions_keeps :
    (ps : List PathSegment) (ts : List Text) (acc b : Dict Text) (v : Text)
    → All (λ p. p ≢ wildcard v) ps
    → bind_positions ps (as_literals ts) acc ≡ some b
    → get v b ≡ get v acc
unfolding bind_positions
bind_positions_keeps [] ts acc b v f h = ap (get v) (cc)
bind_positions_keeps (p ∷ ps) [] acc b v f h = ap (get v) (cc)
bind_positions_keeps (literal x ∷ ps) (t ∷ ts) acc b v (f, fs) h = elim (Bool-cases (text_eq x t)) [
  | inl e ↦ bind_positions_keeps ps ts acc b v fs (rw e at h)
  | inr e ↦ let refused = rw e at h in cc
]
bind_positions_keeps (wildcard w ∷ ps) (t ∷ ts) acc b v (f, fs) h =
    bind_positions_keeps ps ts (insert w t acc) b v fs h
    ∙ ground (arith, get-insert w v t acc, text_eq_iff w v)
bind_positions_keeps (recursive_wildcard ∷ ps) (t ∷ ts) acc b v f h = cc

bind_positions-instantiate :
    (ps : List PathSegment) (ts : List Text) (acc b : Dict Text)
    → length ps ≡ length ts
    → HasDistinctNames ps
    → bind_positions ps (as_literals ts) acc ≡ some b
    → instantiate b ps ≡ ts
unfolding bind_positions
bind_positions-instantiate [] [] acc b l d h = refl
bind_positions-instantiate [] (t ∷ ts) acc b l d h = absurd (omega arith)
bind_positions-instantiate (p ∷ ps) [] acc b l d h = absurd (omega arith)
bind_positions-instantiate (literal x ∷ ps) (t ∷ ts) acc b l d h = elim (Bool-cases (text_eq x t)) [
  | inl e ↦
      let same = text_eq_sound x t e in
      let rest = bind_positions-instantiate ps ts acc b (omega arith) d (rw e at h) in cc
  | inr e ↦ let refused = rw e at h in cc
]
bind_positions-instantiate (wildcard v ∷ ps) (t ∷ ts) acc b l (f, d) h =
    let rest = bind_positions-instantiate ps ts (insert v t acc) b (omega arith) d h in
    let bound = bind_positions_keeps ps ts (insert v t acc) b v f h ∙ get-insert_self v t acc in
    rw (bound, instantiate) (ap (λ r. t ∷ r) rest)
bind_positions-instantiate (recursive_wildcard ∷ ps) (t ∷ ts) acc b l d h = cc

-- The bindings give the concrete path back, where the pattern's wildcards have distinct names: every
-- wildcard is bound to the name at its own position.
pub bind_ancestor-instantiate :
    (ps : List PathSegment) (ts : List Text) (b : Dict Text)
    → HasDistinctNames ps
    → bind_ancestor ps (as_literals ts) ≡ some b
    → instantiate b ps ≡ ts
bind_ancestor-instantiate ps ts b d h =
    let l = bind_ancestor-length ps ts b h in
    bind_positions-instantiate ps ts [] b l d (sym (bind_ancestor_eq ps ts l) ∙ h)
