-- ===== src/AccessControl/PathRouting/Skeleton.antt =====
-- `literal_skeleton` as a key: narrowing the stored patterns by it loses no match.
use embyr_rs.Base.{List, [], ◌∷◌, ◌≡◌, refl, ap, some, arith}
use embyr_rs.Base.Text.{Text, codes, join}
use embyr_rs.Base.Dict.{Dict}
use embyr_rs.AccessControl.PathRouting.{
  PathSegment, literal, wildcard, recursive_wildcard, even_literals, odd_literals, literal_skeleton,
  bind_ancestor,
}
use embyr_rs.AccessControl.PathRouting.Binding.{as_literals, Matches, bind_ancestor_iff}

-- Collection names, at even positions, are literals.
abbrev mutual
  pub IsRouted : List PathSegment → Type 0
  IsRouted [] = Unit
  IsRouted (literal x ∷ ps) = IsDocument ps
  IsRouted (_ ∷ ps) = ⊥

  pub IsDocument : List PathSegment → Type 0
  IsDocument [] = Unit
  IsDocument (_ ∷ ps) = IsRouted ps

mutual
  unfolding even_literals

  even_literals-as_literals :
      (ps : List PathSegment) (ts : List Text)
      → IsRouted ps
      → Matches ps ts
      → even_literals ps ≡ even_literals (as_literals ts)
  even_literals-as_literals [] [] r m = refl
  even_literals-as_literals [] (t ∷ ts) r (l, m) = absurd (omega arith)
  even_literals-as_literals (literal x ∷ ps) (t ∷ ts) r (l, (e, m)) =
      rw e (ap (λ s. t ∷ s) (odd_literals-as_literals ps ts r (omega arith, m)))
  even_literals-as_literals (literal x ∷ ps) [] r (l, m) = absurd m
  even_literals-as_literals (wildcard v ∷ ps) ts r m = absurd r
  even_literals-as_literals (recursive_wildcard ∷ ps) ts r m = absurd r

  odd_literals-as_literals :
      (ps : List PathSegment) (ts : List Text)
      → IsDocument ps
      → Matches ps ts
      → odd_literals ps ≡ odd_literals (as_literals ts)
  odd_literals-as_literals [] [] r m = refl
  odd_literals-as_literals [] (t ∷ ts) r (l, m) = absurd (omega arith)
  odd_literals-as_literals (literal x ∷ ps) (t ∷ ts) r (l, (e, m)) =
      even_literals-as_literals ps ts r (omega arith, m)
  odd_literals-as_literals (wildcard v ∷ ps) (t ∷ ts) r (l, m) =
      even_literals-as_literals ps ts r (omega arith, m)
  odd_literals-as_literals (recursive_wildcard ∷ ps) (t ∷ ts) r (l, m) = absurd m
  odd_literals-as_literals (literal x ∷ ps) [] r (l, m) = absurd m
  odd_literals-as_literals (wildcard v ∷ ps) [] r (l, m) = absurd m
  odd_literals-as_literals (recursive_wildcard ∷ ps) [] r (l, m) = absurd m

-- A pattern whose collection names are literals has the skeleton of every concrete ancestor that it
-- binds, so looking the stored patterns up by the request's skeleton finds all that match.
pub literal_skeleton-bind_ancestor :
    (ps : List PathSegment) (ts : List Text) (b : Dict Text)
    → IsRouted ps
    → bind_ancestor ps (as_literals ts) ≡ some b
    → literal_skeleton ps ≡ literal_skeleton (as_literals ts)
unfolding literal_skeleton
literal_skeleton-bind_ancestor ps ts b r h =
    ap (join (codes "/")) (even_literals-as_literals ps ts r ((bind_ancestor_iff ps ts).0 (b, h)))
