-- ===== src/AccessControl/Compliance/Sound.antt =====
-- What `check_query_compliance` promises of the documents that a query returns.
use embyr_rs.Base.{
  Bool, true, false, subst, ◌&&◌, ◌||◌, Option, none, some, List, [], ◌∷◌, ◌++◌, ◌≡◌, refl, ap,
  arith, ok, Result-cases, All, and_true, inl, inr,
}
use embyr_rs.Base.Text.{Text, text_eq, text_eq_sound, text_eq_refl}
use embyr_rs.Base.Dict.{Dict, get}
use embyr_rs.Domain.FieldValue.{Float, FieldValue, value_eq}
use embyr_rs.Domain.Query.{FilterOp, FieldFilter, QueryFilter, Filters}
use embyr_rs.AccessControl.Syntax.{Condition, AuthContext, EvalContext, allow}
use embyr_rs.AccessControl.Compare.{owner_matches}
use embyr_rs.AccessControl.Eval.{evaluate}
use embyr_rs.AccessControl.Compliance.{
  UnsatisfiedConjunct, admitted, Atom, is_equal, missing_auth, missing_filter, decompose_decidable,
  filter_binds, any_binds, every_binds, filter_binds_field_to_uid, check_atoms,
  check_query_compliance,
}
use embyr_rs.AccessControl.Compliance.Decomposed.{Holds, decompose_decidable-eval_bool}

is_equal_sound : (op : FilterOp) → is_equal op ≡ true → op ≡ FilterOp.equal
is_equal_sound op h = ground arith

nil_of_append : {A : Type 0} (xs ys : List A) → xs ++ ys ≡ [] → (xs ≡ []) × (ys ≡ [])
nil_of_append [] ys h = (refl, h)
nil_of_append (x ∷ xs) ys h = cc

-- Which documents the database returns for a filter. `holds` decides a single field comparison; a
-- composite filter is a conjunction, and an OR filter a disjunction.
module _ {F : Type 0} (holds : FieldFilter F → Dict (FieldValue F) → Bool) where
  abbrev mutual
    pub matches : QueryFilter F → Dict (FieldValue F) → Bool
    matches (QueryFilter.field ff) fields = holds ff fields
    matches (QueryFilter.composite fs) fields = matches_all fs fields
    matches (QueryFilter.composite_or fs) fields = matches_any fs fields

    pub matches_all : Filters F → Dict (FieldValue F) → Bool
    matches_all Filters.no_filters fields = true
    matches_all (Filters.filter f fs) fields = matches f fields && matches_all fs fields

    pub matches_any : Filters F → Dict (FieldValue F) → Bool
    matches_any Filters.no_filters fields = false
    matches_any (Filters.filter f fs) fields = matches f fields || matches_any fs fields

  -- With no filter every document is returned.
  abbrev pub returned : Option (QueryFilter F) → Dict (FieldValue F) → Bool
  returned none fields = true
  returned (some f) fields = matches f fields

module _ {F : Type 0} ⦃float : Float F⦄ where
  -- An equality filter returns only documents whose field holds an equal value.
  abbrev pub EqualityHolds : (FieldFilter F → Dict (FieldValue F) → Bool) → Type 0
  EqualityHolds holds =
      (ff : FieldFilter F) (fields : Dict (FieldValue F))
      → ff.op ≡ FilterOp.equal
      → holds ff fields ≡ true
      → (v : FieldValue F) × (get ff.field_path fields ≡ some v) × (value_eq v ff.value ≡ true)

  string_eq_sound :
      (v : FieldValue F) (s : Text)
      → value_eq v (FieldValue.string s) ≡ true
      → v ≡ FieldValue.string s
  unfolding value_eq
  string_eq_sound (FieldValue.string t) s h = ap FieldValue.string (text_eq_sound t s h)
  string_eq_sound (FieldValue.boolean true) s h = cc
  string_eq_sound (FieldValue.boolean false) s h = cc
  string_eq_sound _ s h = cc

  module _ (holds : FieldFilter F → Dict (FieldValue F) → Bool) (equality : EqualityHolds holds)
      (field uid : Text) (fields : Dict (FieldValue F)) where
    -- The document's field holds the caller's uid.
    abbrev Owned : Type 0
    Owned = get field fields ≡ some (FieldValue.string uid)

    mutual
      unfolding filter_binds

      binds_sound :
          (f : QueryFilter F)
          → filter_binds f field uid ≡ true
          → matches holds f fields ≡ true
          → Owned
      binds_sound (QueryFilter.field ff) b m =
          let (path, rest) = and_true {a = text_eq ff.field_path field} {b = _} b in
          let (op, value) = and_true {a = is_equal ff.op} {b = _} rest in
          let (v, found, equal) = equality ff fields (is_equal_sound ff.op op) m in
          let bound = string_eq_sound ff.value uid value in
          let stored = string_eq_sound v uid (subst (λ x. value_eq v x ≡ true) bound equal) in
          let named = text_eq_sound ff.field_path field path in rw (← named) (rw stored at found)
      binds_sound (QueryFilter.composite fs) b m = any_sound fs b m
      binds_sound (QueryFilter.composite_or fs) b m = every_sound fs b m

      any_sound :
          (fs : Filters F)
          → any_binds fs field uid ≡ true
          → matches_all holds fs fields ≡ true
          → Owned
      any_sound Filters.no_filters b m = cc
      any_sound (Filters.filter f fs) b m = ground (arith, binds_sound f, any_sound fs)

      every_sound :
          (fs : Filters F)
          → every_binds fs field uid ≡ true
          → matches_any holds fs fields ≡ true
          → Owned
      every_sound Filters.no_filters b m = cc
      every_sound (Filters.filter f fs) b m = ground (arith, binds_sound f, every_sound fs)

    -- A filter that binds a field to the caller's uid returns only documents whose field holds that
    -- uid, through any nesting of AND and OR: every branch of an OR has to bind it.
    pub filter_binds-Owned :
        (filter : Option (QueryFilter F))
        → filter_binds_field_to_uid filter field uid ≡ true
        → returned holds filter fields ≡ true
        → get field fields ≡ some (FieldValue.string uid)
    unfolding filter_binds_field_to_uid
    filter_binds-Owned none b m = cc
    filter_binds-Owned (some f) b m = binds_sound f b m

  -- What the loop requires of an atom that adds nothing to `unsatisfied`.
  abbrev Satisfied : Option (QueryFilter F) → Option (AuthContext F) → Atom → Type 0
  Satisfied filter auth (Atom.literal b) = b ≡ true
  Satisfied filter auth Atom.auth_required = missing_auth auth ≡ []
  Satisfied filter auth (Atom.ownership_equality field) = missing_filter filter auth field ≡ []

  check_atoms_admitted :
      (filter : Option (QueryFilter F)) (auth : Option (AuthContext F)) (atoms : List Atom)
      (us : List UnsatisfiedConjunct)
      → check_atoms filter auth us atoms ≡ admitted
      → (us ≡ []) × All (Satisfied filter auth) atoms
  unfolding check_atoms
  check_atoms_admitted filter auth [] [] h = (refl, tt)
  check_atoms_admitted filter auth [] (u ∷ us) h = cc
  check_atoms_admitted filter auth (Atom.literal true ∷ atoms) us h =
      let (e, s) = check_atoms_admitted filter auth atoms us h in (e, (refl, s))
  check_atoms_admitted filter auth (Atom.literal false ∷ atoms) us h = cc
  check_atoms_admitted filter auth (Atom.auth_required ∷ atoms) us h =
      let (e, s) = check_atoms_admitted filter auth atoms (us ++ missing_auth auth) h in
      let (p, q) = nil_of_append us (missing_auth auth) e in (p, (q, s))
  check_atoms_admitted filter auth (Atom.ownership_equality f ∷ atoms) us h =
      let (e, s) = check_atoms_admitted filter auth atoms (us ++ missing_filter filter auth f) h in
      let (p, q) = nil_of_append us (missing_filter filter auth f) e in (p, (q, s))

  owner_matches_of_Owned :
      (a : AuthContext F) (fields : Dict (FieldValue F)) (f : Text)
      → get f fields ≡ some (FieldValue.string a.uid)
      → owner_matches (some a) fields f ≡ ok true
  unfolding owner_matches
  owner_matches_of_Owned a fields f h = rw (h, text_eq_refl a.uid)

  module _ (holds : FieldFilter F → Dict (FieldValue F) → Bool) (equality : EqualityHolds holds)
      (ctx : EvalContext F) (filter : Option (QueryFilter F))
      (m : returned holds filter ctx.resource_fields ≡ true) where
    owner_holds :
        (auth : Option (AuthContext F)) (f : Text)
        → missing_filter filter auth f ≡ []
        → owner_matches auth ctx.resource_fields f ≡ ok true
    owner_holds none f s = cc
    owner_holds (some a) f s =
        owner_matches_of_Owned a ctx.resource_fields f
          (filter_binds-Owned holds equality f a.uid ctx.resource_fields filter (ground arith) m)

    atoms_hold : (atoms : List Atom) → All (Satisfied filter ctx.auth) atoms → All (Holds ctx) atoms
    atoms_hold [] s = tt
    atoms_hold (Atom.literal b ∷ atoms) (s, ss) = (s, atoms_hold atoms ss)
    atoms_hold (Atom.auth_required ∷ atoms) (s, ss) = (ground arith, atoms_hold atoms ss)
    atoms_hold (Atom.ownership_equality f ∷ atoms) (s, ss) =
        (owner_holds ctx.auth f s, atoms_hold atoms ss)

    -- If a rule admits a query for a caller, then the rule, evaluated at each document that the query
    -- returns, allows it, whatever the rest of the evaluation's context holds. The database is
    -- assumed to answer an equality filter with documents whose field holds an equal value, an AND
    -- filter by all of its parts and an OR filter by one of them.
    pub check_query_compliance_sound :
        (c : Condition F)
        → check_query_compliance c filter ctx.auth ≡ admitted
        → evaluate ctx c ≡ allow
    unfolding check_query_compliance evaluate
    check_query_compliance_sound c h = elim (Result-cases (decompose_decidable c)) [
      | inl (atoms, e) ↦
          let (none_missing, satisfied) =
            check_atoms_admitted filter ctx.auth atoms [] (rw (e, check_query_compliance) at h) in
          rw ((decompose_decidable-eval_bool ctx c atoms e).0 (atoms_hold atoms satisfied))
      | inr (u, e) ↦ let refused = rw (e, check_query_compliance) at h in cc
    ]
