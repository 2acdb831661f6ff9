-- ===== src/AccessControl/Discovery/Laws.antt =====
-- What `discover_cross_document_paths` finds, and that evaluation reads nothing else.
use embyr_rs.Base.{
  true, Option, List, [], ◌∷◌, ◌≡◌, sym, ap, ◌↔◌, ◌⊎◌, inl, inr, Bool-cases, any, Any, here, there,
  Result, ok, err,
}
use embyr_rs.Base.Text.{Text, text_eq, text_eq_iff}
use embyr_rs.Base.Dict.{Dict}
use embyr_rs.AccessControl.Syntax.{Operand, Operands, Condition, AuthContext}
use embyr_rs.AccessControl.Resolve.{FieldMissing, resolve_path_template}
use embyr_rs.AccessControl.Discovery.{
  insert_path, insert_resolved, walk_operand, walk_items, walk_condition,
  discover_cross_document_paths,
}

-- The path stands in the list.
abbrev pub Listed : Text → List Text → Type 0
Listed p paths = Any (λ q. q ≡ p) paths

any_sound : (p : Text) (paths : List Text) → any (text_eq p) paths ≡ true → Listed p paths
any_sound p [] h = cc
any_sound p (q ∷ paths) h = elim (Bool-cases (text_eq p q)) [
  | inl same ↦ here (sym ((text_eq_iff p q).0 same))
  | inr other ↦ there (any_sound p paths (rw other at h))
]

insert_path_iff :
    (p q : Text) (paths : List Text) → Listed q (insert_path p paths) ↔ (Listed q paths ⊎ (p ≡ q))
unfolding insert_path
insert_path_iff p q paths = elim (Bool-cases (any (text_eq p) paths)) [
  | inl old ↦ rw old (inl, λ h. elim h [ inl l ↦ l | inr e ↦ rw (← e) (any_sound p paths old) ])
  | inr new ↦ rw new (split, λ h. elim h [ inl l ↦ there l | inr e ↦ here e ])
]
  where
    split : Listed q (p ∷ paths) → Listed q paths ⊎ (p ≡ q)
    split (here e) = inr e
    split (there l) = inl l

insert_resolved_iff :
    (r : Result FieldMissing Text) (q : Text) (paths : List Text)
    → Listed q (insert_resolved r paths) ↔ (Listed q paths ⊎ (r ≡ ok q))
unfolding insert_resolved
insert_resolved_iff (ok p) q paths =
    let (to, from) = insert_path_iff p q paths in
    (
      λ l. elim (to l) [ inl k ↦ inl k | inr e ↦ inr (ap ok e) ],
      λ h. from (elim h [ inl k ↦ inl k | inr e ↦ inr (cc) ]),
    )
insert_resolved_iff (err e) q paths = (inl, λ h. elim h [ inl k ↦ k | inr e ↦ absurd (cc) ])

-- Two walks, one after the other.
compose_iff : {A B C P Q : Type 0} → A ↔ (B ⊎ Q) → B ↔ (C ⊎ P) → A ↔ (C ⊎ (P ⊎ Q))
compose_iff (a, a') (b, b') = (
  λ x. elim (a x) [
    | inl y ↦ (elim (b y) [ inl c ↦ inl c | inr p ↦ inr (inl p) ])
    | inr q ↦ inr (inr q)
  ],
  λ x.
      a' (elim x [
        | inl c ↦ inl (b' (inl c))
        | inr (inl p) ↦ inl (b' (inr p))
        | inr (inr q) ↦ inr q
      ]),
)

none_iff : {A : Type 0} → A ↔ (A ⊎ ⊥)
none_iff = (inl, λ h. elim h [ inl a ↦ a | inr b ↦ absurd b ])

module _ {F : Type 0} (auth : Option (AuthContext F)) (leaf : Option Text) (ancestors : Dict Text)
    (q : Text) where
  -- `q` is what a template of the operand resolves to.
  abbrev mutual
    pub OperandMentions : Operand F → Type 0
    OperandMentions (Operand.cross_document_exists t) =
        resolve_path_template auth leaf ancestors t ≡ ok q
    OperandMentions (Operand.cross_document_get t field) =
        resolve_path_template auth leaf ancestors t ≡ ok q
    OperandMentions (Operand.arithmetic left op right) =
        OperandMentions left ⊎ OperandMentions right
    OperandMentions (Operand.list_literal items) = ItemsMention items
    OperandMentions _ = ⊥

    pub ItemsMention : Operands F → Type 0
    ItemsMention Operands.no_operands = ⊥
    ItemsMention (Operands.operand item items) = OperandMentions item ⊎ ItemsMention items

  abbrev pub Mentions : Condition F → Type 0
  Mentions (Condition.literal b) = ⊥
  Mentions (Condition.not inner) = Mentions inner
  Mentions (Condition.and left right) = Mentions left ⊎ Mentions right
  Mentions (Condition.or left right) = Mentions left ⊎ Mentions right
  Mentions (Condition.compare left op right) = OperandMentions left ⊎ OperandMentions right
  Mentions (Condition.is_in left list) = OperandMentions left ⊎ OperandMentions list

  mutual
    unfolding walk_operand

    walk_operand_iff :
        (o : Operand F) (paths : List Text)
        → Listed q (walk_operand auth leaf ancestors o paths) ↔ (Listed q paths ⊎ OperandMentions o)
    walk_operand_iff (Operand.cross_document_exists t) paths = insert_resolved_iff _ q paths
    walk_operand_iff (Operand.cross_document_get t field) paths = insert_resolved_iff _ q paths
    walk_operand_iff (Operand.arithmetic left op right) paths =
        compose_iff (walk_operand_iff right _) (walk_operand_iff left paths)
    walk_operand_iff (Operand.list_literal items) paths = walk_items_iff items paths
    walk_operand_iff _ paths = none_iff

    walk_items_iff :
        (os : Operands F) (paths : List Text)
        → Listed q (walk_items auth leaf ancestors os paths) ↔ (Listed q paths ⊎ ItemsMention os)
    walk_items_iff Operands.no_operands paths = none_iff
    walk_items_iff (Operands.operand item items) paths =
        compose_iff (walk_items_iff items _) (walk_operand_iff item paths)

  walk_condition_iff :
      (c : Condition F) (paths : List Text)
      → Listed q (walk_condition auth leaf ancestors c paths) ↔ (Listed q paths ⊎ Mentions c)
  unfolding walk_condition
  walk_condition_iff (Condition.literal b) paths = none_iff
  walk_condition_iff (Condition.not inner) paths = walk_condition_iff inner paths
  walk_condition_iff (Condition.and left right) paths =
      compose_iff (walk_condition_iff right _) (walk_condition_iff left paths)
  walk_condition_iff (Condition.or left right) paths =
      compose_iff (walk_condition_iff right _) (walk_condition_iff left paths)
  walk_condition_iff (Condition.compare left op right) paths =
      compose_iff (walk_operand_iff right _) (walk_operand_iff left paths)
  walk_condition_iff (Condition.is_in left list) paths =
      compose_iff (walk_operand_iff list _) (walk_operand_iff left paths)

  -- A path is discovered exactly when some `exists` or `get` of the condition, at whatever depth,
  -- has a template that resolves to it under the given bindings.
  pub discover_iff :
      (c : Condition F)
      → Listed q (discover_cross_document_paths auth leaf ancestors c) ↔ Mentions c
  unfolding discover_cross_document_paths
  discover_iff c =
      let (to, from) = walk_condition_iff c [] in
      (λ l. elim (to l) [ inl k ↦ absurd (elim k [ ]) | inr m ↦ m ], λ m. from (inr m))
