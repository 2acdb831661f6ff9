-- ===== src/AccessControl/RulesFile/Ends.antt =====
-- Results that are no lack of fuel and no panic of the source.
use embyr_rs.Base.{
  Bool, true, false, Option, none, some, All, ◌≡◌, ◌≢◌, refl, Result, ok, err, ok_or, if◌then◌else◌,
  ◌>>=◌, ◌>>◌,
}
use embyr_rs.Base.Text.{Text}
use embyr_rs.AccessControl.Token.{
  ConditionParseError, syntax_error, unsupported_construct, custom_function, wildcard_path,
  unsupported_expression_grammar, out_of_fuel,
}
use embyr_rs.AccessControl.RulesFile.{
  OffendingBlock, Construct, single, unreachable_construct, construct_for, Checked,
}
use embyr_rs.AccessControl.RulesFile.Functions.{guard}
use embyr_rs.AccessControl.RulesFile.Decompose.{require_parsed}

-- The construct is one of the source's.
abbrev pub IsReal : OffendingBlock → Type 0
IsReal o = o.construct ≢ unreachable_construct

-- A value with the property, or an error whose offending blocks are all real.
abbrev pub Ends : {A : Type 0} → (A → Type 0) → Checked A → Type 0
Ends P (ok a) = P a
Ends P (err e) = All IsReal (e.offending_blocks)

module _ {A : Type 0} where
  pub Ends->>= :
      {B : Type 0} (P : A → Type 0) (Q : B → Type 0) (r : Checked A) (f : A → Checked B)
      → Ends P r
      → ((a : A) → P a → Ends Q (f a))
      → Ends Q (r >>= f)
  Ends->>= P Q (err e) f p q = p
  Ends->>= P Q (ok a) f p q = q a p

  pub Ends->> :
      {B : Type 0} (Q : B → Type 0) (r : Checked A) (s : Checked B)
      → Ends (λ a. Unit) r
      → Ends Q s
      → Ends Q (r >> s)
  Ends->> Q (err e) s p q = p
  Ends->> Q (ok a) s p q = q

  pub Ends-if :
      (P : A → Type 0) (b : Bool) (r s : Checked A)
      → Ends P r
      → Ends P s
      → Ends P (if b then r else s)
  Ends-if P true r s p q = p
  Ends-if P false r s p q = q

  pub Ends-ok_or :
      (P : A → Type 0) (p : Text) (c : Construct) (o : Option A)
      → c ≢ unreachable_construct
      → ((a : A) → o ≡ some a → P a)
      → Ends P (ok_or (single p c) o)
  Ends-ok_or P p c none real q = (real, tt)
  Ends-ok_or P p c (some a) real q = q a refl

  pub Ends-mono : (P Q : A → Type 0) (r : Checked A) → ((a : A) → P a → Q a) → Ends P r → Ends Q r
  Ends-mono P Q (ok a) f p = f a p
  Ends-mono P Q (err e) f p = p

  pub require_parsed-Ends :
      (p : Text) (r : Result ConditionParseError A)
      → r ≢ err out_of_fuel
      → Ends (λ u. Unit) (require_parsed p r)
  unfolding construct_for
  require_parsed-Ends p (ok a) n = tt
  require_parsed-Ends p (err syntax_error) n = (λ e. cc, tt)
  require_parsed-Ends p (err (unsupported_construct custom_function)) n = (λ e. cc, tt)
  require_parsed-Ends p (err (unsupported_construct wildcard_path)) n = (λ e. cc, tt)
  require_parsed-Ends p (err (unsupported_construct unsupported_expression_grammar)) n =
      (λ e. cc, tt)
  require_parsed-Ends p (err out_of_fuel) n = absurd (n refl)

pub guard-Ends :
    (b : Bool) (p : Text) (c : Construct)
    → c ≢ unreachable_construct
    → Ends (λ u. Unit) (guard b (single p c))
guard-Ends true p c real = tt
guard-Ends false p c real = (real, tt)
