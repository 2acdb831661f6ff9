-- ===== src/AccessControl/RulesFile/Blocks/Holds.antt =====
-- What the results of the scans have, where they are no errors.
use embyr_rs.Base.{Bool, true, false, ◌≡◌, refl, subst, ok, err, ◌>>=◌, if◌then◌else◌}
use embyr_rs.AccessControl.RulesFile.{Checked}

-- A result that, if it is one, has the property.
abbrev pub Holds : {A : Type 0} → (A → Type 0) → Checked A → Type 0
Holds P (ok a) = P a
Holds P (err e) = Unit

pub Holds->>= :
    {A B : Type 0} (P : A → Type 0) (Q : B → Type 0) (r : Checked A) (f : A → Checked B)
    → Holds P r
    → ((a : A) → P a → Holds Q (f a))
    → Holds Q (r >>= f)
Holds->>= P Q (err e) f p q = tt
Holds->>= P Q (ok a) f p q = q a p

pub Holds-any : {A : Type 0} (r : Checked A) → Holds (λ a. Unit) r
Holds-any (err e) = tt
Holds-any (ok a) = tt

pub Holds-of :
    {A : Type 0} (P : A → Type 0) (r : Checked A) → ((a : A) → r ≡ ok a → P a) → Holds P r
Holds-of P (err e) h = tt
Holds-of P (ok a) h = h a refl

pub Holds-if :
    {A : Type 0} (P : A → Type 0) (b : Bool) (r s : Checked A)
    → Holds P r
    → Holds P s
    → Holds P (if b then r else s)
Holds-if P true r s p q = p
Holds-if P false r s p q = q

pub held : {A : Type 0} (P : A → Type 0) {r : Checked A} {a : A} → Holds P r → r ≡ ok a → P a
held P h e = subst (Holds P) e h
