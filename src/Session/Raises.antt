-- ===== src/Session/Raises.antt =====
-- Actions that raise only exceptions with one of the given statuses (app/core/exceptions.py, `HTTPException`).
use mathlib.Core.Path.{subst}
use assignment_cloud_instanc.Prelude.{
  ℕ, ◌≡◌, refl, Bool, true, false, Option, none, some, List, sym, if◌then◌else◌,
}
use assignment_cloud_instanc.Session.{
  Session, Failure, Result, ok, err, Action, pure, or_raise, raise_if, ◌>>=◌,
}
use assignment_cloud_instanc.Session.Reads.{ReadOnly}
use assignment_cloud_instanc.Access.{elem}
use assignment_cloud_instanc.Responses.{status_code}

-- The statuses that an answer may have, if it is an exception.
module _ (statuses : List ℕ) where
  abbrev pub Covers : Failure → Type 0
  Covers e = elem (status_code e) statuses ≡ true

  abbrev pub Within : {A : Type 0} → Result A → Type 0
  Within (ok a) = Unit
  Within (err e) = Covers e

  abbrev pub RaisesAt : {A : Type 0} → Session → Action A → Type 0
  RaisesAt s m = Within (m s).0

  abbrev pub Raises : {A : Type 0} → Action A → Type 0
  Raises m = (s : Session) → RaisesAt s m

  module _ {A : Type 0} where
    pub or_raise-Raises : (o : Option A) (e : Failure) → Covers e → Raises (or_raise o e)
    or_raise-Raises none e h s = h
    or_raise-Raises (some a) e h s = tt

  pub raise_if-Raises : (b : Bool) (e : Failure) → Covers e → Raises (raise_if b e)
  raise_if-Raises true e h s = h
  raise_if-Raises false e h s = tt

  -- One of two actions.
  pub if-Raises :
      {A : Type 0} (b : Bool) (m k : Action A) → Raises m → Raises k → Raises (if b then m else k)
  if-Raises true m k h g = h
  if-Raises false m k h g = g

  module _ {A B : Type 0} (m : Action A) (f : A → Action B) where
    continued :
        (p : Result A × Session)
        → Within p.0
        → ((a : A) → Raises (f a))
        → Within (elim p.0 as (λ _. Result B × Session) [ ok a ↦ f a p.1 | err e ↦ (err e, p.1) ]).0
    continued (ok a, s) h g = g a s
    continued (err e, s) h g = h

    pub bind-Raises : Raises m → ((a : A) → Raises (f a)) → Raises (m >>= f)
    bind-Raises h g s = continued (m s) (h s) g

    continued_at :
        (s : Session) (p : Result A × Session)
        → p.1 ≡ s
        → Within p.0
        → ((a : A) → p.0 ≡ ok a → RaisesAt s (f a))
        → Within (elim p.0 as (λ _. Result B × Session) [ ok a ↦ f a p.1 | err e ↦ (err e, p.1) ]).0
    continued_at s (ok a, s') same h g = subst (λ u. RaisesAt u (f a)) (sym same) (g a refl)
    continued_at s (err e, s') same h g = h

    -- After a check, the session is as it was.
    pub checked-RaisesAt :
        (s : Session)
        → ReadOnly m
        → RaisesAt s m
        → ((a : A) → (m s).0 ≡ ok a → RaisesAt s (f a))
        → RaisesAt s (m >>= f)
    checked-RaisesAt s reads h g = continued_at s (m s) (reads s) h g

  -- A service whose answer is then rendered.
  pub rendered-Raises :
      {A B : Type 0} (m : Action A) (g : A → B) → Raises m → Raises (m >>= λ a. pure (g a))
  rendered-Raises m g h = bind-Raises m (λ a. pure (g a)) h (λ a s. tt)

-- What covers an answer covers its exception.
pub Within-err :
    (statuses : List ℕ) {A : Type 0} (r : Result A) {e : Failure}
    → Within statuses r
    → r ≡ err e
    → elem (status_code e) statuses ≡ true
Within-err statuses r h same = subst (Within statuses) same h
