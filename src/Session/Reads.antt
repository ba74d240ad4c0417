-- ===== src/Session/Reads.antt =====
-- Actions that only read, and the requests that begin with one: the checks of a handler before its
-- service.
use mathlib.Core.Path.{subst}
use assignment_cloud_instanc.Prelude.{◌≡◌, refl, sym, ap, ◌∙◌, Option, none, some, arith}
use assignment_cloud_instanc.Models.{Tables}
use assignment_cloud_instanc.Session.{
  Session, Failure, Result, ok, err, Action, pure, or_raise, ◌>>=◌, open_session, request, bind_ok,
  bind_err,
}

abbrev pub ReadOnly : {A : Type 0} → Action A → Type 0
ReadOnly m = (s : Session) → (m s).1 ≡ s

module _ {A : Type 0} where
  pub or_raise-ReadOnly : (o : Option A) (e : Failure) → ReadOnly (or_raise o e)
  or_raise-ReadOnly none e s = refl
  or_raise-ReadOnly (some a) e s = refl

  pub or_raise_returned :
      (o : Option A) (e : Failure) (s : Session) {a : A} → (or_raise o e s).0 ≡ ok a → o ≡ some a
  or_raise_returned none e s h = absurd (ground arith)
  or_raise_returned (some b) e s h = ground (arith, h)

module _ {A B : Type 0} (m : Action A) (f : A → Action B) (reads : ReadOnly m) where
  after :
      (s : Session) (p : Result A × Session)
      → p.1 ≡ s
      → ((a : A) → ReadOnly (f a))
      → (elim p.0 as (λ _. Result B × Session) [ ok a ↦ f a p.1 | err e ↦ (err e, p.1) ]).1 ≡ s
  after s (ok a, s') h then_reads = then_reads a s' ∙ h
  after s (err e, s') h then_reads = h

  pub bind-ReadOnly : ((a : A) → ReadOnly (f a)) → ReadOnly (m >>= f)
  bind-ReadOnly then_reads s = after s (m s) (reads s) then_reads

  -- A sequence that returns is a first step that does and a second one that does.
  inverted :
      (s : Session) (p : Result A × Session) {b : B}
      → p.1 ≡ s
      → (elim p.0 as (λ _. Result B × Session) [ ok a ↦ f a p.1 | err e ↦ (err e, p.1) ]).0 ≡ ok b
      → (a : A) × (p.0 ≡ ok a) × ((f a s).0 ≡ ok b)
  inverted s (ok a, s') same h = (a, refl, ap (λ u. (f a u).0) (sym same) ∙ h)
  inverted s (err e, s') same h = absurd (ground arith)

  pub bind_returned :
      (s : Session) {b : B}
      → ((m >>= f) s).0 ≡ ok b
      → (a : A) × ((m s).0 ≡ ok a) × ((f a s).0 ≡ ok b)
  bind_returned s h = inverted s (m s) (reads s) h

  returns : (s : Session) {r : Result A} → (m s).0 ≡ r → m s ≡ (r, s)
  returns s h = λ i. (h i, reads s i)

  guarded :
      (t : Tables) (P : Result B × Tables → Type 0) (r : Result A)
      → (m (open_session t)).0 ≡ r
      → ((e : Failure) → P (err e, t))
      → ((a : A) → (m (open_session t)).0 ≡ ok a → P (request (f a) t))
      → P (request (m >>= f) t)
  unfolding request
  guarded t P (ok a) h refused admitted =
      subst P (sym (ap (λ out. (out.0, out.1.durable)) (bind_ok m f (returns (open_session t) h))))
        (admitted a h)
  guarded t P (err e) h refused admitted =
      subst P (sym (ap (λ out. (out.0, out.1.durable)) (bind_err m f (returns (open_session t) h))))
        (refused e)

  -- A request that begins with a check: either the check refuses it and nothing is written, or it is the
  -- request of what follows.
  pub request_guarded :
      (t : Tables) (P : Result B × Tables → Type 0)
      → ((e : Failure) → P (err e, t))
      → ((a : A) → (m (open_session t)).0 ≡ ok a → P (request (f a) t))
      → P (request (m >>= f) t)
  request_guarded t P refused admitted = guarded t P (m (open_session t)).0 refl refused admitted

-- A request that only reads leaves the rows as they were.
pub request_reads : {A : Type 0} (m : Action A) (t : Tables) → ReadOnly m → (request m t).1 ≡ t
unfolding request
request_reads m t reads = ap (λ s. s.durable) (reads (open_session t))

module _ {A B : Type 0} (g : A → B) where
  mapped :
      (p : Result A × Session)
      → (elim p.0 as (λ _. Result B × Session) [
        | ok a ↦ (ok (g a), p.1)
        | err e ↦ (err e, p.1)
      ]).1.durable
        ≡ p.1.durable
  mapped (ok a, s) = refl
  mapped (err e, s) = refl

  -- What is made of the answer does not touch the rows.
  pub request_mapped :
      (m : Action A) (t : Tables) → (request (m >>= λ a. pure (g a)) t).1 ≡ (request m t).1
  unfolding request
  request_mapped m t = mapped (m (open_session t))
