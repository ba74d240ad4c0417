-- ===== src/Session.antt =====
-- The database session of one request (app/database.py `get_db`, and the `db.commit()` of the
-- services), and the exceptions that end a request (app/core/exceptions.py, `HTTPException`).
--
-- `tables` is what the statements of the session see, `durable` what has been committed. A raise
-- keeps the state that it was reached with; `close` drops what was not committed.
pub mod Raises
pub mod Reads
use assignment_cloud_instanc.Prelude.{ℕ, ◌≡◌, ap, Bool, Option, none, some, String, if◌then◌else◌}
use assignment_cloud_instanc.Models.{Tables}

pub record Session : Type 0 where
  pub tables : Tables
  pub open tables use *
  pub durable : Tables

pub data Failure : Type 0 where
  active_instance : ℕ → Failure
  not_found : String → ℕ → Failure
  forbidden : String → Failure
  validation : String → Failure
  -- `HTTPException(status_code, detail)`, with the seconds of a `Retry-After` header
  http : ℕ → String → Option ℕ → Failure

pub data Result {ℓ} (A : Type ℓ) : Type ℓ where
  ok : A → Result A
  err : Failure → Result A

abbrev pub Action : Type 0 → Type 0
Action A = Session → Result A × Session

module _ {A : Type 0} where
  abbrev pub pure : A → Action A
  pure a s = (ok a, s)

  abbrev pub raise : Failure → Action A
  raise e s = (err e, s)

  abbrev pub gets : (Session → A) → Action A
  gets f s = (ok (f s), s)

  abbrev pub or_raise : Option A → Failure → Action A
  or_raise none e = raise e
  or_raise (some a) e = pure a

-- An OverflowError of the database's driver, which nothing catches.
abbrev pub overflow : Failure
overflow = http 500 "Internal Server Error" none

infixl 5 ◌>>=◌ ◌>>◌
abbrev pub ◌>>=◌ : {A B : Type 0} → Action A → (A → Action B) → Action B
◌>>=◌ m f s = let (r, s') = m s in elim r [ ok a ↦ f a s' | err e ↦ (err e, s') ]

-- The next step after one that is known to return.
pub bind_ok :
    {A B : Type 0} (m : Action A) (f : A → Action B) {a : A} {s s' : Session}
    → m s ≡ (ok a, s')
    → (m >>= f) s ≡ f a s'
bind_ok m f e = ap (λ p. elim p.0 [ ok a ↦ f a p.1 | err e ↦ (err e, p.1) ]) e

-- The request ends at a step that raises.
pub bind_err :
    {A B : Type 0} (m : Action A) (f : A → Action B) {e : Failure} {s s' : Session}
    → m s ≡ (err e, s')
    → (m >>= f) s ≡ (err e, s')
bind_err m f h = ap (λ p. elim p.0 [ ok a ↦ f a p.1 | err e ↦ (err e, p.1) ]) h

abbrev pub ◌>>◌ : {A B : Type 0} → Action A → Action B → Action B
m >> k = m >>= λ _. k

abbrev pub raise_if : Bool → Failure → Action (Unit {0})
raise_if b e s = (if b then err e else ok tt, s)

abbrev pub modify : (Tables → Tables) → Action (Unit {0})
modify f s = (ok tt, record s { tables = f s.tables })

-- `db.commit()`
abbrev pub commit : Action (Unit {0})
commit s = (ok tt, record s { durable = s.tables })

-- `db.close()` in the `finally` of `get_db`
abbrev pub close : Session → Session
close s = record s { tables = s.durable }

-- The session that a request opens on the committed rows.
abbrev pub open_session : Tables → Session
open_session t = record { tables = t; durable = t }

-- One request: its answer, and the rows that it leaves committed.
unfoldable pub request : {A : Type 0} → Action A → Tables → Result A × Tables
request m t = let (r, s) = m (open_session t) in (r, (close s).durable)
