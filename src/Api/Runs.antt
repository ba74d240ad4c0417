-- ===== src/Api/Runs.antt =====
-- Runs of requests (app/controllers), and the conditions on the rows and the store.
use mathlib.Core.Path.{subst}
use assignment_cloud_instanc.Prelude.{not, ℕ, ◌≡◌, refl, sym, String, List, [], ◌∷◌, inl, inr}
use assignment_cloud_instanc.Models.{Member, Tables}
use assignment_cloud_instanc.Config.{Settings}
use assignment_cloud_instanc.Session.{Result, ok, err, raise_if, overflow, ◌>>=◌}
use assignment_cloud_instanc.Session.Reads.{ReadOnly, bind-ReadOnly, request_reads}
use assignment_cloud_instanc.Database.{Database, binds}
use assignment_cloud_instanc.Access.{get_current_member}
use assignment_cloud_instanc.Store.{Store}
use assignment_cloud_instanc.Store.Live.{IsMap}
use assignment_cloud_instanc.Revocation.{Claims, Decoded, get_token_claims}
use assignment_cloud_instanc.Diagnosis.{Provider}
use assignment_cloud_instanc.Controllers.AuthRoutes.{Services}
use assignment_cloud_instanc.Controllers.InstanceRoutes.{
  visible_instance, with_alerts, diagnosis_rows,
}
use assignment_cloud_instanc.Api.{World, Moment, Call, handle}
use assignment_cloud_instanc.Api.Changes.{IsSound}
use assignment_cloud_instanc.Api.Guards.{visible_instance-ReadOnly, get_current_member-ReadOnly}
use assignment_cloud_instanc.Api.Refines.{handle-HandledBy}
use assignment_cloud_instanc.Api.Requests.{
  Request, credentials, rows_for, diagnosed_for, diagnose_instance, step, run,
}
use assignment_cloud_instanc.Api.Sound.{Change-IsSound}
use assignment_cloud_instanc.Api.Stores.{IsMap-login, IsMap-logout, IsMap-handle, IsMap-diagnosis}

-- Sound rows, and a store with every key once.
abbrev pub IsConsistent : World → Type 0
IsConsistent w = IsSound w.tables × IsMap w.store.entries

diagnosis_rows-ReadOnly :
    (db : Database) (member : Member) (i : ℕ) → ReadOnly (diagnosis_rows db member i)
unfolding diagnosis_rows
diagnosis_rows-ReadOnly db member i =
    bind-ReadOnly (visible_instance member i) (with_alerts db i)
      (visible_instance-ReadOnly member i) (λ instance s. refl)

module _ (db : Database) (settings : Settings) (services : Services)
    (sha256 strip : String → String) where
  rows_for-ReadOnly : (sub i : ℕ) → ReadOnly (rows_for db settings services sha256 strip sub i)
  unfolding rows_for
  rows_for-ReadOnly sub i =
      let of_member = λ (member : Member).
        raise_if (not (binds i)) overflow >>= λ _. diagnosis_rows db member i in
      bind-ReadOnly (raise_if (not (binds sub)) overflow)
        (λ _. get_current_member sub >>= of_member) (λ s. refl)
        (λ _.
          bind-ReadOnly (get_current_member sub) of_member (get_current_member-ReadOnly sub)
            (λ member.
              bind-ReadOnly (raise_if (not (binds i)) overflow) (λ _. diagnosis_rows db member i)
                (λ s. refl) (λ _. diagnosis_rows-ReadOnly db member i)))

  handle-IsSound :
      (m : Moment) (c : Call) (d : Decoded) (w : World)
      → IsSound w.tables
      → IsSound (handle db settings m c d w).1.tables
  handle-IsSound m c d w sound = elim (handle-HandledBy db settings m c d w sound.0) [
    | inl same ↦ subst IsSound (sym same) sound
    | inr (claims, admitted, inl same) ↦ subst IsSound (sym same) sound
    | inr (claims, admitted, inr (member, found, change)) ↦
        Change-IsSound db member w.tables change sound
  ]

  diagnosed_for-tables :
      (i : ℕ) (provider : Provider) (now later : ℕ) (t : Tables) (out : Result Claims × Store)
      → (diagnosed_for db settings services sha256 strip i provider now later t out).1.tables ≡ t
  diagnosed_for-tables i provider now later t (ok claims, st) =
      request_reads (rows_for db settings services sha256 strip claims.sub i) t
        (rows_for-ReadOnly claims.sub i)
  diagnosed_for-tables i provider now later t (err e, st) = refl

  diagnosis-tables :
      (i : ℕ) (d : Decoded) (provider : Provider) (checked now later : ℕ) (w : World)
      → (diagnose_instance db settings services sha256 strip i d provider checked now later
          w).1.tables
        ≡ w.tables
  unfolding diagnose_instance
  diagnosis-tables i d provider checked now later w =
      diagnosed_for-tables i provider now later w.tables (get_token_claims d checked w.store)

  abbrev next : Request → World → World
  next = step db settings services sha256 strip

  step-IsConsistent : (r : Request) (w : World) → IsConsistent w → IsConsistent (next r w)
  unfolding step
  step-IsConsistent (Request.login body attempt) w (sound, m) =
      (sound, IsMap-login services settings body attempt w.tables.members w.store m)
  step-IsConsistent (Request.logout token wall now later) w (sound, m) =
      (sound, IsMap-logout wall later (credentials services.jwt token wall) now w.store m)
  step-IsConsistent (Request.call c token wall m) w (sound, map) = (
    handle-IsSound m c (credentials services.jwt token wall) w sound,
    IsMap-handle db settings m c (credentials services.jwt token wall) w map,
  )
  step-IsConsistent (Request.diagnosis i token wall provider checked now later) w (sound, m) =
      let d = credentials services.jwt token wall in
      (
        subst IsSound (sym (diagnosis-tables i d provider checked now later w)) sound,
        IsMap-diagnosis sha256 strip settings provider now later db services i d checked w m,
      )

  -- Every run of requests (log ins, log outs, calls, diagnoses, whatever they answer) from
  -- tables with sound keys and at most one open alert per instance and type, and a store with
  -- every key once, leaves them so.
  pub run-IsConsistent :
      (rs : List Request) (w : World)
      → IsConsistent w
      → IsConsistent (run db settings services sha256 strip rs w)
  unfolding run
  run-IsConsistent [] w h = h
  run-IsConsistent (r ∷ rs) w h = run-IsConsistent rs (next r w) (step-IsConsistent r w h)
