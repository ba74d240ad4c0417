-- ===== src/Samples/Errors.antt =====
-- The theorem on the errors of the API at a concrete call.
use assignment_cloud_instanc.Prelude.{◌⊎◌, false, ◌≡◌, refl, true}
use assignment_cloud_instanc.Config.{defaults}
use assignment_cloud_instanc.Session.{Failure, err, overflow, request}
use assignment_cloud_instanc.Access.{elem, get_current_member, assert_client_id_access}
use assignment_cloud_instanc.Instances
use assignment_cloud_instanc.Controllers.InstanceRoutes
use assignment_cloud_instanc.Store.{new_store, exists}
use assignment_cloud_instanc.Revocation.{Claims, decoded, get_token_claims}
use assignment_cloud_instanc.Responses.{status_code}
use assignment_cloud_instanc.Api.{Call, Moment, World, handle, admitted}
use assignment_cloud_instanc.Api.Errors.{handle-documented, in_range}
use assignment_cloud_instanc.Api.Errors.Routes.{documented}
use assignment_cloud_instanc.Samples.{db, tables, tables-IsValid}

abbrev world : World
world = record { tables = tables; store = new_store 0 }

abbrev moment : Moment
moment = record { now = 900; flushed = 901; detected_at = λ i. 902; store_now = 5 }

abbrev claims : Claims
claims = record { sub = 2; jti = "j"; exp = 100 }

-- Instance 1 is RUNNING, and of a client of member 2.
refused :
    (handle db defaults moment (Call.delete_instance 1) (decoded claims) world).0
    ≡ err (Failure.active_instance 1)
unfolding handle get_token_claims exists request admitted get_current_member
    InstanceRoutes.delete_instance InstanceRoutes.visible_instance Instances.get_instance
    assert_client_id_access Instances.delete_instance
refused = refl

handle-documented_example :
    (elem (status_code (Failure.active_instance 1)) (documented (Call.delete_instance 1)) ≡ true)
    ⊎ ((status_code (Failure.active_instance 1) ≡ 500)
        × (in_range (Call.delete_instance 1) (decoded claims) ≡ false))
handle-documented_example =
    handle-documented db defaults moment (Call.delete_instance 1) (decoded claims) world
      (Failure.active_instance 1) tables-IsValid refused

-- `GET /api/instances/100000000000000000000`
overflowed :
    (handle db defaults moment
      (Call.get_instance 100_000_000_000_000_000_000)
      (decoded claims)
      world).0
    ≡ err overflow
unfolding handle get_token_claims exists request admitted get_current_member
overflowed = refl
