-- ===== src/App/Linking.antt =====
-- Linking and unlinking of tenants (app.go).
use cloud_sdk_go.Base.{
  String, Bool, true, false, ◌&&◌, not, Option, none, some, List, [], ◌∷◌, ◌++◌, Dict, insert,
  erase, Failure, message, because, Result, ok, err, if◌then◌else◌,
}
use cloud_sdk_go.App.Config.{Config}
use cloud_sdk_go.App.Tenants.{
  Tenant, Device, DeviceResponse, get_error, Reply, failed, error_status, success, Registry,
  fetch_devices,
}

-- A call that returns, or that panics on a nil pointer.
pub data Outcome {ℓ} (A : Type ℓ) : Type ℓ where
  panics : Outcome A
  returns : A → Outcome A

abbrev pub is_nil {ℓ} : {A : Type ℓ} → List A → Bool
is_nil [] = true
is_nil (x ∷ xs) = false

-- The device map of a tenant, filled in a loop that sets each device's tenant.
unfoldable pub index_devices : Tenant → List Device → Dict Device → Dict Device
index_devices tenant [] m = m
index_devices tenant (d ∷ ds) m =
    index_devices tenant ds (insert d.id (record d { tenant = tenant }) m)

abbrev pub start_connecting : Registry → Registry
start_connecting r = record r { connecting = true }

-- The end of `setTenant`, after the HTTP clients are set.
unfoldable pub store_devices : Tenant → Result (List Device) → Registry → Registry × Option Failure
unfolding index_devices
store_devices tenant (err e) r = (r, some (because "failed to fetch devices" e))
store_devices tenant (ok ds) r = (
  start_connecting (record r { devices = insert tenant.id (index_devices tenant ds []) r.devices }),
  none,
)

-- `setTenant`. The loop over the regions reads a field of the transport, which may be nil.
unfoldable pub store_tenant :
    Config → Tenant → Reply (List DeviceResponse) → Registry → Registry × Outcome (Option Failure)
unfolding fetch_devices store_devices
store_tenant config tenant reply r =
    let stored = record r { tenants = insert tenant.id tenant r.tenants } in
    if not (is_nil config.regional_fqdns) && not config.has_transport
    then (stored, panics)
    else let (r', e) = store_devices tenant (fetch_devices tenant reply) stored in (r', returns e)

-- `SetTenant` returns the tenant in any case.
unfoldable pub set_tenant :
    Config
    → (id name api_token : String) → Reply (List DeviceResponse)
    → Registry
    → Registry × Outcome (Tenant × Option Failure)
unfolding store_tenant
set_tenant config id name api_token reply r =
    let tenant : Tenant = record { id = id; name = name; api_token = api_token } in
    let (r', o) = store_tenant config tenant reply r in
    (r', elim o [ panics ↦ panics | returns e ↦ returns (tenant, e) ])

-- The result of a request whose error names the status.
unfoldable pub unlink_error : Reply (Unit {0}) → Option Failure
unfolding get_error
unlink_error (failed e) = some e
unlink_error (error_status code e) =
    some (because "failed to unlink tenant" (message (get_error e)))
unlink_error (success _) = none

unfoldable pub unlink_tenant : Tenant → Reply (Unit {0}) → Registry → Registry × Option Failure
unfolding unlink_error
unlink_tenant tenant reply r = (
  record r { tenants = erase tenant.id r.tenants; devices = erase tenant.id r.devices },
  unlink_error reply,
)

pub record RedeemResponse : Type 0 where
  pub token : String
  pub tenant_id : String
  pub tenant_name : String

-- The end of `LinkTenant`: a failure of `setTenant` unlinks the tenant, and the error that is
-- returned is the one that unlinking assigns to the same variable.
unfoldable pub finish_link :
    Tenant
    → Reply (Unit {0})
    → Registry × Outcome (Option Failure)
    → Registry × Outcome (Option Tenant × Option Failure)
unfolding unlink_tenant
finish_link tenant unlinked (r, panics) = (r, panics)
finish_link tenant unlinked (r, returns none) = (r, returns (some tenant, none))
finish_link tenant unlinked (r, returns (some e)) =
    let (r', e') = unlink_tenant tenant unlinked r in (r', returns (none, e'))

-- The replies are those to the redemption, to the fetch of the devices and to the unlinking.
unfoldable pub link_tenant :
    Config
    → Reply RedeemResponse
    → Reply (List DeviceResponse)
    → Reply (Unit {0})
    → Registry
    → Registry × Outcome (Option Tenant × Option Failure)
unfolding get_error store_tenant finish_link
link_tenant config (failed e) fetched unlinked r = (r, returns (none, some e))
link_tenant config (error_status code e) fetched unlinked r =
    (r, returns (none, some (because "failed to redeem OTP" (message (get_error e)))))
link_tenant config (success resp) fetched unlinked r =
    let tenant : Tenant = record {
      id = resp.tenant_id;
      name = resp.tenant_name;
      api_token = resp.token;
    } in
    finish_link tenant unlinked (store_tenant config tenant fetched r)

-- The devices that `loadTenantsDevices` reports as active.
unfoldable pub loaded : Bool → Tenant → List Device → List Device
loaded has_handler tenant [] = []
loaded has_handler tenant (d ∷ ds) =
    let rest = loaded has_handler tenant ds in
    if has_handler then record d { tenant = tenant } ∷ rest else rest

-- `loadTenantsDevices` over the tenants in the order of the range: it ends at the first failure.
unfoldable pub load_tenants_devices :
    Bool → (Tenant → Reply (List DeviceResponse)) → Dict Tenant → Registry → Registry × List Device
unfolding fetch_devices index_devices loaded
load_tenants_devices has_handler fetch [] r = (r, [])
load_tenants_devices has_handler fetch ((key, tenant) ∷ rest) r =
    elim (fetch_devices tenant (fetch tenant)) [
      | err e ↦ (r, [])
      | ok ds ↦
          let r' = record r { devices = insert tenant.id (index_devices tenant ds []) r.devices } in
          let (r'', more) = load_tenants_devices has_handler fetch rest r' in
          (r'', loaded has_handler tenant ds ++ more)
    ]
