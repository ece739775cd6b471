-- ===== src/App/Links.antt =====
-- The maps stay sound in every session, and how linking can go wrong.
use cloud_sdk_go.Base.{
  ◌≡◌, refl, ◌≢◌, ◌↔◌, Bool, inl, inr, String, true, false, Option, none, some, List, [], ◌∷◌, Dict,
  lookup, insert, lookup-insert, eq_iff, str_eq, Bool-cases, eq_refl, not, ◌&&◌, Result, ok, err,
  Failure, arith,
}
use cloud_sdk_go.App.Config.{Config}
use cloud_sdk_go.App.Tenants.{
  Tenant, Device, DeviceResponse, Reply, failed, error_status, success, Registry, fetch_devices,
  reply_result,
}
use cloud_sdk_go.App.Linking.{
  Outcome, panics, returns, RedeemResponse, is_nil, index_devices, store_devices, store_tenant,
  set_tenant, unlink_tenant, unlink_error, finish_link, link_tenant,
}
use cloud_sdk_go.App.Messages.{ControlPayload, Message, read_stream_handler}
use cloud_sdk_go.App.Registry.{
  Agrees, IsSound, IsKeyed, insert-IsKeyed, devices-IsSound, erase-IsSound,
}
use cloud_sdk_go.App.Delivery.{read_stream_handler-IsGood}

pub index_devices-IsKeyed :
    (t : Tenant) (ds : List Device) (m : Dict Device)
    → IsKeyed t.id m
    → IsKeyed t.id (index_devices t ds m)
unfolding index_devices
index_devices-IsKeyed t [] m h = h
index_devices-IsKeyed t (d ∷ ds) m h =
    index_devices-IsKeyed t ds (insert d.id (record d { tenant = t }) m)
      (insert-IsKeyed t.id (record d { tenant = t }) m refl h)

pub no_devices-IsKeyed : (k : String) → IsKeyed k []
unfolding lookup
no_devices-IsKeyed k id = tt

same-Agrees :
    (t : Tenant) (o : Option Tenant) (p : Option (Dict Device))
    → Agrees t.id o p
    → Agrees t.id (some t) p
same-Agrees t o none a = refl
same-Agrees t none (some m) a = absurd a
same-Agrees t (some u) (some m) a = (refl, a.1)

-- A tenant that is stored under its id.
tenant-IsSound :
    (t : Tenant) (r : Registry)
    → IsSound r
    → IsSound (record r { tenants = insert t.id t r.tenants })
tenant-IsSound t r s j = rw (lookup-insert j t.id t r.tenants) (elim (Bool-cases (str_eq t.id j)) [
  | inl same ↦
      rw (same, ← (eq_iff t.id j).0 same)
        (same-Agrees t (lookup t.id r.tenants) (lookup t.id r.devices) (s t.id))
  | inr other ↦ rw other (s j)
])

store_devices-IsSound :
    (t : Tenant) (fetched : Result (List Device)) (r : Registry)
    → lookup t.id r.tenants ≡ some t
    → IsSound r
    → IsSound (store_devices t fetched r).0
unfolding store_devices
store_devices-IsSound t (err e) r l s = s
store_devices-IsSound t (ok ds) r l s =
    devices-IsSound t t.id (index_devices t ds []) r l refl
      (index_devices-IsKeyed t ds [] (no_devices-IsKeyed t.id)) s

stored_tenant : (t : Tenant) (r : Registry) → lookup t.id (insert t.id t r.tenants) ≡ some t
stored_tenant t r = rw (lookup-insert t.id t.id t r.tenants, eq_refl t.id)

store_tenant-IsSound :
    (config : Config) (t : Tenant) (reply : Reply (List DeviceResponse)) (r : Registry)
    → IsSound r
    → IsSound (store_tenant config t reply r).0
unfolding store_tenant
store_tenant-IsSound config t reply r s =
    let stored : Registry = record r { tenants = insert t.id t r.tenants } in
    let held = tenant-IsSound t r s in
    elim (Bool-cases (not (is_nil config.regional_fqdns) && not config.has_transport)) [
      | inl bad ↦ rw bad held
      | inr fine ↦
          rw fine (store_devices-IsSound t (fetch_devices t reply) stored (stored_tenant t r) held)
    ]

-- A call of the application, or a message, with the replies that it receives.
pub data Call : Type 0 where
  sets : (id name api_token : String) → Reply (List DeviceResponse) → Call
  links : Reply RedeemResponse → Reply (List DeviceResponse) → Reply (Unit {0}) → Call
  unlinks : Tenant → Reply (Unit {0}) → Call
  receives : Message → (Tenant → String → Reply DeviceResponse) → Call

module _ (config : Config) (decode : String → Result ControlPayload) where
  pub call : Call → Registry → Registry
  call (sets id name token reply) r = (set_tenant config id name token reply r).0
  call (links redeemed fetched unlinked) r = (link_tenant config redeemed fetched unlinked r).0
  call (unlinks t reply) r = (unlink_tenant t reply r).0
  call (receives msg fetch) r = (read_stream_handler config.handlers fetch decode msg r).0

  pub calls : List Call → Registry → Registry
  calls [] r = r
  calls (c ∷ cs) r = calls cs (call c r)

  unlink_tenant-IsSound :
      (t : Tenant) (reply : Reply (Unit {0})) (r : Registry)
      → IsSound r
      → IsSound (unlink_tenant t reply r).0
  unfolding unlink_tenant
  unlink_tenant-IsSound t reply r s = erase-IsSound t.id r s

  finish_link-IsSound :
      (t : Tenant) (reply : Reply (Unit {0})) (x : Registry × Outcome (Option Failure))
      → IsSound x.0
      → IsSound (finish_link t reply x).0
  unfolding finish_link
  finish_link-IsSound t reply (r, panics) s = s
  finish_link-IsSound t reply (r, returns none) s = s
  finish_link-IsSound t reply (r, returns (some e)) s = erase-IsSound t.id r s

  link_tenant-IsSound :
      (redeemed : Reply RedeemResponse) (fetched : Reply (List DeviceResponse))
      (unlinked : Reply (Unit {0})) (r : Registry)
      → IsSound r
      → IsSound (link_tenant config redeemed fetched unlinked r).0
  unfolding link_tenant
  link_tenant-IsSound (failed e) fetched unlinked r s = s
  link_tenant-IsSound (error_status code e) fetched unlinked r s = s
  link_tenant-IsSound (success resp) fetched unlinked r s =
      let t : Tenant = record {
        id = resp.tenant_id;
        name = resp.tenant_name;
        api_token = resp.token;
      } in
      finish_link-IsSound t unlinked (store_tenant config t fetched r)
        (store_tenant-IsSound config t fetched r s)

  set_tenant-IsSound :
      (id name token : String) (reply : Reply (List DeviceResponse)) (r : Registry)
      → IsSound r
      → IsSound (set_tenant config id name token reply r).0
  unfolding set_tenant
  set_tenant-IsSound id name token reply r s =
      store_tenant-IsSound config (record { id = id; name = name; api_token = token }) reply r s

  calls-IsSound : (cs : List Call) (r : Registry) → IsSound r → IsSound (calls cs r)
  unfolding calls call
  calls-IsSound [] r s = s
  calls-IsSound (sets id name token reply ∷ cs) r s =
      calls-IsSound cs (set_tenant config id name token reply r).0
        (set_tenant-IsSound id name token reply r s)
  calls-IsSound (links redeemed fetched unlinked ∷ cs) r s =
      calls-IsSound cs (link_tenant config redeemed fetched unlinked r).0
        (link_tenant-IsSound redeemed fetched unlinked r s)
  calls-IsSound (unlinks t reply ∷ cs) r s =
      calls-IsSound cs (unlink_tenant t reply r).0 (unlink_tenant-IsSound t reply r s)
  calls-IsSound (receives msg fetch ∷ cs) r s =
      calls-IsSound cs (read_stream_handler config.handlers fetch decode msg r).0
        (read_stream_handler-IsGood config.handlers fetch decode msg r s).sound

abbrev pub no_tenants : Registry
no_tenants = record { tenants = []; devices = []; connecting = false }

-- In a session that begins with no tenant, after any calls of `SetTenant`, `LinkTenant` and
-- `UnlinkTenant` and any messages, whatever the cloud replies, failures and panics included:
-- tenants stand under their ids, devices under theirs in the map of their own tenant, and no
-- tenant that is not linked has devices.
pub session-IsSound :
    (config : Config) (decode : String → Result ControlPayload) (cs : List Call)
    → IsSound (calls config decode cs no_tenants)
unfolding lookup
session-IsSound config decode cs = calls-IsSound config decode cs no_tenants (λ k. tt)

-- The request was answered with a result: no transport failure and no error status.
abbrev pub is_success {ℓ} : {A : Type ℓ} → Reply A → Bool
is_success (failed e) = false
is_success (error_status code e) = false
is_success (success a) = true

-- With a transport in the configuration, `LinkTenant` returns neither a tenant nor an error exactly
-- when the redemption succeeds, the devices cannot be fetched, be it for a transport failure or for
-- an error status, and the tenant is unlinked without an error.
pub link_tenant_loses_error :
    (config : Config) (redeemed : Reply RedeemResponse) (fetched : Reply (List DeviceResponse))
    (unlinked : Reply (Unit {0})) (r : Registry)
    → config.has_transport ≡ true
    → ((link_tenant config redeemed fetched unlinked r).1 ≡ returns (none, none))
      ↔ ((is_success redeemed ≡ true) × (is_success fetched ≡ false) × (is_success unlinked ≡ true))
unfolding link_tenant store_tenant store_devices fetch_devices finish_link unlink_tenant
    unlink_error reply_result
link_tenant_loses_error config (failed x) fetched unlinked r t = ground arith
link_tenant_loses_error config (error_status c x) fetched unlinked r t = ground arith
link_tenant_loses_error config (success resp) (failed x) (failed y) r t = ground arith
link_tenant_loses_error config (success resp) (failed x) (error_status c y) r t = ground arith
link_tenant_loses_error config (success resp) (failed x) (success y) r t = ground arith
link_tenant_loses_error config (success resp) (error_status d x) (failed y) r t = ground arith
link_tenant_loses_error config (success resp) (error_status d x) (error_status c y) r t =
    ground arith
link_tenant_loses_error config (success resp) (error_status d x) (success y) r t = ground arith
link_tenant_loses_error config (success resp) (success ds) unlinked r t = ground arith

-- Without a transport in the configuration and with a region, `SetTenant` panics, whatever the
-- cloud replies, and leaves the tenant linked with no device map of its own making.
pub set_tenant_panics :
    (config : Config) (id name token : String) (reply : Reply (List DeviceResponse)) (r : Registry)
    → config.has_transport ≡ false
    → config.regional_fqdns ≢ []
    → let (r', o) = set_tenant config id name token reply r in
      (o ≡ panics)
      × (lookup id r'.tenants ≡ some (record { id = id; name = name; api_token = token }))
      × (r'.devices ≡ r.devices)
unfolding set_tenant store_tenant
set_tenant_panics config id name token reply r t n =
    let tenant : Tenant = record { id = id; name = name; api_token = token } in
    ground (arith, stored_tenant tenant r)

-- What `LinkTenant` returns as linked is linked: it returns no error beside it, the tenant stands
-- under its id, it has the devices that were fetched, and the connection is started.
pub link_tenant-linked :
    (config : Config) (redeemed : Reply RedeemResponse) (fetched : Reply (List DeviceResponse))
    (unlinked : Reply (Unit {0})) (r : Registry) (t : Tenant) (e : Option Failure)
    → (link_tenant config redeemed fetched unlinked r).1 ≡ returns (some t, e)
    → let r' = (link_tenant config redeemed fetched unlinked r).0 in
      (e ≡ none)
      × (lookup t.id r'.tenants ≡ some t)
      × (lookup t.id r'.devices ≢ none)
      × (r'.connecting ≡ true)
unfolding link_tenant store_tenant store_devices finish_link
link_tenant-linked config (failed x) fetched unlinked r t e h = cc
link_tenant-linked config (error_status code x) fetched unlinked r t e h = cc
link_tenant-linked config (success resp) fetched unlinked r t e h =
    grind (arith, lookup-insert, eq_refl)
