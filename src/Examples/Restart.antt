-- ===== src/Examples/Restart.antt =====
-- A second run of the basic consumer.
use cloud_sdk_go.Base.{
  ◌≡◌, refl, sym, subst, ℕ, inl, inr, String, true, false, none, some, List, ◌∷◌, ok, is_empty,
  arith, Result-cases, Failure,
}
use cloud_sdk_go.App.Config.{Config, validate_config, sanitize}
use cloud_sdk_go.App.Tenants.{
  Tenant, DeviceResponse, ErrorResponse, Reply, error_status, success, failed, Registry,
  fetch_devices, reply_result,
}
use cloud_sdk_go.App.Linking.{
  RedeemResponse, set_tenant, link_tenant, store_tenant, store_devices, finish_link, unlink_tenant,
  unlink_error,
}
use cloud_sdk_go.App.Start.{App, new_app}
use cloud_sdk_go.Examples.Files.{
  Files, IsFaithful, Ending, crashes, exits, continues, load_config, store_config, store-load,
  not_crashed, pair_of,
}
use cloud_sdk_go.Examples.Consumer.{
  TenantConfig, ConsumerConfig, sdk_config, Replies, linked, reset, tenant_entry, open_tenant,
  keep_tenant, run_consumer,
}

-- `New` accepts a configuration whatever the fresh id is, and keeps the transport.
pub new_app-accepts :
    (xid xid' : String) (config : Config) (app : App)
    → new_app xid config ≡ ok app
    → (app' : App) × (new_app xid' config ≡ ok app')
      × (app'.config.has_transport ≡ config.has_transport)
      × (app.config.has_transport ≡ config.has_transport)
unfolding new_app validate_config sanitize
new_app-accepts xid xid' config app e = elim (Result-cases (new_app xid' config)) [
  | inl (app', q) ↦ (app', q, ground arith, ground arith)
  | inr (x, q) ↦ absurd (ground arith)
]

-- `SetTenant` with a transport, when the cloud lists the devices.
open_tenant-reset :
    (config : Config) (redeemed : Reply RedeemResponse) (unlinked : Reply (Unit {0}))
    (ds : List DeviceResponse) (t : Tenant)
    → config.has_transport ≡ true
    → (open_tenant config
        (record { redeemed = redeemed; fetched = success ds; unlinked = unlinked })
        (tenant_entry t)).1
      ≡ continues t
unfolding open_tenant set_tenant tenant_entry reset store_tenant store_devices fetch_devices
open_tenant-reset config redeemed unlinked ds t h = ground arith

-- A run that goes on has stored the tenant that it goes on with.
continues_kept :
    {D : Type 0} (files : Files D ConsumerConfig) (path : String) (c : ConsumerConfig) (d d' : D)
    (first app : App) (r r1 : Registry) (t : Tenant) (ending : Ending Tenant)
    → is_empty c.tenant.otp ≡ false
    → ◌≡◌ {A = D × Ending (App × Registry × Tenant)}
        (
          keep_tenant files path c.tenant.otp (λ t. record c { tenant = tenant_entry t }) ending d,
          elim ending [
            | crashes ↦ crashes
            | exits status ↦ exits status
            | continues t ↦ continues (first, r1, t)
          ],
        )
        (d', continues (app, r, t))
    → (store_config files (record c { tenant = tenant_entry t }) path d).0 ≡ d'
unfolding keep_tenant
continues_kept files path c d d' first app r r1 t crashes otp e = absurd (ground arith)
continues_kept files path c d d' first app r r1 t (exits status) otp e = absurd (ground arith)
continues_kept files path c d d' first app r r1 t (continues u) otp e = ground arith

-- A second run of the basic consumer finds the tenant that the first one linked: when a run with a
-- one-time password has linked a tenant and stored it, then the next run on the same disk and with
-- the same arguments goes on with the same tenant, whatever the cloud replies to a redemption, if it
-- lists the devices; and the disk stays as it is. The file system and the YAML library are such that
-- what is written is read.
pub consumer_restarts :
    {D : Type 0} (files : Files D ConsumerConfig) (path group xid xid' : String) (replies : Replies)
    (redeemed : Reply RedeemResponse) (unlinked : Reply (Unit {0})) (ds : List DeviceResponse)
    (d d' : D) (c : ConsumerConfig) (app : App) (r : Registry) (t : Tenant)
    → IsFaithful files
    → load_config files path d ≡ ok c
    → is_empty c.tenant.otp ≡ false
    → (store_config files (record c { tenant = tenant_entry t }) path d).1 ≡ none
    → run_consumer files path group xid replies d ≡ (d', continues (app, r, t))
    → (app' : App) × (r' : Registry) × (run_consumer files path group xid'
          (record { redeemed = redeemed; fetched = success ds; unlinked = unlinked })
          d'
        ≡ (d', continues (app', r', t)))
unfolding run_consumer keep_tenant
consumer_restarts files path group xid xid' replies redeemed unlinked ds d d' c app r t law loads
      otp stored e =
    elim (Result-cases (new_app xid (sdk_config group c.app))) [
      | inr (x, n) ↦ absurd (not_crashed (rw (run_consumer, loads, n) at e))
      | inl (first, n) ↦
          let (r1, ending) = open_tenant first.config replies c.tenant in
          let kept =
            continues_kept files path c d d' first app r r1 t ending otp
              (rw (run_consumer, loads, n) at e) in
          let (app', n', transport, _) =
            new_app-accepts xid xid' (sdk_config group c.app) first n in
          let c2 : ConsumerConfig = record c { tenant = tenant_entry t } in
          let loads2 =
            store-load files c2 path d d' law
              (pair_of (store_config files c2 path d) kept stored) in
          let again : Replies = record {
            redeemed = redeemed;
            fetched = success ds;
            unlinked = unlinked;
          } in
          let opens = open_tenant-reset app'.config redeemed unlinked ds t transport in
          (
            app',
            (open_tenant app'.config again (tenant_entry t)).0,
            rw (run_consumer, loads2, n', opens) refl,
          )
    ]

-- The tenant of a redemption.
abbrev pub tenant_of_reply : RedeemResponse → Tenant
tenant_of_reply resp = record {
  id = resp.tenant_id;
  name = resp.tenant_name;
  api_token = resp.token;
}

open_tenant-refused :
    (config : Config) (code : ℕ) (body : ErrorResponse) (fetched : Reply (List DeviceResponse))
    (unlinked : Reply (Unit {0})) (tc : TenantConfig)
    → is_empty tc.otp ≡ false
    → (open_tenant config
        (record { redeemed = error_status code body; fetched = fetched; unlinked = unlinked })
        tc).1
      ≡ exits 255
unfolding open_tenant link_tenant linked
open_tenant-refused config code body fetched unlinked tc otp = ground arith

open_tenant-linked :
    (config : Config) (resp : RedeemResponse) (ds : List DeviceResponse)
    (unlinked : Reply (Unit {0})) (tc : TenantConfig)
    → is_empty tc.otp ≡ false
    → config.has_transport ≡ true
    → (open_tenant config
        (record { redeemed = success resp; fetched = success ds; unlinked = unlinked })
        tc).1
      ≡ continues (tenant_of_reply resp)
unfolding open_tenant link_tenant linked store_tenant store_devices fetch_devices reply_result
    finish_link
open_tenant-linked config resp ds unlinked tc otp h = ground arith

abbrev replies_of : Reply RedeemResponse → Reply (List DeviceResponse) → Reply (Unit {0}) → Replies
replies_of redeemed fetched unlinked = record {
  redeemed = redeemed;
  fetched = fetched;
  unlinked = unlinked;
}

-- A cloud whose one-time passwords are good for one redemption: given those that were redeemed, it
-- answers the redemption of a password.
abbrev pub IsOneTime : (List String → String → Reply RedeemResponse) → Type 0
IsOneTime redeem =
    (otp : String) (used : List String)
    → (code : ℕ) × (body : ErrorResponse) × (redeem (otp ∷ used) otp ≡ error_status code body)

-- A tenant that is linked but not stored is lost: on a cloud where a one-time password is good for
-- one redemption, when the password of the configuration is redeemed, the devices are listed, and
-- the store fails and leaves the disk as it is, the run goes on with the tenant all the same; and
-- the next run redeems the same password again and exits with status 255, whatever the cloud
-- replies to its other requests.
pub unstored_link_lost :
    {D : Type 0} (files : Files D ConsumerConfig) (path group xid xid' : String)
    (redeem : List String → String → Reply RedeemResponse) (used : List String)
    (resp : RedeemResponse) (ds : List DeviceResponse) (fetched : Reply (List DeviceResponse))
    (unlinked unlinked' : Reply (Unit {0})) (d : D) (c : ConsumerConfig) (app : App) (x : Failure)
    → IsOneTime redeem
    → load_config files path d ≡ ok c
    → is_empty c.tenant.otp ≡ false
    → new_app xid (sdk_config group c.app) ≡ ok app
    → redeem used c.tenant.otp ≡ success resp
    → store_config files (record c { tenant = tenant_entry (tenant_of_reply resp) }) path d
      ≡ (d, some x)
    → let first : Replies = record {
      redeemed = redeem used c.tenant.otp;
      fetched = success ds;
      unlinked = unlinked;
    } in
      let second : Replies = record {
        redeemed = redeem (c.tenant.otp ∷ used) c.tenant.otp;
        fetched = fetched;
        unlinked = unlinked';
      } in
      (r : Registry) × (run_consumer files path group xid first d
        ≡ (d, continues (app, r, tenant_of_reply resp)))
      × (run_consumer files path group xid' second d ≡ (d, exits 255))
unfolding run_consumer keep_tenant
unstored_link_lost files path group xid xid' redeem used resp ds fetched unlinked unlinked' d c app
      x once loads otp made redeems unstored =
    let (code, body, again) = once c.tenant.otp used in
    let (app', made', _, transport) = new_app-accepts xid xid' (sdk_config group c.app) app made in
    let goes_on = open_tenant-linked app.config resp ds unlinked c.tenant otp transport in
    let ends = open_tenant-refused app'.config code body fetched unlinked' c.tenant otp in
    let r = (open_tenant app.config (replies_of (success resp) (success ds) unlinked) c.tenant).0 in
    let run = λ (id : String) (q : Replies). run_consumer files path group id q d in
    let first : run xid (replies_of (success resp) (success ds) unlinked)
        ≡ (d, continues (app, r, tenant_of_reply resp)) =
      rw (run_consumer, loads, made, goes_on, keep_tenant, otp, unstored) refl in
    let second : run xid' (replies_of (error_status code body) fetched unlinked') ≡ (d, exits 255) =
      rw (run_consumer, loads, made', ends) refl in
    (
      r,
      subst
          (λ y.
            run xid (replies_of y (success ds) unlinked)
            ≡ (d, continues (app, r, tenant_of_reply resp)))
          (sym redeems) first,
      subst (λ y. run xid' (replies_of y fetched unlinked') ≡ (d, exits 255)) (sym again) second,
    )

open_tenant-unfetched :
    (config : Config) (resp : RedeemResponse) (x : Failure) (tc : TenantConfig)
    → is_empty tc.otp ≡ false
    → config.has_transport ≡ true
    → (open_tenant config
        (record { redeemed = success resp; fetched = failed x; unlinked = success tt })
        tc).1
      ≡ crashes
unfolding open_tenant link_tenant linked store_tenant store_devices fetch_devices reply_result
    finish_link unlink_tenant unlink_error
open_tenant-unfetched config resp x tc otp h = ground arith

-- When the devices of a tenant cannot be fetched after the one-time password was redeemed, and the
-- tenant is then unlinked without an error, the consumer panics: it reads the fields of a tenant
-- that is nil.
pub unfetched_devices_crash :
    {D : Type 0} (files : Files D ConsumerConfig) (path group xid : String) (resp : RedeemResponse)
    (x : Failure) (d : D) (c : ConsumerConfig) (app : App)
    → load_config files path d ≡ ok c
    → is_empty c.tenant.otp ≡ false
    → new_app xid (sdk_config group c.app) ≡ ok app
    → run_consumer files path group xid
        (record { redeemed = success resp; fetched = failed x; unlinked = success tt })
        d
      ≡ (d, crashes)
unfolding run_consumer keep_tenant
unfetched_devices_crash files path group xid resp x d c app loads otp n =
    let (app', n', t', transport) = new_app-accepts xid xid (sdk_config group c.app) app n in
    let crashed = open_tenant-unfetched app.config resp x c.tenant otp transport in
    rw (run_consumer, loads, n, crashed) refl
