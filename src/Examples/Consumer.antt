-- ===== src/Examples/Consumer.antt =====
-- The basic consumer (examples/basic-consumer/main.go).
--
-- The one-time password goes only into the request of `LinkTenant`. What the cloud replies is an
-- argument, and so is the fresh id that `New` uses where the configuration has no group.
use cloud_sdk_go.Base.{
  String, true, false, Option, none, some, List, pos, Failure, ok, err, is_empty, if◌then◌else◌,
}
use cloud_sdk_go.App.Config.{Handlers, Config}
use cloud_sdk_go.App.Tenants.{Tenant, DeviceResponse, Reply, Registry}
use cloud_sdk_go.App.Linking.{Outcome, panics, returns, RedeemResponse, set_tenant, link_tenant}
use cloud_sdk_go.App.Start.{App, new_app}
use cloud_sdk_go.App.Instances.{new_registry}
use cloud_sdk_go.Examples.Files.{
  Files, Ending, crashes, exits, continues, load_config, store_config,
}

pub record AppConfig : Type 0 where
  pub id : String
  pub api_key : String
  pub global_fqdn : String
  pub regional_fqdn : String
  pub regional_fqdns : List String
  pub read_stream : String
  pub write_stream : String
  pub group_id : String

pub record TenantConfig : Type 0 where
  pub otp : String
  pub id : String
  pub name : String
  pub token : String

pub record ConsumerConfig : Type 0 where
  pub app : AppConfig
  pub tenant : TenantConfig

-- The handlers that the examples set.
abbrev pub example_handlers : Handlers
example_handlers = record {
  device_activation = true;
  device_deactivation = true;
  tenant_unlinked = true;
  device_message = true;
  read_stream_gap = false;
}

-- The SDK's configuration, with the group of the command line.
unfoldable pub sdk_config : String → AppConfig → Config
sdk_config group c = record {
  id = c.id;
  regional_fqdn = c.regional_fqdn;
  regional_fqdns = c.regional_fqdns;
  global_fqdn = c.global_fqdn;
  read_stream_id = c.read_stream;
  write_stream_id = c.write_stream;
  group_id = group;
  has_transport = true;
  has_get_credentials = true;
  api_key = "";
  handlers = example_handlers;
  status_log_interval = pos 0;
  log_each_message = false;
}

-- What the cloud replies to the redemption, to the fetch of the devices and to the unlinking.
pub record Replies : Type 0 where
  pub redeemed : Reply RedeemResponse
  pub fetched : Reply (List DeviceResponse)
  pub unlinked : Reply (Unit {0})

-- After `LinkTenant`: without an error the fields of the tenant are read, also of one that is nil.
unfoldable pub linked : Outcome (Option Tenant × Option Failure) → Ending Tenant
linked panics = crashes
linked (returns (tenant, some e)) = exits 255
linked (returns (none, none)) = crashes
linked (returns (some tenant, none)) = continues tenant

-- After `SetTenant`.
unfoldable pub reset : Outcome (Tenant × Option Failure) → Ending Tenant
reset panics = crashes
reset (returns (tenant, some e)) = exits 255
reset (returns (tenant, none)) = continues tenant

-- What is kept of a tenant that was linked.
unfoldable pub tenant_entry : Tenant → TenantConfig
tenant_entry t = record { otp = ""; id = t.id; name = t.name; token = t.api_token }

-- The two branches on the one-time password.
unfoldable pub open_tenant : Config → Replies → TenantConfig → Registry × Ending Tenant
unfolding link_tenant set_tenant linked reset
open_tenant config replies tc =
    if is_empty tc.otp
    then (let (r, o) = set_tenant config tc.id tc.name tc.token replies.fetched new_registry in
        (r, reset o))
    else (let (r, o) =
          link_tenant config replies.redeemed replies.fetched replies.unlinked new_registry in
        (r, linked o))

-- A tenant that was linked is stored, in the configuration that has it; the error of the store is
-- dropped. The configuration is stored with its regions as they were read: that `New` trims them in
-- the slice that it shares with the configuration is left out, as the next `New` trims them again.
unfoldable pub keep_tenant :
    {D C : Type 0} → Files D C → (path otp : String) → (Tenant → C) → Ending Tenant → D → D
unfolding store_config
keep_tenant files path otp with_tenant crashes d = d
keep_tenant files path otp with_tenant (exits status) d = d
keep_tenant files path otp with_tenant (continues t) d =
    if is_empty otp then d else (store_config files (with_tenant t) path d).0

module _ {D : Type 0} (files : Files D ConsumerConfig) where
  -- `main`, up to the loop that waits for errors and the end.
  unfoldable pub run_consumer :
      (path group xid : String) → Replies → D → D × Ending (App × Registry × Tenant)
  unfolding load_config new_app sdk_config open_tenant keep_tenant tenant_entry
  run_consumer path group xid replies d = elim (load_config files path d) [
    | err e ↦ (d, crashes)
    | ok c ↦ elim (new_app xid (sdk_config group c.app)) [
      | err e ↦ (d, crashes)
      | ok app ↦
          let (r, ending) = open_tenant app.config replies c.tenant in
          (
            keep_tenant files path c.tenant.otp (λ t. record c { tenant = tenant_entry t }) ending
                d,
            elim ending [
              | crashes ↦ crashes
              | exits status ↦ exits status
              | continues t ↦ continues (app, r, t)
            ],
          )
    ]
  ]
