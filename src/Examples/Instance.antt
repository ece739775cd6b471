-- ===== src/Examples/Instance.antt =====
-- The programs that work with an application instance (examples/multi-instance/main.go and
-- examples/read-stream-diagnostics/main.go).
--
-- The one-time password goes only into the request of `LinkTenant`. What the cloud replies is an
-- argument, and so are the fresh ids that `New` uses where a configuration has no group.
use cloud_sdk_go.Base.{String, Bool, ok, err, is_empty, if◌then◌else◌}
use cloud_sdk_go.App.Tenants.{Tenant, Reply, Registry, get_devices}
use cloud_sdk_go.App.Linking.{set_tenant, link_tenant}
use cloud_sdk_go.App.Start.{App, new_app}
use cloud_sdk_go.App.Instances.{
  CreateAppInstanceResponse, new_registry, create_app_instance, set_app_instance,
}
use cloud_sdk_go.Examples.Files.{
  Files, Ending, crashes, exits, continues, load_config, store_config,
}
use cloud_sdk_go.Examples.Consumer.{AppConfig, Replies, sdk_config, linked, reset}

-- `tenantConfig`, without a one-time password.
pub record TenantEntry : Type 0 where
  pub id : String
  pub name : String
  pub token : String

pub record AppInstanceConfig : Type 0 where
  pub otp : String
  pub name : String
  pub id : String
  pub api_key : String
  pub tenant : TenantEntry

pub record InstanceConfig : Type 0 where
  pub app : AppConfig
  pub instance_config : AppInstanceConfig

-- What is kept of an instance and its tenant.
abbrev pub instance_entry : AppInstanceConfig → App → Tenant → AppInstanceConfig
instance_entry ac child t = record ac {
  otp = "";
  id = child.config.id;
  api_key = child.config.api_key;
  tenant = record { id = t.id; name = t.name; token = t.api_token };
}

-- An instance with its maps and its tenant.
pub record Instance : Type 0 where
  pub app : App
  pub registry : Registry
  pub tenant : Tenant

abbrev pub with_tenant : App → Registry → Ending Tenant → Ending Instance
with_tenant child r crashes = crashes
with_tenant child r (exits status) = exits status
with_tenant child r (continues t) = continues (record { app = child; registry = r; tenant = t })

-- The two branches on the one-time password.
unfoldable pub open_instance :
    String → Reply CreateAppInstanceResponse → Replies → AppInstanceConfig → App → Ending Instance
unfolding create_app_instance set_app_instance link_tenant set_tenant linked reset
open_instance xid created replies ac app =
    if is_empty ac.otp
    then elim (set_app_instance xid ac.id ac.api_key app) [
      | err e ↦ exits 255
      | ok child ↦
          let t = ac.tenant in
          let (r, o) = set_tenant child.config t.id t.name t.token replies.fetched new_registry in
          with_tenant child r (reset o)
    ]
    else elim (create_app_instance xid created app) [
      | err e ↦ exits 255
      | ok child ↦
          let (r, o) =
            link_tenant child.config replies.redeemed replies.fetched replies.unlinked
              new_registry in
          with_tenant child r (linked o)
    ]

module _ {D : Type 0} (files : Files D InstanceConfig) where
  -- The error of the store is dropped.
  unfoldable pub keep_instance : String → InstanceConfig → Ending Instance → D → D
  unfolding store_config
  keep_instance path c crashes d = d
  keep_instance path c (exits status) d = d
  keep_instance path c (continues i) d =
      let ac = c.instance_config in
      if is_empty ac.otp
      then d
      else (store_config files (record c { instance_config = instance_entry ac i.app i.tenant })
          path d).0

  -- `main` of multi-instance, up to the wait for a signal or an error. With the flag for deletion
  -- it deletes the instance, whatever the reply to that.
  unfoldable pub run_multi_instance :
      (path group xid xid' : String)
      → (delete_instance : Bool) → Reply CreateAppInstanceResponse
      → Replies
      → D
      → D × Ending Instance
  unfolding load_config new_app sdk_config open_instance keep_instance get_devices
  run_multi_instance path group xid xid' delete_instance created replies d =
      elim (load_config files path d) [
        | err e ↦ (d, crashes)
        | ok c ↦ elim (new_app xid (sdk_config group c.app)) [
          | err e ↦ (d, crashes)
          | ok app ↦
              let ending = open_instance xid' created replies c.instance_config app in
              if delete_instance then (d, exits 0) else (
                keep_instance path c ending d,
                elim ending [
                  | crashes ↦ crashes
                  | exits status ↦ exits status
                  | continues i ↦ elim (get_devices i.tenant i.registry) [
                    | err e ↦ exits 255
                    | ok devices ↦ continues i
                  ]
                ],
              )
        ]
      ]
