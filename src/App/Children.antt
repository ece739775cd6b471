-- ===== src/App/Children.antt =====
-- What an application instance is like.
use cloud_sdk_go.Base.{
  ◌≡◌, ◌≢◌, refl, inl, inr, String, true, false, Option, none, some, List, arith, lookup,
  lookup-insert, eq_refl, is_empty, Result-cases, Failure, ok, err, ◌∙◌, sym, ap,
}
use cloud_sdk_go.App.Config.{Config, new_app_config, validate_config}
use cloud_sdk_go.App.Text.{trim_space}
use cloud_sdk_go.App.Validation.{accepted_child}
use cloud_sdk_go.App.Tenants.{Tenant, DeviceResponse, Reply, success, Registry, reply_result}
use cloud_sdk_go.App.Linking.{Outcome, panics, returns, set_tenant, store_tenant, store_devices}
use cloud_sdk_go.App.Start.{App, new_app}
use cloud_sdk_go.App.Instances.{
  linked_child, new_registry, AppInstanceResponse, CreateAppInstanceResponse, set_app_instance,
  create_app_instance, link_tenant_with_new_app_instance,
}

new_app_ok :
    (xid : String) (config c : Config)
    → validate_config xid config ≡ ok c
    → (app : App) × (new_app xid config ≡ ok app) × (app.config ≡ c)
unfolding new_app
new_app_ok xid config c e = elim (Result-cases (new_app xid config)) [
  | inl (app, made) ↦ (app, made, ground arith)
  | inr (x, failed) ↦ absurd (ground arith)
]

pub new_app-validates :
    (xid : String) (config : Config) (app : App)
    → new_app xid config ≡ ok app
    → validate_config xid config ≡ ok app.config
unfolding new_app
new_app-validates xid config app e = ground arith

-- Whatever visible id and key the cloud assigns to an instance of an application that `New` made,
-- `CreateAppInstance` returns an application with them that has its parent's regions, group and
-- handlers, given that the group id that was generated for the parent is not empty and has no white
-- space at its ends.
pub create_app_instance-adopts :
    (xid xid' : String) (config : Config) (app : App) (resp : CreateAppInstanceResponse)
    → trim_space xid ≡ xid
    → is_empty xid ≡ false
    → new_app xid config ≡ ok app
    → is_empty (trim_space resp.id) ≡ false
    → (child : App) × (create_app_instance xid' (success resp) app ≡ ok child)
      × (child.config.id ≡ trim_space resp.id)
      × (child.config.api_key ≡ resp.api_key)
      × (child.config.regional_fqdns ≡ app.config.regional_fqdns)
      × (child.config.group_id ≡ app.config.group_id)
      × (child.config.handlers ≡ app.config.handlers)
unfolding create_app_instance set_app_instance
create_app_instance-adopts xid xid' config app resp t x made visible =
    let a =
      accepted_child xid xid' config app.config app.log_each_message resp.id resp.api_key t x
        (new_app-validates xid config app made) visible in
    let child =
      new_app_ok xid' (new_app_config app.config app.log_each_message resp.id resp.api_key) a.0
        a.1 in
    (
      child.0,
      child.1,
      ap (λ c. c.id) child.2 ∙ a.2,
      ap (λ c. c.api_key) child.2 ∙ a.3,
      ap (λ c. c.regional_fqdns) child.2 ∙ a.4,
      ap (λ c. c.group_id) child.2 ∙ a.5,
      ap (λ c. c.handlers) child.2 ∙ a.6,
    )

set_tenant-stores :
    (config : Config) (id name token : String) (fetched : Reply (List DeviceResponse))
    (r : Registry) (t : Tenant)
    → (set_tenant config id name token fetched r).1 ≡ returns (t, none)
    → let r' = (set_tenant config id name token fetched r).0 in
      (t.id ≡ id) × (lookup id r'.tenants ≡ some t) × (r'.connecting ≡ true)
unfolding set_tenant store_tenant store_devices
set_tenant-stores config id name token fetched r t e = grind (arith, lookup-insert, eq_refl)

linked_child-lem :
    (made child : App) (r r' : Registry) (o : Outcome (Tenant × Option Failure)) (t : Tenant)
    → linked_child made (r, o) ≡ returns (ok (child, r', t))
    → (r' ≡ r) × (o ≡ returns (t, none))
linked_child-lem made child r r' panics t e = absurd (ground arith)
linked_child-lem made child r r' (returns (tenant, none)) t e = ground arith
linked_child-lem made child r r' (returns (tenant, some x)) t e = absurd (ground arith)

instance_made :
    (xid : String) (resp : AppInstanceResponse) (fetched : Reply (List DeviceResponse))
    (app made : App)
    → set_app_instance xid resp.app_id resp.app_api_key app ≡ ok made
    → link_tenant_with_new_app_instance xid (success resp) fetched app
      ≡ linked_child made (
          set_tenant made.config resp.tenant_id resp.tenant_name resp.tenant_token fetched
            new_registry)
unfolding link_tenant_with_new_app_instance reply_result
instance_made xid resp fetched app made on = rw (on, link_tenant_with_new_app_instance) refl

instance_failed :
    (xid : String) (resp : AppInstanceResponse) (fetched : Reply (List DeviceResponse))
    (app child : App) (r : Registry) (t : Tenant) (x : Failure)
    → set_app_instance xid resp.app_id resp.app_api_key app ≡ err x
    → link_tenant_with_new_app_instance xid (success resp) fetched app ≢ returns (ok (child, r, t))
unfolding link_tenant_with_new_app_instance reply_result
instance_failed xid resp fetched app child r t x failed e = ground arith

-- When `LinkTenantWithNewAppInstance` returns an instance and a tenant for an answer of the cloud,
-- the tenant has the id of the answer, the maps of the instance hold it under that id, and the
-- instance has begun to connect.
pub instance_linked :
    (xid : String) (resp : AppInstanceResponse) (fetched : Reply (List DeviceResponse))
    (app child : App) (r : Registry) (t : Tenant)
    → link_tenant_with_new_app_instance xid (success resp) fetched app ≡ returns (ok (child, r, t))
    → (t.id ≡ resp.tenant_id) × (lookup resp.tenant_id r.tenants ≡ some t) × (r.connecting ≡ true)
instance_linked xid resp fetched app child r t e =
    elim (Result-cases (set_app_instance xid resp.app_id resp.app_api_key app)) [
      | inr (x, failed) ↦ absurd (instance_failed xid resp fetched app child r t x failed e)
      | inl (made, on) ↦
          let linked =
            set_tenant made.config resp.tenant_id resp.tenant_name resp.tenant_token fetched
              new_registry in
          let l =
            linked_child-lem made child linked.0 r linked.1 t
              (sym (instance_made xid resp fetched app made on) ∙ e) in
          let s =
            set_tenant-stores made.config resp.tenant_id resp.tenant_name resp.tenant_token fetched
              new_registry t l.1 in
          rw l.0 s
    ]
