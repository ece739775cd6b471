-- ===== src/Examples/Reopened.antt =====
-- A second run of the diagnostics example.
use cloud_sdk_go.Base.{
  ◌≡◌, refl, ℕ, ap, ◌∙◌, subst, inl, inr, String, true, false, none, List, [], ok, is_empty, arith,
  eq_refl, lookup-insert, Result-cases, Option-cases,
}
use cloud_sdk_go.App.Text.{trim_space, trim_space_idem}
use cloud_sdk_go.App.Config.{Config, validate_config, sanitize, check_config, new_app_config}
use cloud_sdk_go.App.Tenants.{
  Tenant, Device, DeviceResponse, Reply, success, Registry, fetch_devices, get_devices,
  reply_result, values, to_devices,
}
use cloud_sdk_go.App.Linking.{
  returns, RedeemResponse, set_tenant, store_tenant, store_devices, index_devices,
}
use cloud_sdk_go.App.Start.{App, new_app}
use cloud_sdk_go.App.Instances.{
  new_registry, CreateAppInstanceResponse, create_app_instance, set_app_instance,
}
use cloud_sdk_go.App.Children.{create_app_instance-adopts, new_app-validates}
use cloud_sdk_go.Examples.Files.{
  Files, IsFaithful, Ending, crashes, exits, continues, load_config, store_config, store-load,
  not_crashed, pair_of,
}
use cloud_sdk_go.Examples.Restart.{new_app-accepts}
use cloud_sdk_go.Examples.Consumer.{Replies, reset}
use cloud_sdk_go.Examples.Instance.{
  AppInstanceConfig, InstanceConfig, Instance, instance_entry, with_tenant, open_instance,
}
use cloud_sdk_go.Examples.Diagnosis.{
  Flags, check_flags, diagnosis_config, keep_or_panic, load_devices, Started, run_diagnosis,
  add_all,
}

-- What `New` makes of a configuration.
new_app-clean :
    (xid : String) (config : Config) (app : App)
    → new_app xid config ≡ ok app
    → (trim_space app.config.id ≡ app.config.id)
      × (is_empty app.config.id ≡ false)
      × (app.config.has_transport ≡ config.has_transport)
unfolding validate_config sanitize check_config
new_app-clean xid config app e =
    ground (arith, new_app-validates xid config app e, trim_space_idem config.id)

-- The instance that `CreateAppInstance` returns.
pub created-clean :
    (xid : String) (created : Reply CreateAppInstanceResponse) (app child : App)
    → create_app_instance xid created app ≡ ok child
    → (trim_space child.config.id ≡ child.config.id) × (is_empty child.config.id ≡ false)
unfolding create_app_instance set_app_instance
created-clean xid created app child e = elim (Result-cases (reply_result created)) [
  | inr (x, g) ↦ ground (arith, g)
  | inl (resp, g) ↦
      let c = new_app_config app.config app.log_each_message resp.id resp.api_key in
      let k = new_app-clean xid c child (rw (create_app_instance, g) at e) in (k.0, k.1)
]

-- `SetTenant` on new maps, when the cloud lists the devices.
set_tenant-lists :
    (config : Config) (t : Tenant) (ds : List DeviceResponse)
    → config.has_transport ≡ true
    → let (r, o) = set_tenant config t.id t.name t.api_token (success ds) new_registry in
      (o ≡ returns (t, none)) × ((devices : List Device) × (get_devices t r ≡ ok devices))
unfolding set_tenant store_tenant store_devices fetch_devices reply_result get_devices
set_tenant-lists config t ds h =
    let m = index_devices t (to_devices t ds) [] in
    (ground arith, (values m, ground (arith, lookup-insert t.id t.id m [], eq_refl t.id)))

-- The instance that a stored entry opens.
pub record IsReopened (child : App) (t : Tenant) (ending : Ending Instance) : Type 0 where
  pub opened : Instance
  pub ends : ending ≡ continues opened
  pub same_id : opened.app.config.id ≡ child.config.id
  pub same_key : opened.app.config.api_key ≡ child.config.api_key
  pub same_tenant : opened.tenant ≡ t
  pub devices : List Device
  pub listed : get_devices opened.tenant opened.registry ≡ ok devices

pub open_instance-reopens :
    (xid xid' : String) (config : Config) (app child : App) (ac : AppInstanceConfig) (t : Tenant)
    (created : Reply CreateAppInstanceResponse) (redeemed : Reply RedeemResponse)
    (unlinked : Reply (Unit {0})) (ds : List DeviceResponse)
    → trim_space xid ≡ xid
    → is_empty xid ≡ false
    → new_app xid config ≡ ok app
    → config.has_transport ≡ true
    → trim_space child.config.id ≡ child.config.id
    → is_empty child.config.id ≡ false
    → IsReopened child t (
        open_instance xid' created
          (record { redeemed = redeemed; fetched = success ds; unlinked = unlinked })
          (instance_entry ac child t)
          app)
unfolding open_instance create_app_instance set_app_instance reset reply_result
open_instance-reopens xid xid' config app child ac t created redeemed unlinked ds trimmed filled
      made transport clean visible =
    let entry : CreateAppInstanceResponse = record {
      id = child.config.id;
      api_key = child.config.api_key;
    } in
    let (again, opened, id, key, _, _, _) =
      create_app_instance-adopts xid xid' config app entry trimmed filled made (rw clean visible) in
    let c = new_app_config app.config app.log_each_message child.config.id child.config.api_key in
    let has : again.config.has_transport ≡ true =
      (new_app-clean xid' c again opened).2 ∙ (new_app-clean xid config app made).2 ∙ transport in
    let l = set_tenant-lists again.config t ds has in
    let r = (set_tenant again.config t.id t.name t.api_token (success ds) new_registry).0 in
    record {
      opened = record { app = again; registry = r; tenant = t };
      ends = rw (open_instance, opened, l.0, reset, with_tenant) refl;
      same_id = id ∙ clean;
      same_key = key;
      same_tenant = refl;
      devices = l.1.0;
      listed = l.1.1;
    }

linked_app :
    (child : App) (r : Registry) (ending : Ending Tenant) (i : Instance)
    → with_tenant child r ending ≡ continues i
    → child ≡ i.app
linked_app child r crashes i e = absurd (ground arith)
linked_app child r (exits status) i e = absurd (ground arith)
linked_app child r (continues t) i e = ground arith

not_exited : {A : Type 0} {n : ℕ} {a : A} → ◌≡◌ {A = Ending A} (exits n) (continues a) → ⊥
not_exited e = ground arith

continued :
    {D : Type 0} {d d' : D} {i j : Instance}
    → ◌≡◌ {A = D × Ending Instance} (d, continues i) (d', continues j)
    → i ≡ j
continued e = ground arith

-- The instance that is linked was created.
pub opened-created :
    (xid : String) (created : Reply CreateAppInstanceResponse) (replies : Replies)
    (ac : AppInstanceConfig) (app : App) (i : Instance)
    → is_empty ac.otp ≡ false
    → open_instance xid created replies ac app ≡ continues i
    → create_app_instance xid created app ≡ ok i.app
unfolding open_instance
opened-created xid created replies ac app i otp e =
    elim (Result-cases (create_app_instance xid created app)) [
      | inr (x, g) ↦ absurd (not_exited (rw (open_instance, otp, g) at e))
      | inl (child, g) ↦ g ∙ ap ok (linked_app child _ _ i (rw (open_instance, otp, g) at e))
    ]

loads_same :
    (ending : Ending Instance) (st : Started)
    → load_devices ending ≡ continues st
    → ending ≡ continues st.started
unfolding load_devices
loads_same crashes st e = absurd (ground arith)
loads_same (exits status) st e = absurd (ground arith)
loads_same (continues i) st e = elim (Result-cases (get_devices i.tenant i.registry)) [
  | inl (devices, g) ↦ ground (arith, g)
  | inr (x, g) ↦ ground (arith, g)
]

-- A run that goes on after the one-time password was used has stored its instance.
kept_instance :
    {D : Type 0} (files : Files D InstanceConfig) (path : String) (c : InstanceConfig)
    (ending : Ending Instance) (d d' : D) (i : Instance)
    → is_empty c.instance_config.otp ≡ false
    → keep_or_panic files path c ending d ≡ (d', continues i)
    → (ending ≡ continues i)
      × (store_config files
            (record c { instance_config = instance_entry c.instance_config i.app i.tenant })
            path
            d
          ≡ (d', none))
unfolding keep_or_panic
kept_instance files path c crashes d d' i otp e = absurd (ground arith)
kept_instance files path c (exits status) d d' i otp e = absurd (ground arith)
kept_instance files path c (continues j) d d' i otp e =
    let stored = λ (x : Instance).
      store_config files
        (record c { instance_config = instance_entry c.instance_config x.app x.tenant }) path d in
    elim (Option-cases (stored j).1) [
      | inl n ↦
          let e' = rw (keep_or_panic, otp, n) at e in
          let q = continued e' in
          (
            ap continues q,
            subst (λ x. stored x ≡ (d', none)) q (pair_of (stored j) (ap (λ p. p.0) e') n),
          )
      | inr (x, n) ↦ absurd (not_crashed (rw (keep_or_panic, otp, n) at e))
    ]

-- A run of the diagnostics example that used its one-time password and went on has stored what the
-- next run needs: with the same flags, whatever the cloud replies to the creation of an instance or
-- to a redemption, the next run goes on with the same tenant, in an instance with the same id and
-- key, if the cloud lists the devices; and the disk stays as it is. The fresh group id of the next
-- run is not empty and has no white space at its ends, and the file system and the YAML library
-- are such that what is written is read.
pub diagnosis_restarts :
    {D : Type 0} (files : Files D InstanceConfig) (flags : Flags) (xid xid' xid2 xid3 : String)
    (created created2 : Reply CreateAppInstanceResponse) (replies : Replies)
    (redeemed : Reply RedeemResponse) (unlinked : Reply (Unit {0})) (ds : List DeviceResponse)
    (d d' : D) (c : InstanceConfig) (first : Started)
    → IsFaithful files
    → trim_space xid2 ≡ xid2
    → is_empty xid2 ≡ false
    → load_config files flags.config_file d ≡ ok c
    → is_empty c.instance_config.otp ≡ false
    → run_diagnosis files flags xid xid' created replies d ≡ (d', continues first)
    → (again : Started) × (run_diagnosis files flags xid2 xid3 created2
          (record { redeemed = redeemed; fetched = success ds; unlinked = unlinked })
          d'
        ≡ (d', continues again))
      × (again.started.tenant ≡ first.started.tenant)
      × (again.started.app.config.id ≡ first.started.app.config.id)
      × (again.started.app.config.api_key ≡ first.started.app.config.api_key)
unfolding run_diagnosis keep_or_panic load_devices diagnosis_config
diagnosis_restarts files flags xid xid' xid2 xid3 created created2 replies redeemed unlinked ds d d'
      c first law trimmed filled loads otp e =
    let path = flags.config_file in
    let config = diagnosis_config flags c.app in
    elim (Result-cases (check_flags flags)) [
      | inr (x, f) ↦ absurd (not_exited (ap (λ p. p.1) (rw (run_diagnosis, f) at e)))
      | inl (u, f) ↦ elim (Result-cases (new_app xid config)) [
        | inr (x, n) ↦ absurd (not_crashed (rw (run_diagnosis, f, loads, n) at e))
        | inl (app, n) ↦
            let opening = open_instance xid' created replies c.instance_config app in
            let kept = keep_or_panic files path c opening d in
            let e' = rw (run_diagnosis, f, loads, n) at e in
            let l = loads_same kept.1 first (ap (λ p. p.1) e') in
            let k =
              kept_instance files path c opening d d' first.started otp
                (pair_of kept (ap (λ p. p.0) e') l) in
            let made =
              opened-created xid' created replies c.instance_config app first.started otp k.0 in
            let clean = created-clean xid' created app first.started.app made in
            let (app2, n2, _, _) = new_app-accepts xid xid2 config app n in
            let entry = instance_entry c.instance_config first.started.app first.started.tenant in
            let c2 : InstanceConfig = record c { instance_config = entry } in
            let o =
              open_instance-reopens xid2 xid3 config app2 first.started.app c.instance_config
                first.started.tenant created2 redeemed unlinked ds trimmed filled n2 refl clean.0
                clean.1 in
            let loads2 = store-load files c2 path d d' law k.1 in
            (
              record { started = o.opened; devices = add_all o.devices [] },
              rw (run_diagnosis, f, loads2, n2, o.ends, load_devices, o.listed) refl,
              o.same_tenant,
              o.same_id,
              o.same_key,
            )
      ]
    ]
