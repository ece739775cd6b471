-- ===== src/Examples/Multi.antt =====
-- A second run of the multi-instance example.
use cloud_sdk_go.Base.{
  ◌≡◌, refl, ap, inl, inr, String, false, none, List, ok, err, is_empty, arith, Result-cases,
}
use cloud_sdk_go.App.Text.{trim_space}
use cloud_sdk_go.App.Tenants.{DeviceResponse, Reply, success, get_devices}
use cloud_sdk_go.App.Linking.{RedeemResponse}
use cloud_sdk_go.App.Start.{new_app}
use cloud_sdk_go.App.Instances.{CreateAppInstanceResponse}
use cloud_sdk_go.Examples.Files.{
  Files, IsFaithful, Ending, crashes, exits, continues, load_config, store_config, store-load,
  not_crashed,
}
use cloud_sdk_go.Examples.Restart.{new_app-accepts}
use cloud_sdk_go.Examples.Consumer.{Replies, sdk_config}
use cloud_sdk_go.Examples.Instance.{
  InstanceConfig, Instance, instance_entry, open_instance, keep_instance, run_multi_instance,
}
use cloud_sdk_go.Examples.Reopened.{created-clean, opened-created, open_instance-reopens}

-- The last part of a run that goes on.
opened_instance :
    {A : Type 0} (x y : A) (ending : Ending Instance) (i : Instance)
    → ◌≡◌ {A = A × Ending Instance}
        (
          x,
          elim ending [
            | crashes ↦ crashes
            | exits status ↦ exits status
            | continues i ↦ elim (get_devices i.tenant i.registry) [
              | err e ↦ exits 255
              | ok devices ↦ continues i
            ]
          ],
        )
        (y, continues i)
    → ending ≡ continues i
opened_instance x y crashes i e = absurd (ground arith)
opened_instance x y (exits status) i e = absurd (ground arith)
opened_instance x y (continues j) i e = elim (Result-cases (get_devices j.tenant j.registry)) [
  | inl (devices, g) ↦ rw g at (ap (λ p. p.1) e)
  | inr (f, g) ↦ ground (arith, g)
]

-- A run of the multi-instance example that used its one-time password, went on and could store what
-- it got lets the next run go on with the same tenant, in an instance with the same id and key,
-- whatever the cloud replies to the creation of an instance or to a redemption, if it lists the
-- devices.
pub multi_instance_restarts :
    {D : Type 0} (files : Files D InstanceConfig) (path group xid xid' xid2 xid3 : String)
    (created created2 : Reply CreateAppInstanceResponse) (replies : Replies)
    (redeemed : Reply RedeemResponse) (unlinked : Reply (Unit {0})) (ds : List DeviceResponse)
    (d d' : D) (c : InstanceConfig) (i : Instance)
    → IsFaithful files
    → trim_space xid2 ≡ xid2
    → is_empty xid2 ≡ false
    → load_config files path d ≡ ok c
    → is_empty c.instance_config.otp ≡ false
    → store_config files
        (record c { instance_config = instance_entry c.instance_config i.app i.tenant })
        path
        d
      ≡ (d', none)
    → run_multi_instance files path group xid xid' false created replies d ≡ (d', continues i)
    → (again : Instance) × (run_multi_instance files path group xid2 xid3 false created2
          (record { redeemed = redeemed; fetched = success ds; unlinked = unlinked })
          d'
        ≡ (d', continues again))
      × (again.tenant ≡ i.tenant)
      × (again.app.config.id ≡ i.app.config.id)
      × (again.app.config.api_key ≡ i.app.config.api_key)
unfolding run_multi_instance keep_instance sdk_config
multi_instance_restarts files path group xid xid' xid2 xid3 created created2 replies redeemed
      unlinked ds d d' c i law trimmed filled loads otp stored e =
    let config = sdk_config group c.app in
    elim (Result-cases (new_app xid config)) [
      | inr (x, n) ↦ absurd (not_crashed (rw (run_multi_instance, loads, n) at e))
      | inl (app, n) ↦
          let opening = open_instance xid' created replies c.instance_config app in
          let l = opened_instance _ d' opening i (rw (run_multi_instance, loads, n) at e) in
          let made = opened-created xid' created replies c.instance_config app i otp l in
          let clean = created-clean xid' created app i.app made in
          let (app2, n2, _, _) = new_app-accepts xid xid2 config app n in
          let c2 : InstanceConfig = record c {
            instance_config = instance_entry c.instance_config i.app i.tenant;
          } in
          let o =
            open_instance-reopens xid2 xid3 config app2 i.app c.instance_config i.tenant created2
              redeemed unlinked ds trimmed filled n2 refl clean.0 clean.1 in
          let loads2 = store-load files c2 path d d' law stored in
          (
            o.opened,
            rw (run_multi_instance, loads2, n2, o.ends, keep_instance, o.listed) refl,
            o.same_tenant,
            o.same_id,
            o.same_key,
          )
    ]
