-- ===== src/Interleaved/Alone/Control.antt =====
-- `controlMsgHandler`, step by step and at once.
use cloud_sdk_go.Base.{
  ◌≡◌, refl, ◌∙◌, inl, inr, String, true, false, some, lookup, insert, erase, lookup-erase, str_eq,
  Bool-cases, Option-cases, Result-cases, ok, arith,
}
use cloud_sdk_go.App.Config.{Handlers}
use cloud_sdk_go.App.Tenants.{Tenant, get_device_by_id}
use cloud_sdk_go.App.Messages.{
  ControlPayload, control_msg_handler, logged, on_activate, on_deactivate, on_disconnect,
  on_control, when, activated, deactivated, unlinked,
}
use cloud_sdk_go.Interleaved.Store.{Address, Store, write, view, view_maps}
use cloud_sdk_go.Interleaved.Threads.{
  Cloud, calls, control, control_known, control_mapped, activating, removing, fetching_removed,
  disconnecting, control_step, step,
}
use cloud_sdk_go.Interleaved.Isolation.{IsIsolated}
use cloud_sdk_go.Interleaved.Alone.{
  run_alone, Matches, run_alone-calls, view-write, lookup-view_maps, quiet_then, ends, same,
}

view-erase :
    (k j : String) (s : Store)
    → lookup k (view_maps s.memory (erase j s.maps)) ≡ lookup k (erase j (view s).devices)
view-erase k j s =
    rw
      (
        lookup-view_maps k s.memory (erase j s.maps),
        lookup-erase k j s.maps,
        lookup-erase k j (view s).devices,
        lookup-view_maps k s.memory s.maps,
      )
      (ground arith)

module _ (handlers : Handlers) (cloud : Cloud) (s : Store) (i : IsIsolated s) where
  module _ (p : ControlPayload) (t : Tenant) (a : Address)
      (f : lookup p.tenant s.maps ≡ some a) where
    on_activate_alone :
        str_eq p.kind "device:activate" ≡ true
        → Matches
            (logged (on_activate handlers cloud.device t p (s.memory a) (view s)))
            (run_alone handlers cloud 5 (control_mapped p t a) s)
    unfolding on_activate step control_step
    on_activate_alone b =
        let th = control_mapped p t a in
        elim (Result-cases (get_device_by_id t (cloud.device t p.device))) [
          | inr (x, g) ↦
              rw (on_activate, g, ends handlers cloud 4 th s (rw (step, control_step, b, g) refl))
                (same s _)
          | inl (d, g) ↦
              let th' = activating d a in
              let s' = write a (insert d.id d (s.memory a)) s in
              let e =
                quiet_then handlers cloud 4 th th' s s (rw (step, control_step, b, g) refl)
                ∙ quiet_then handlers cloud 3 th'
                    (calls (when handlers.device_activation (activated d))) s s' refl
                ∙ run_alone-calls handlers cloud 1 handlers.device_activation (activated d) s' in
              rw (on_activate, g, e)
                (
                  refl,
                  refl,
                  λ k. refl,
                  λ k. view-write k p.tenant a (insert d.id d (s.memory a)) s i f,
                )
        ]

    on_deactivate_alone :
        str_eq p.kind "device:activate" ≡ false
        → str_eq p.kind "device:deactivate" ≡ true
        → Matches
            (logged (on_deactivate handlers cloud.device t p (s.memory a) (view s)))
            (run_alone handlers cloud 5 (control_mapped p t a) s)
    unfolding on_deactivate step control_step
    on_deactivate_alone b c =
        let th = control_mapped p t a in
        elim (Option-cases (lookup p.device (s.memory a))) [
          | inr (d, e) ↦
              let th' = removing p.device d a in
              let s' = write a (erase p.device (s.memory a)) s in
              let q =
                quiet_then handlers cloud 4 th th' s s (rw (step, control_step, b, c, e) refl)
                ∙ quiet_then handlers cloud 3 th'
                    (calls (when handlers.device_deactivation (deactivated d))) s s' refl
                ∙ run_alone-calls handlers cloud 1 handlers.device_deactivation (deactivated d)
                    s' in
              rw (on_deactivate, e, q)
                (
                  refl,
                  refl,
                  λ k. refl,
                  λ k. view-write k p.tenant a (erase p.device (s.memory a)) s i f,
                )
          | inl e ↦
              let th' = fetching_removed p t in
              let q =
                quiet_then handlers cloud 4 th th' s s (rw (step, control_step, b, c, e) refl) in
              elim (Result-cases (get_device_by_id t (cloud.device t p.device))) [
                | inr (x, g) ↦
                    rw (on_deactivate, e, g, q, ends handlers cloud 3 th' s (rw (step, g) refl))
                      (same s _)
                | inl (d, g) ↦
                    let q' =
                      quiet_then handlers cloud 3 th'
                        (calls (when handlers.device_deactivation (deactivated d))) s s
                        (rw (step, g) refl)
                      ∙ run_alone-calls handlers cloud 1 handlers.device_deactivation
                          (deactivated d) s in
                    rw (on_deactivate, e, g, q, q') (same s _)
              ]
        ]

    on_disconnect_alone :
        str_eq p.kind "device:activate" ≡ false
        → str_eq p.kind "device:deactivate" ≡ false
        → str_eq p.kind "app:connect" ≡ false
        → str_eq p.kind "app:disconnect" ≡ true
        → Matches
            (logged (on_disconnect handlers cloud.device t p (view s)))
            (run_alone handlers cloud 5 (control_mapped p t a) s)
    unfolding on_disconnect step control_step
    on_disconnect_alone b c d e =
        let th = control_mapped p t a in
        let th' = disconnecting p t in
        let s' : Store = record s { tenants = erase p.tenant s.tenants } in
        let s'' : Store = record s' { maps = erase p.tenant s.maps } in
        let q =
          quiet_then handlers cloud 4 th th' s s' (rw (step, control_step, b, c, d, e) refl)
          ∙ quiet_then handlers cloud 3 th' (calls (when handlers.tenant_unlinked (unlinked t))) s'
              s'' refl
          ∙ run_alone-calls handlers cloud 1 handlers.tenant_unlinked (unlinked t) s'' in
        rw (on_disconnect, q) (refl, refl, λ k. refl, λ k. view-erase k p.tenant s)

    on_control_alone :
        Matches
          (logged (on_control handlers cloud.device t p (s.memory a) (view s)))
          (run_alone handlers cloud 5 (control_mapped p t a) s)
    unfolding on_control step control_step
    on_control_alone =
        let th = control_mapped p t a in
        elim (Bool-cases (str_eq p.kind "device:activate")) [
          | inl b ↦ rw (on_control, b) (on_activate_alone b)
          | inr b ↦ elim (Bool-cases (str_eq p.kind "device:deactivate")) [
            | inl c ↦ rw (on_control, b, c) (on_deactivate_alone b c)
            | inr c ↦ elim (Bool-cases (str_eq p.kind "app:connect")) [
              | inl d ↦
                  rw
                    (
                      on_control,
                      b,
                      c,
                      d,
                      ends handlers cloud 4 th s (rw (step, control_step, b, c, d) refl),
                    )
                    (same s _)
              | inr d ↦ elim (Bool-cases (str_eq p.kind "app:disconnect")) [
                | inl e ↦ rw (on_control, b, c, d, e) (on_disconnect_alone b c d e)
                | inr e ↦
                    rw
                      (
                        on_control,
                        b,
                        c,
                        d,
                        e,
                        ends handlers cloud 4 th s (rw (step, control_step, b, c, d, e) refl),
                      )
                      (same s _)
              ]
            ]
          ]
        ]

  -- A control message that no other goroutine interrupts is handled as in the sequential model: in
  -- 7 steps the call has ended, with the same callbacks, tenants and devices.
  pub control_alone :
      (p : ControlPayload)
      → Matches
          (logged (control_msg_handler handlers cloud.device (ok p) (view s)))
          (run_alone handlers cloud 7 (control p) s)
  unfolding control_msg_handler step
  control_alone p =
      let th = control p in
      elim (Option-cases (lookup p.tenant s.tenants)) [
        | inl e ↦
            rw (control_msg_handler, e, ends handlers cloud 6 th s (rw (step, e) refl)) (same s _)
        | inr (t, e) ↦
            let th' = control_known p t in
            let e' = quiet_then handlers cloud 6 th th' s s (rw (step, e) refl) in
            elim (Option-cases (lookup p.tenant s.maps)) [
              | inl f ↦
                  rw
                    (
                      control_msg_handler,
                      e,
                      lookup-view_maps p.tenant s.memory s.maps,
                      f,
                      e',
                      ends handlers cloud 5 th' s (rw (step, f) refl),
                    )
                    (same s _)
              | inr (a, f) ↦
                  rw
                    (
                      control_msg_handler,
                      e,
                      lookup-view_maps p.tenant s.memory s.maps,
                      f,
                      e',
                      quiet_then handlers cloud 5 th' (control_mapped p t a) s s
                          (rw (step, f) refl),
                    )
                    (on_control_alone p t a f)
            ]
      ]
