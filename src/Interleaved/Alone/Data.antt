-- ===== src/Interleaved/Alone/Data.antt =====
-- `dataMsgHandler`, step by step and at once.
use cloud_sdk_go.Base.{
  ◌≡◌, refl, ◌∙◌, inl, inr, String, some, Dict, lookup, insert, Bool-cases, Option-cases,
  Result-cases, is_empty,
}
use cloud_sdk_go.App.Config.{Handlers}
use cloud_sdk_go.App.Tenants.{Tenant, get_device_by_id}
use cloud_sdk_go.App.Messages.{header, deliver, data_msg_handler, logged, on_data}
use cloud_sdk_go.Interleaved.Store.{Address, Store, write, view}
use cloud_sdk_go.Interleaved.Threads.{
  Cloud, calls, data_message, data_known, data_mapped, data_fetching, data_storing, step,
}
use cloud_sdk_go.Interleaved.Isolation.{IsIsolated}
use cloud_sdk_go.Interleaved.Alone.{
  run_alone, Matches, run_alone-calls, view-write, lookup-view_maps, quiet_then, ends, same,
}

module _ (handlers : Handlers) (cloud : Cloud) (s : Store) (i : IsIsolated s) where
  on_data_alone :
      (headers : Dict String) (payload : String) (t : Tenant) (a : Address)
      → lookup (header "tenant" headers) s.maps ≡ some a
      → Matches
          (logged (on_data handlers cloud.device t headers payload (s.memory a) (view s)))
          (run_alone handlers cloud 5 (data_mapped headers payload t a) s)
  unfolding on_data deliver step
  on_data_alone headers payload t a f =
      let th = data_mapped headers payload t a in
      let th' = data_fetching headers payload t a in
      elim (Option-cases (lookup (header "device" headers) (s.memory a))) [
        | inr (d, e) ↦
            let e' =
              quiet_then handlers cloud 4 th
                (calls (deliver handlers cloud.device headers d payload)) s s (rw (step, e) refl)
              ∙ run_alone-calls handlers cloud 2 handlers.device_message _ s in
            rw (on_data, e, e') (same s _)
        | inl e ↦
            let e' = quiet_then handlers cloud 4 th th' s s (rw (step, e) refl) in
            elim (Result-cases (get_device_by_id t (cloud.device t (header "device" headers)))) [
              | inl (d, g) ↦
                  let s' = write a (insert d.id d (s.memory a)) s in
                  let st = data_storing headers payload d a in
                  let g' =
                    quiet_then handlers cloud 3 th' st s s (rw (step, g) refl)
                    ∙ quiet_then handlers cloud 2 st
                        (calls (deliver handlers cloud.device headers d payload)) s s' refl
                    ∙ run_alone-calls handlers cloud 0 handlers.device_message _ s' in
                  rw (on_data, e, g, e', g')
                    (
                      refl,
                      refl,
                      λ k. refl,
                      λ k.
                          view-write k (header "tenant" headers) a (insert d.id d (s.memory a)) s i
                            f,
                    )
              | inr (x, g) ↦
                  rw (on_data, e, g, e', ends handlers cloud 3 th' s (rw (step, g) refl)) (same s _)
            ]
      ]

  -- A data message that no other goroutine interrupts is handled as in the sequential model: in 7
  -- steps the call has ended, with the same callbacks, tenants and devices.
  pub data_alone :
      (headers : Dict String) (payload : String)
      → Matches
          (logged (data_msg_handler handlers cloud.device headers payload (view s)))
          (run_alone handlers cloud 7 (data_message headers payload) s)
  unfolding data_msg_handler step
  data_alone headers payload =
      let th = data_message headers payload in
      let key = header "tenant" headers in
      elim (Bool-cases (is_empty key)) [
        | inl x ↦ rw (x, ends handlers cloud 6 th s (rw (step, x) refl)) (same s _)
        | inr x ↦ elim (Bool-cases (is_empty (header "device" headers))) [
          | inl y ↦ rw (x, y, ends handlers cloud 6 th s (rw (step, x, y) refl)) (same s _)
          | inr y ↦ elim (Option-cases (lookup key s.tenants)) [
            | inl e ↦ rw (x, y, e, ends handlers cloud 6 th s (rw (step, x, y, e) refl)) (same s _)
            | inr (t, e) ↦
                let th' = data_known headers payload t in
                let e' = quiet_then handlers cloud 6 th th' s s (rw (step, x, y, e) refl) in
                elim (Option-cases (lookup key s.maps)) [
                  | inl f ↦
                      rw
                        (
                          x,
                          y,
                          e,
                          lookup-view_maps key s.memory s.maps,
                          f,
                          e',
                          ends handlers cloud 5 th' s (rw (step, f) refl),
                        )
                        (same s _)
                  | inr (a, f) ↦
                      rw
                        (
                          x,
                          y,
                          e,
                          lookup-view_maps key s.memory s.maps,
                          f,
                          e',
                          quiet_then handlers cloud 5 th' (data_mapped headers payload t a) s s
                              (rw (step, f) refl),
                        )
                        (on_data_alone headers payload t a f)
                ]
          ]
        ]
      ]
