-- ===== src/Interleaved/Alone.antt =====
-- A message handler that no other goroutine interrupts.
pub mod Data
pub mod Control
use cloud_sdk_go.Base.{
  ◌≡◌, refl, ◌∙◌, sym, ap, ◌≢◌, inl, inr, ℕ, zero, suc, ◌+◌, ◌≤◌, String, Bool, true, false, Option,
  none, some, List, [], ◌∷◌, ◌++◌, Dict, lookup, insert, erase, lookup-insert, lookup-erase, eq_iff,
  str_eq, ◌&&◌, ◌==◌, Bool-cases, Option-cases, Result-cases, Result, ok, err, arith, is_empty,
  if◌then◌else◌, eq_refl,
}
use cloud_sdk_go.App.Config.{Handlers}
use cloud_sdk_go.App.Tenants.{Tenant, Device, Registry, DeviceResponse, Reply, get_device_by_id}
use cloud_sdk_go.App.Messages.{
  ControlPayload, Effect, header, deliver, control_msg_handler, data_msg_handler, logged, Handled,
  on_data, on_activate, on_deactivate, on_disconnect, on_control, when, activated, deactivated,
  unlinked,
}
use cloud_sdk_go.Interleaved.Store.{Address, Store, same_address, write, view, view_maps}
use cloud_sdk_go.Interleaved.Threads.{
  Cloud, Thread, done, calls, control, control_known, control_mapped, activating, removing,
  fetching_removed, disconnecting, data_message, data_known, data_mapped, data_fetching,
  data_storing, Stepped, quiet, control_step, step,
}
use cloud_sdk_go.Interleaved.Isolation.{IsIsolated, owner_of_same}

-- The steps of one goroutine, without those of others.
unfoldable pub run_alone : Handlers → Cloud → ℕ → Thread → Store → Stepped
unfolding step
run_alone handlers cloud zero th s = (s, th, [])
run_alone handlers cloud (suc n) th s =
    let (s', th', effects) = step handlers cloud th s in
    let (s'', th'', more) = run_alone handlers cloud n th' s' in (s'', th'', effects ++ more)

-- The same bindings.
abbrev Same : {A : Type 0} → Dict A → Dict A → Type 0
Same m m' = (k : String) → lookup k m ≡ lookup k m'

-- The goroutine has ended, with the maps and the callbacks of the handler.
abbrev pub Matches : Registry × List Effect → Stepped → Type 0
Matches (r, effects) (s, th, effects') =
    (th ≡ done)
    × (effects' ≡ effects)
    × Same (view s).tenants r.tenants
    × Same (view s).devices r.devices

pub lookup-view_maps :
    (k : String) (memory : Address → Dict Device) (maps : Dict Address)
    → lookup k (view_maps memory maps)
      ≡ elim (lookup k maps) [ none ↦ none | some a ↦ some (memory a) ]
unfolding lookup
lookup-view_maps k memory [] = refl
lookup-view_maps k memory ((j, a) ∷ maps) = ground (arith, lookup-view_maps k memory maps)

pub same_address_refl : (a : Address) → same_address a a ≡ true
same_address_refl a = rw (eq_refl a.owner) (ground arith)

different :
    (a b : Address) (j k : String)
    → str_eq j k ≡ false
    → a.owner ≡ j
    → b.owner ≡ k
    → same_address a b ≡ false
different a b j k other p q = elim (Bool-cases (same_address a b)) [
  | inl same ↦ absurd (cc (other, (eq_iff j k).1 (sym p ∙ owner_of_same a b same ∙ q)))
  | inr f ↦ f
]

-- A write at the address of a key replaces the map under that key.
pub view-write :
    (k j : String) (a : Address) (m : Dict Device) (s : Store)
    → IsIsolated s
    → lookup j s.maps ≡ some a
    → lookup k (view (write a m s)).devices ≡ lookup k (insert j m (view s).devices)
view-write k j a m s i e =
    rw
      (
        lookup-view_maps k (write a m s).memory s.maps,
        lookup-insert k j m (view s).devices,
        lookup-view_maps k s.memory s.maps,
      )
      (elim (Bool-cases (str_eq j k)) [
        | inl same ↦
            let q = (eq_iff j k).0 same in rw (same, ← q, e) (rw (same_address_refl a) refl)
        | inr other ↦ elim (Option-cases (lookup k s.maps)) [
          | inl n ↦ rw (other, n) refl
          | inr (b, n) ↦
              rw (other, n)
                (rw (different a b j k other (i.maps_owned j a e) (i.maps_owned k b n)) refl)
        ]
      ])

pub run_alone-done :
    (handlers : Handlers) (cloud : Cloud) (n : ℕ) (s : Store)
    → run_alone handlers cloud n done s ≡ (s, done, [])
unfolding run_alone step
run_alone-done handlers cloud zero s = refl
run_alone-done handlers cloud (suc n) s = rw (run_alone-done handlers cloud n s) refl

-- One callback, if its handler is set.
pub run_alone-calls :
    (handlers : Handlers) (cloud : Cloud) (n : ℕ) (b : Bool) (e : Effect) (s : Store)
    → run_alone handlers cloud (suc (suc n)) (calls (when b e)) s ≡ (s, done, when b e)
unfolding run_alone step
run_alone-calls handlers cloud n true e s = rw (run_alone-done handlers cloud n s) refl
run_alone-calls handlers cloud n false e s = rw (run_alone-done handlers cloud n s) refl

module _ (handlers : Handlers) (cloud : Cloud) where
  -- A step without a callback, and the others.
  pub quiet_then :
      (n : ℕ) (th th' : Thread) (s s' : Store)
      → step handlers cloud th s ≡ quiet s' th'
      → run_alone handlers cloud (suc n) th s ≡ run_alone handlers cloud n th' s'
  unfolding run_alone
  quiet_then n th th' s s' e = rw e refl

  -- The last steps of a handler.
  pub ends :
      (n : ℕ) (th : Thread) (s : Store)
      → step handlers cloud th s ≡ quiet s done
      → run_alone handlers cloud (suc n) th s ≡ (s, done, [])
  ends n th s e = quiet_then n th done s s e ∙ run_alone-done handlers cloud n s

-- The handler left the maps as they are.
pub same : (s : Store) (effects : List Effect) → Matches (view s, effects) (s, done, effects)
same s effects = (refl, refl, λ k. refl, λ k. refl)
