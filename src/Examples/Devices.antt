-- ===== src/Examples/Devices.antt =====
-- The registry of active devices (examples/read-stream-diagnostics/main.go: deviceRegistry). Its
-- operations hold its lock, so that they come one after the other.
use cloud_sdk_go.Base.{
  ◌≡◌, refl, ◌∙◌, ℕ, ◌+◌, ◌≤◌, String, List, [], ◌∷◌, Dict, insert, erase, eq_iff, str_eq, arith,
  if◌then◌else◌, ◌==◌,
}
use cloud_sdk_go.App.Tenants.{Device, values}

unfoldable pub add : Device → Dict Device → Dict Device
add d m = insert d.id d m

unfoldable pub remove : Device → Dict Device → Dict Device
remove d m = erase d.id m

unfoldable pub snapshot : Dict Device → List Device
unfolding values
snapshot m = values m

-- A callback about a device.
pub data Event : Type 0 where
  activates deactivates : Device → Event

unfoldable pub follow : Dict Device → List Event → Dict Device
unfolding add remove
follow m [] = m
follow m (activates d ∷ events) = follow (add d m) events
follow m (deactivates d ∷ events) = follow (remove d m) events

-- Whether the last event about an id is an activation, from what was known before.
abbrev pub is_active : String → ℕ → List Event → ℕ
is_active id before [] = before
is_active id before (activates d ∷ events) =
    is_active id (if str_eq d.id id then 1 else before) events
is_active id before (deactivates d ∷ events) =
    is_active id (if str_eq d.id id then 0 else before) events

-- How often an id stands in a list of devices.
abbrev pub listed : String → List Device → ℕ
listed id [] = 0
listed id (d ∷ ds) = (if str_eq d.id id then 1 else 0) + listed id ds

abbrev keys : String → Dict Device → ℕ
keys id [] = 0
keys id ((k, d) ∷ m) = (if str_eq k id then 1 else 0) + keys id m

-- Devices stand under their ids.
abbrev IsNamed : Dict Device → Type 0
IsNamed [] = Unit
IsNamed ((k, d) ∷ m) = (d.id ≡ k) × IsNamed m

insert-IsNamed : (d : Device) (m : Dict Device) → IsNamed m → IsNamed (insert d.id d m)
unfolding insert
insert-IsNamed d [] h = (refl, tt)
insert-IsNamed d ((k, x) ∷ m) h = ground (arith, insert-IsNamed d m h.1, h)

erase-IsNamed : (id : String) (m : Dict Device) → IsNamed m → IsNamed (erase id m)
unfolding erase
erase-IsNamed id [] h = tt
erase-IsNamed id ((k, x) ∷ m) h = ground (arith, erase-IsNamed id m h.1, h)

keys-insert :
    (id : String) (d : Device) (m : Dict Device)
    → keys id (insert d.id d m)
      ≡ (if str_eq d.id id then (if keys id m == 0 then 1 else keys id m) else keys id m)
unfolding insert
keys-insert id d [] = ground arith
keys-insert id d ((k, x) ∷ m) =
    ground (arith, keys-insert id d m, eq_iff k d.id, eq_iff k id, eq_iff d.id id)

keys-erase :
    (id j : String) (m : Dict Device) → keys id (erase j m) ≡ (if str_eq j id then 0 else keys id m)
unfolding erase
keys-erase id j [] = ground arith
keys-erase id j ((k, x) ∷ m) =
    ground (arith, keys-erase id j m, eq_iff k j, eq_iff k id, eq_iff j id)

listed-values : (id : String) (m : Dict Device) → IsNamed m → listed id (values m) ≡ keys id m
unfolding values
listed-values id [] h = refl
listed-values id ((k, d) ∷ m) h = ground (arith, listed-values id m h.1, h)

followed :
    (id : String) (m : Dict Device) (n : ℕ) (events : List Event)
    → IsNamed m
    → keys id m ≡ n
    → n ≤ 1
    → listed id (snapshot (follow m events)) ≡ is_active id n events
unfolding follow snapshot add remove
followed id m n [] h e le = listed-values id m h ∙ e
followed id m n (activates d ∷ events) h e le =
    followed id (insert d.id d m) _ events (insert-IsNamed d m h)
      (ground (arith, keys-insert id d m, e)) (ground arith)
followed id m n (deactivates d ∷ events) h e le =
    followed id (erase d.id m) _ events (erase-IsNamed d.id m h)
      (ground (arith, keys-erase id d.id m, e)) (ground arith)

-- After any activations and deactivations, the snapshot of a registry that began empty lists a
-- device once if the last event about it was its activation, and else not at all.
pub snapshot-lists :
    (id : String) (events : List Event)
    → listed id (snapshot (follow [] events)) ≡ is_active id 0 events
snapshot-lists id events = followed id [] 0 events tt refl (omega arith)
