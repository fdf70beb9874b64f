-- ===== src/Device/Service/Master.antt =====
-- Which write requests a device processes, after the elections that it has recorded.
use mathlib.Core.Path.{subst}
use fabric_sim.Prelude.{
  ℕ, nat_eq, bytes_eq, ◌==◌, ◌<◌, ◌^◌, Bytes, List, [], Bool, false, Option, none, some,
  if◌then◌else◌, ◌≡◌, refl, sym, ap, ◌∙◌, Bool-cases, inl, inr,
}
use fabric_sim.GoMap.{lookup}
use fabric_sim.Outcome.{unauthorized, conflict, failed}
use fabric_sim.Device.Pipeline.{Pipeline}
use fabric_sim.Device.Write.{Update, process_write}
use fabric_sim.Device.Election.{
  ElectionId, Elections, Checked, checked, nil_pointer, claims, is_master,
}
use fabric_sim.Device.Election.Highest.{
  id_value, highest, AreUint64, record_all, Records, same_id_value, record_all-highest,
}
use fabric_sim.Device.Service.{as_master, server_write}

abbrev pub is_number : ℕ → Option ℕ → Bool
is_number v none = false
is_number v (some n) = n == v

-- An id claims the mastership of a role exactly if its number is the one that is recorded.
claims-Records :
    (e : ElectionId) (held : Option (Option ElectionId)) (best : Option ℕ)
    → e.low < 2 ^ 64
    → Records held best
    → claims held (some e)
      ≡ checked (if is_number (id_value e) best then none else some unauthorized)
unfolding claims
claims-Records e none none small r = refl
claims-Records e (some (some w)) (some n) small (small', at_n) =
    rw (same_id_value w e small' small) (rw at_n refl)
claims-Records e none (some n) small r = elim r [ ]
claims-Records e (some none) best small r = elim r [ ]
claims-Records e (some (some w)) none small r = elim r [ ]

is_master-Records :
    (device_id chassis_id : ℕ) (role : Bytes) (e : ElectionId) (s : Elections) (best : Option ℕ)
    → e.low < 2 ^ 64
    → Records (lookup role s) best
    → is_master device_id chassis_id role (some e) s ≡ (
        if chassis_id == device_id
        then checked (if is_number (id_value e) best then none else some unauthorized)
        else checked (some conflict))
unfolding is_master
is_master-Records device_id chassis_id role e s best small held =
    rw (claims-Records e (lookup role s) best small held) refl

-- After a device without elections was given ids of two 64-bit halves for roles, in any order: a write
-- request with an election id is processed as a batch if it names the chassis id of the device and
-- the number of its election id is the largest of those that were given for its role. Otherwise
-- the pipeline stays as it was, with the error conflict for another chassis id, and the error
-- unauthorized for another election id or a role that no id was given for.
pub server_write-highest :
    (sha1 : Bytes → Bytes) (decode : Bytes → ℕ) (chassis_id device_id : ℕ) (role : Bytes)
    (e : ElectionId) (us : List Update) (p : Pipeline) (given : List (Bytes × ElectionId))
    (s : Elections)
    → AreUint64 given
    → e.low < 2 ^ 64
    → record_all given [] ≡ checked s
    → server_write sha1 decode chassis_id
        (record { device_id = device_id; role = role; election_id = some e })
        us
        s
        p
      ≡ (if chassis_id == device_id
          then (if is_number (id_value e) (highest role none given)
              then process_write sha1 decode us p
              else failed unauthorized p)
          else failed conflict p)
unfolding server_write as_master
server_write-highest sha1 decode chassis_id device_id role e us p given s smalls small made =
    let (s', made', all) = record_all-highest given smalls in
    let same : s' ≡ s = ap (checked_or s) (sym made' ∙ made) in
    let held : Records (lookup role s) (highest role none given) =
      subst (λ x. Records (lookup role x) (highest role none given)) same (all role) in
    let answer = is_master-Records device_id chassis_id role e s _ small held in
    elim (Bool-cases (chassis_id == device_id)) [
      | inr other ↦ rw (answer, as_master) (rw other refl)
      | inl same_device ↦
          rw (answer, as_master)
            (elim (Bool-cases (is_number (id_value e) (highest role none given))) [
              | inl master ↦ rw same_device (rw master refl)
              | inr none_such ↦ rw same_device (rw none_such refl)
            ])
    ]
  where
    checked_or : Elections → Checked Elections → Elections
    checked_or d (checked x) = x
    checked_or d nil_pointer = d
