-- ===== src/Bus/Getters/Shown.antt =====
-- What a method of dstx/src/dbus-handlers.c has written is what its getters show after the next round
-- of daemon_monitor in dstx/src/dbus-monitor.c.
use dstx.Common.{
  ℕ, ◌+◌, ◌<◌, ◌≡◌, ◌∙◌, refl, ap, zero, suc, true, false, List, [], ◌∷◌, length, get_or,
  get_or-set_self, ◌||◌, if_cases, arith, leb, ◌==◌,
}
use dstx.Controller.{Controller}
use dstx.Debounce.{max_slots}
use dstx.Monitor.{copy_controller_state}
use dstx.Monitor.Round.{Clock, Monitored, start_monitored, monitor_slot}
use dstx.Monitor.Status.{Bridge, Observation, monitor_slots, is_alive, beat, online, daemon_round}
use dstx.Bus.{
  Method, BusSlot, empty_slot, is_valid, write_uhid, write_rumble_active, write_slot,
  write_requests, open_shm_handle, done, handle,
}
use dstx.Bus.Getters.Expected.{expected, read_slot-write_slot}
use dstx.Bus.Getters.{
  Getter, get_controller_info, get_telemetry, get_invert_status, get_sensitivity_preset, get_keymap,
  get_triggers_digital, from_copy, from_memory, values, read_slot, answer, handle_get,
}

copy_all : (dst src : Controller) → copy_controller_state dst src ≡ src
unfolding copy_controller_state
copy_all dst src = refl

monitor_slots-current :
    (k : ℕ) (readings : List (Clock × Controller)) (slots : List Monitored) (i : ℕ)
    → (r : Clock × Controller) → i < length readings
    → i < length slots
    → (get_or (monitor_slots k readings slots).0 i start_monitored).current
      ≡ (get_or readings i r).1
unfolding monitor_slots monitor_slot
monitor_slots-current k [] slots i r h l = elim h [ ]
monitor_slots-current k (x ∷ readings) [] i r h l = elim l [ ]
monitor_slots-current k (x ∷ readings) (m ∷ slots) zero r h l = copy_all m.current x.1
monitor_slots-current k (x ∷ readings) (m ∷ slots) (suc i) r h l =
    monitor_slots-current (k + 1) readings slots i r (omega arith) (omega arith)

write_slot-connected : (m : Method) (c : Controller) → (write_slot m c).connected ≡ c.connected
unfolding write_slot write_uhid write_rumble_active
write_slot-connected m c = ground arith

write_requests-slot : (m : Method) (s : BusSlot) → (write_requests m s).slot ≡ s.slot
unfolding write_requests
write_requests-slot m s = ground arith

handled_slot :
    (i : ℕ) (m : Method) (slots : List BusSlot)
    → length slots ≡ max_slots
    → i < max_slots
    → is_valid m ≡ true
    → (get_or slots i empty_slot).slot.connected ≡ true
    → ((handle true i m slots).1 ≡ done ∷ [])
      × ((get_or (handle true i m slots).0 i empty_slot).slot
          ≡ write_slot m (get_or slots i empty_slot).slot)
unfolding handle open_shm_handle
handled_slot i m slots len lt ok on =
    let small : leb max_slots i ≡ false = ground arith in
    let s = get_or slots i empty_slot in
    let written = write_requests m (record s { slot = write_slot m s.slot }) in
    rw small (
      rw ok (
        rw on (
          refl,
          ap (λ x. x.slot) (get_or-set_self slots i written empty_slot (omega (arith, len, lt)))
              ∙ write_requests-slot m (record s { slot = write_slot m s.slot }),
        )))

beat-slots : (t : Observation) (b : Bridge) → (beat t b).slots ≡ b.slots
beat-slots t b =
    if_cases (λ (x : Bridge). x.slots ≡ b.slots) (t.heartbeat == b.last_heartbeat) (λ h. refl)
      (λ h. refl)

-- A round that finds the daemon alive copies the slots.
round_slots :
    (t : Observation) (b : Bridge)
    → (b.mapped || t.maps) ≡ true
    → is_alive t b ≡ true
    → ((daemon_round t b).bridge.daemon_alive ≡ true)
      × ((daemon_round t b).bridge.slots ≡ (monitor_slots 0 t.slots b.slots).0)
unfolding daemon_round online
round_slots t b mapped alive =
    rw mapped (rw alive (refl, ap (λ slots. (monitor_slots 0 t.slots slots).0) (beat-slots t b)))

answer_values :
    (b : Bridge) (slots : List BusSlot) (i : ℕ) (g : Getter) (c : Controller)
    → b.daemon_alive ≡ true
    → (get_or b.slots i start_monitored).current ≡ c
    → (get_or slots i empty_slot).slot ≡ c
    → c.connected ≡ true
    → leb max_slots i ≡ false
    → answer b true slots i g ≡ values (read_slot g c)
unfolding answer from_copy from_memory open_shm_handle
answer_values b slots i get_controller_info c alive copied stored on small =
    rw alive (rw copied (rw on refl))
answer_values b slots i get_telemetry c alive copied stored on small =
    rw alive (rw copied (rw on refl))
answer_values b slots i get_invert_status c alive copied stored on small =
    rw alive (rw copied (rw on refl))
answer_values b slots i get_sensitivity_preset c alive copied stored on small =
    rw alive (rw copied (rw on refl))
answer_values b slots i get_keymap c alive copied stored on small =
    rw alive (rw small (rw stored (rw on refl)))
answer_values b slots i get_triggers_digital c alive copied stored on small =
    rw alive (rw small (rw stored (rw on refl)))

-- What a client sets, it gets. A call of the bridge with arguments in range for a connected slot, one
-- of the four, is answered as done; and after a round of the monitor that has the memory, finds the
-- daemon alive and reads the slot as the call left it, every getter of numbers answers, if the memory
-- can be mapped, with its answer for the slot before the call in which the numbers of the method, and
-- no others, have the values that it set: 100 or 5 in place of a larger percentage or player, and the
-- emulation switched on with a change of the kind of device. What the bridge had copied before does
-- not matter.
pub handle_get-handle :
    (t : Observation) (b : Bridge) (m : Method) (g : Getter) (i : ℕ) (slots : List BusSlot)
    → (r : Clock × Controller) → length slots ≡ max_slots
    → length b.slots ≡ max_slots
    → i < length t.slots
    → i < max_slots
    → is_valid m ≡ true
    → (get_or slots i empty_slot).slot.connected ≡ true
    → (b.mapped || t.maps) ≡ true
    → is_alive t b ≡ true
    → (get_or t.slots i r).1 ≡ (get_or (handle true i m slots).0 i empty_slot).slot
    → let c = (get_or slots i empty_slot).slot in
      ((handle true i m slots).1 ≡ done ∷ [])
      × (handle_get (daemon_round t b).bridge true (handle true i m slots).0 i g
          ≡ values (expected m c g (read_slot g c)))
unfolding handle_get
handle_get-handle t b m g i slots r len blen tlen lt ok on mapped alive seen =
    let small : leb max_slots i ≡ false = ground arith in
    let c = (get_or slots i empty_slot).slot in
    let after = (handle true i m slots).0 in
    let round = round_slots t b mapped alive in
    let (answered, wrote) = handled_slot i m slots len lt ok on in
    let copied =
      ap (λ ms. (get_or ms i start_monitored).current) round.1
      ∙ (monitor_slots-current 0 t.slots b.slots i r tlen (omega (arith, blen, lt))
          ∙ (seen ∙ wrote)) in
    (
      answered,
      rw small (
            answer_values (daemon_round t b).bridge after i g (write_slot m c) round.0 copied wrote
              (write_slot-connected m c ∙ on) small)
          ∙ ap values (read_slot-write_slot m c g),
    )
