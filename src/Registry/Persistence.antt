-- ===== src/Registry/Persistence.antt =====
-- What a controller that connects finds in its slot.
use dstx.Common.{◌<◌, ◌≤◌, ◌≡◌, refl, Bool, true, All-replicate, arith}
use dstx.Common.Int.{negsuc, u8_of_ℤ-lt}
use dstx.Controller.{Controller, ControllerType}
use dstx.Controller.Config.{slot_config_to_controller, controller_to_slot_config, config_roundtrip}
use dstx.Effects.Invariant.{IsPlayable, IsMotors}
use dstx.Registry.{zero_slot, register_slot}

saved-lt : (slot : Controller) → (controller_to_slot_config slot).led_effect < 256
unfolding controller_to_slot_config
saved-lt slot = u8_of_ℤ-lt slot.led_request.led_request_effect

-- The configuration of a slot survives a new connection, of any controller and whatever the slot
-- held before. The slot is connected, both motors are off, no retry is left, no effect runs, and
-- the effects are well-formed.
pub register_slot-persists :
    (type : ControllerType) (bluetooth : Bool) (slot : Controller)
    → let registered = register_slot type bluetooth slot in
      (controller_to_slot_config registered ≡ controller_to_slot_config slot)
      × (registered.connected ≡ true)
      × (registered.feedback.external_retry_count ≡ 0)
      × (registered.feedback.rumble_strong ≡ 0)
      × (registered.feedback.rumble_weak ≡ 0)
      × (registered.effects.active_effect_id ≡ negsuc 0)
      × IsPlayable registered
unfolding register_slot slot_config_to_controller controller_to_slot_config
register_slot-persists type bluetooth slot =
    let connected : Controller = record zero_slot {
      type = type;
      is_bluetooth = bluetooth;
      connected = true;
    } in
    (
      config_roundtrip (controller_to_slot_config slot) connected (saved-lt slot),
      refl,
      refl,
      refl,
      refl,
      refl,
      record {
        ff_length = refl;
        periodic_length = refl;
        type_length = refl;
        motors = All-replicate IsMotors 16 _ (omega arith, omega arith);
        types = All-replicate (λ t. t ≤ 2) 16 0 (omega arith);
        running = (refl, refl);
        strong = omega arith;
        weak = omega arith;
      },
    )
