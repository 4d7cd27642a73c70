-- ===== src/Keys/Layout.antt =====
-- The identity keymap and the face-button layouts: what they set and what they leave alone.
use dstx.Common.{
  ℕ, zero, suc, ◌+◌, ◌≤◌, ◌<◌, ◌≡◌, refl, List, [], ◌∷◌, true, ◌-◌, get_or, set, length, length-set,
  get_or-set_self, get_or-set_ne, arith, truth, ap, ◌↔◌,
}
use native.Mathlib.Decide.{ℕ_discrete}
use dstx.Controller.{Controller, ControllerType, phy_btn_count}
use dstx.Keys.{
  default_map_loop, face_layout, keys_get_default_map, keys_set_xbox_layout, keys_set_switch_layout,
  keys_reset_all_keybinds, keys_apply_map,
}
use dstx.Keys.Apply.{LogicalButton, code, code_bounds, button, keys_apply_map-button}

-- Every keymap in the program is an array of PHY_BTN_COUNT bytes.
abbrev pub IsKeymap : List ℕ → Type 0
IsKeymap m = length m ≡ phy_btn_count

length-default_map_loop : (left i : ℕ) (m : List ℕ) → length (default_map_loop left i m) ≡ length m
unfolding default_map_loop
length-default_map_loop zero i m = refl
length-default_map_loop (suc left) i m =
    omega (arith, length-default_map_loop left (i + 1) (set m i (i + 1)), length-set m i (i + 1))

default_map_loop_below :
    (left i j : ℕ) (m : List ℕ) → j < i → get_or (default_map_loop left i m) j 0 ≡ get_or m j 0
unfolding default_map_loop
default_map_loop_below zero i j m h = refl
default_map_loop_below (suc left) i j m h = omega (
  arith,
  default_map_loop_below left (i + 1) j (set m i (i + 1)) (omega arith),
  get_or-set_ne m i j (i + 1) 0 (omega arith),
)

default_map_loop_at :
    (left i j : ℕ) (m : List ℕ)
    → i ≤ j
    → j < i + left
    → j < length m
    → get_or (default_map_loop left i m) j 0 ≡ j + 1
unfolding default_map_loop
default_map_loop_at zero i j m lo hi fits = absurd (omega arith)
default_map_loop_at (suc left) i j m lo hi fits = elim (ℕ_discrete i j) [
  | yes e ↦ omega (
    arith,
    e,
    default_map_loop_below left (i + 1) j (set m i (i + 1)) (omega arith),
    get_or-set_self m i (i + 1) 0 (omega arith),
    ap (λ t. get_or (set m i (i + 1)) t 0) e,
  )
  | no n ↦
      default_map_loop_at left (i + 1) j (set m i (i + 1)) (omega arith) (omega arith)
        (omega (arith, length-set m i (i + 1)))
]

pub default_map-get_or :
    (t : ControllerType) (m : List ℕ) (i : ℕ)
    → IsKeymap m
    → i < phy_btn_count
    → get_or (keys_get_default_map t m) i 0 ≡ i + 1
unfolding keys_get_default_map
default_map-get_or t m i w h =
    default_map_loop_at 18 0 i m (omega arith) (omega arith) (omega arith)

-- Resetting the keymap makes it the identity: each logical button is 1 exactly when the physical
-- button with its name is down, for every state of the 18 physical buttons.
pub keys_reset_all_keybinds-identity :
    (slot : Controller) (raw : List ℕ) (l : LogicalButton)
    → IsKeymap slot.keymap
    → let keymap = (keys_reset_all_keybinds slot).keymap in
      (button l (keys_apply_map slot keymap raw).buttons ≡ 1)
      ↔ (truth (get_or raw (code l - 1) 0) ≡ true)
unfolding keys_reset_all_keybinds
keys_reset_all_keybinds-identity slot raw l w =
    let keymap = keys_get_default_map slot.type slot.keymap in
    let iff = (keys_apply_map-button slot keymap raw l).1 in
    (
      λ h.
          let (phy, lt, e) = iff.0 h in
          let same : code l - 1 ≡ phy =
            omega (arith, e.mapped, default_map-get_or slot.type slot.keymap phy w lt) in
          rw same e.down,
      λ d. iff.1 (
        code l - 1,
        omega (arith, code_bounds l),
        record {
          down = d;
          mapped = omega (
            arith,
            code_bounds l,
            default_map-get_or slot.type slot.keymap (code l - 1) w (omega (arith, code_bounds l)),
          );
        },
      ),
    )

face_layout_rest :
    (a b c d : ℕ) (m : List ℕ) (i : ℕ) → 4 ≤ i → get_or (face_layout a b c d m) i 0 ≡ get_or m i 0
unfolding face_layout
face_layout_rest a b c d m i h = omega (
  arith,
  get_or-set_ne (set (set (set m 0 a) 1 b) 2 c) 3 i d 0 (omega arith),
  get_or-set_ne (set (set m 0 a) 1 b) 2 i c 0 (omega arith),
  get_or-set_ne (set m 0 a) 1 i b 0 (omega arith),
  get_or-set_ne m 0 i a 0 (omega arith),
)

face_layout_absolute :
    (a b c d a' b' c' d' : ℕ) (m : List ℕ)
    → face_layout a b c d (face_layout a' b' c' d' m) ≡ face_layout a b c d m
unfolding face_layout
face_layout_absolute a b c d a' b' c' d' [] = refl
face_layout_absolute a b c d a' b' c' d' (x ∷ []) = refl
face_layout_absolute a b c d a' b' c' d' (x ∷ y ∷ []) = refl
face_layout_absolute a b c d a' b' c' d' (x ∷ y ∷ z ∷ []) = refl
face_layout_absolute a b c d a' b' c' d' (x ∷ y ∷ z ∷ w ∷ m) = refl

-- The layouts are absolute: each one is idempotent, wins over the other, and leaves every entry
-- behind the four face buttons as it was.
pub layouts_absolute :
    (slot : Controller) (i : ℕ)
    → 4 ≤ i
    → (keys_set_switch_layout (keys_set_switch_layout slot) ≡ keys_set_switch_layout slot)
      × (keys_set_xbox_layout (keys_set_xbox_layout slot) ≡ keys_set_xbox_layout slot)
      × (keys_set_switch_layout (keys_set_xbox_layout slot) ≡ keys_set_switch_layout slot)
      × (keys_set_xbox_layout (keys_set_switch_layout slot) ≡ keys_set_xbox_layout slot)
      × (get_or (keys_set_switch_layout slot).keymap i 0 ≡ get_or slot.keymap i 0)
      × (get_or (keys_set_xbox_layout slot).keymap i 0 ≡ get_or slot.keymap i 0)
unfolding keys_set_switch_layout keys_set_xbox_layout
layouts_absolute slot i h = (
  ap layout (face_layout_absolute 2 1 4 3 2 1 4 3 slot.keymap),
  ap layout (face_layout_absolute 1 2 3 4 1 2 3 4 slot.keymap),
  ap layout (face_layout_absolute 2 1 4 3 1 2 3 4 slot.keymap),
  ap layout (face_layout_absolute 1 2 3 4 2 1 4 3 slot.keymap),
  face_layout_rest 2 1 4 3 slot.keymap i h,
  face_layout_rest 1 2 3 4 slot.keymap i h,
)
  where
    layout : List ℕ → Controller
    layout m = record slot { keymap = m }

-- Two layouts one after the other are the second, and a reset wins over both.
pub xbox_after_switch :
    (slot : Controller)
    → (keys_set_xbox_layout (keys_set_switch_layout slot)).keymap
      ≡ (keys_set_xbox_layout slot).keymap
unfolding keys_set_switch_layout keys_set_xbox_layout
xbox_after_switch slot = face_layout_absolute 1 2 3 4 2 1 4 3 slot.keymap

default_map-face_layout :
    (type : ControllerType) (a b c d : ℕ) (m : List ℕ)
    → keys_get_default_map type (face_layout a b c d m) ≡ keys_get_default_map type m
unfolding face_layout keys_get_default_map default_map_loop
default_map-face_layout type a b c d [] = refl
default_map-face_layout type a b c d (x ∷ []) = refl
default_map-face_layout type a b c d (x ∷ y ∷ []) = refl
default_map-face_layout type a b c d (x ∷ y ∷ z ∷ []) = refl
default_map-face_layout type a b c d (x ∷ y ∷ z ∷ w ∷ m) = refl

pub reset_after_switch :
    (slot : Controller)
    → (keys_reset_all_keybinds (keys_set_switch_layout slot)).keymap
      ≡ (keys_reset_all_keybinds slot).keymap
unfolding keys_set_switch_layout keys_reset_all_keybinds
reset_after_switch slot = default_map-face_layout slot.type 2 1 4 3 slot.keymap

pub reset_after_xbox :
    (slot : Controller)
    → (keys_reset_all_keybinds (keys_set_xbox_layout slot)).keymap
      ≡ (keys_reset_all_keybinds slot).keymap
unfolding keys_set_xbox_layout keys_reset_all_keybinds
reset_after_xbox slot = default_map-face_layout slot.type 1 2 3 4 slot.keymap
