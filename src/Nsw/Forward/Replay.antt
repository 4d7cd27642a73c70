-- ===== src/Nsw/Forward/Replay.antt =====
-- The virtual device of nsw_read_events as a value for each code, which an event for that code sets;
-- the codes are told apart by their numbers.
use dstx.Common.{ℕ, ◌≡◌, refl, sym, ap, ◌∙◌, true, false, ==_iff, List, [], ◌∷◌, ◌++◌, ◌==◌, get_or}
use dstx.Drivers.{
  KeyCode, btn_west, btn_north, btn_south, btn_east, btn_tl, btn_tr, btn_tl2, btn_tr2, btn_select,
  btn_start, btn_thumbl, btn_thumbr, btn_mode, AbsCode, abs_x, abs_y, abs_rx, abs_ry, abs_z, abs_rz,
  abs_hat0x, abs_hat0y, InputEvent, ev_abs, ev_key, syn_report,
}
use dstx.Nsw.{Forwarded}
use dstx.Nsw.Forward.{
  key_index, abs_index, store_key, store_abs, logical_keys, stick_axes, trigger_keys, trigger_axes,
  hat_axes, with_syn,
}

unfoldable pub replay : List InputEvent → Forwarded → Forwarded
replay [] pad = pad
replay (ev_key k v ∷ events) pad = replay events (store_key k v pad)
replay (ev_abs k v ∷ events) pad = replay events (store_abs k v pad)
replay (syn_report ∷ events) pad = replay events pad

pub replay-append :
    (es fs : List InputEvent) (pad : Forwarded) → replay (es ++ fs) pad ≡ replay fs (replay es pad)
unfolding replay
replay-append [] fs pad = refl
replay-append (ev_key k v ∷ es) fs pad = replay-append es fs (store_key k v pad)
replay-append (ev_abs k v ∷ es) fs pad = replay-append es fs (store_abs k v pad)
replay-append (syn_report ∷ es) fs pad = replay-append es fs pad

pub replay_both :
    (es fs : List InputEvent) (pad : Forwarded) {mid last : Forwarded}
    → replay es pad ≡ mid
    → replay fs mid ≡ last
    → replay (es ++ fs) pad ≡ last
replay_both es fs pad h k = replay-append es fs pad ∙ (ap (replay fs) h ∙ k)

pub replay-with_syn :
    (es : List InputEvent) (pad : Forwarded) → replay (with_syn es) pad ≡ replay es pad
unfolding replay
replay-with_syn [] pad = refl
replay-with_syn (e ∷ es) pad = replay-append (e ∷ es) (syn_report ∷ []) pad

-- The numbers of the codes determine them.
key_of : ℕ → KeyCode
key_of n = get_or (logical_keys ++ trigger_keys true) n btn_south

abs_of : ℕ → AbsCode
abs_of n = get_or (stick_axes ++ (trigger_axes false ++ hat_axes)) n abs_x

key_of-key_index : (k : KeyCode) → key_of (key_index k) ≡ k
unfolding key_of key_index
key_of-key_index btn_west = refl
key_of-key_index btn_north = refl
key_of-key_index btn_south = refl
key_of-key_index btn_east = refl
key_of-key_index btn_tl = refl
key_of-key_index btn_tr = refl
key_of-key_index btn_tl2 = refl
key_of-key_index btn_tr2 = refl
key_of-key_index btn_select = refl
key_of-key_index btn_start = refl
key_of-key_index btn_thumbl = refl
key_of-key_index btn_thumbr = refl
key_of-key_index btn_mode = refl

abs_of-abs_index : (k : AbsCode) → abs_of (abs_index k) ≡ k
unfolding abs_of abs_index
abs_of-abs_index abs_x = refl
abs_of-abs_index abs_y = refl
abs_of-abs_index abs_rx = refl
abs_of-abs_index abs_ry = refl
abs_of-abs_index abs_z = refl
abs_of-abs_index abs_rz = refl
abs_of-abs_index abs_hat0x = refl
abs_of-abs_index abs_hat0y = refl

pub same_key : (j k : KeyCode) → (key_index j == key_index k) ≡ true → j ≡ k
same_key j k e =
    sym (key_of-key_index j)
    ∙ (ap key_of ((==_iff (key_index j) (key_index k)).0 e) ∙ key_of-key_index k)

pub same_abs : (j k : AbsCode) → (abs_index j == abs_index k) ≡ true → j ≡ k
same_abs j k e =
    sym (abs_of-abs_index j)
    ∙ (ap abs_of ((==_iff (abs_index j) (abs_index k)).0 e) ∙ abs_of-abs_index k)
