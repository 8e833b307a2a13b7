-- ===== src/Examples/Panels.antt =====
-- The controllers and the settings panel (VR_App/src/program.cpp, VR_App/src/render_imgui.cpp) on
-- concrete input.
use but_telepresence.Prelude.{
  ℕ, ◌≡◌, refl, inr, Bool, true, false, All, Option, none, some, List, [], ◌∷◌, arith, ◌==◌,
}
use but_telepresence.Prelude.Int.{ℤ, pos, negsuc, ◌+ℤ◌, ◌-ℤ◌, ltb_ℤ}
use but_telepresence.Headset.Enums.{ConnectionStatus}
use but_telepresence.Headset.Config.{default_config, classify_stream_config_change}
use but_telepresence.Headset.Resolution.{fhd}
use but_telepresence.Prelude.Text.{str_eq}
use but_telepresence.Headset.Rest.{Reply}
use but_telepresence.Headset.Settings.{apply}
use but_telepresence.Headset.Table.{FloatArithmetic, Row, setting_at, setting_type, segments}
use but_telepresence.Headset.Controls.{
  Input, Program, initial_gui, handle_controllers, toggle_gui, toggle_movement, activate_pending,
  interact, on_activate,
}
use but_telepresence.Headset.Panel.{
  render_eyes, render_eye, render_settings_gui, moves, move_up, number_of_elements,
}
use but_telepresence.Headset.Panel.Sessions.{IsRunning, Makes, render_eyes-IsRunning, stops}
use but_telepresence.Headset.Panel.Edges.{
  Eye, render_eyes_toggle, rising, flipped, right_presses, left_presses,
}
use but_telepresence.Examples.Clicks.{default-IsUsable}
use but_telepresence.Examples.Storages.{first_state}

-- Thousandths.
abbrev thousandths : FloatArithmetic ℤ
thousandths = record {
  less = ltb_ℤ;
  plus = λ x y. x +ℤ y;
  minus = λ x y. x -ℤ y;
  two = pos 2000;
  half = pos 500;
  minus_half = negsuc 499;
  tenth = pos 100;
  hundredth = pos 10;
}

abbrev first_program : Program ℤ
first_program = record {
  app_state = first_state;
  applied = record {
    last_applied = some default_config;
    camera_server = ConnectionStatus.connected;
    built_for = some default_config;
  };
  gui_control = initial_gui;
  render_gui = true;
  control_lock_movement = false;
  control_lock_gui = false;
  effects = [];
}

first_program-IsRunning : IsRunning first_program
unfolding initial_gui
first_program-IsRunning = record {
  sound = record {
    streaming_config = default-IsUsable;
    aspect_ratio_mode = inr refl;
    fast_enough = omega arith;
    slow_enough = omega arith;
    prediction = omega arith;
  };
  focused = record {
    element = 0;
    segment = 0;
    row = Row.headset_ip;
    on_element = refl;
    on_row = unfold setting_at in refl;
    below = omega arith;
    on_segment = refl;
    segment_below = unfold segments in omega arith;
  };
}

abbrev idle : Input
idle = record {
  thumbstick_pressed_left = false;
  thumbstick_pressed_right = false;
  stick_up = false;
  stick_down = false;
  stick_left = false;
  stick_right = false;
  y_pressed = false;
  x_pressed = false;
  trigger_left = false;
  sender_is_initialized = true;
  reply = Reply.no_reply;
  decoder = record { prepared = true; parses = true };
  deferred_reply = Reply.no_reply;
  deferred_decoder = record { prepared = true; parses = true };
}

abbrev nothing : ℕ → Bool
nothing i = false

-- Up to the last row, then the ray clicks Apply while the right stick is held over two eyes.
abbrev some_eyes : List Eye
some_eyes =
    (record idle { stick_up = true }, nothing)
    ∷ (record idle { thumbstick_pressed_right = true }, λ i. i == 9)
    ∷ (record idle { thumbstick_pressed_right = true }, nothing)
    ∷ (record idle { thumbstick_pressed_left = true }, nothing)
    ∷ []

abbrev made : All (λ e. Makes e.0) some_eyes
made = ((refl, refl), ((refl, refl), ((refl, refl), ((refl, refl), tt))))

abbrev stops_and_focus : Option (Program ℤ) → ℕ × ℤ
stops_and_focus none = (0, negsuc 0)
stops_and_focus (some q) = (stops q.effects, q.gui_control.focused_element)

some_eyes_run : stops_and_focus (render_eyes thousandths some_eyes first_program) ≡ (1, pos 13)
unfolding render_eyes stops render_eye handle_controllers toggle_gui toggle_movement
    activate_pending setting_at initial_gui interact render_settings_gui moves setting_type move_up
    on_activate apply ◌-ℤ◌ number_of_elements classify_stream_config_change str_eq default_config
    fhd
some_eyes_run = refl

render_eyes-IsRunning_example :
    (q : Program ℤ) × (render_eyes thousandths some_eyes first_program ≡ some q) × IsRunning q
render_eyes-IsRunning_example =
    render_eyes-IsRunning thousandths some_eyes first_program made first_program-IsRunning

render_eyes_toggle_example :
    (q : Program ℤ) × (render_eyes thousandths some_eyes first_program ≡ some q)
    × (q.app_state.robot_control_enabled ≡ flipped (rising false (right_presses some_eyes)) true)
    × (q.render_gui ≡ flipped (rising false (left_presses some_eyes)) true)
render_eyes_toggle_example =
    render_eyes_toggle thousandths some_eyes first_program made first_program-IsRunning
