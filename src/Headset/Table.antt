-- ===== src/Headset/Table.antt =====
-- The rows of the settings table of VR_App/src/program.cpp (BuildSettings; GuiSetting is in
-- VR_App/include/types/gui_setting.h) and what their buttons do to AppState. A call that throws, and
-- an access out of range, give `none`. The arithmetic of float is a parameter.
pub mod Sound
use but_telepresence.Prelude.{
  ℕ, ◌+◌, ◌%◌, ◌^◌, Bool, Option, none, some, List, [], ◌∷◌, if◌then◌else◌, ltb, get_elem?,
}
use but_telepresence.Prelude.Int.{ℤ, pos, negsuc, ◌+ℤ◌, ◌-ℤ◌}
use but_telepresence.Prelude.Words.{u32, sub32}
use but_telepresence.Headset.Enums.{AspectRatioMode, aspect_ratio_mode_to_int}
use but_telepresence.Headset.Config.{StreamingConfig}
use but_telepresence.Headset.Settings.{
  Setting, Click, increment, decrement, click, rem_ℤ, aspect_ratio_mode_of_int,
}
use but_telepresence.Headset.Storage.{AppState}

-- <, + and - on float, and the literals of the table.
pub record FloatArithmetic {ℓ} (F : Type ℓ) : Type ℓ where
  pub less : F → F → Bool
  pub plus : F → F → F
  pub minus : F → F → F
  pub two : F
  pub half : F
  pub minus_half : F
  pub tenth : F
  pub hundredth : F

pub data GuiSettingType : Type 0 where
  text ip_address button : GuiSettingType

pub data Row : Type 0 where
  headset_ip telepresence_ip codec encoding_quality bitrate video_mode aspect_ratio fps resolution :
      Row
  apply_button head_movement_max_speed head_movement_speed_multiplier : Row
  headset_movement_prediction stereo_convergence : Row

unfoldable pub settings : List Row
settings =
    Row.headset_ip ∷ Row.telepresence_ip ∷ Row.codec ∷ Row.encoding_quality ∷ Row.bitrate
    ∷ Row.video_mode ∷ Row.aspect_ratio ∷ Row.fps ∷ Row.resolution ∷ Row.apply_button
    ∷ Row.head_movement_max_speed ∷ Row.head_movement_speed_multiplier
    ∷ Row.headset_movement_prediction ∷ Row.stereo_convergence ∷ []

unfoldable pub setting_type : Row → GuiSettingType
setting_type Row.headset_ip = GuiSettingType.ip_address
setting_type Row.telepresence_ip = GuiSettingType.ip_address
setting_type Row.apply_button = GuiSettingType.button
setting_type _ = GuiSettingType.text

unfoldable pub segments : Row → ℕ
segments Row.headset_ip = 4
segments Row.telepresence_ip = 4
segments _ = 1

-- settings_[index].
unfoldable pub setting_at : ℤ → Option Row
unfolding settings
setting_at (pos i) = get_elem? settings i
setting_at (negsuc i) = none

unfoldable pub next_aspect : AspectRatioMode → AspectRatioMode
next_aspect m = aspect_ratio_mode_of_int (rem_ℤ (aspect_ratio_mode_to_int m +ℤ pos 1 +ℤ pos 2) 2)

unfoldable pub previous_aspect : AspectRatioMode → AspectRatioMode
previous_aspect m =
    aspect_ratio_mode_of_int (rem_ℤ (aspect_ratio_mode_to_int m -ℤ pos 1 +ℤ pos 2) 2)

abbrev faster : ℕ → ℕ
faster v = if ltb v 990000 then u32 (v + 10000) else v

abbrev slower : ℕ → ℕ
slower v = if ltb 110000 v then sub32 v 10000 else v

abbrev longer : ℕ → ℕ
longer v = if ltb v 100 then u32 (v + 1) else v

abbrev shorter : ℕ → ℕ
shorter v = if ltb 0 v then sub32 v 1 else v

module _ {ℓ} {F : Type ℓ} where
  abbrev with_config : AppState F → Option StreamingConfig → Option (AppState F)
  with_config a none = none
  with_config a (some c) = some (record a { streaming_config = c })

  abbrev pub on_config : Click → AppState F → Option (AppState F)
  on_config k a = with_config a (click k a.streaming_config)

  -- The octet of the focused segment.
  abbrev pub on_address : (Setting → Click) → ℤ → AppState F → Option (AppState F)
  on_address k (pos i) a = on_config (k (Setting.telepresence_ip i)) a
  on_address k (negsuc i) a = none

  unfoldable pub on_increment :
      FloatArithmetic F → Row → (focused_segment : ℤ) → AppState F → Option (AppState F)
  on_increment fl Row.headset_ip i a = some a
  on_increment fl Row.telepresence_ip i a = on_address increment i a
  on_increment fl Row.codec i a = on_config (increment Setting.codec) a
  on_increment fl Row.encoding_quality i a = on_config (increment Setting.encoding_quality) a
  on_increment fl Row.bitrate i a = on_config (increment Setting.bitrate) a
  on_increment fl Row.video_mode i a = on_config (increment Setting.video_mode) a
  on_increment fl Row.aspect_ratio i a =
      some (record a { aspect_ratio_mode = next_aspect a.aspect_ratio_mode })
  on_increment fl Row.fps i a = on_config (increment Setting.fps) a
  on_increment fl Row.resolution i a = on_config (increment Setting.resolution) a
  on_increment fl Row.apply_button i a = some a
  on_increment fl Row.head_movement_max_speed i a =
      some (record a { head_movement_max_speed = faster a.head_movement_max_speed })
  on_increment fl Row.head_movement_speed_multiplier i a =
      let x = a.head_movement_speed_multiplier in
      some (record a {
        head_movement_speed_multiplier = if fl.less x fl.two then fl.plus x fl.tenth else x;
      })
  on_increment fl Row.headset_movement_prediction i a =
      some (record a { head_movement_prediction_ms = longer a.head_movement_prediction_ms })
  on_increment fl Row.stereo_convergence i a =
      let x = a.stereo_convergence in
      some
        (record a { stereo_convergence = if fl.less x fl.half then fl.plus x fl.hundredth else x })

  unfoldable pub on_decrement :
      FloatArithmetic F → Row → (focused_segment : ℤ) → AppState F → Option (AppState F)
  on_decrement fl Row.headset_ip i a = some a
  on_decrement fl Row.telepresence_ip i a = on_address decrement i a
  on_decrement fl Row.codec i a = on_config (decrement Setting.codec) a
  on_decrement fl Row.encoding_quality i a = on_config (decrement Setting.encoding_quality) a
  on_decrement fl Row.bitrate i a = on_config (decrement Setting.bitrate) a
  on_decrement fl Row.video_mode i a = on_config (decrement Setting.video_mode) a
  on_decrement fl Row.aspect_ratio i a =
      some (record a { aspect_ratio_mode = previous_aspect a.aspect_ratio_mode })
  on_decrement fl Row.fps i a = on_config (decrement Setting.fps) a
  on_decrement fl Row.resolution i a = on_config (decrement Setting.resolution) a
  on_decrement fl Row.apply_button i a = some a
  on_decrement fl Row.head_movement_max_speed i a =
      some (record a { head_movement_max_speed = slower a.head_movement_max_speed })
  on_decrement fl Row.head_movement_speed_multiplier i a =
      let x = a.head_movement_speed_multiplier in
      some (record a {
        head_movement_speed_multiplier = if fl.less fl.half x then fl.minus x fl.tenth else x;
      })
  on_decrement fl Row.headset_movement_prediction i a =
      some (record a { head_movement_prediction_ms = shorter a.head_movement_prediction_ms })
  on_decrement fl Row.stereo_convergence i a =
      let x = a.stereo_convergence in
      some (record a {
        stereo_convergence = if fl.less fl.minus_half x then fl.minus x fl.hundredth else x;
      })
