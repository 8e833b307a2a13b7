-- ===== src/Headset/Table/Sound.antt =====
-- What the buttons of the settings table keep.
use but_telepresence.Prelude.{ℕ, ◌<◌, ◌≤◌, ◌≡◌, refl, ◌⊎◌, inl, inr, Option, some, arith}
use but_telepresence.Prelude.Int.{pos, ◌+ℤ◌, ◌-ℤ◌}
use but_telepresence.Headset.Enums.{AspectRatioMode}
use but_telepresence.Headset.Settings.{Click}
use but_telepresence.Headset.Settings.Bounds.{IsUsable, IsClick, click-IsUsable-some}
use but_telepresence.Headset.Storage.{AppState}
use but_telepresence.Headset.Table.{
  FloatArithmetic, Row, segments, next_aspect, previous_aspect, on_config, on_increment,
  on_decrement,
}

-- A state whose settings are in the ranges that the table offers.
pub record IsSound {ℓ} {F : Type ℓ} (a : AppState F) : Type 0 where
  pub streaming_config : IsUsable a.streaming_config
  pub aspect_ratio_mode :
      (a.aspect_ratio_mode ≡ AspectRatioMode.full_screen)
      ⊎ (a.aspect_ratio_mode ≡ AspectRatioMode.full_fov)
  pub fast_enough : 100000 < a.head_movement_max_speed
  pub slow_enough : a.head_movement_max_speed < 1000000
  pub prediction : a.head_movement_prediction_ms ≤ 100

abbrev IsNamed : AspectRatioMode → Type 0
IsNamed m = (m ≡ AspectRatioMode.full_screen) ⊎ (m ≡ AspectRatioMode.full_fov)

aspect-of_two :
    (m : AspectRatioMode) → IsNamed m → IsNamed (next_aspect m) × IsNamed (previous_aspect m)
unfolding next_aspect previous_aspect ◌+ℤ◌ ◌-ℤ◌
aspect-of_two AspectRatioMode.full_screen h = (inr refl, inr refl)
aspect-of_two AspectRatioMode.full_fov h = (inl refl, inl refl)
aspect-of_two AspectRatioMode.count h = ground (arith, h)
aspect-of_two (AspectRatioMode.other n) h = ground (arith, h)

module _ {ℓ} {F : Type ℓ} where
  -- A row gives a state, one whose settings are in range, and robot control stays as it is.
  abbrev pub Gives : AppState F → Option (AppState F) → Type ℓ
  Gives a o =
      (b : AppState F) × (o ≡ some b)
      × IsSound b
      × (b.robot_control_enabled ≡ a.robot_control_enabled)

  module _ (a : AppState F) (v : IsSound a) where
    on_config-Gives : (k : Click) → IsClick k → Gives a (on_config k a)
    on_config-Gives k f =
        let (d, e, u) = click-IsUsable-some k a.streaming_config f v.streaming_config in
        (
          record a { streaming_config = d },
          rw e refl,
          record {
            streaming_config = u;
            aspect_ratio_mode = v.aspect_ratio_mode;
            fast_enough = v.fast_enough;
            slow_enough = v.slow_enough;
            prediction = v.prediction;
          },
          refl,
        )

    pub on_increment-Gives :
        (fl : FloatArithmetic F) (r : Row) (i : ℕ)
        → i < segments r
        → Gives a (on_increment fl r (pos i) a)
    unfolding on_increment segments
    on_increment-Gives fl Row.headset_ip i h = (a, refl, v, refl)
    on_increment-Gives fl Row.telepresence_ip i h = on_config-Gives _ h
    on_increment-Gives fl Row.codec i h = on_config-Gives _ tt
    on_increment-Gives fl Row.encoding_quality i h = on_config-Gives _ tt
    on_increment-Gives fl Row.bitrate i h = on_config-Gives _ tt
    on_increment-Gives fl Row.video_mode i h = on_config-Gives _ tt
    on_increment-Gives fl Row.aspect_ratio i h =
        (_, refl, ground (arith, v, aspect-of_two a.aspect_ratio_mode v.aspect_ratio_mode), refl)
    on_increment-Gives fl Row.fps i h = on_config-Gives _ tt
    on_increment-Gives fl Row.resolution i h = on_config-Gives _ tt
    on_increment-Gives fl Row.apply_button i h = (a, refl, v, refl)
    on_increment-Gives fl Row.head_movement_max_speed i h = (_, refl, ground (arith, v), refl)
    on_increment-Gives fl Row.head_movement_speed_multiplier i h =
        (_, refl, ground (arith, v), refl)
    on_increment-Gives fl Row.headset_movement_prediction i h = (_, refl, ground (arith, v), refl)
    on_increment-Gives fl Row.stereo_convergence i h = (_, refl, ground (arith, v), refl)

    pub on_decrement-Gives :
        (fl : FloatArithmetic F) (r : Row) (i : ℕ)
        → i < segments r
        → Gives a (on_decrement fl r (pos i) a)
    unfolding on_decrement segments
    on_decrement-Gives fl Row.headset_ip i h = (a, refl, v, refl)
    on_decrement-Gives fl Row.telepresence_ip i h = on_config-Gives _ h
    on_decrement-Gives fl Row.codec i h = on_config-Gives _ tt
    on_decrement-Gives fl Row.encoding_quality i h = on_config-Gives _ tt
    on_decrement-Gives fl Row.bitrate i h = on_config-Gives _ tt
    on_decrement-Gives fl Row.video_mode i h = on_config-Gives _ tt
    on_decrement-Gives fl Row.aspect_ratio i h =
        (_, refl, ground (arith, v, aspect-of_two a.aspect_ratio_mode v.aspect_ratio_mode), refl)
    on_decrement-Gives fl Row.fps i h = on_config-Gives _ tt
    on_decrement-Gives fl Row.resolution i h = on_config-Gives _ tt
    on_decrement-Gives fl Row.apply_button i h = (a, refl, v, refl)
    on_decrement-Gives fl Row.head_movement_max_speed i h = (_, refl, ground (arith, v), refl)
    on_decrement-Gives fl Row.head_movement_speed_multiplier i h =
        (_, refl, ground (arith, v), refl)
    on_decrement-Gives fl Row.headset_movement_prediction i h = (_, refl, ground (arith, v), refl)
    on_decrement-Gives fl Row.stereo_convergence i h = (_, refl, ground (arith, v), refl)
