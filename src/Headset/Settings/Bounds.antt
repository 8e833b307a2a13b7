-- ===== src/Headset/Settings/Bounds.antt =====
-- No click on the streaming settings of VR_App/src/program.cpp leaves the range of what the two
-- programs can stream.
use but_telepresence.Prelude.{
  ℕ, ◌<◌, ◌≡◌, refl, Option, none, some, List, [], ◌∷◌, arith, All, length, ◌∙◌,
}
use but_telepresence.Prelude.Int.{ℤ}
use but_telepresence.Headset.Enums.{Codec, VideoMode}
use but_telepresence.Headset.Resolution.{CameraResolution, from_index}
use but_telepresence.Headset.Config.{StreamingConfig}
use but_telepresence.Headset.Settings.{
  Setting, Click, increment, decrement, click, clicks, bump, with_ip, with_resolution,
}
use but_telepresence.Headset.Settings.Steps.{
  IsOffered, IsMode, IsBetween, next_codec-IsOffered, next_mode-IsMode, bump_lem, IsListedOption,
  step_resolution-IsListed, up-IsBetween, down-IsBetween, fps-IsBetween,
}

-- A configuration that the table can show and step.
pub record IsUsable (c : StreamingConfig) : Type 0 where
  pub codec : IsOffered c.codec
  pub encoding_quality : IsBetween 0 100 c.encoding_quality
  pub bitrate : IsBetween 1000000 100000000 c.bitrate
  pub video_mode : IsMode c.video_mode
  pub fps : IsBetween 1 80 c.fps
  pub resolution : (i : ℕ) × (i < 10) × (from_index i ≡ some c.resolution)
  pub address : (length c.jetson_ip ≡ 4) × All (λ o. o < 256) c.jetson_ip

-- What a click on a usable configuration gives.
abbrev IsUsableOption : Option StreamingConfig → Type 0
IsUsableOption none = ⊥
IsUsableOption (some c) = IsUsable c

-- The focus is on one of the four octets.
abbrev pub IsInFocus : Setting → Type 0
IsInFocus (Setting.telepresence_ip i) = i < 4
IsInFocus _ = Unit {0}

abbrev pub IsClick : Click → Type 0
IsClick (increment s) = IsInFocus s
IsClick (decrement s) = IsInFocus s

-- The parts of a configuration that a click changes, one at a time.
module _ (c : StreamingConfig) (v : IsUsable c) where
  with_codec : (d : Codec) → IsOffered d → IsUsable (record c { codec = d })
  with_codec d h = record {
    codec = h;
    encoding_quality = v.encoding_quality;
    bitrate = v.bitrate;
    video_mode = v.video_mode;
    fps = v.fps;
    resolution = v.resolution;
    address = v.address;
  }

  with_quality : (n : ℤ) → IsBetween 0 100 n → IsUsable (record c { encoding_quality = n })
  with_quality n h = record {
    codec = v.codec;
    encoding_quality = h;
    bitrate = v.bitrate;
    video_mode = v.video_mode;
    fps = v.fps;
    resolution = v.resolution;
    address = v.address;
  }

  with_bitrate : (n : ℤ) → IsBetween 1000000 100000000 n → IsUsable (record c { bitrate = n })
  with_bitrate n h = record {
    codec = v.codec;
    encoding_quality = v.encoding_quality;
    bitrate = h;
    video_mode = v.video_mode;
    fps = v.fps;
    resolution = v.resolution;
    address = v.address;
  }

  with_mode : (m : VideoMode) → IsMode m → IsUsable (record c { video_mode = m })
  with_mode m h = record {
    codec = v.codec;
    encoding_quality = v.encoding_quality;
    bitrate = v.bitrate;
    video_mode = h;
    fps = v.fps;
    resolution = v.resolution;
    address = v.address;
  }

  with_fps : (n : ℤ) → IsBetween 1 80 n → IsUsable (record c { fps = n })
  with_fps n h = record {
    codec = v.codec;
    encoding_quality = v.encoding_quality;
    bitrate = v.bitrate;
    video_mode = v.video_mode;
    fps = h;
    resolution = v.resolution;
    address = v.address;
  }

  with_listed :
      (o : Option CameraResolution) → IsListedOption o → IsUsableOption (with_resolution c o)
  with_listed none h = absurd h
  with_listed (some r) h = record {
    codec = v.codec;
    encoding_quality = v.encoding_quality;
    bitrate = v.bitrate;
    video_mode = v.video_mode;
    fps = v.fps;
    resolution = h;
    address = v.address;
  }

  with_bump : (i step : ℕ) → i < 4 → IsUsableOption (with_ip c (bump i step c.jetson_ip))
  with_bump i step h =
      let a = v.address.0 in
      let (r, e, l, b) = bump_lem i step c.jetson_ip (omega (arith, a)) v.address.1 in
      rw e (record {
        codec = v.codec;
        encoding_quality = v.encoding_quality;
        bitrate = v.bitrate;
        video_mode = v.video_mode;
        fps = v.fps;
        resolution = v.resolution;
        address = (l ∙ a, b);
      })

click-IsUsable :
    (k : Click) (c : StreamingConfig) → IsClick k → IsUsable c → IsUsableOption (click k c)
unfolding click
click-IsUsable (increment Setting.codec) c f v =
    with_codec c v _ (next_codec-IsOffered c.codec v.codec).0
click-IsUsable (decrement Setting.codec) c f v =
    with_codec c v _ (next_codec-IsOffered c.codec v.codec).1
click-IsUsable (increment Setting.encoding_quality) c f v =
    with_quality c v _ (up-IsBetween 100 1 0 c.encoding_quality (omega arith) v.encoding_quality)
click-IsUsable (decrement Setting.encoding_quality) c f v =
    with_quality c v _ (down-IsBetween 100 1 0 c.encoding_quality (omega arith) v.encoding_quality)
click-IsUsable (increment Setting.bitrate) c f v =
    with_bitrate c v _ (up-IsBetween 100000000 1000000 1000000 c.bitrate (omega arith) v.bitrate)
click-IsUsable (decrement Setting.bitrate) c f v =
    with_bitrate c v _ (down-IsBetween 100000000 1000000 1000000 c.bitrate (omega arith) v.bitrate)
click-IsUsable (increment Setting.video_mode) c f v =
    with_mode c v _ (next_mode-IsMode c.video_mode v.video_mode).0
click-IsUsable (decrement Setting.video_mode) c f v =
    with_mode c v _ (next_mode-IsMode c.video_mode v.video_mode).1
click-IsUsable (increment Setting.fps) c f v = with_fps c v _ (fps-IsBetween c.fps v.fps).0
click-IsUsable (decrement Setting.fps) c f v = with_fps c v _ (fps-IsBetween c.fps v.fps).1
click-IsUsable (increment Setting.resolution) c f v =
    with_listed c v _ (step_resolution-IsListed c.resolution v.resolution).0
click-IsUsable (decrement Setting.resolution) c f v =
    with_listed c v _ (step_resolution-IsListed c.resolution v.resolution).1
click-IsUsable (increment (Setting.telepresence_ip i)) c f v = with_bump c v i 1 f
click-IsUsable (decrement (Setting.telepresence_ip i)) c f v = with_bump c v i 255 f

IsUsableOption-some :
    (o : Option StreamingConfig)
    → IsUsableOption o
    → (d : StreamingConfig) × (o ≡ some d) × IsUsable d
IsUsableOption-some none u = absurd u
IsUsableOption-some (some d) u = (d, refl, u)

pub click-IsUsable-some :
    (k : Click) (c : StreamingConfig)
    → IsClick k
    → IsUsable c
    → (d : StreamingConfig) × (click k c ≡ some d) × IsUsable d
click-IsUsable-some k c f v = IsUsableOption-some (click k c) (click-IsUsable k c f v)

-- From a usable configuration no sequence of clicks throws, as long as a click on the address is on
-- one of its four octets, and the configuration stays usable: the codec is JPEG, H264 or H265, the
-- quality within 0 to 100, the bitrate within 1000000 to 100000000, the mode one of the three, the
-- frame rate within 1 to 80, the resolution one of the ten, and the address four octets.
pub clicks-IsUsable :
    (ks : List Click) (c : StreamingConfig)
    → All IsClick ks
    → IsUsable c
    → (d : StreamingConfig) × (clicks ks c ≡ some d) × IsUsable d
unfolding clicks
clicks-IsUsable [] c f v = (c, refl, v)
clicks-IsUsable (k ∷ ks) c f v =
    let (d, e, u) = click-IsUsable-some k c f.0 v in
    let (b, g, w) = clicks-IsUsable ks d f.1 u in (b, rw (clicks, e) g, w)
