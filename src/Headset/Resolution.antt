-- ===== src/Headset/Resolution.antt =====
-- VR_App/include/types/camera_types.h: CameraResolution, the predefined resolutions by label and by
-- index. A function that throws returns `none`.
use but_telepresence.Prelude.{
  ℕ, suc, ◌≡◌, refl, ◌&&◌, Option, none, some, List, [], ◌∷◌, if◌then◌else◌, length, get_elem?,
}
use but_telepresence.Prelude.Int.{ℤ, pos, int_eq}
use but_telepresence.Prelude.Text.{Str, codes, str_eq}

pub record CameraResolution : Type 0 where
  pub width : ℤ
  pub height : ℤ
  pub label : Str

abbrev resolution : ℕ → ℕ → Str → CameraResolution
resolution w h l = record { width = pos w; height = pos h; label = l }

-- getList(); getMap() has the same entries, each under its label.
unfoldable pub get_list : List CameraResolution
get_list =
    resolution 640 360 (codes "nHD")
    ∷ resolution 960 540 (codes "qHD")
    ∷ resolution 1024 576 (codes "WSVGA")
    ∷ resolution 1280 720 (codes "HD")
    ∷ resolution 1600 900 (codes "HD+")
    ∷ resolution 1920 1080 (codes "FHD")
    ∷ resolution 2048 1152 (codes "QWXGA")
    ∷ resolution 2560 1440 (codes "QHD")
    ∷ resolution 3200 1800 (codes "WQXGA+")
    ∷ resolution 3840 2160 (codes "UHD")
    ∷ []

unfoldable pub find_label : Str → List CameraResolution → Option CameraResolution
find_label l [] = none
find_label l (r ∷ rs) = if str_eq r.label l then some r else find_label l rs

unfoldable pub from_label : Str → Option CameraResolution
unfolding find_label str_eq get_list
from_label l = find_label l get_list

unfoldable pub from_index : ℕ → Option CameraResolution
unfolding get_list
from_index i = get_elem? get_list i

-- The loop of getIndex from index `i` on.
index_from : ℤ → ℤ → ℕ → List CameraResolution → Option ℕ
index_from w h i [] = none
index_from w h i (r ∷ rs) =
    if int_eq w r.width && int_eq h r.height then some i else index_from w h (suc i) rs

unfoldable pub get_index : CameraResolution → Option ℕ
unfolding index_from get_list
get_index r = index_from r.width r.height 0 get_list

unfoldable pub count : ℕ
unfolding get_list
count = length get_list

unfoldable pub fhd : CameraResolution
fhd = resolution 1920 1080 (codes "FHD")

fhd-from_label : from_label (codes "FHD") ≡ some fhd
unfolding from_label fhd
fhd-from_label = refl
