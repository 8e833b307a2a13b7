-- ===== src/Headset/Sender/Counters.antt =====
-- The failure counter and the success counter of VR_App/include/robot_control_sender.h against the
-- history of the sends.
use but_telepresence.Prelude.{
  ℕ, zero, suc, ◌<◌, ◌≤◌, ◌^◌, ◌≡◌, refl, sym, ◌↔◌, Bool, true, false, not, ◌&&◌, List, [], ◌∷◌,
  if◌then◌else◌, arith, length, take, All,
}
use but_telepresence.Prelude.Int.{pos, ltb_ℤ}
use but_telepresence.Headset.Packet.{head_pose_packet, robot_control_packet, debug_info_packet}
use but_telepresence.Headset.Sender.{
  Health, fresh_health, has_connection_issue, has_ever_succeeded, Task, World, run_task,
  send_head_pose_packet, send_robot_control_packet, send_debug_info_packet,
}

-- A send: the task that ran and what it met.
abbrev pub Send : Type 0
Send = World × Task

-- The bytes of the task's packet.
abbrev pub packet_of : Send → List ℕ
packet_of (e, Task.head_pose q speed) =
    head_pose_packet (e.to_azimuth_elevation q).0 (e.to_azimuth_elevation q).1 speed e.now_us
packet_of (e, Task.robot_control x y angular) = robot_control_packet x y angular e.now_us
packet_of (e, Task.debug_info left right config) =
    debug_info_packet left right config e.ntp e.now_us

abbrev pub sent : Send → Bool
sent (e, t) = not (ltb_ℤ (e.sendto (packet_of (e, t))) (pos 0))

abbrev pub is_head_pose : Task → Bool
is_head_pose (Task.head_pose _ _) = true
is_head_pose _ = false

abbrev pub delivers_pose : Send → Bool
delivers_pose (e, t) = is_head_pose t && sent (e, t)

-- The counters after a history, the latest send first.
unfoldable pub run_sends : List Send → Health
unfolding run_task
run_sends [] = fresh_health
run_sends ((e, t) ∷ earlier) = run_task e t (run_sends earlier)

-- How many of the latest sends failed in a row.
pub trailing : List Send → ℕ
trailing [] = 0
trailing (s ∷ earlier) = let rest = trailing earlier in if sent s then 0 else suc rest

pub poses : List Send → ℕ
poses [] = 0
poses (s ∷ earlier) = let rest = poses earlier in if delivers_pose s then suc rest else rest

trailing_bound : (hs : List Send) → trailing hs ≤ length hs
unfolding trailing
trailing_bound [] = omega arith
trailing_bound (s ∷ hs) = ground (arith, trailing_bound hs)

poses_bound : (hs : List Send) → poses hs ≤ length hs
unfolding poses
poses_bound [] = omega arith
poses_bound (s ∷ hs) = ground (arith, poses_bound hs)

counters :
    (hs : List Send)
    → length hs < 2 ^ 31
    → ((run_sends hs).consecutive_failures ≡ trailing hs)
      × ((run_sends hs).successful_sends ≡ poses hs)
unfolding run_sends run_task send_head_pose_packet send_robot_control_packet send_debug_info_packet
    trailing poses
counters [] h = (refl, refl)
counters ((e, Task.head_pose q speed) ∷ hs) h =
    ground (arith, counters hs (omega arith), trailing_bound hs, poses_bound hs)
counters ((e, Task.robot_control x y angular) ∷ hs) h =
    ground (arith, counters hs (omega arith), trailing_bound hs, poses_bound hs)
counters ((e, Task.debug_info left right config) ∷ hs) h =
    ground (arith, counters hs (omega arith), trailing_bound hs, poses_bound hs)

trailing_iff :
    (n : ℕ) (hs : List Send)
    → (n ≤ trailing hs) ↔ ((n ≤ length hs) × All (λ s. sent s ≡ false) (take n hs))
unfolding trailing
trailing_iff zero hs = ground arith
trailing_iff (suc n) [] = ground arith
trailing_iff (suc n) (s ∷ hs) = ground (arith, trailing_iff n hs)

pub has_connection_issue_iff :
    (h : Health)
    → h.consecutive_failures < 2 ^ 31
    → (has_connection_issue h ≡ true) ↔ (10 ≤ h.consecutive_failures)
unfolding has_connection_issue
has_connection_issue_iff h lt = ground arith

pub has_ever_succeeded_iff :
    (h : Health)
    → h.successful_sends < 2 ^ 31
    → (has_ever_succeeded h ≡ true) ↔ (0 < h.successful_sends)
unfolding has_ever_succeeded
has_ever_succeeded_iff h lt = ground arith

pub poses_mono : (s : Send) (hs : List Send) → 0 < poses hs → 0 < poses (s ∷ hs)
unfolding poses
poses_mono s hs h = ground arith

pub issue_trailing :
    (hs : List Send)
    → length hs < 2 ^ 31
    → (has_connection_issue (run_sends hs) ≡ true) ↔ (10 ≤ trailing hs)
issue_trailing hs h =
    let c = counters hs h in
    rw (sym c.0)
      (has_connection_issue_iff (run_sends hs) (let b = trailing_bound hs in omega (arith, c.0, b)))

pub success_poses :
    (hs : List Send)
    → length hs < 2 ^ 31
    → (has_ever_succeeded (run_sends hs) ≡ true) ↔ (0 < poses hs)
success_poses hs h =
    let c = counters hs h in
    rw (sym c.1)
      (has_ever_succeeded_iff (run_sends hs) (let b = poses_bound hs in omega (arith, c.1, b)))

-- For a history of fewer than 2^31 sends, a connection issue is reported exactly when there were
-- ten sends and the latest ten, of whatever kind, all failed; and a success is reported exactly
-- when the system took a head pose at least once.
pub has_connection_issue_lem :
    (hs : List Send)
    → length hs < 2 ^ 31
    → ((has_connection_issue (run_sends hs) ≡ true)
        ↔ ((10 ≤ length hs) × All (λ s. sent s ≡ false) (take 10 hs)))
      × ((has_ever_succeeded (run_sends hs) ≡ true) ↔ (0 < poses hs))
has_connection_issue_lem hs h = (
  (
    λ i. (trailing_iff 10 hs).0 ((issue_trailing hs h).0 i),
    λ a. (issue_trailing hs h).1 ((trailing_iff 10 hs).1 a),
  ),
  success_poses hs h,
)
