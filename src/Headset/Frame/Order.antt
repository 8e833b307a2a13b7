-- ===== src/Headset/Frame/Order.antt =====
-- The order of calls that the OpenXR specification asks for, and the calls of one frame.
use but_telepresence.Prelude.{
  ℕ, zero, suc, ◌≡◌, refl, ◌∙◌, Bool, true, false, not, ◌&&◌, Option, none, some, List, [], ◌∷◌,
  ◌++◌, if◌then◌else◌, ◌==◌, arith,
}
use but_telepresence.Headset.Session.{Call}
use but_telepresence.Headset.Frame.{XrCall, render_views, render_frame, calls_of}

-- A frame is waited for, then begun, then ended.
pub data Stage : Type 0 where
  outside waited begun : Stage

-- `image` is the view whose image is acquired, and whether it was waited for.
pub record Protocol : Type 0 where
  pub running : Bool
  pub stage : Stage
  pub image : Option (ℕ × Bool)

abbrev pub between : Bool → Protocol
between running = record { running = running; stage = Stage.outside; image = none }

abbrev pub in_frame : Protocol
in_frame = record { running = true; stage = Stage.begun; image = none }

pub at_image : (view : ℕ) → (waits : Bool) → Option (ℕ × Bool) → Bool
at_image view waits none = false
at_image view true (some (i, b)) = not b && i == view
at_image view false (some (i, b)) = b && i == view

-- The state after a call, or `none` where the call is out of order.
unfoldable pub accept : XrCall → Protocol → Option Protocol
unfolding at_image
accept XrCall.begin_session p = if p.running then none else some (record p { running = true })
accept XrCall.end_session p = elim p.stage [
  | Stage.outside ↦ if p.running then some (record p { running = false }) else none
  | _ ↦ none
]
accept XrCall.sync_actions p = some p
accept XrCall.locate p = some p
accept XrCall.wait_frame p = elim p.stage [
  | Stage.outside ↦ if p.running then some (record p { stage = Stage.waited }) else none
  | _ ↦ none
]
accept XrCall.begin_frame p = elim p.stage [
  | Stage.waited ↦ some (record p { stage = Stage.begun })
  | _ ↦ none
]
accept XrCall.end_frame p = elim p.stage [
  | Stage.begun ↦ elim p.image [ none ↦ some (record p { stage = Stage.outside }) | some i ↦ none ]
  | _ ↦ none
]
accept (XrCall.acquire_image view) p = elim p.stage [
  | Stage.begun ↦ elim p.image [
    | none ↦ some (record p { image = some (view, false) })
    | some i ↦ none
  ]
  | _ ↦ none
]
accept (XrCall.wait_image view) p = elim p.stage [
  | Stage.begun ↦
      if at_image view true p.image then some (record p { image = some (view, true) }) else none
  | _ ↦ none
]
accept (XrCall.release_image view) p = elim p.stage [
  | Stage.begun ↦ if at_image view false p.image then some (record p { image = none }) else none
  | _ ↦ none
]

unfoldable pub accept_all : List XrCall → Protocol → Option Protocol
accept_all [] p = some p
accept_all (c ∷ cs) p = elim (accept c p) [ none ↦ none | some q ↦ accept_all cs q ]

abbrev pub continue : List XrCall → Option Protocol → Option Protocol
continue cs none = none
continue cs (some p) = accept_all cs p

pub accept_all-append :
    (cs ds : List XrCall) (p : Protocol) → accept_all (cs ++ ds) p ≡ continue ds (accept_all cs p)
unfolding accept_all
accept_all-append [] ds p = refl
accept_all-append (c ∷ cs) ds p = go (accept c p) (λ q. accept_all-append cs ds q)
  where
    go :
        (o : Option Protocol)
        → ((q : Protocol) → accept_all (cs ++ ds) q ≡ continue ds (accept_all cs q))
        → (elim o as (λ x. Option Protocol) [ none ↦ none | some q ↦ accept_all (cs ++ ds) q ])
          ≡ continue ds
              (elim o as (λ x. Option Protocol) [ none ↦ none | some q ↦ accept_all cs q ])
    go none ih = refl
    go (some q) ih = ih q

same_view : (view : ℕ) → (view == view) ≡ true
same_view view = ground arith

view_accepted :
    (view : ℕ) (cs : List XrCall)
    → accept_all
        (XrCall.acquire_image view ∷ XrCall.wait_image view ∷ XrCall.release_image view ∷ cs)
        in_frame
      ≡ accept_all cs in_frame
unfolding accept_all accept
view_accepted view cs = rw (same_view view, accept_all, accept) (rw (same_view view, accept) refl)

views_accepted :
    (view rest : ℕ) (cs : List XrCall)
    → accept_all (render_views view rest ++ cs) in_frame ≡ accept_all cs in_frame
unfolding accept_all accept render_views
views_accepted view zero cs = refl
views_accepted view (suc rest) cs =
    view_accepted view (render_views (suc view) rest ++ cs) ∙ views_accepted (suc view) rest cs

pub frame_accepted :
    (view_count : ℕ)
    → accept_all (calls_of view_count Call.frame) (between true) ≡ some (between true)
unfolding accept_all accept render_frame
frame_accepted view_count = views_accepted 0 view_count (XrCall.end_frame ∷ []) ∙ refl
