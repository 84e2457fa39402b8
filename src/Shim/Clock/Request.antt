-- ===== src/Shim/Clock/Request.antt =====
-- From a client's request for a time to what a process is told.
use linbox.Prelude.{
  ℕ, ◌+◌, ◌≤◌, ◌≡◌, ◌≢◌, sym, ap, ◌∙◌, arith, Bool, true, Option, some, List, length, take,
}
use linbox.Prelude.Int.{ℤ}
use linbox.Sbp.{Message, ok, ack, set_time, sbp_version, serialize_message}
use linbox.Sbp.RoundTrip.{IsMessage, wire_payload}
use linbox.Shm.{Timespec}
use linbox.Controller.TimeManager
use linbox.Controller.TimeManager.{TimeManager}
use linbox.Controller.TimeManager.Publish.{IsPublished}
use linbox.Controller.Server.{Reply, effect, handle_client_message}
use linbox.Controller.Server.Effects.{effect-IsPublished}
use linbox.Controller.Server.Request.{handle_client_message-effect}
use linbox.Shim.{State, Boot}
use linbox.Shim.Clock.{told, is_known_clock, clock_gettime}
use linbox.Shim.Clock.Agreement.{clock_gettime-published}

set_time-current :
    (tm : TimeManager) (ts : Timespec) (now : ℕ)
    → IsPublished tm
    → (TimeManager.set_time tm (some ts) now).current ≡ ts
unfolding TimeManager.set_time
set_time-current tm ts now h = ground arith

effect-current :
    (s n : ℤ) (now : ℕ) (tm : TimeManager)
    → IsPublished tm
    → (effect (set_time s n) now tm).current ≡ record { tv_sec = s; tv_nsec = n }
unfolding effect
effect-current s n now tm h = set_time-current tm (record { tv_sec = s; tv_nsec = n }) now h

not_ack : (m : Message) (s n : ℤ) → m.body ≡ set_time s n → m.body ≢ ack
not_ack m s n b e = let both = sym b ∙ e in cc

-- A client that sends a message for setting the time, whose fields are in the range of their types
-- and whose version is the protocol's, as `serialize_message` writes it into a buffer with room for
-- it, to a controller whose time is published, has every process told just that time afterwards: one
-- whose state is set up, that is connected and shares the controller's memory, whichever of the
-- known clocks it asks.
pub set_time-told :
    (m : Message) (s n : ℤ) (out buf : List ℕ) (cap len now : ℕ) (write_ok : Bool)
    (tm : TimeManager) (boot : Boot) (real : Option Timespec) (id : ℕ) (st : State)
    → IsMessage m
    → m.version ≡ sbp_version
    → m.body ≡ set_time s n
    → 8 + length (wire_payload m.body) ≤ cap
    → cap ≤ length out
    → serialize_message (some m) (some out) cap true ≡ ok (buf, len)
    → IsPublished tm
    → st.initialized ≡ true
    → st.controller_connected ≡ true
    → st.shm.layout
      ≡ (handle_client_message (some (take len buf)) now write_ok tm).manager.shm.layout
    → is_known_clock id ≡ true
    → clock_gettime boot real id st ≡ (told (record { tv_sec = s; tv_nsec = n }), st)
set_time-told m s n out buf cap len now write_ok tm boot real id st h v b room fits e good i c same
      k =
    let next = effect (set_time s n) now tm in
    let (frame, handled, acked) =
      handle_client_message-effect m out buf cap len now write_ok tm h v (not_ack m s n b) room fits
        e in
    let manager : (handle_client_message (some (take len buf)) now write_ok tm).manager ≡ next =
      ap (λ (r : Reply). r.manager) handled ∙ ap (λ b. effect b now tm) b in
    (clock_gettime-published boot real id st next i c
      (same ∙ ap (λ (t : TimeManager). t.shm.layout) manager)
      (effect-IsPublished (set_time s n) now tm good) k).0
    ∙ ap (λ (ts : Timespec). (told ts, st)) (effect-current s n now tm good)
