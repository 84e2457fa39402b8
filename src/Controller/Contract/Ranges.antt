-- ===== src/Controller/Contract/Ranges.antt =====
-- Whatever happens to the sandbox, its fields stay in the range of their types in C.
use linbox.Prelude.{
  ℕ, ◌^◌, ◌<◌, ◌≡◌, refl, sym, ◌∙◌, arith, Bool, true, false, not, ◌&&◌, ◌||◌, Option, none, some,
  List, length, All, ◌==◌, Bool-cases, inl, inr,
}
use mathlib.Core.Path.{subst}
use linbox.Prelude.Int.{ℤ, pos, negsuc}
use linbox.Prelude.Words.{IsI64, IsI32}
use linbox.Sbp.{Message, Body, hello, ack, set_time, set_seed, register_process, other}
use linbox.Sbp.RoundTrip.{IsBody}
use linbox.Sbp.Accept.{IsByte, deserialize_message-canonical}
use linbox.Shm.{Timespec}
use linbox.Controller.TimeManager.{ns_add}
use linbox.Controller.TimeManager.NsAdd.{ns_add-IsI64}
use linbox.Controller.Slots.{Signal, is_dead}
use linbox.Controller.Server.{World, Server}
use linbox.Controller.Server.Effects.{Reads}
use linbox.Controller.Server.Invariant.{IsSound}
use linbox.Controller.Main.{Event, run_loop}
use linbox.Controller.Main.Cases.{Occurs}
use linbox.Controller.Contract.{Sandbox, ask, join, view_of, Advanced}
use linbox.Controller.Contract.Trace.{Evolves, still, asked, advanced, run_loop-Evolves}

-- time_t and long, uint64_t, and uint32_t.
pub record InRange (s : Sandbox) : Type 0 where
  pub seconds : IsI64 s.time.tv_sec
  pub nanoseconds : IsI64 s.time.tv_nsec
  pub seed : s.seed < 2 ^ 64
  pub pids : (r : ℕ) → s.members r ≡ true → r < 2 ^ 32

-- What is read from a socket is bytes.
abbrev pub AreBytes : Option (List ℕ) → Type 0
AreBytes none = Unit
AreBytes (some bytes) = All IsByte bytes

wide : (n : ℤ) → IsI32 n → IsI64 n
wide (pos n) h = omega arith
wide (negsuc n) h = omega arith

joined_pids :
    (pid r : ℕ) (old : Bool)
    → pid < 2 ^ 32
    → (old ≡ true → r < 2 ^ 32)
    → (r == pid || old) ≡ true
    → r < 2 ^ 32
joined_pids pid r old h k e = ground arith

join-InRange : (pid : ℕ) (s : Sandbox) → pid < 2 ^ 32 → InRange s → InRange (join pid s)
unfolding join
join-InRange pid s h t =
    let members = s.members in
    elim (Bool-cases (pid == 0 || members pid || s.room == 0)) [
      | inl same ↦ rw same t
      | inr new ↦ rw new (record {
        seconds = t.seconds;
        nanoseconds = t.nanoseconds;
        seed = t.seed;
        pids = λ r e. joined_pids pid r (members r) h (t.pids r) e;
      })
    ]

ask-InRange : (b : Body) (s : Sandbox) → IsBody b → InRange s → InRange (ask b s)
unfolding ask
ask-InRange (set_time sec nsec) s h t = record {
  seconds = h.0;
  nanoseconds = wide nsec h.1;
  seed = t.seed;
  pids = t.pids;
}
ask-InRange (set_seed seed) s h t = record {
  seconds = t.seconds;
  nanoseconds = t.nanoseconds;
  seed = h;
  pids = t.pids;
}
ask-InRange (register_process pid slot) s h t = join-InRange pid s h.0 t
ask-InRange hello s h t = t
ask-InRange ack s h t = t
ask-InRange (other kind) s h t = t

read-IsBody :
    (received : Option (List ℕ)) (m : Message)
    → AreBytes received
    → Reads received m
    → IsBody m.body
read-IsBody none m h e = absurd e
read-IsBody (some bytes) m h e =
    (deserialize_message-canonical bytes (length bytes) m h (omega arith) e).0.body_fits

both_true : (x y : Bool) → (x && y) ≡ true → x ≡ true
both_true true y e = refl
both_true false y e = cc

Advanced-InRange :
    (probe : ℕ → Signal) (delta : ℤ) (s t : Sandbox)
    → InRange s
    → ns_add s.time delta ≡ some t.time
    → Advanced probe t.time s t
    → InRange t
Advanced-InRange probe delta s t h e (time, seed, members, room) =
    let (sec, nsec) = ns_add-IsI64 s.time t.time delta e in
    record {
      seconds = sec;
      nanoseconds = nsec;
      seed = omega (arith, seed, h.seed);
      pids =
          λ r m. h.pids r (both_true (s.members r) (not (is_dead (probe r))) (sym (members r) ∙ m));
    }

Evolves-InRange :
    (events : List Event) (s t : Sandbox)
    → ((w : World) (probe : ℕ → Signal) (fd : ℕ) → Occurs w probe events → AreBytes (w.received fd))
    → InRange s
    → Evolves events s t
    → InRange t
Evolves-InRange events s _ bytes h still = h
Evolves-InRange events s _ bytes h (asked t b before (w, probe, fd, m, o, reads, same)) =
    ask-InRange b t (subst IsBody same (read-IsBody (w.received fd) m (bytes w probe fd o) reads))
      (Evolves-InRange events s t bytes h before)
Evolves-InRange events s u bytes h (advanced t _ w probe delta before o later time moved) =
    Advanced-InRange probe delta t u (Evolves-InRange events s t bytes h before) time moved

-- What processes see of the memory stays in the range of its types in C however long the loop runs
-- from a sound server on, as long as no sum of the time overflows: the time, the seed and the pids,
-- if they are in range at first, for whatever bytes the clients send.
pub run_loop-InRange :
    (events : List Event) (a b : Server) (k l : Timespec)
    → ((w : World) (probe : ℕ → Signal) (fd : ℕ) → Occurs w probe events → AreBytes (w.received fd))
    → IsSound a
    → InRange (view_of a.manager.shm.layout)
    → run_loop events (a, k) ≡ some (b, l)
    → InRange (view_of b.manager.shm.layout)
run_loop-InRange events a b k l bytes sound h e =
    Evolves-InRange events (view_of a.manager.shm.layout) (view_of b.manager.shm.layout) bytes h
      (run_loop-Evolves events a b k l sound e)
