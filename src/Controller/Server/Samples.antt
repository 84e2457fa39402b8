-- ===== src/Controller/Server/Samples.antt =====
-- A controller with three clients, and a turn of its loop, for the tests.
use linbox.Prelude.{◌≡◌, refl, true, false, some, none, [], ◌∷◌, replicate, ◌==◌}
use linbox.Prelude.Int.{pos, ◌*ℤ◌, ◌+ℤ◌, ◌-ℤ◌}
use linbox.Shm.{Timespec, Layout, empty_slot, write_time}
use linbox.Controller.TimeManager.{TimeManager, tick, ns_add}
use linbox.Controller.Slots
use linbox.Controller.Slots.{Signal, reap_slots}
use linbox.Controller.Slots.Table.{replicate-IsTable}
use linbox.Controller.Server.{World, Server, serve, turn, accept_client, advance_clock, measured}
use linbox.Controller.Server.Effects.{IsReady}

abbrev pub epoch : Timespec
epoch = record { tv_sec = pos 100; tv_nsec = pos 5 }

abbrev pub memory : Layout
memory = record {
  header = record {
    magic = 0x4C494E42;
    version = 1;
    header_size = 72;
    global_seq = 0;
    heartbeat_ns = 9;
    network_policy_offset = 2160;
    filesystem_policy_offset = 3184;
    dns_policy_offset = 4208;
    policy_size = 4096;
  };
  time_seq = 2;
  virtual_time = epoch;
  prng_seed = 0;
  flags = 0;
  process_slots = replicate 64 empty_slot;
}

abbrev pub manager : TimeManager
manager = record {
  shm = record { fd = pos 3; size = 7280; layout = some memory };
  current = epoch;
  seed = 0;
}

pub manager-IsReady : IsReady manager
manager-IsReady = ((refl, refl, refl), (refl, replicate-IsTable 64))

-- Client 0 has hung up; the others have nothing to say.
abbrev pub hangup : World
hangup = record {
  revents = λ i. record { failed = i == 0; readable = false };
  received = λ fd. none;
  write_ok = λ fd. true;
  now = 10;
}

abbrev pub quiet : World
quiet = record hangup { revents = λ i. record { failed = false; readable = false } }

abbrev pub server : Server
server = record { clients = 4 ∷ 5 ∷ 6 ∷ []; manager = manager; closed = [] }

-- A second later, with a new client 7.
abbrev pub later : Timespec
later = record { tv_sec = pos 101; tv_nsec = pos 5 }

abbrev pub after_turn : Server
after_turn =
    let header = memory.header in
    record server {
      clients = 4 ∷ 5 ∷ 6 ∷ 7 ∷ [];
      manager = record {
        shm = record {
          fd = pos 3;
          size = 7280;
          layout = some (record memory {
            header = record header { heartbeat_ns = 10 };
            time_seq = 4;
            virtual_time = later;
          });
        };
        current = later;
        seed = 0;
      };
    }

pub a_turn :
    turn quiet
      (some 7)
      (λ pid. Signal.no_process)
      (record { tv_sec = pos 51; tv_nsec = pos 0 })
      (server, record { tv_sec = pos 50; tv_nsec = pos 0 })
    ≡ some (after_turn, record { tv_sec = pos 51; tv_nsec = pos 0 })
unfolding turn serve accept_client advance_clock measured tick ns_add write_time
    Slots.reap_dead_processes reap_slots ◌*ℤ◌ ◌+ℤ◌ ◌-ℤ◌
a_turn = refl

-- A turn in which no time passes, with client 7 as the only one.
pub first_turn :
    (tm : TimeManager) (now : Timespec)
    → measured now now ≡ some (pos 0)
    → turn quiet
        (some 7)
        (λ pid. Signal.no_process)
        now
        (record { clients = []; manager = tm; closed = [] }, now)
      ≡ some (record { clients = 7 ∷ []; manager = tm; closed = [] }, now)
unfolding turn serve accept_client
first_turn tm now e = rw e refl

abbrev pub start : Timespec
start = record { tv_sec = pos 50; tv_nsec = pos 0 }

pub no_time : measured start start ≡ some (pos 0)
unfolding measured ◌*ℤ◌ ◌+ℤ◌ ◌-ℤ◌
no_time = refl
