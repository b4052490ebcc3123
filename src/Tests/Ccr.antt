-- ===== src/Tests/Ccr.antt =====
-- A broker with a heartbeat of 30 seconds, some calls, and some requests.
use eidetic_daemon.Prelude.{
  pos, ◌-ℤ◌, ◌≡◌, refl, codes, map, has_prefix, split_on, none, some, List, [], ◌∷◌, length,
}
use mathlib.Core.Option
use eidetic_daemon.TextSearch.{Text, same_text}
use eidetic_daemon.Dict.{lookup, put}
use eidetic_daemon.Ccr.{
  Broker, new_broker, subscribe, wake_each, wake_active, sweep_each, sweep, read, Op, subscribes,
  wakes, sweeps, reads, step, run,
}
use eidetic_daemon.Ccr.Mailbox.{Serving}
use eidetic_daemon.Ccr.Served.{Served, run-Served}
use eidetic_daemon.Ccr.Tools.{
  Arguments, Message, stdio, unix_socket, web_socket, initialize, tools_call, test_event,
  handle_all, zero_event, receive_event,
}
use eidetic_daemon.Ccr.Tools.Roles.{IsProper, handle_all-IsProper}
use eidetic_daemon.Ccr.Relay.{has_suffix, role_of, canonical_role, file_created}

abbrev empty : Broker
empty = new_broker 30000000000

empty-Serving : Serving empty
empty-Serving = record { distinct = tt; fit = tt }

empty-IsProper : IsProper empty
unfolding lookup
empty-IsProper = record { serving = empty-Serving; roles = λ id. tt }

abbrev id : Text
id = codes "a1"

abbrev ops : List Op
ops =
    subscribes id (codes "peer") (pos 0)
    ∷ wakes (test_event (codes "peer") (pos 1))
    ∷ wakes (test_event (codes "main") (pos 2))
    ∷ reads id
    ∷ sweeps (pos 100000000000)
    ∷ []

run-Served_example : Served ops empty (run ops empty)
run-Served_example = run-Served ops empty empty-Serving

abbrev asked : Arguments
asked = record { role = some (codes "peer"); timeout_seconds = none; subscription_id = none }

abbrev requests : List Message
requests =
    record { transport = stdio; id = id; now = pos 0; request = initialize }
    ∷ record {
      transport = web_socket (codes "2.0");
      id = id;
      now = pos 1;
      request =
          tools_call (some (record { name = codes "nucleus_ccr_subscribe"; arguments = asked }));
    }
    ∷ record {
      transport = unix_socket;
      id = id;
      now = pos 2;
      request = tools_call (some (record { name = codes "test_wake"; arguments = asked }));
    }
    ∷ []

handle_all-IsProper_example :
    (last : Broker) × (handle_all requests empty ≡ some last) × IsProper last
handle_all-IsProper_example = handle_all-IsProper requests empty empty-IsProper

-- A reader that waits longer than 90 seconds gets the zero event.
swept : Option.map (λ b. map receive_event b.left) (run ops empty) ≡ some (zero_event ∷ [])
unfolding run step subscribe wake_active wake_each read sweep sweep_each receive_event lookup put
    same_text ◌-ℤ◌
swept = refl

abbrev peer : Broker
peer = subscribe id (codes "peer") (pos 0) empty

-- One file below the directory of a role without the prefix brings two events.
twice :
    Option.map
      (λ b. Option.map (λ s. length s.buffer) (lookup id b.subs))
      (file_created (codes "/r/peer/1.json") (pos 5) peer)
    ≡ some (some 2)
unfolding file_created has_suffix role_of canonical_role wake_active wake_each subscribe lookup put
    same_text has_prefix split_on
twice = refl
