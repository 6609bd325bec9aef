-- ===== src/Controller/Events/Tests.antt =====
-- Events of cloudcoil/controller/_events.py on small inputs, and the theorems at them.
use cloudcoil.Base.{ℕ, ◌*◌, true, false, none, some, List, [], ◌∷◌, ◌≡◌, refl, arith, length}
use cloudcoil.Base.Json.{Text, codes, text_discrete, equal_texts}
use cloudcoil.Base.Dicts.{lookup, pop}
use cloudcoil.Base.Durations.{ticks, not_finite}
use cloudcoil.Base.Results.{value_error, raise}
use cloudcoil.Controller.Events.{
  second, burst, EventKey-discrete, EventRecorder, init, is_identifier, Subject, Message, action_of,
  check, namespace_of, event_key, touch, trim, refill, reserve, accepted, refused, emit,
}
use cloudcoil.Controller.Events.Limits.{Attempt, attempt, run, requests}
use cloudcoil.Controller.Events.Suppression.{attempt_again-suppressed}

program : Unit {0}
unfolding init is_identifier action_of check namespace_of event_key touch trim refill reserve emit
    attempt run requests EventKey-discrete text_discrete equal_texts lookup pop
program = tt

abbrev start : EventRecorder
start = record {
  reporting_controller = codes "cloudcoil";
  namespace = none;
  interval = 60000000;
  max_keys = 2;
  recent = [];
  tokens = burst * second;
  last_token = 7;
}

endless_refused : init (codes "cloudcoil") not_finite (ticks 2000000) 2 none 7 ≡ raise value_error
unfolding program
endless_refused = refl

abbrev pod : Text → Subject
pod uid = record {
  name = some (codes "p");
  namespace = none;
  uid = some uid;
  server = none;
  config_namespace = codes "default";
}

abbrev message : Text → Message
message reason = record { reason = reason; type = codes "Normal"; action = none }

abbrev call : Text → ℕ → Attempt
call uid now = record {
  subject = pod uid;
  message = message (codes "Ready");
  now = now;
  answer = refused;
}

bad_reason :
    (emit (pod (codes "u")) (message (codes "not ready")) 8 accepted start).outcome
    ≡ raise value_error
unfolding program
bad_reason = refl

abbrev calls : List Attempt
calls = call (codes "a") 8 ∷ call (codes "a") 9 ∷ call (codes "b") 10 ∷ call (codes "c") 11 ∷ []

-- The second call is suppressed, and "a" is forgotten for "c".
three_sent : (requests calls start ≡ 3) × (length (run calls start).recent ≡ 2)
unfolding program
three_sent = (refl, refl)

abbrev first : Attempt
first = call (codes "a") 8

first_sent : (attempt first start).sent ≡ true
unfolding program
first_sent = refl

one_more : requests (call (codes "b") 10 ∷ []) (attempt first start).recorder ≡ 1
unfolding program
one_more = refl

same_event :
    event_key start (pod (codes "a")) (message (codes "Ready"))
    ≡ event_key start (pod (codes "a")) (message (codes "Ready"))
same_event = refl

attempt_again-suppressed_example :
    ((attempt
        (call (codes "a") 9000)
        (run (call (codes "b") 10 ∷ []) (attempt first start).recorder)).sent
      ≡ false)
    × ((attempt
          (call (codes "a") 9000)
          (run (call (codes "b") 10 ∷ []) (attempt first start).recorder)).recorder
        ≡ run (call (codes "b") 10 ∷ []) (attempt first start).recorder)
attempt_again-suppressed_example =
    attempt_again-suppressed first (call (codes "a") 9000) (call (codes "b") 10 ∷ []) 10 start
      (omega arith) first_sent (omega arith) (omega (arith, one_more)) same_event (omega arith)
