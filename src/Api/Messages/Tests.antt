-- ===== src/Api/Messages/Tests.antt =====
-- Runs of the calls of messages.ts, and the theorems at concrete inputs.
use zero_mes.Common.{
  ◌≡◌, refl, true, false, Option, none, some, List, [], ◌∷◌, ◌++◌, get_elem?, is_some,
}
use zero_mes.Json.{Json, str, is_text, member, get_field, truthy, or_default, optional_member}
use zero_mes.Socket.State.{Runtime, opened, connected}
use zero_mes.Socket.Client.{
  new_client, send, on_message, add_handler, off_message, delete_handler, is_connected, socket_url,
  call_message_handlers,
}
use zero_mes.Socket.Events.{receives, deliver, handle_message}
use zero_mes.Socket.Delivery.{contains}
use zero_mes.Api.Messages.Frames.{
  Outcome, rejected, has_type, payload_error, settle_on, send_message_frame,
  check_online_status_frame, delete_message_frame, on_message_sent, on_message_deleted,
  on_online_status,
}
use zero_mes.Api.Messages.{
  Request, send_message, delete_message, check_online_status, answer, Call, Session, settle, react,
  call_handler, call_handlers, begin, expire_call, expire, frame, dispatched, begins, expires,
  occurs, Step, step, run_steps,
}
use zero_mes.Api.Messages.Answers.{answer_iff, step-settles, error_frame}
use zero_mes.Api.Messages.Outcomes.{new_session, expire-settles}

abbrev offline : Runtime
offline = new_client none (record { protocol = "https:"; host = "chat.example" }) true

abbrev online : Runtime
online = record offline { ws = some 0; status = connected; sockets = opened ∷ [] }

abbrev hello : Request
hello =
    send_message (record {
      chat_id = "c1";
      recipient_id = "u2";
      encrypted_content = "QUJD";
      message_type = "";
    })

abbrev two_calls : List Step
two_calls = begins hello ∷ begins (delete_message "m1") ∷ begins (check_online_status "u2") ∷ []

abbrev frame_in : Json → Step
frame_in m = occurs (receives 0 (some m))

-- A history of a session that is online, with all that it computes by.
trial : List Step → Session
unfolding run_steps step begin frame send is_connected on_message add_handler off_message
    delete_handler deliver handle_message call_message_handlers dispatched member get_field
    call_handlers call_handler answer react settle on_message_sent on_message_deleted
    on_online_status settle_on has_type payload_error is_text optional_member or_default truthy
    expire expire_call new_client socket_url send_message_frame delete_message_frame
    check_online_status_frame
trial es = run_steps es (new_session online)

abbrev outcomes : List Call → List (Option Outcome)
outcomes [] = []
outcomes (c ∷ cs) = c.outcome ∷ outcomes cs

-- One error frame rejects the two calls that read errors; the timeout then settles the third.
error_tests :
    outcomes (trial (two_calls ++ frame_in (error_frame "denied") ∷ expires 2 ∷ [])).calls
    ≡ some (rejected (str "denied"))
      ∷ some (rejected (str "denied"))
      ∷ some (rejected (str "Timeout checking online status"))
      ∷ []
unfolding trial
error_tests = refl

abbrev pending : Call
pending = record { handler = 1; request = delete_message "m1"; timer = true; outcome = none }

answer_iff_example : is_some (answer (check_online_status "u2") (error_frame "denied")) ≡ false
unfolding has_type member get_field is_text
answer_iff_example = answer_iff (check_online_status "u2") (error_frame "denied")

step-settles_example :
    contains 1 (step (frame_in (error_frame "denied")) (trial two_calls)).socket.message_handlers
    ≡ false
unfolding trial
step-settles_example =
    (step-settles (receives 0 (some (error_frame "denied"))) (error_frame "denied")
      (trial two_calls) 1 pending (rejected (str "denied")) refl refl refl refl refl).1

expire-settles_example :
    get_elem? (expire 1 (run_steps two_calls (new_session online))).calls 1
    ≡ some (record pending { timer = false; outcome = some (rejected (str "Timeout")) })
unfolding trial
expire-settles_example = (expire-settles online two_calls 1 pending refl refl).1
