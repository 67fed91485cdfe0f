-- ===== src/ServerTask/Tests.antt =====
-- A task whose client was verified and has sent one packet, and one that was stopped.
use reechat_base.Base.{◌+◌, ◌≡◌, refl, [], ◌∷◌, none, true, false, arith}
use reechat_base.ServerTask.{
  ServerTask, idle, waiting, add_to_manager, parse, init, begin_process, on_internal_packet,
  stop_process, schedule_event, destroy, on_close_event,
}
use reechat_base.ServerTask.Closing.{
  Serves, started, packets, closed_by, closes, held, Serves-closes,
}
use reechat_base.ServerTask.Verified.{
  begin, packet, Reach, here, next, in_order, adds, Reach-in_turn, schedule_event-stop_process,
}

abbrev verified : ServerTask
verified = record {
  has_socket = true;
  verified_client = true;
  close_timer = idle;
  verify_timer = waiting;
  last_hello_time = 100;
  out = add_to_manager ∷ parse (7 ∷ []) ∷ [];
}

verified_run : Reach init verified
unfolding begin_process on_internal_packet
verified_run =
    next (next (next here (begin true 100 refl)) (packet (1 ∷ []) true refl))
      (packet (7 ∷ []) false refl)

-- The same task when its client is gone.
abbrev left : ServerTask
left = on_close_event verified

left_run : Serves 100 left
unfolding begin_process on_internal_packet
left_run =
    closed_by verified left
      (packets _ verified (7 ∷ []) false
        (packets (begin_process init true 100).0 _ (1 ∷ []) true (started _ refl) refl) refl)
      refl

-- The theorems at these examples.
Reach-in_turn_example :
    (in_order false verified.out ≡ true) × (adds false verified.out ≡ verified.verified_client)
Reach-in_turn_example = Reach-in_turn verified_run

Serves-closes_example :
    (closes (destroy left).out ≡ 1) × (closes left.out + held left.has_socket ≡ 1)
Serves-closes_example = Serves-closes left_run

schedule_event-stop_process_example : schedule_event (stop_process verified) 30101 ≡ none
schedule_event-stop_process_example =
    schedule_event-stop_process verified 30101 refl (omega arith) (omega arith)
