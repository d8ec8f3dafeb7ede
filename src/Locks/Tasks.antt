-- ===== src/Locks/Tasks.antt =====
-- What the threads of the server may be given to do: the events of sockets, requests, downloads and
-- background loops, each with the mutexes that its handler takes.
use canchat.Base.{ℕ, Bool, Option, List, ◌++◌}
use canchat.Locks.{Act, Thread, start}
use canchat.Locks.Methods.{
  each, wait_act_acts, on_new_item_acts, read_chunk_acts, unsubscribe_acts,
  add_history_message_acts, send_to_all_acts, ping_round_acts, on_after_create_acts,
  on_before_destroy_acts, handle_files_message_acts, handle_file_chunk_message_acts, get_file_acts,
  take_sample_acts, get_json_data_acts,
}

-- Rooms, files and downloads are known by a number.
pub data Task : Type 0 where
  connects : ℕ → Task
  disconnects : ℕ → Option (List (ℕ × List ℕ)) → Bool → Task
  says : ℕ → Task
  is_typing : ℕ → Task
  shares : ℕ → List ℕ → Task
  uploads : ℕ → Option (ℕ × Option ℕ) → Task
  requests_file : Option (ℕ × Option ℕ) → Task
  reads_chunk : ℕ → Task
  waits_for_chunk : ℕ → Task
  joins_wait_list : ℕ → Task
  drops_download : ℕ → Task
  pings : List ℕ → Task
  samples : Task
  shows_statistics : Task

-- Whether a history is kept is a setting of the server.
abbrev pub task_acts : Bool → Task → List Act
task_acts kept (connects r) = on_after_create_acts kept r
task_acts kept (disconnects r files empty) = on_before_destroy_acts kept r files empty
task_acts kept (says r) = add_history_message_acts kept r ++ send_to_all_acts r
task_acts kept (is_typing r) = send_to_all_acts r
task_acts kept (shares r offers) = handle_files_message_acts kept r offers
task_acts kept (uploads r target) = handle_file_chunk_message_acts r target
task_acts kept (requests_file target) = get_file_acts target
task_acts kept (reads_chunk s) = read_chunk_acts s
task_acts kept (waits_for_chunk s) = wait_act_acts s
task_acts kept (joins_wait_list s) = on_new_item_acts s
task_acts kept (drops_download f) = unsubscribe_acts f
task_acts kept (pings rooms) = ping_round_acts rooms
task_acts kept samples = take_sample_acts
task_acts kept shows_statistics = get_json_data_acts

-- A thread with a list of tasks, one after the other.
abbrev pub worker : Bool → List Task → Thread
worker kept tasks = start (each (task_acts kept) tasks)
