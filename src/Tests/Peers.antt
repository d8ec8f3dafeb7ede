-- ===== src/Tests/Peers.antt =====
-- The theorems about peers, rooms and the lobby at concrete inputs.
use canchat.Base.{pos, ℕ, none, some, [], ◌∷◌, ◌≡◌, ◌↔◌, refl, arith, All, true, string_eq}
use mathlib.Core.List.{flatten}
use canchat.Base.Map.{get}
use canchat.Base.Exec.{returns, for_each, ◌>>◌}
use canchat.Dto.{null_history, message_dto, empty_envelope, code_info}
use canchat.World.{World}
use canchat.Peer.{no_action, send_error, error_message, ping, on_api_error}
use canchat.Peer.Handlers.{Library, parsed, finish_message, read_message, handle_message, dispatch}
use canchat.Peer.Chat.{finish_message_chat, after_chat}
use canchat.Peer.Frames.{read_fragments, read_message_fragmented}
use canchat.Peer.Rejects.{socket_of, handle_message_refused}
use canchat.Peer.Ping.{pongs, ping_rounds, ping_rounds_answered, second_ping}
use canchat.Room.{add_history_message, get_history}
use canchat.Room.Backlog.{shown, get_history-after}
use canchat.Room.Joining.{Open}
use canchat.Lobby.{on_after_create}
use canchat.Lobby.Connecting.{
  Connected, counted, with_room, fresh, on_after_create_existing, on_after_create_new,
}
use canchat.Tests.{ticks, den, fox, den_room, fox_in_den, hello, hello_message}

abbrev pub lib : Library
lib = record {
  read_from_string = λ bytes. parsed (some hello_message);
  decode_base64 = λ text. some (1 ∷ 2 ∷ 3 ∷ []);
}

finish_message_chat_example :
    finish_message lib 0 (ticks (pos 9) (pos 10)) (parsed (some hello_message)) den ≡ (
      returns no_action,
      after_chat fox_in_den (
          message_dto
            (record hello {
              peer_name = some "Fox";
              peer_id = some (pos 1);
              timestamp = some (pos 9);
            })
            null_history),
    )
finish_message_chat_example =
    finish_message_chat lib 0 (ticks (pos 9) (pos 10)) hello null_history den [] fox_in_den refl

abbrev den_open : Open 0 (counted den) []
den_open = record {
  room = den_room;
  room_at = refl;
  members = fox_in_den.members;
  remembered = refl;
}

den_listed : get "den" den.lobby.rooms ≡ some 0
unfolding get
den_listed = refl

attic_missing : get "attic" den.lobby.rooms ≡ none
unfolding get
attic_missing = refl

on_after_create_existing_example :
    (w' : World) × (on_after_create 72 (some "den") (some "Elk") den ≡ (returns 2, w'))
    × Connected 72 0 "den" "Elk" (counted den) [] den_open w'
on_after_create_existing_example =
    on_after_create_existing 72 0 "den" "Elk" den [] den_open den_listed

on_after_create_new_example :
    (w' : World) × (on_after_create 72 (some "attic") (some "Elk") den ≡ (returns 2, w'))
    × Connected 72 1 "attic" "Elk" (with_room "attic" den) [] (fresh "attic" den) w'
    × (get "attic" w'.lobby.rooms ≡ some 1)
on_after_create_new_example = on_after_create_new 72 "attic" "Elk" den attic_missing

get_history-after_example :
    (get_history 0 (for_each (add_history_message 0) (hello_message ∷ hello_message ∷ []) den).1).0
    ≡ returns (shown den.config (hello_message ∷ hello_message ∷ []))
get_history-after_example =
    get_history-after 0 (hello_message ∷ hello_message ∷ []) den den_room refl refl

read_message_fragmented_example :
    (read_fragments lib 0 (ticks (pos 9) (pos 10)) ((1 ∷ 2 ∷ []) ∷ (3 ∷ []) ∷ [])
        >> read_message lib 0 (ticks (pos 9) (pos 10)) [])
      den
    ≡ finish_message lib 0 (ticks (pos 9) (pos 10)) (parsed (some hello_message)) den
unfolding flatten
read_message_fragmented_example =
    read_message_fragmented lib 0 (ticks (pos 9) (pos 10)) ((1 ∷ 2 ∷ []) ∷ (3 ∷ []) ∷ []) den fox
      8192 refl refl refl ((λ e. cc), ((λ e. cc), tt)) (omega arith)

info_refused :
    handle_message lib 0
      (pos 9)
      (message_dto (record empty_envelope { message_code = some code_info }) null_history)
      den
    ≡ (returns (send_error (some 70) (error_message "Invalid client message code.")), den)
unfolding handle_message dispatch on_api_error
info_refused = refl

handle_message_refused_example : (den ≡ den) × (socket_of 0 den ≡ some (some 70))
handle_message_refused_example =
    handle_message_refused lib 0 (pos 9)
      (message_dto (record empty_envelope { message_code = some code_info }) null_history) den den
      (some 70) (error_message "Invalid client message code.") info_refused

ping_rounds_answered_example : All (λ b. b ≡ true) (ping_rounds (1 ∷ 1 ∷ []) fox)
ping_rounds_answered_example = ping_rounds_answered fox (1 ∷ 1 ∷ []) refl refl (refl, (refl, tt))

second_ping_example :
    ((ping fox).1 ≡ true) × (((ping (pongs 2 (ping fox).0)).1 ≡ true) ↔ (◌≡◌ {A = ℕ} 2 1))
second_ping_example = second_ping fox 2 refl refl (omega arith)
