-- ===== src/Client/Examples.antt =====
-- Tests of the client.
use tavernmx.Common.{
  ◌%◌, some, ◌≡◌, refl, false, none, List, [], ◌∷◌, ◌++◌, arith, replicate, if◌then◌else◌,
}
use tavernmx.Common.Int.{ℤ}
use tavernmx.Common.Text.{Text, lit, text_eq}
use tavernmx.Common.Result.{Result, ok, err}
use tavernmx.Json.Sample.{sample_json}
use tavernmx.Messaging.{Msg, room_list, create_room_create}
use tavernmx.Rooms
use tavernmx.Rooms.{
  is_valid_room_name, create_room, update_room, change_room, find_room, remove_destroyed_rooms,
  kept_rooms,
}
use tavernmx.Util.{str_tolower}
use tavernmx.Client.{
  room_label, index_of, select_room_by_name, update_rooms, keep_listed, pick_room,
}
use tavernmx.Client.Update.{
  Client, send, clear_input, submit_text, on_message, on_room_list, create_rooms,
  issue_room_join_if_needed, join_and_ask, on_room_changed, on_chat_submit,
}
use tavernmx.Client.Session.{
  IsConsistent, Event, receives, picks, types, step, run, new_client, session-IsConsistent,
}
use tavernmx.Client.Color.{
  color_too_dark, hash_name, brighten, chat_name_to_color, rotr, IsBright,
  chat_name_to_color-IsBright,
}
use tavernmx.Client.Commands.{create_command, label_overflows}

abbrev two_rooms : Msg sample_json
two_rooms = record {
  message_type = room_list;
  values = sample_json.object_of (
      (lit "0", sample_json.of_text (lit "lobby"))
      ∷ (lit "1", sample_json.of_text (lit "den"))
      ∷ []);
}

abbrev events : List (Event sample_json.Value)
events = receives two_rooms ∷ picks 1 ∷ types (lit "hi") ∷ []

abbrev time_text : ℤ → Text
time_text t = []

abbrev client_of : Result (Client sample_json.Value) → Client sample_json.Value
client_of (ok c) = c
client_of (err e) = new_client sample_json

abbrev after : Client sample_json.Value
after = client_of (run sample_json false time_text (new_client sample_json) events)

ran : run sample_json false time_text (new_client sample_json) events ≡ ok after
unfolding run step on_message on_room_list create_rooms create_room is_valid_room_name text_eq
    update_rooms keep_listed select_room_by_name index_of issue_room_join_if_needed Rooms.get
    find_room join_and_ask update_room change_room on_room_changed pick_room on_chat_submit
    submit_text
ran = refl

session-IsConsistent_example : IsConsistent sample_json after
session-IsConsistent_example = session-IsConsistent sample_json false time_text events after ran

create_command_example :
    submit_text sample_json (lit "/Create_Room" ++ (replicate 2 b' ' ++ lit "attic")) after
    ≡ ok (
        clear_input (
          if is_valid_room_name (lit "attic")
          then send (create_room_create sample_json (lit "attic")) after
          else after))
unfolding str_tolower
create_command_example =
    create_command sample_json 1 (lit "/Create_Room") (lit "attic") after refl (refl, ground arith)
      (refl, ground arith)

label_overflows_example : room_label (lit "den") ≡ none
label_overflows_example = label_overflows (lit "den")

-- The blue channel of this name goes past a byte.
dl_color : chat_name_to_color 8 (lit "dl") ≡ some (120, 132, 256)
unfolding chat_name_to_color hash_name brighten color_too_dark
dl_color = refl

chat_name_to_color-IsBright_example :
    IsBright 7
      (rotr 16 (hash_name 0 (lit "dl")) % 256)
      (rotr 8 (hash_name 0 (lit "dl")) % 256)
      (hash_name 0 (lit "dl") % 256)
      (chat_name_to_color 8 (lit "dl"))
chat_name_to_color-IsBright_example = chat_name_to_color-IsBright (lit "dl")
