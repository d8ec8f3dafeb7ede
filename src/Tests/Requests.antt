-- ===== src/Tests/Requests.antt =====
-- Requests for the file of the small server.
use canchat.Base.{
  ◌↔◌, List, pos, int_eq, string_eq, String, ℕ, some, none, [], ◌∷◌, ◌≡◌, refl, arith, str_append,
  ◌==◌, if◌then◌else◌, Option,
}
use canchat.Base.Map.{get}
use canchat.Base.Exec.{returns}
use canchat.Statistics
use canchat.World.{World}
use canchat.File.Stream.{Op, provides, reads, clears, Transfer}
use canchat.FileEndpoint.{Texts, http_error, streaming, get_file}
use canchat.FileEndpoint.Serving.{serve_all, Counts, serve_all-Counts}
use canchat.FileEndpoint.Answers.{
  get_file-refusal, Refused, no_room, get_file-Refused, Requested, SubscribersBelow, Subscribed,
  get_file-Subscribed,
}
use canchat.Tests.{den, notes, den_room}

abbrev append_name : String → Option String → String
append_name text none = text
append_name text (some name) = str_append text name

abbrev pub texts : Texts
texts = record {
  str_to_int64 = λ text. if text == "1" then some (pos 1) else none;
  append_string = append_name;
}

no_attic : get "attic" den.lobby.rooms ≡ none
unfolding get
no_attic = refl

attic_refused : get_file texts "attic" "1" den ≡ (returns (http_error 404 "Room not found"), den)
attic_refused =
    get_file-refusal texts den "attic" "1" 404 "Room not found" (no_room (pos 1) refl no_attic)

get_file-Refused_example :
    (get_file texts "attic" "1" den ≡ (returns (http_error 404 "Room not found"), den))
    ↔ ((den ≡ den) × Refused texts den "attic" "1" 404 "Room not found")
get_file-Refused_example = get_file-Refused texts den den "attic" "1" 404 "Room not found"

den_there : get "den" den.lobby.rooms ≡ some 0
unfolding get
den_there = refl

pub notes_there : get (pos 1) den_room.file_by_id ≡ some 0
unfolding get
notes_there = refl

abbrev for_notes : Requested texts den "den" "1"
for_notes = record {
  id = pos 1;
  r = 0;
  room = den_room;
  f = 0;
  file = notes;
  id_is = refl;
  listed = den_there;
  room_at = refl;
  shared = notes_there;
  file_at = refl;
}

notes_below : SubscribersBelow notes
unfolding get
notes_below id s e = ground arith

get_file-Subscribed_example :
    (s : ℕ) × (w' : World) × (get_file texts "den" "1" den
      ≡ (returns (streaming "attachment; filename=\"notes.txt\"" s), w'))
    × Subscribed 0 notes s den w'
get_file-Subscribed_example =
    get_file-Subscribed texts den "den" "1" for_notes notes_below (omega arith)

abbrev unserved : Transfer
unserved = record { world = den; delivered = []; accepted = [] }

abbrev two_reads : List Op
two_reads = reads 4 ∷ provides (1 ∷ 2 ∷ []) ∷ reads 4 ∷ clears ∷ []

none_served : Counts 0 unserved
unfolding Statistics.new_statistics
none_served = refl

serve_all-Counts_example : Counts 0 (serve_all 0 two_reads unserved)
serve_all-Counts_example = serve_all-Counts 0 0 two_reads unserved none_served
