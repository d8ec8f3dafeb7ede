-- ===== src/Tests/Endpoints.antt =====
-- The pages, a connection and a download, from their requests, at concrete inputs.
use canchat.Base.{
  ◌==◌, if◌then◌else◌, nat_eq, ◌^◌, pos, ℕ, ◌<◌, String, string_eq, str_append, none, some, List,
  [], ◌∷◌, ◌≡◌, refl, arith, All, int_eq, suc_int, int64_max,
}
use canchat.Base.Map.{get, values}
use canchat.Base.Exec.{returns, throws}
use canchat.Statistics
use canchat.Statistics.{default_statistics}
use canchat.Nickname.{Generator, avatars, adjectives, nouns}
use canchat.Nickname.Words.{IsIn}
use canchat.Pages.{Files, Texts, Site, not_found}
use canchat.Pages.Cache.{Visited, visits, fresh, root-Visited}
use canchat.RoomEndpoint.{Handshake, ParameterMap, upgrade, ws, connect}
use canchat.RoomEndpoint.Upgrading.{ws-connect}
use canchat.Lobby.{on_after_create}
use canchat.File.{subscribe, drop_subscriber}
use canchat.FileEndpoint.Lifetime.{Use, reads, provides, clears, use_all, subscribe-drop_subscriber}
use canchat.Room.Leaving.Downloads.{Present}
use canchat.Tests.{den, notes, download}

abbrev texts : Texts
texts = record {
  front_path = "front";
  regex_replace = λ text pattern format. text;
  write_to_string = λ points. "[]";
}

abbrev no_files : Files
no_files path = none

abbrev old_files : Files
old_files path = some "<html>old</html>"

abbrev new_files : Files
new_files path = some "<html>new</html>"

abbrev just_started : Site
just_started = record { statistics = default_statistics; index_cache = none; script_cache = none }

unvisited : visits just_started < 2 ^ 64
unfolding Statistics.new_statistics
unvisited = omega arith

root-Visited_example :
    Visited texts
      (no_files ∷ old_files ∷ new_files ∷ [])
      (visits just_started)
      0
      (some "<html>old</html>")
      (not_found "File Not Found:(" ∷ fresh "<html>old</html>" ∷ fresh "<html>old</html>" ∷ [])
      just_started
root-Visited_example =
    root-Visited texts (no_files ∷ []) (new_files ∷ []) old_files "<html>old</html>" just_started
      refl unvisited (refl, tt) refl

-- Always the smallest number.
abbrev smallest : Generator ℕ
smallest = record { uniform = λ lo hi e. (lo, e); in_range = λ lo hi e h. (omega arith, h) }

-- Only a request with the right version is upgraded.
abbrev thirteen : Handshake ℕ String
thirteen version = if version == 13 then returns "switching" else throws "Bad Request"

ws-connect_example :
    (params : ParameterMap) × (a j n : String) × IsIn a avatars
    × IsIn j adjectives
    × IsIn n nouns
    × ((response : String)
        → thirteen 13 ≡ returns response
        → (ws thirteen smallest "den" 13 0).0 ≡ returns (upgrade response params))
    × ((text : String)
        → thirteen 13 ≡ throws text
        → (ws thirteen smallest "den" 13 0).0 ≡ throws text)
    × (connect 72 params den
        ≡ on_after_create 72
            (some "den")
            (some (str_append a (str_append " " (str_append j (str_append " " n)))))
            den)
ws-connect_example = ws-connect thirteen smallest "den" 13 0 72 den

two_listed_below : get (pos 2) notes.subscribers ≡ none
unfolding get
two_listed_below = refl

abbrev served : List Use
served = reads 4 ∷ provides (pos 2) (1 ∷ 2 ∷ []) ∷ reads 4 ∷ clears ∷ []

download_there : All (Present den.subscriber_heap) (values notes.subscribers)
download_there = ((download, refl), tt)

subscribe-drop_subscriber_example :
    let s = den.subscriber_heap.next in
    let over = use_all 0 s served (subscribe 0 den).1 in
    ((drop_subscriber s over).0 ≡ returns tt)
    × ((drop_subscriber s over).1.file_heap.cell 0
        ≡ some (record notes {
          subscriber_id_counter = suc_int int64_max notes.subscriber_id_counter;
          subscribers = [];
        }))
subscribe-drop_subscriber_example =
    subscribe-drop_subscriber 0 den notes served refl two_listed_below download_there
