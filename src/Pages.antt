-- ===== src/Pages.antt =====
-- server/src/controller/StaticController.hpp: the front page, the page of a room and its script; and
-- the page of server/src/controller/StatisticsController.hpp.
-- The file system, the regular expressions and the JSON writer are libraries': parameters.
pub mod Cache
use canchat.Base.{suc_uint64, String, str_append, Option, none, some, List}
use canchat.Base.Exec.{Exec, pure, gets, modify, ◌>>=◌, ◌>>◌}
use canchat.Config.{ConfigDto, Printer, get_websocket_base_url}
use canchat.Statistics.{Statistics, StatPoint}

-- `String::loadFromFile`, at the time of a request: null if the file cannot be read.
abbrev pub Files : Type 0
Files = String → Option String

pub record Texts : Type 0 where
  pub front_path : String
  pub regex_replace : String → String → String → String
  pub write_to_string : List StatPoint → String

-- The statistics, and the two `static auto fileCache`, which hold nothing until their initialiser has
-- returned.
pub record Site : Type 0 where
  pub statistics : Statistics
  pub index_cache : Option String
  pub script_cache : Option String

-- The status 200 with a content type and a text; or 404, by `OATPP_ASSERT_HTTP`.
pub data Page : Type 0 where
  page : String → String → Page
  not_found : String → Page

abbrev missing : Page
missing = not_found "File Not Found:("

unfoldable pub count_front_page : Site → Site
count_front_page s = record s {
  statistics = record (s.statistics) {
    counters = record (s.statistics.counters) {
      event_front_page_loaded = suc_uint64 s.statistics.counters.event_front_page_loaded;
    };
  };
}

abbrev pub html : Option String → Page
html none = missing
html (some text) = page "text/html" text

-- The initialiser runs at each request until it has returned.
unfoldable pub index_text : Texts → Files → Exec Site (Option String)
index_text texts files = do
  cached ← gets (λ s. s.index_cache)
  elim cached [
    | some text ↦ pure (some text)
    | none ↦ do
      modify (λ s. record s { index_cache = files (str_append texts.front_path "/index.html") })
      gets (λ s. s.index_cache)
  ]

-- Root::act
unfoldable pub root : Texts → Files → Exec Site Page
root texts files = do modify count_front_page; text ← index_text texts files; pure (html text)

-- ChatHTML::act: the file is read at each request.
unfoldable pub chat_html : Texts → Files → String → Page
chat_html texts files room_id = elim (files (str_append texts.front_path "/chat/index.html")) [
  | none ↦ missing
  | some text ↦ page "text/html" (texts.regex_replace text "%%%ROOM_ID%%%" room_id)
]

unfoldable pub script_text : Texts → Files → Exec Site (Option String)
script_text texts files = do
  cached ← gets (λ s. s.script_cache)
  elim cached [
    | some text ↦ pure (some text)
    | none ↦ do
      modify (λ s. record s { script_cache = files (str_append texts.front_path "/chat/chat.js") })
      gets (λ s. s.script_cache)
  ]

-- The lines that go before the script.
unfoldable pub script_head : Printer → ConfigDto → String → String
script_head print config room_id = str_append "let urlWebsocket = \"" (
    str_append (get_websocket_base_url print config) (
      str_append "/api/ws/room/" (
        str_append room_id
          (str_append "\";\nlet urlRoom = \"/room/" (str_append room_id "\";\n\n")))))

-- ChatJS::act
unfoldable pub chat_js : Texts → Printer → ConfigDto → Files → String → Exec Site Page
chat_js texts print config files room_id = do
  text ← script_text texts files
  elim text [
    | none ↦ pure missing
    | some script ↦
        pure (page "text/javascript" (str_append (script_head print config room_id) script))
  ]

-- Statistics::getJsonData
unfoldable pub get_json_data : Texts → Statistics → String
get_json_data texts s = texts.write_to_string s.data_points

-- Stats::act
unfoldable pub stats : Texts → Exec Site Page
stats texts = do
  s ← gets (λ s. s.statistics)
  pure (page "application/json" (get_json_data texts s))
