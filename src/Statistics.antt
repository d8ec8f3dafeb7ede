-- ===== src/Statistics.antt =====
-- server/src/utils/Statistics.hpp and Statistics.cpp: event counters and their samples over time.
-- Differences of times are those of unbounded integers. `m_dataLock` makes a sample one step.
mod Points
pub mod Sample
pub mod Retention
use canchat.Base.{
  ℤ, ◌-ℤ◌, ltb_ℤ, ℕ, Option, none, some, List, [], ◌∷◌, ◌++◌, last?, if◌then◌else◌, pos, Bool,
  false,
}

-- StatPointDto (server/src/dto/DTOs.hpp). The counts are null until a sample sets them.
pub record StatPoint : Type 0 where
  pub timestamp : ℤ
  pub ev_frontpage_loaded : Option ℕ
  pub ev_peer_connected : Option ℕ
  pub ev_peer_disconnected : Option ℕ
  pub ev_peer_zombie_dropped : Option ℕ
  pub ev_peer_send_message : Option ℕ
  pub ev_peer_share_file : Option ℕ
  pub ev_room_created : Option ℕ
  pub ev_room_deleted : Option ℕ
  pub file_served_bytes : Option ℕ

-- The atomics, `v_uint64` each.
pub record Counters : Type 0 where
  pub event_front_page_loaded : ℕ
  pub event_peer_connected : ℕ
  pub event_peer_disconnected : ℕ
  pub event_peer_zombie_dropped : ℕ
  pub event_peer_send_message : ℕ
  pub event_peer_share_file : ℕ
  pub event_room_created : ℕ
  pub event_room_deleted : ℕ
  pub file_served_bytes : ℕ

-- Periods in microseconds. `m_updateInterval` only paces the endless loop `runStatLoop`.
pub record Statistics : Type 0 where
  pub counters : Counters
  pub data_points : List StatPoint
  pub max_period : ℤ
  pub push_interval : ℤ

-- The constructor, with the defaults seven days and one hour where the program makes it.
unfoldable pub new_statistics : ℤ → ℤ → Statistics
new_statistics max_period push_interval = record {
  counters = record {
    event_front_page_loaded = 0;
    event_peer_connected = 0;
    event_peer_disconnected = 0;
    event_peer_zombie_dropped = 0;
    event_peer_send_message = 0;
    event_peer_share_file = 0;
    event_room_created = 0;
    event_room_deleted = 0;
    file_served_bytes = 0;
  };
  data_points = [];
  max_period = max_period;
  push_interval = push_interval;
}

abbrev pub default_statistics : Statistics
default_statistics = new_statistics (pos 604_800_000_000) (pos 3_600_000_000)

-- StatPointDto::createShared() with its timestamp
unfoldable pub new_point : ℤ → StatPoint
new_point now = record {
  timestamp = now;
  ev_frontpage_loaded = none;
  ev_peer_connected = none;
  ev_peer_disconnected = none;
  ev_peer_zombie_dropped = none;
  ev_peer_send_message = none;
  ev_peer_share_file = none;
  ev_room_created = none;
  ev_room_deleted = none;
  file_served_bytes = none;
}

-- The assignments at the end of `takeSample`.
unfoldable pub fill_point : Counters → StatPoint → StatPoint
fill_point c p = record p {
  ev_frontpage_loaded = some c.event_front_page_loaded;
  ev_peer_connected = some c.event_peer_connected;
  ev_peer_disconnected = some c.event_peer_disconnected;
  ev_peer_zombie_dropped = some c.event_peer_zombie_dropped;
  ev_peer_send_message = some c.event_peer_send_message;
  ev_peer_share_file = some c.event_peer_share_file;
  ev_room_created = some c.event_room_created;
  ev_room_deleted = some c.event_room_deleted;
  file_served_bytes = some c.file_served_bytes;
}

-- The loop that pops old points from the front; `none` if it reads the front of an empty list.
unfoldable pub pop_old : ℤ → ℤ → List StatPoint → Option (List StatPoint)
pop_old now max_period [] = none
pop_old now max_period (p ∷ ps) =
    let rest = pop_old now max_period ps in
    if ltb_ℤ max_period (now -ℤ p.timestamp) then rest else some (p ∷ ps)

-- The point at the back, through its shared pointer.
unfoldable pub fill_last : Counters → List StatPoint → List StatPoint
fill_last c [] = []
fill_last c (p ∷ []) = fill_point c p ∷ []
fill_last c (p ∷ q ∷ ps) = p ∷ fill_last c (q ∷ ps)

-- Whether the point at the back is still the one to write to.
unfoldable pub reuses_last : ℤ → Statistics → Bool
reuses_last now s = elim (last? s.data_points) [
  | none ↦ false
  | some p ↦ ltb_ℤ (now -ℤ p.timestamp) s.push_interval
]

-- The kept points, the last of them filled.
abbrev pub store_points : Statistics → Option (List StatPoint) → Option Statistics
store_points s none = none
store_points s (some ps) = some (record s { data_points = fill_last s.counters ps })

-- `now` is the time that `getMicroTickCount` returns. `none`: a read that C++ leaves undefined.
unfoldable pub take_sample : ℤ → Statistics → Option Statistics
take_sample now s =
    if reuses_last now s
    then some (record s { data_points = fill_last s.counters s.data_points })
    else store_points s (pop_old now s.max_period (s.data_points ++ new_point now ∷ []))

-- Rounds of `runStatLoop`: in each, the counters as the other threads left them, and the time that
-- the clock shows after the sleep. The clock may jump.
unfoldable pub run_stat_loop : List (Counters × ℤ) → Statistics → Option Statistics
run_stat_loop [] s = some s
run_stat_loop ((c, now) ∷ rounds) s = elim (take_sample now (record s { counters = c })) [
  | none ↦ none
  | some t ↦ run_stat_loop rounds t
]
