-- ===== src/Statistics/Sample.antt =====
-- `takeSample` of server/src/utils/Statistics.cpp: what one sample does.
use canchat.Base.{
  ℤ, pos, ◌-ℤ◌, ◌≤ℤ◌, ◌<ℤ◌, Bool-cases, Option-cases, some, List, [], ◌∷◌, ◌++◌, last?, All, ◌≡◌,
  refl, inl, inr, arith, true, false, ◌⊎◌,
}
use canchat.Statistics.{
  Statistics, Counters, StatPoint, new_point, fill_point, fill_last, reuses_last, take_sample,
}
use canchat.Statistics.Points.{times, last?-append, last?-fill_last, pop_old_lem, FirstWithin}

-- The point shows the values of the counters.
pub record Shows (c : Counters) (p : StatPoint) : Type 0 where
  pub frontpage_loaded : p.ev_frontpage_loaded ≡ some c.event_front_page_loaded
  pub peer_connected : p.ev_peer_connected ≡ some c.event_peer_connected
  pub peer_disconnected : p.ev_peer_disconnected ≡ some c.event_peer_disconnected
  pub peer_zombie_dropped : p.ev_peer_zombie_dropped ≡ some c.event_peer_zombie_dropped
  pub peer_send_message : p.ev_peer_send_message ≡ some c.event_peer_send_message
  pub peer_share_file : p.ev_peer_share_file ≡ some c.event_peer_share_file
  pub room_created : p.ev_room_created ≡ some c.event_room_created
  pub room_deleted : p.ev_room_deleted ≡ some c.event_room_deleted
  pub served_bytes : p.file_served_bytes ≡ some c.file_served_bytes

fill_point-Shows : (c : Counters) (p : StatPoint) → Shows c (fill_point c p)
unfolding fill_point
fill_point-Shows c p = ground arith

timestamp-fill_point : (c : Counters) (p : StatPoint) → (fill_point c p).timestamp ≡ p.timestamp
unfolding fill_point
timestamp-fill_point c p = refl

-- A sample that writes to the last point again.
pub take_sample-reuse :
    (now : ℤ) (s : Statistics)
    → reuses_last now s ≡ true
    → take_sample now s ≡ some (record s { data_points = fill_last s.counters s.data_points })
unfolding take_sample
take_sample-reuse now s e = ground arith

-- A sample that pushes a point, and drops what is too old.
pub take_sample-push :
    (now : ℤ) (s : Statistics)
    → pos 0 ≤ℤ s.max_period
    → reuses_last now s ≡ false
    → (old kept : List StatPoint) × (s.data_points ≡ old ++ kept)
      × (take_sample now s
          ≡ some (record s { data_points = fill_last s.counters (kept ++ new_point now ∷ []) }))
      × All (λ p. s.max_period <ℤ now -ℤ p.timestamp) old
      × FirstWithin now s.max_period (times kept)
unfolding take_sample
take_sample-push now s z e =
    let r = pop_old_lem now s.max_period s.data_points z in
    (r.0, r.1, r.2, ground (arith, r.3), r.4, r.5)

pub reuses_last_lem :
    (now : ℤ) (s : Statistics)
    → reuses_last now s ≡ true
    → (p : StatPoint) × (last? s.data_points ≡ some p) × (now -ℤ p.timestamp <ℤ s.push_interval)
unfolding reuses_last
reuses_last_lem now s e = elim (Option-cases (last? s.data_points)) [
  | inl n ↦ absurd (ground arith)
  | inr (p, q) ↦ (p, q, ground arith)
]

pub new_last :
    (now : ℤ) (s : Statistics) (p : StatPoint)
    → reuses_last now s ≡ false
    → last? s.data_points ≡ some p
    → s.push_interval ≤ℤ now -ℤ p.timestamp
unfolding reuses_last
new_last now s p e l = ground arith

-- A sample of a `Statistics` whose period is not negative reads no empty list, leaves the counters
-- alone, and ends with a last point that shows all nine counters. That point is of the present
-- time, or it is an old last point that is less than the push interval old.
pub take_sample-Shows :
    (now : ℤ) (s : Statistics)
    → pos 0 ≤ℤ s.max_period
    → (t : Statistics) × (p : StatPoint) × (take_sample now s ≡ some t)
      × (last? t.data_points ≡ some p)
      × Shows s.counters p
      × (t.counters ≡ s.counters)
      × ((p.timestamp ≡ now) ⊎ (now -ℤ p.timestamp <ℤ s.push_interval))
take_sample-Shows now s z = elim (Bool-cases (reuses_last now s)) [
  | inl e ↦
      (let (p, l, d) = reuses_last_lem now s e in
        (
          record s { data_points = fill_last s.counters s.data_points },
          fill_point s.counters p,
          take_sample-reuse now s e,
          last?-fill_last s.counters s.data_points p l,
          fill_point-Shows s.counters p,
          refl,
          inr (ground (arith, timestamp-fill_point s.counters p)),
        ))
  | inr e ↦
      (let r = take_sample-push now s z e in
        (
          record s { data_points = fill_last s.counters (r.1 ++ new_point now ∷ []) },
          fill_point s.counters (new_point now),
          r.3,
          last?-fill_last s.counters (r.1 ++ new_point now ∷ []) (new_point now)
              (last?-append r.1 (new_point now)),
          fill_point-Shows s.counters (new_point now),
          refl,
          inl (unfold new_point in timestamp-fill_point s.counters (new_point now)),
        ))
]
