-- ===== src/Service/Shares.antt =====
-- A message that shares files (server/src/rooms/Peer.cpp, Room.cpp) does what the view says of it.
use canchat.Base.{
  ℤ, map, length, int_eq, nat_eq, string_eq, String, some, true, List, [], ◌∷◌, ◌≡◌, sym, subst,
  arith, Bool-cases, inl, inr,
}
use canchat.World.{World}
use canchat.Peer.Handlers.{Ticks, Library}
use canchat.Peer.Offered.{NumbersLeft, share_all}
use canchat.Service.{View, Offer, shares, offered_dto, can_share, put, step}
use canchat.Service.Refines.{Refines, Handled}
use canchat.Service.Listeners.{Sitting, seated-Sitting}
use canchat.Service.Shared.{
  offers_complete, length-map, sharer, with_files, after, after-Refines, after_run,
}

enough :
    (id : ℤ) (f : Offer) (fs : List Offer)
    → can_share id (f ∷ fs) ≡ true
    → NumbersLeft id (length (map offered_dto (f ∷ fs)))
enough id f fs e = rw (length-map (f ∷ fs)) (ground (arith, e))

module _ (lib : Library) (name : String) (id : ℤ) (now : Ticks) (v : View) (w : World)
    (fine : Refines v w) (s : Sitting name id v w) (f : Offer) (fs : List Offer) where
  shares-Handled :
      can_share s.channel.next_file (f ∷ fs) ≡ true
      → Handled lib
          (shares name id now (f ∷ fs))
          w
          (put name (some (with_files name id now v w fine s f fs)) v)
  shares-Handled may =
      let left =
        subst (λ k. NumbersLeft k (length (map offered_dto (f ∷ fs)))) (sym s.room.numbers)
          (enough s.channel.next_file f fs may) in
      let (u, (run, r)) =
        share_all s.found.p w (sharer name id now v w fine s f fs) (map offered_dto (f ∷ fs))
          (offers_complete (f ∷ fs)) left in
      record {
        after = after name id now v w fine s f fs u r;
        run = after_run name id now v w fine s f fs u r lib run;
        still = after-Refines name id now v w fine s f fs u r;
      }

-- Files that the view allows.
pub shares-Refines :
    (lib : Library) (name : String) (id : ℤ) (now : Ticks) (files : List Offer) (v v' : View)
    (w : World)
    → Refines v w
    → step (shares name id now files) v ≡ some v'
    → Handled lib (shares name id now files) w v'
unfolding step
shares-Refines lib name id now [] v v' w fine allowed =
    let (s, none_put) = seated-Sitting name id v w _ v' fine allowed in absurd (cc)
shares-Refines lib name id now (f ∷ fs) v v' w fine allowed =
    let (s, then_put) = seated-Sitting name id v w _ v' fine allowed in
    elim (Bool-cases (can_share s.channel.next_file (f ∷ fs))) [
      | inl may ↦
          subst (Handled lib (shares name id now (f ∷ fs)) w) (ground (arith, then_put, may))
            (shares-Handled lib name id now v w fine s f fs may)
      | inr over ↦ absurd (ground (arith, then_put, over))
    ]
