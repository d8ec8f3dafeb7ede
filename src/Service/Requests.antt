-- ===== src/Service/Requests.antt =====
-- Requests for files at any time (server/src/controller/FileController.hpp): the view does not show
-- them.
use canchat.Base.{
  ℤ, int_eq, string_eq, String, ℕ, Option, none, some, [], ◌∷◌, ◌≡◌, refl, sym, subst, arith, All,
  Option-cases, Bool-cases, inl, inr, nat_same,
}
use canchat.Base.Map.{get, values, All-insert}
use canchat.Base.Heap
use canchat.Base.Heap.{Heap, IsFresh}
use canchat.World.{World, Subscriber}
use canchat.File.{new_subscriber}
use canchat.Peer.Handlers.{Library}
use canchat.Room.Leaving.Downloads.{all_Present, Present}
use canchat.Room.Leaving.Files.{HasFile}
use canchat.FileEndpoint.{Texts}
use canchat.FileEndpoint.Answers.{
  Refused, invalid_id, no_room, no_file, get_file-refusal, Requested, get_file_lem, served_world,
  next_file,
}
use canchat.Service.{View, Channel, requests, step, handle_call}
use canchat.Service.Seats.{KeepsFiles}
use canchat.Service.Refines.{Matches, Refines, Handled}
use canchat.Service.Quiet.{Unseen, Unseen-refl}
use canchat.Service.Pings.{IsQuiet}
use canchat.Service.Unseen.{IsQuiet-Handled}

module _ (texts : Texts) (w : World) (name file_id : String)
    (q : Requested texts w name file_id) where
  abbrev after : World
  after = served_world texts w name file_id q

  abbrev sub : Subscriber
  sub = new_subscriber q.file.subscriber_id_counter q.f

  -- The file that was asked for, with its new download.
  served-HasFile : All (Present w.subscriber_heap) (values q.file.subscribers) → HasFile after q.f
  served-HasFile all = (
    next_file texts w name file_id q,
    Heap.cell-write q.f (next_file texts w name file_id q) w.file_heap,
    All-insert (Present after.subscriber_heap) q.file.subscriber_id_counter w.subscriber_heap.next
        q.file.subscribers (sub, Heap.cell-alloc sub w.subscriber_heap)
        (all_Present sub w.subscriber_heap (values q.file.subscribers) all),
  )

  served_each : (f : ℕ) → HasFile w f → HasFile after f
  served_each f (file, at, subs) = elim (Bool-cases (nat_same f q.f)) [
    | inl e ↦
        let same : f ≡ q.f = ground (arith, e) in
        let is_file : file ≡ q.file = ground (arith, same, at, q.file_at) in
        subst (HasFile after) (sym same) (
          served-HasFile
            (subst (λ x. All (Present w.subscriber_heap) (values x.subscribers)) is_file subs))
    | inr e ↦ (
      file,
      ground (arith, e, at),
      all_Present sub w.subscriber_heap (values file.subscribers) subs,
    )
  ]

  served-KeepsFiles : KeepsFiles w after
  served-KeepsFiles [] all = tt
  served-KeepsFiles (f ∷ fs) (h, all) = (served_each f h, served-KeepsFiles fs all)

  served-Unseen : Unseen w after
  served-Unseen = record {
    quiet = refl;
    files = served-KeepsFiles;
    fresh = λ fresh k past. ground (arith, fresh k past, q.file_at);
  }

module _ (lib : Library) (texts : Texts) (name file_id : String) (w : World) where
  Refused-IsQuiet :
      (status : ℕ) (text : String)
      → Refused texts w name file_id status text
      → IsQuiet (handle_call lib (requests texts name file_id)) w
  unfolding handle_call
  Refused-IsQuiet status text why = record {
    after = w;
    run = rw (get_file-refusal texts w name file_id status text why) refl;
    quiet = Unseen-refl w;
  }

  served-IsQuiet :
      Requested texts w name file_id → IsQuiet (handle_call lib (requests texts name file_id)) w
  unfolding handle_call
  served-IsQuiet q = record {
    after = served_world texts w name file_id q;
    run = rw (get_file_lem texts w name file_id q) refl;
    quiet = served-Unseen texts w name file_id q;
  }

  -- By the room of the request.
  room-IsQuiet :
      (id : ℤ) (o : Option Channel) (next : ℤ)
      → texts.str_to_int64 file_id ≡ some id
      → Matches name o next w
      → IsQuiet (handle_call lib (requests texts name file_id)) w
  room-IsQuiet id none next e absent = Refused-IsQuiet 404 "Room not found" (no_room id e absent)
  room-IsQuiet id (some c) next e l = elim (Option-cases (get id l.room.file_by_id)) [
    | inl n ↦ Refused-IsQuiet 404 "File not found" (no_file id l.r l.room e l.listed l.room_at n)
    | inr (f, shared) ↦
        let (file, at, subs) = l.files_there id f shared in
        served-IsQuiet (record {
          id = id;
          r = l.r;
          room = l.room;
          f = f;
          file = file;
          id_is = e;
          listed = l.listed;
          room_at = l.room_at;
          shared = shared;
          file_at = at;
        })
  ]

  request-IsQuiet :
      (v : View) → Refines v w → IsQuiet (handle_call lib (requests texts name file_id)) w
  request-IsQuiet v fine = elim (Option-cases (texts.str_to_int64 file_id)) [
    | inl e ↦ Refused-IsQuiet 400 "Invalid fileId" (invalid_id e)
    | inr (id, e) ↦ room-IsQuiet id (v.channels name) v.next_id e (fine.rooms name)
  ]

-- A request for a file.
pub requests-Refines :
    (lib : Library) (texts : Texts) (name file_id : String) (v v' : View) (w : World)
    → Refines v w
    → step (requests texts name file_id) v ≡ some v'
    → Handled lib (requests texts name file_id) w v'
unfolding step
requests-Refines lib texts name file_id v v' w fine allowed =
    subst (Handled lib (requests texts name file_id) w) (ground (arith, allowed)) (
      IsQuiet-Handled lib (requests texts name file_id) v w fine
        (request-IsQuiet lib texts name file_id w v fine))
