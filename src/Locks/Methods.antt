-- ===== src/Locks/Methods.antt =====
-- The mutexes that each method of the lobby, a room, a file, a download and the statistics takes,
-- and in which order, down to whole handlers. Rooms, files and downloads are known by a number.
use canchat.Base.{ℕ, Bool, if◌then◌else◌, List, [], ◌∷◌, ◌++◌, Option, none, some}
use canchat.Locks.{
  Guard, rooms_mutex, peer_by_id_lock, file_by_id_lock, history_lock, subscribers_lock, chunk_lock,
  data_lock, Mutex, Act, lock, unlock, access, peek,
}

abbrev pub mutex : Guard → ℕ → Mutex
mutex g o = record { guard = g; object = o }

-- std::lock_guard<std::mutex> guard(m); body
abbrev pub guarded : Mutex → List Act → List Act
guarded m body = lock m ∷ body ++ unlock ∷ []

-- A lock for one access.
abbrev pub single : Mutex → List Act
single m = guarded m (access m ∷ [])

abbrev pub each {ℓ} : {A : Type ℓ} → (A → List Act) → List A → List Act
each body [] = []
each body (x ∷ xs) = body x ++ each body xs

-- File::Subscriber::provideFileChunk
abbrev pub take_chunk_acts : ℕ → List Act
take_chunk_acts s = single (mutex chunk_lock s)

-- WaitCoroutine::act
abbrev pub wait_act_acts : ℕ → List Act
wait_act_acts s = single (mutex chunk_lock s)

-- WaitListListener::onNewItem
abbrev pub on_new_item_acts : ℕ → List Act
on_new_item_acts s = single (mutex chunk_lock s)

-- File::Subscriber::readChunk
abbrev pub read_chunk_acts : ℕ → List Act
read_chunk_acts s = single (mutex chunk_lock s)

-- File::Subscriber::invalidate
abbrev pub invalidate_acts : ℕ → List Act
invalidate_acts s = single (mutex chunk_lock s)

-- File::unsubscribe
abbrev pub unsubscribe_acts : ℕ → List Act
unsubscribe_acts f = single (mutex subscribers_lock f)

-- File::subscribe
abbrev pub subscribe_acts : ℕ → List Act
subscribe_acts f = single (mutex subscribers_lock f)

-- File::provideFileChunk, with the download it is for if that one is listed
abbrev pub provide_file_chunk_acts : ℕ → Option ℕ → List Act
provide_file_chunk_acts f none = single (mutex subscribers_lock f)
provide_file_chunk_acts f (some s) =
    guarded (mutex subscribers_lock f) (access (mutex subscribers_lock f) ∷ take_chunk_acts s)

-- File::clearSubscribers, with the downloads that are listed
abbrev pub clear_subscribers_acts : ℕ × List ℕ → List Act
clear_subscribers_acts (f, subscribers) = guarded (mutex subscribers_lock f) (
    access (mutex subscribers_lock f)
    ∷ (each invalidate_acts subscribers ++ access (mutex subscribers_lock f) ∷ []))

-- Room::addPeer
abbrev pub add_peer_acts : ℕ → List Act
add_peer_acts r = single (mutex peer_by_id_lock r)

-- Room::getPeerById
abbrev pub get_peer_by_id_acts : ℕ → List Act
get_peer_by_id_acts r = single (mutex peer_by_id_lock r)

-- Room::sendMessageAsync
abbrev pub send_to_all_acts : ℕ → List Act
send_to_all_acts r = single (mutex peer_by_id_lock r)

-- Room::pingAllPeers
abbrev pub ping_all_peers_acts : ℕ → List Act
ping_all_peers_acts r = single (mutex peer_by_id_lock r)

-- Room::addHistoryMessage, which returns before the lock where no history is kept
abbrev pub add_history_message_acts : Bool → ℕ → List Act
add_history_message_acts kept r = if kept then single (mutex history_lock r) else []

-- Room::getHistory, likewise
abbrev pub get_history_acts : Bool → ℕ → List Act
get_history_acts kept r = if kept then single (mutex history_lock r) else []

-- Room::getFileById
abbrev pub get_file_by_id_acts : ℕ → List Act
get_file_by_id_acts r = single (mutex file_by_id_lock r)

-- Room::shareFile. `m_fileByIdLock` also guards the list of files of each peer.
abbrev pub share_file_acts : ℕ → List Act
share_file_acts r =
    guarded (mutex file_by_id_lock r)
      (get_peer_by_id_acts r ++ access (mutex file_by_id_lock r) ∷ [])

-- The loop body of Room::removePeerById
abbrev pub remove_file_acts : ℕ → ℕ × List ℕ → List Act
remove_file_acts r file = clear_subscribers_acts file ++ access (mutex file_by_id_lock r) ∷ []

-- Room::removePeerById, with the files of the peer and their downloads if it is in the room
abbrev pub remove_peer_by_id_acts : ℕ → Option (List (ℕ × List ℕ)) → List Act
remove_peer_by_id_acts r none = single (mutex peer_by_id_lock r)
remove_peer_by_id_acts r (some files) = guarded (mutex peer_by_id_lock r) (
    access (mutex peer_by_id_lock r)
    ∷ (guarded (mutex file_by_id_lock r)
          (access (mutex file_by_id_lock r) ∷ each (remove_file_acts r) files)
        ++ access (mutex peer_by_id_lock r) ∷ []))

-- Room::isEmpty, which takes no lock
abbrev pub is_empty_acts : ℕ → List Act
is_empty_acts r = peek (mutex peer_by_id_lock r) ∷ []

-- Room::welcomePeer
abbrev pub welcome_peer_acts : Bool → ℕ → List Act
welcome_peer_acts kept r = add_history_message_acts kept r ++ send_to_all_acts r

-- Room::goodbyePeer
abbrev pub goodbye_peer_acts : Bool → ℕ → List Act
goodbye_peer_acts kept r = add_history_message_acts kept r ++ send_to_all_acts r

-- Room::onboardPeer
abbrev pub onboard_peer_acts : Bool → ℕ → List Act
onboard_peer_acts kept r = single (mutex peer_by_id_lock r) ++ get_history_acts kept r

-- Lobby::getOrCreateRoom
abbrev pub get_or_create_room_acts : List Act
get_or_create_room_acts = single (mutex rooms_mutex 0)

-- Lobby::getRoom
abbrev pub get_room_acts : List Act
get_room_acts = single (mutex rooms_mutex 0)

-- Lobby::deleteRoom
abbrev pub delete_room_acts : List Act
delete_room_acts = single (mutex rooms_mutex 0)

-- Lobby::runPingLoop, the body of a round
abbrev pub ping_round_acts : List ℕ → List Act
ping_round_acts rooms =
    guarded (mutex rooms_mutex 0) (access (mutex rooms_mutex 0) ∷ each ping_all_peers_acts rooms)

-- Lobby::onAfterCreate_NonBlocking
abbrev pub on_after_create_acts : Bool → ℕ → List Act
on_after_create_acts kept r =
    get_or_create_room_acts
    ++ (welcome_peer_acts kept r ++ (add_peer_acts r ++ onboard_peer_acts kept r))

-- Lobby::onBeforeDestroy_NonBlocking, and whether it finds the room empty
abbrev pub on_before_destroy_acts : Bool → ℕ → Option (List (ℕ × List ℕ)) → Bool → List Act
on_before_destroy_acts kept r files empty =
    remove_peer_by_id_acts r files
    ++ (goodbye_peer_acts kept r ++ (is_empty_acts r ++ (if empty then delete_room_acts else [])))

-- Peer::handleFilesMessage, with the files it offers
abbrev pub handle_files_message_acts : Bool → ℕ → List ℕ → List Act
handle_files_message_acts kept r offers =
    each (λ _. share_file_acts r) offers ++ (add_history_message_acts kept r ++ send_to_all_acts r)

-- Peer::handleFileChunkMessage, with the file it is for if that one is listed and the sender's, and
-- the download
abbrev pub handle_file_chunk_message_acts : ℕ → Option (ℕ × Option ℕ) → List Act
handle_file_chunk_message_acts r none = get_file_by_id_acts r
handle_file_chunk_message_acts r (some (f, s)) =
    get_file_by_id_acts r ++ provide_file_chunk_acts f s

-- GetFile::act, with the room and the file as far as they are found
abbrev pub get_file_acts : Option (ℕ × Option ℕ) → List Act
get_file_acts none = get_room_acts
get_file_acts (some (r, none)) = get_room_acts ++ get_file_by_id_acts r
get_file_acts (some (r, some f)) = get_room_acts ++ (get_file_by_id_acts r ++ subscribe_acts f)

-- Statistics::takeSample
abbrev pub take_sample_acts : List Act
take_sample_acts = single (mutex data_lock 0)

-- Statistics::getJsonData
abbrev pub get_json_data_acts : List Act
get_json_data_acts = single (mutex data_lock 0)
