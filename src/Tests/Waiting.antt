-- ===== src/Tests/Waiting.antt =====
-- A wait for a chunk that comes between the decision to wait and the place on the list.
use canchat.Base.{true, false, some, [], ◌∷◌, ◌≡◌, refl}
use canchat.Base.Exec.{returns}
use canchat.World.{World, Bytes, Subscriber, store_subscriber}
use canchat.File.{take_chunk, read_chunk, deliver_chunk, request_chunk}
use canchat.File.Waiting.{
  finish, wait_act, on_new_item, settled, Run, start, next, reads, acts, listed, told, provided,
  parking, no_lost_wakeup,
}
use canchat.Peer.{send_message_async}
use canchat.Tests.{den, download}

abbrev chunk : Bytes
chunk = 1 ∷ 2 ∷ []

abbrev asked : World
asked = (wait_act 0 (read_chunk 0 4 den).1).1

abbrev loaded : Subscriber
loaded = record download { chunk = some chunk; waiting = false }

abbrev provided_early : World
provided_early = (take_chunk 0 chunk asked).1

abbrev on_list : World
on_list = store_subscriber 0 (record loaded { waiting = true }) provided_early

until_asked : Run 0 den parking asked
unfolding read_chunk deliver_chunk request_chunk send_message_async wait_act
until_asked = next (next start (reads 4 den)) (acts (read_chunk 0 4 den).1)

loaded_at : provided_early.subscriber_heap.cell 0 ≡ some loaded
unfolding read_chunk deliver_chunk request_chunk send_message_async wait_act take_chunk
loaded_at = refl

until_told : Run 0 den settled (on_new_item 0 on_list).1
until_told =
    next
      (next (next until_asked (provided chunk parking asked))
        (listed provided_early loaded loaded_at))
      (told on_list)

woken_at : (on_new_item 0 on_list).1.subscriber_heap.cell 0 ≡ some loaded
unfolding on_new_item
woken_at = refl

no_lost_wakeup_example :
    (loaded.waiting ≡ false)
    × (wait_act 0 (on_new_item 0 on_list).1 ≡ (returns finish, (on_new_item 0 on_list).1))
no_lost_wakeup_example = no_lost_wakeup 0 loaded until_told woken_at refl
