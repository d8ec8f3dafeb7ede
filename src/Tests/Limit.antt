-- ===== src/Tests/Limit.antt =====
-- Frames of several peers, whole messages and unfinished ones.

use canchat.Base.{pos, some, List, [], ◌∷◌, refl, arith}
use canchat.World.{World}
use canchat.Peer.Limit.{Frame, IsBounded, after_frames, after_frames-IsBounded}
use canchat.Tests.{ticks, den}
use canchat.Tests.Peers.{lib}

abbrev small_den : World
small_den = record den { config = record (den.config) { max_message_size_bytes = some 4 } }

abbrev frames : List Frame
frames =
    record { peer = 0; now = ticks (pos 1) (pos 1); bytes = 1 ∷ 2 ∷ [] }
    ∷ record { peer = 1; now = ticks (pos 2) (pos 2); bytes = 1 ∷ 2 ∷ 3 ∷ [] }
    ∷ record { peer = 1; now = ticks (pos 3) (pos 3); bytes = 4 ∷ 5 ∷ [] }
    ∷ record { peer = 0; now = ticks (pos 4) (pos 4); bytes = [] }
    ∷ []

small_den-IsBounded : IsBounded 4 small_den
small_den-IsBounded q peer at = ground (arith, at)

after_frames-IsBounded_example : IsBounded 4 (after_frames lib frames small_den)
after_frames-IsBounded_example =
    after_frames-IsBounded lib frames 4 small_den refl small_den-IsBounded
