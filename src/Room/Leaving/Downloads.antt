-- ===== src/Room/Leaving/Downloads.antt =====
-- `clearSubscribers` of server/src/rooms/File.cpp, as a loop over the downloads of one file.
use canchat.Base.{
  ℕ, false, some, List, [], ◌∷◌, ◌≡◌, refl, arith, All, int_eq, inl, inr, Bool-cases, nat_same,
}
use canchat.Base.Heap
use canchat.Base.Heap.{Heap}
use canchat.Base.Exec.{returns, for_each}
use canchat.World.{World, Subscriber, store_subscriber}
use canchat.File.{invalidate}
use canchat.File.Stream.{invalidate_lem}

abbrev pub Present : Heap Subscriber → ℕ → Type 0
Present h s = (sub : Subscriber) × (h.cell s ≡ some sub)

-- A new subscriber takes no other away.
alloc-Present :
    (sub : Subscriber) (h : Heap Subscriber) (s : ℕ) → Present h s → Present (Heap.alloc sub h) s
alloc-Present sub h s (old, at) = elim (Bool-cases (nat_same s h.next)) [
  | inl e ↦ (sub, ground (arith, e))
  | inr e ↦ (old, ground (arith, e, at))
]

pub all_Present :
    (sub : Subscriber) (h : Heap Subscriber) (ss : List ℕ)
    → All (Present h) ss
    → All (Present (Heap.alloc sub h)) ss
all_Present sub h [] all = tt
all_Present sub h (s ∷ ss) (p, all) = (alloc-Present sub h s p, all_Present sub h ss all)

-- A download that was ended.
abbrev pub Ended : Heap Subscriber → ℕ → Type 0
Ended h s = (sub : Subscriber) × (h.cell s ≡ some sub) × (sub.valid ≡ false)

-- No subscriber goes away, or becomes valid again.
abbrev pub Ending : Heap Subscriber → Heap Subscriber → Type 0
Ending g h =
    (s : ℕ) (sub : Subscriber)
    → g.cell s ≡ some sub
    → (sub' : Subscriber) × (h.cell s ≡ some sub') × (sub.valid ≡ false → sub'.valid ≡ false)

pub Ending-trans : (g h k : Heap Subscriber) → Ending g h → Ending h k → Ending g k
Ending-trans g h k a b s sub e =
    let x = a s sub e in let y = b s x.0 x.1 in (y.0, y.1, λ v. y.2 (x.2 v))

pub Ending-Present :
    (g h : Heap Subscriber) → Ending g h → (ss : List ℕ) → All (Present g) ss → All (Present h) ss
Ending-Present g h a [] p = tt
Ending-Present g h a (s ∷ ss) p =
    let x = a s p.0.0 p.0.1 in ((x.0, x.1), Ending-Present g h a ss p.1)

pub Ending-Ended :
    (g h : Heap Subscriber) → Ending g h → (ss : List ℕ) → All (Ended g) ss → All (Ended h) ss
Ending-Ended g h a [] p = tt
Ending-Ended g h a (s ∷ ss) p =
    let x = a s p.0.0 p.0.1 in ((x.0, x.1, x.2 p.0.2), Ending-Ended g h a ss p.1)

abbrev shut : Subscriber → Subscriber
shut sub = record sub { valid = false; waiting = false }

shut-Ending :
    (s : ℕ) (sub : Subscriber) (h : Heap Subscriber)
    → h.cell s ≡ some sub
    → Ending h (Heap.write s (shut sub) h)
shut-Ending s sub h at t old e = elim (Bool-cases (nat_same t s)) [
  | inl same ↦ (shut sub, ground arith, λ v. refl)
  | inr other ↦ (old, ground arith, λ v. v)
]

-- The loop over the subscribers.
pub record Invalidated (ss : List ℕ) (w : World) : Type 0 where
  pub heap : Heap Subscriber
  pub run : for_each invalidate ss w ≡ (returns tt, record w { subscriber_heap = heap })
  pub ending : Ending w.subscriber_heap heap
  pub ended : All (Ended heap) ss

Invalidated-cons :
    (s : ℕ) (ss : List ℕ) (w : World) (sub : Subscriber)
    → w.subscriber_heap.cell s ≡ some sub
    → Invalidated ss (store_subscriber s (shut sub) w)
    → Invalidated (s ∷ ss) w
Invalidated-cons s ss w sub at rest = record {
  heap = rest.heap;
  run = rw (invalidate_lem s w sub at) rest.run;
  ending =
      Ending-trans w.subscriber_heap (Heap.write s (shut sub) w.subscriber_heap) rest.heap
        (shut-Ending s sub w.subscriber_heap at) rest.ending;
  ended = ((last.0, last.1, last.2 refl), rest.ended);
}
  where
    last :
        (sub' : Subscriber) × (rest.heap.cell s ≡ some sub') × (false ≡ false → sub'.valid ≡ false)
    last = rest.ending s (shut sub) (Heap.cell-write s (shut sub) w.subscriber_heap)

pub Invalidated-for_each :
    (ss : List ℕ) (w : World) → All (Present w.subscriber_heap) ss → Invalidated ss w
Invalidated-for_each [] w p = record {
  heap = w.subscriber_heap;
  run = refl;
  ending = λ s sub e. (sub, e, λ v. v);
  ended = tt;
}
Invalidated-for_each (s ∷ ss) w ((sub, at), p) = Invalidated-cons s ss w sub at (
    Invalidated-for_each ss (store_subscriber s (shut sub) w) (
      Ending-Present w.subscriber_heap (Heap.write s (shut sub) w.subscriber_heap)
        (shut-Ending s sub w.subscriber_heap at) ss p))
