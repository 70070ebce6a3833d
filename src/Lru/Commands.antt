-- ===== src/Lru/Commands.antt =====
-- What the pointer commands of internal/cache/lru.go do to the links, on nodes that are not nil.
use web_demo_go.Prelude.{◌≡◌, some, ◌≢◌, arith}
use web_demo_go.Lru.{detach, add_to_front}
use web_demo_go.Lru.Nodes.{Ptr, Heap, update}
use web_demo_go.Lru.Segment.{join, link_front}

module _ {K V : Type 0} where
  pub detach-join :
      (n : Ptr) (h : Heap K V)
      → n ≢ 0
      → h.prev n ≢ 0
      → h.next n ≢ 0
      → h.prev n ≢ n
      → detach n h ≡ some (tt, join (h.prev n) (h.next n) h)
  unfolding detach join update
  detach-join n h a b c d = ground arith

  pub add_to_front-link_front :
      (a n : Ptr) (h : Heap K V)
      → n ≢ 0
      → a ≢ 0
      → h.next a ≢ 0
      → a ≢ n
      → add_to_front a n h ≡ some (tt, link_front a n h)
  unfolding add_to_front link_front update
  add_to_front-link_front a n h p q r s = ground arith
