-- ===== src/Lru.antt =====
-- internal/cache/lru.go. The methods run under the cache's mutex, so concurrent calls are a
-- sequence of calls. A `*ShortURL` that is stored is a value of type `V`.
pub mod Nodes
pub mod Segment
pub mod Commands
pub mod Ring
pub mod Spec
pub mod Entries
pub mod Holds
pub mod Evict
pub mod Rewrite
pub mod Refines
pub mod Inserts
pub mod Recency
pub mod Runs
use web_demo_go.Lru.Nodes.{
  Ptr, Heap, Cmd, ◌>>=◌, ◌>>◌, pure, load_key, load_value, load_prev, load_next, store_value,
  store_prev, store_next, alloc,
}
use web_demo_go.Prelude.{
  ℕ, Bool, Option, none, some, [], nat_eq, if◌then◌else◌, Eq, ℤ, pos, leb_ℤ, length, Map, lookup,
  insert, erase,
}

-- `LRU`, with the memory that its nodes live in.
pub record Lru (K V : Type 0) : Type 0 where
  pub capacity : ℤ
  pub items : Map K Ptr
  -- sentinel: its `next` is the most recently used node
  pub head : Ptr
  -- sentinel: its `prev` is the least recently used node
  pub tail : Ptr
  pub heap : Heap K V

module _ {K V : Type 0} where
  -- `n.prev.next = n.next; n.next.prev = n.prev`
  unfoldable pub detach : Ptr → Cmd K V (Unit {0})
  unfolding load_prev load_next store_prev store_next
  detach n = do
    before ← load_prev n
    after ← load_next n
    store_next before after
    after ← load_next n
    before ← load_prev n
    store_prev after before

  unfoldable pub add_to_front : Ptr → Ptr → Cmd K V (Unit {0})
  unfolding load_prev load_next store_prev store_next
  add_to_front head n = do
    store_prev n head
    first ← load_next head
    store_next n first
    first ← load_next head
    store_prev first n
    store_next head n

  unfoldable pub move_to_front : Ptr → Ptr → Cmd K V (Unit {0})
  move_to_front head n = do detach n; add_to_front head n

  -- The heap of an empty cache: address 1 is the head and 2 the tail. `zero_key` and `zero_value`
  -- are the zero values of the sentinels' fields, which no method reads.
  unfoldable pub new : K → V → ℤ → Lru K V
  new zero_key zero_value capacity = record {
    capacity = capacity;
    items = [];
    head = 1;
    tail = 2;
    heap = record {
      key = λ _. zero_key;
      value = λ _. zero_value;
      prev = λ p. if nat_eq p 2 then 1 else 0;
      next = λ p. if nat_eq p 1 then 2 else 0;
      fresh = 3;
    };
  }

module _ {K V : Type 0} ⦃e : Eq K⦄ where
  -- The evicted node leaves the list and the map.
  unfoldable pub evict_lru : Ptr → Ptr → Map K Ptr → Cmd K V (Map K Ptr)
  unfolding load_prev load_key
  evict_lru head tail items = do
    lru ← load_prev tail
    if nat_eq lru head then pure items else do detach lru; k ← load_key lru; pure (erase k items)

  -- `Get`: the value and `true` are `some`, nil and `false` are `none`.
  unfoldable pub get : K → Lru K V → Option (Option V × Lru K V)
  unfolding load_value
  get k c = elim (lookup k c.items) [
    | none ↦ some (none, c)
    | some n ↦ elim ((do move_to_front c.head n; load_value n) c.heap) [
      | none ↦ none
      | some (v, h) ↦ some (some v, record c { heap = h })
    ]
  ]

  -- `if len(c.items) >= c.capacity`
  unfoldable pub make_room : Lru K V → Cmd K V (Map K Ptr)
  make_room c =
      if leb_ℤ c.capacity (pos (length c.items))
      then evict_lru c.head c.tail c.items
      else pure c.items

  -- The part of `Set` for a key that is not in the map.
  unfoldable pub add_new : K → V → Lru K V → Cmd K V (Map K Ptr)
  unfolding alloc
  add_new k v c = do
    items ← make_room c
    n ← alloc k v
    add_to_front c.head n
    pure (insert k n items)

  unfoldable pub set : K → V → Lru K V → Option (Lru K V)
  unfolding store_value
  set k v c = elim (lookup k c.items) [
    | none ↦ elim (add_new k v c c.heap) [
      | none ↦ none
      | some (items, h) ↦ some (record c { items = items; heap = h })
    ]
    | some n ↦ elim ((do store_value n v; move_to_front c.head n) c.heap) [
      | none ↦ none
      | some (_, h) ↦ some (record c { heap = h })
    ]
  ]

  unfoldable pub len : Lru K V → ℕ
  len c = length c.items
