-- ===== src/Lru/Nodes.antt =====
-- The list nodes of internal/cache/lru.go: their memory, and the commands that read and write it.
use web_demo_go.Prelude.{ℕ, suc, Option, none, some, nat_eq, if◌then◌else◌}

-- An address; 0 is nil.
abbrev pub Ptr : Type 0
Ptr = ℕ

-- One map for each field of `node`. Go's memory is safe, so every address but nil can be read.
pub record Heap (K V : Type 0) : Type 0 where
  pub key : Ptr → K
  pub value : Ptr → V
  pub prev : Ptr → Ptr
  pub next : Ptr → Ptr
  -- the address of the next node that is allocated
  pub fresh : Ptr

unfoldable pub update : {A : Type 0} → (Ptr → A) → Ptr → A → Ptr → A
update f p x a = if nat_eq a p then x else f a

-- `none` is a panic, the dereference of nil.
abbrev pub Cmd : Type 0 → Type 0 → Type 0 → Type 0
Cmd K V A = Heap K V → Option (A × Heap K V)

module _ {K V : Type 0} where
  module _ {A B : Type 0} where
    infixl 5 ◌>>=◌ ◌>>◌
    abbrev pub ◌>>=◌ : Cmd K V A → (A → Cmd K V B) → Cmd K V B
    ◌>>=◌ m f h = elim (m h) [ none ↦ none | some (a, g) ↦ f a g ]

    abbrev pub ◌>>◌ : Cmd K V A → Cmd K V B → Cmd K V B
    m >> n = m >>= λ _. n

  abbrev pub pure : {A : Type 0} → A → Cmd K V A
  pure a h = some (a, h)

  -- A dereference of `p`, with what is then done to the node.
  abbrev deref : {A : Type 0} → Ptr → A × Heap K V → Option (A × Heap K V)
  deref p r = if nat_eq p 0 then none else some r

  unfoldable pub load_key : Ptr → Cmd K V K
  load_key p h = deref p (h.key p, h)

  unfoldable pub load_value : Ptr → Cmd K V V
  load_value p h = deref p (h.value p, h)

  unfoldable pub load_prev : Ptr → Cmd K V Ptr
  load_prev p h = deref p (h.prev p, h)

  unfoldable pub load_next : Ptr → Cmd K V Ptr
  load_next p h = deref p (h.next p, h)

  unfoldable pub store_value : Ptr → V → Cmd K V (Unit {0})
  store_value p v h = deref p (tt, record h { value = update h.value p v })

  unfoldable pub store_prev : Ptr → Ptr → Cmd K V (Unit {0})
  store_prev p q h = deref p (tt, record h { prev = update h.prev p q })

  unfoldable pub store_next : Ptr → Ptr → Cmd K V (Unit {0})
  store_next p q h = deref p (tt, record h { next = update h.next p q })

  -- `&node{key: key, value: value}`
  unfoldable pub alloc : K → V → Cmd K V Ptr
  alloc k v h = some (
    h.fresh,
    record {
      key = update h.key h.fresh k;
      value = update h.value h.fresh v;
      prev = update h.prev h.fresh 0;
      next = update h.next h.fresh 0;
      fresh = suc h.fresh;
    },
  )
