-- ===== src/Lru/Segment.antt =====
-- Doubly linked segments between two nodes, over any heap.
use web_demo_go.Prelude.{◌≡◌, refl, Bool, true, false, ◌||◌, List, [], ◌∷◌, ◌++◌, nat_eq, arith}
use web_demo_go.Lru.Nodes.{Ptr, Heap, update}

abbrev pub has : Ptr → List Ptr → Bool
has a [] = false
has a (p ∷ ps) = nat_eq a p || has a ps

-- No address stands twice.
abbrev pub Apart : List Ptr → Type 0
Apart [] = Unit
Apart (p ∷ ps) = (has p ps ≡ false) × Apart ps

pub has-append : (a : Ptr) (ps qs : List Ptr) → has a (ps ++ qs) ≡ (has a ps || has a qs)
has-append a [] qs = refl
has-append a (p ∷ ps) qs = ground (arith, has-append a ps qs)

-- Taking an address out keeps the others apart, and it is not among them.
pub Apart-remove :
    (n : Ptr) (ps qs : List Ptr)
    → Apart (ps ++ n ∷ qs)
    → Apart (ps ++ qs) × (has n (ps ++ qs) ≡ false)
Apart-remove n [] qs d = (d.1, d.0)
Apart-remove n (p ∷ ps) qs d =
    ground (arith, Apart-remove n ps qs, has-append p ps (n ∷ qs), has-append p ps qs)

pub has-remove :
    (a n : Ptr) (ps qs : List Ptr) → has a (ps ++ n ∷ qs) ≡ false → has a (ps ++ qs) ≡ false
has-remove a n [] qs d = ground arith
has-remove a n (p ∷ ps) qs d = ground (arith, has-remove a n ps qs)

abbrev pub last_or : Ptr → List Ptr → Ptr
last_or a [] = a
last_or a (p ∷ ps) = last_or p ps

abbrev pub first_or : List Ptr → Ptr → Ptr
first_or [] z = z
first_or (p ∷ ps) z = p

pub has-last_or : (a : Ptr) (ps qs : List Ptr) → has (last_or a ps) (a ∷ ps ++ qs) ≡ true
has-last_or a [] qs = ground arith
has-last_or a (p ∷ ps) qs = ground (arith, has-last_or p ps qs)

pub has-first_or : (ps : List Ptr) (z : Ptr) → has (first_or ps z) (z ∷ ps) ≡ true
has-first_or [] z = ground arith
has-first_or (p ∷ ps) z = ground arith

pub ne_of_has :
    (p q : Ptr) (ps : List Ptr) → has p ps ≡ true → has q ps ≡ false → nat_eq q p ≡ false
ne_of_has p q [] h k = ground arith
ne_of_has p q (r ∷ ps) h k = ground (arith, ne_of_has p q ps)

module _ {K V : Type 0} where
  -- From `a` the `next` pointers lead through `ps` to `z`, and the `prev` pointers back.
  abbrev pub Seg : Heap K V → Ptr → List Ptr → Ptr → Type 0
  Seg h a [] z = (h.next a ≡ z) × (h.prev z ≡ a)
  Seg h a (p ∷ ps) z = (h.next a ≡ p) × (h.prev p ≡ a) × Seg h p ps z

  -- A segment is the same in a heap with the same links.
  pub Seg-cong :
      (h g : Heap K V) (a : Ptr) (ps : List Ptr) (z : Ptr)
      → ((p : Ptr) → has p (a ∷ ps) ≡ true → g.next p ≡ h.next p)
      → ((p : Ptr) → has p (z ∷ ps) ≡ true → g.prev p ≡ h.prev p)
      → Seg h a ps z
      → Seg g a ps z
  Seg-cong h g a [] z same_next same_prev s = ground (arith, same_next a, same_prev z)
  Seg-cong h g a (p ∷ ps) z same_next same_prev s =
      let rest =
        Seg-cong h g p ps z (λ q i. same_next q (ground arith)) (λ q i. same_prev q (ground arith))
          s.2 in
      ground (arith, same_next a, same_prev p)

  pub prev-last_or :
      (h : Heap K V) (a : Ptr) (xs ys : List Ptr) (n z : Ptr)
      → Seg h a (xs ++ n ∷ ys) z
      → h.prev n ≡ last_or a xs
  prev-last_or h a [] ys n z s = s.1
  prev-last_or h a (x ∷ xs) ys n z s = prev-last_or h x xs ys n z s.2

  pub next-first_or :
      (h : Heap K V) (a : Ptr) (xs ys : List Ptr) (n z : Ptr)
      → Seg h a (xs ++ n ∷ ys) z
      → h.next n ≡ first_or ys z
  next-first_or h a [] [] n z s = ground arith
  next-first_or h a [] (y ∷ ys) n z s = ground arith
  next-first_or h a (x ∷ xs) ys n z s = next-first_or h x xs ys n z s.2

  pub next_start :
      (h : Heap K V) (a : Ptr) (ps : List Ptr) (z : Ptr) → Seg h a ps z → h.next a ≡ first_or ps z
  next_start h a [] z s = s.0
  next_start h a (p ∷ ps) z s = s.0

  pub prev_end :
      (h : Heap K V) (a : Ptr) (ps : List Ptr) (z : Ptr) → Seg h a ps z → h.prev z ≡ last_or a ps
  prev_end h a [] z s = s.1
  prev_end h a (p ∷ ps) z s = prev_end h p ps z s.2

  -- The links after `p.next = q; q.prev = p`.
  unfoldable pub join : Ptr → Ptr → Heap K V → Heap K V
  join p q h = record h { next = update h.next p q; prev = update h.prev q p }

  -- Joining the neighbours of `n` takes it out of its segment.
  pub Seg-join :
      (h : Heap K V) (a : Ptr) (xs ys : List Ptr) (n z : Ptr)
      → Seg h a (xs ++ n ∷ ys) z
      → Apart (a ∷ xs ++ n ∷ ys)
      → has z (a ∷ xs ++ n ∷ ys) ≡ false
      → Seg (join (last_or a xs) (first_or ys z) h) a (xs ++ ys) z
  unfolding join update
  Seg-join h a [] [] n z s d o = ground arith
  Seg-join h a [] (y ∷ ys) n z s d o =
      let rest =
        Seg-cong h (join a y h) y ys z (λ p i. ground (arith, ne_of_has p a (y ∷ ys) i))
          (λ p i. ground (arith, ne_of_has p y (z ∷ ys) i)) s.2.2 in
      ground arith
  Seg-join h a (x ∷ xs) ys n z s d o = (
    ground (arith, ne_of_has (last_or x xs) a (x ∷ xs ++ n ∷ ys) (has-last_or x xs (n ∷ ys))),
    ground
        (arith, ne_of_has (first_or ys z) x (z ∷ ys) (has-first_or ys z), has-append x xs (n ∷ ys)),
    Seg-join h x xs ys n z s.2 d.1 (ground arith),
  )

  -- The links after `add_to_front`.
  unfoldable pub link_front : Ptr → Ptr → Heap K V → Heap K V
  unfolding update
  link_front a n h = record h {
    next = update (update h.next n (h.next a)) a n;
    prev = update (update h.prev n a) (h.next a) n;
  }

  pub Seg-link_front :
      (h : Heap K V) (a : Ptr) (ps : List Ptr) (n z : Ptr)
      → Seg h a ps z
      → Apart (n ∷ a ∷ ps)
      → has z (n ∷ a ∷ ps) ≡ false
      → Seg (link_front a n h) a (n ∷ ps) z
  unfolding link_front
  Seg-link_front h a [] n z s d o = ground arith
  Seg-link_front h a (p ∷ ps) n z s d o =
      let rest =
        Seg-cong h (link_front a n h) p ps z
          (λ q i. ground (arith, ne_of_has q n (p ∷ ps) i, ne_of_has q a (p ∷ ps) i))
          (λ q i. ground (arith, ne_of_has q n (z ∷ ps) i, ne_of_has q p (z ∷ ps) i)) s.2 in
      ground arith
