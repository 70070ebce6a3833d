-- ===== src/Lru/Ring.antt =====
-- The nodes of a cache as a ring from the head sentinel to the tail sentinel, kept by the pointer
-- commands of internal/cache/lru.go.
use web_demo_go.Prelude.{
  ◌≡◌, ◌≢◌, ◌<◌, refl, some, true, false, List, [], ◌∷◌, ◌++◌, suc, arith, All,
}
use web_demo_go.Lru.{detach, add_to_front}
use web_demo_go.Lru.Commands.{detach-join, add_to_front-link_front}
use web_demo_go.Lru.Nodes.{Ptr, Heap}
use web_demo_go.Lru.Segment.{
  has, Apart, Seg, join, link_front, last_or, first_or, has-append, has-last_or, has-first_or,
  Apart-remove, has-remove, ne_of_has, prev-last_or, next-first_or, next_start, Seg-join,
  Seg-link_front,
}

abbrev pub Below : Ptr → List Ptr → Type 0
Below m = All (λ p. p < m)

pub record Ring {K V : Type 0} (h : Heap K V) (a z : Ptr) (ps : List Ptr) : Type 0 where
  pub chain : Seg h a ps z
  pub apart : Apart (a ∷ ps)
  pub end_apart : has z (a ∷ ps) ≡ false
  pub no_nil : has 0 (z ∷ a ∷ ps) ≡ false
  pub old : Below h.fresh (z ∷ a ∷ ps)

Below-remove : (m n : Ptr) (xs ys : List Ptr) → Below m (xs ++ n ∷ ys) → Below m (xs ++ ys)
Below-remove m n [] ys b = b.1
Below-remove m n (x ∷ xs) ys b = (b.0, Below-remove m n xs ys b.1)

Below-mid : (m n : Ptr) (xs ys : List Ptr) → Below m (xs ++ n ∷ ys) → n < m
Below-mid m n [] ys b = b.0
Below-mid m n (x ∷ xs) ys b = Below-mid m n xs ys b.1

pub Below-suc : (m : Ptr) (ps : List Ptr) → Below m ps → Below (suc m) ps
Below-suc m [] b = tt
Below-suc m (p ∷ ps) b = (omega arith, Below-suc m ps b.1)

pub Below-has : (m : Ptr) (ps : List Ptr) → Below m ps → has m ps ≡ false
Below-has m [] b = refl
Below-has m (p ∷ ps) b = ground (arith, Below-has m ps)

pub not-nil_of_has : (p : Ptr) (ps : List Ptr) → has 0 ps ≡ false → has p ps ≡ true → p ≢ 0
not-nil_of_has p [] o i = ground arith
not-nil_of_has p (q ∷ ps) o i = ground (arith, not-nil_of_has p ps)

module _ {K V : Type 0} (h : Heap K V) (a z : Ptr) where
  module _ (xs : List Ptr) (n : Ptr) (ys : List Ptr) (r : Ring h a z (xs ++ n ∷ ys)) where
    not_nil : (p : Ptr) → has p (z ∷ a ∷ xs ++ n ∷ ys) ≡ true → p ≢ 0
    not_nil p = not-nil_of_has p (z ∷ a ∷ xs ++ n ∷ ys) r.no_nil

    pub detach-Ring-runs : detach n h ≡ some (tt, join (h.prev n) (h.next n) h)
    detach-Ring-runs =
        let before = prev-last_or h a xs ys n z r.chain in
        let after = next-first_or h a xs ys n z r.chain in
        let out = Apart-remove n (a ∷ xs) ys r.apart in
        detach-join n h (not_nil n (ground (arith, has-append n xs (n ∷ ys))))
          (rw before (not_nil (last_or a xs) (ground (arith, has-last_or a xs (n ∷ ys)))))
          (rw after (
            not_nil (first_or ys z)
              (ground (arith, has-first_or ys z, has-append (first_or ys z) xs (n ∷ ys)))))
          (rw before
            (ground (arith, ne_of_has (last_or a xs) n (a ∷ xs ++ ys) (has-last_or a xs ys))))

    pub detach-Ring : Ring (join (h.prev n) (h.next n) h) a z (xs ++ ys)
    unfolding join
    detach-Ring =
        let before = prev-last_or h a xs ys n z r.chain in
        let after = next-first_or h a xs ys n z r.chain in
        record {
          chain = rw (before, after) (Seg-join h a xs ys n z r.chain r.apart r.end_apart);
          apart = (Apart-remove n (a ∷ xs) ys r.apart).0;
          end_apart = has-remove z n (a ∷ xs) ys r.end_apart;
          no_nil = has-remove 0 n (z ∷ a ∷ xs) ys r.no_nil;
          old = Below-remove h.fresh n (z ∷ a ∷ xs) ys r.old;
        }

    -- The node that was taken out can be put back.
    pub detach-out : (has n (z ∷ a ∷ xs ++ ys) ≡ false) × (n ≢ 0) × (n < h.fresh)
    detach-out = (
      ground (arith, Apart-remove n (a ∷ xs) ys r.apart, r.end_apart, has-append z xs (n ∷ ys)),
      not_nil n (ground (arith, has-append n xs (n ∷ ys))),
      Below-mid h.fresh n xs ys r.old.1.1,
    )

  module _ (ps : List Ptr) (n : Ptr) (r : Ring h a z ps) where
    pub add_to_front-Ring :
        has n (z ∷ a ∷ ps) ≡ false
        → n ≢ 0
        → n < h.fresh
        → (add_to_front a n h ≡ some (tt, link_front a n h)) × Ring (link_front a n h) a z (n ∷ ps)
    unfolding link_front
    add_to_front-Ring out pos low = (
      add_to_front-link_front a n h pos (ground (arith, r.no_nil))
          (rw (next_start h a ps z r.chain) (
            not-nil_of_has (first_or ps z) (z ∷ a ∷ ps) r.no_nil
              (ground (arith, has-first_or ps z))))
          (ground arith),
      record {
        chain =
            Seg-link_front h a ps n z r.chain (ground (arith, r.apart))
              (ground (arith, r.end_apart));
        apart = ground (arith, r.apart);
        end_apart = ground (arith, r.end_apart);
        no_nil = ground (arith, r.no_nil);
        old = (r.old.0, (r.old.1.0, (low, r.old.1.1)));
      },
    )
