-- ===== src/Lru/Rewrite.antt =====
-- `n.value = value` on a node that is in the cache, in internal/cache/lru.go.
use web_demo_go.Prelude.{
  ◌≡◌, refl, sym, ◌∙◌, false, none, some, List, [], ◌∷◌, ◌++◌, arith, Eq, Map, lookup, IsDistinct,
}
use web_demo_go.Lru.Nodes.{Ptr, Heap, update, store_value}
use web_demo_go.Lru.Segment.{has}
use web_demo_go.Lru.Ring.{Ring, detach-out}
use web_demo_go.Lru.Entries.{Entry, entry, ptrs, view, find, ptrs-append, length-remove}
use web_demo_go.Lru.Holds.{Holds, Stored, Ring-at}

module _ {K V : Type 0} (p : Ptr) (k : K) (w v : V) where
  Stored-same :
      (h : Heap K V) (es : List (Entry K V))
      → has p (ptrs es) ≡ false
      → Stored h es
      → Stored (record h { value = update h.value p v }) es
  unfolding update
  Stored-same h [] o s = tt
  Stored-same h (x ∷ es) o s = ground (arith, Stored-same h es)

  Stored-value :
      (h : Heap K V) (xs ys : List (Entry K V))
      → has p (ptrs xs ++ ptrs ys) ≡ false
      → Stored h (xs ++ entry p k w ∷ ys)
      → Stored (record h { value = update h.value p v }) (xs ++ entry p k v ∷ ys)
  unfolding update
  Stored-value h [] ys o s = ground (arith, Stored-same h ys)
  Stored-value h (x ∷ xs) ys o s = ground (arith, Stored-value h xs ys)

  module _ ⦃e : Eq K⦄ where
    find-value :
        (j : K) (xs ys : List (Entry K V))
        → find j (xs ++ entry p k v ∷ ys) ≡ find j (xs ++ entry p k w ∷ ys)
    find-value j [] ys = refl
    find-value j (x ∷ xs) ys = ground (arith, find-value j xs ys)

    absent-value :
        (j : K) (xs ys : List (Entry K V))
        → lookup j (view (xs ++ entry p k w ∷ ys)) ≡ none
        → lookup j (view (xs ++ entry p k v ∷ ys)) ≡ none
    unfolding lookup
    absent-value j [] ys h = ground arith
    absent-value j (x ∷ xs) ys h = ground (arith, absent-value j xs ys)

    IsDistinct-value :
        (xs ys : List (Entry K V))
        → IsDistinct (view (xs ++ entry p k w ∷ ys))
        → IsDistinct (view (xs ++ entry p k v ∷ ys))
    IsDistinct-value [] ys d = d
    IsDistinct-value (x ∷ xs) ys d = (absent-value x.key xs ys d.0, IsDistinct-value xs ys d.1)

    module _ (h : Heap K V) (a z : Ptr) (items : Map K Ptr) (xs ys : List (Entry K V))
        (holds : Holds h a z items (xs ++ entry p k w ∷ ys)) where
      Ring-here : Ring h a z (ptrs xs ++ p ∷ ptrs ys)
      Ring-here = Ring-at h a z items xs ys (entry p k w) holds

      pub store-runs : store_value p v h ≡ some (tt, record h { value = update h.value p v })
      unfolding store_value
      store-runs =
          let (out, pos, low) = detach-out h a z (ptrs xs) p (ptrs ys) Ring-here in ground arith

      pub Holds-value :
          Holds (record h { value = update h.value p v }) a z items (xs ++ entry p k v ∷ ys)
      Holds-value =
          let (out, pos, low) = detach-out h a z (ptrs xs) p (ptrs ys) Ring-here in
          let r = Ring-here in
          record {
            ring = rw (ptrs-append xs (entry p k v ∷ ys)) (record {
              chain = r.chain;
              apart = r.apart;
              end_apart = r.end_apart;
              no_nil = r.no_nil;
              old = r.old;
            });
            stored = Stored-value h xs ys (ground arith) holds.stored;
            index = λ j. holds.index j ∙ sym (find-value j xs ys);
            size =
                holds.size
                ∙ length-remove xs ys (entry p k w)
                ∙ sym (length-remove xs ys (entry p k v));
            one_each = holds.one_each;
            distinct = IsDistinct-value xs ys holds.distinct;
          }
