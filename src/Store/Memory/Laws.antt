-- ===== src/Store/Memory/Laws.antt =====
-- internal/store/memory.go: the invariant of its two maps, and the contract of Store/Contract.
use web_demo_go.Prelude.{
  Error, failure, not_found, err, ◌≢◌, ◌∙◌, sym, ap, ◌≡◌, refl, inl, inr, Option, none, some, [],
  Text, text_eq, text_eq_iff, Text_eq, lookup, lookup-insert, ok, arith, ◌⊎◌, Option-cases,
  Bool-cases,
}
use web_demo_go.Shortener.{ShortUrl}
use web_demo_go.Store.Contract.{Answers, answer_row, answer_missing, IsStore, whole, whole-IsKept}
use web_demo_go.Store.Faults.{IsHonest}
use web_demo_go.Store.Memory.{
  entity, MemoryStore, new_memory_store, save, get_by_code, get_by_hash, memory_repository,
}

-- Every entity stands under its code, and every indexed hash leads to an entity with that hash.
pub record IsIndexed (m : MemoryStore) : Type 0 where
  pub by_code : (c : Text) (u : ShortUrl) → lookup c m.urls ≡ some u → u.code ≡ c
  pub by_hash :
      (h c : Text)
      → lookup h m.hashes ≡ some c
      → (u : ShortUrl) × (lookup c m.urls ≡ some u) × (u.url_hash ≡ h)
  pub complete :
      (c : Text) (u : ShortUrl)
      → lookup c m.urls ≡ some u
      → u.url_hash ≢ []
      → lookup u.url_hash m.hashes ≢ none

abbrev pub urls_of : MemoryStore → Text → Option ShortUrl
urls_of m c = lookup c m.urls

pub new-IsIndexed : IsIndexed new_memory_store
unfolding new_memory_store lookup
new-IsIndexed = record {
  by_code = λ c u h. cc;
  by_hash = λ h c e. absurd (cc);
  complete = λ c u e. absurd (cc);
}

index_cases :
    (u : ShortUrl) (m : MemoryStore) (h c : Text)
    → lookup h (save u m).1.hashes ≡ some c
    → ((u.url_hash ≡ h) × (u.code ≡ c)) ⊎ (lookup h m.hashes ≡ some c)
unfolding save
index_cases u m h c e = elim (Bool-cases (text_eq u.url_hash [])) [
  | inl bare ↦ inr (ground arith)
  | inr tagged ↦
      ground (arith, lookup-insert u.url_hash h u.code m.hashes, text_eq_iff u.url_hash h)
]

-- A `Save` under an unused code keeps the two maps in step, if they were before.
pub save-IsIndexed :
    (u : ShortUrl) (m : MemoryStore)
    → IsIndexed m
    → lookup u.code m.urls ≡ none
    → IsIndexed (save u m).1
unfolding save
save-IsIndexed u m i unused = record {
  by_code =
      λ c v h. ground (arith, lookup-insert u.code c u m.urls, text_eq_iff u.code c, i.by_code c v);
  by_hash = λ h c e. elim (index_cases u m h c e) [
    | inl (same_hash, same_code) ↦
        (u, ground (arith, lookup-insert u.code c u m.urls, text_eq_iff u.code c), same_hash)
    | inr old ↦
        let (v, found, hash) = i.by_hash h c old in
        (v, ground (arith, lookup-insert u.code c u m.urls, text_eq_iff u.code c), hash)
  ];
  complete = λ c v e tagged. ground (
    arith,
    lookup-insert u.code c u m.urls,
    i.complete c v,
    lookup-insert u.url_hash v.url_hash u.code m.hashes,
    text_eq_iff u.url_hash [],
    text_eq_iff u.url_hash v.url_hash,
  );
}

entity-answer :
    (o : Option ShortUrl) → Answers whole (elim o [ none ↦ err not_found | some u ↦ ok u ]) o
entity-answer none = answer_missing
entity-answer (some u) = answer_row u

get-answer : (c : Text) (m : MemoryStore) → Answers whole (get_by_code c m).0 (urls_of m c)
unfolding get_by_code entity
get-answer c m = entity-answer (lookup c m.urls)

get-state : (c : Text) (m : MemoryStore) → (get_by_code c m).1 ≡ m
unfolding get_by_code
get-state c m = refl

hash-state : (h : Text) (m : MemoryStore) → (get_by_hash h m).1 ≡ m
unfolding get_by_hash
hash-state h m = ground arith

-- An entity found by its hash is the row of its code, and has the hash.
pub hash-answer :
    (h : Text) (m : MemoryStore)
    → IsIndexed m
    → (u : ShortUrl) → (get_by_hash h m).0 ≡ ok u
    → (urls_of m u.code ≡ some u) × (u.url_hash ≡ h)
unfolding get_by_hash
hash-answer h m i u e = elim (Option-cases (lookup h m.hashes)) [
  | inl missing ↦ absurd (ground arith)
  | inr (c, indexed) ↦
      let (v, found, hash) = i.by_hash h c indexed in
      let code = i.by_code c v found in
      let same : v ≡ u = ground arith in
      (
        ap (λ w. lookup w.code m.urls) (sym same)
            ∙ ap (λ d. lookup d m.urls) code
            ∙ found
            ∙ ap some same,
        ap (λ w. w.url_hash) (sym same) ∙ hash,
      )
]

hash-missing :
    (h : Text) (m : MemoryStore)
    → IsIndexed m
    → h ≢ []
    → (get_by_hash h m).0 ≡ err not_found
    → (c : Text) (u : ShortUrl) → urls_of m c ≡ some u
    → u.url_hash ≢ h
unfolding get_by_hash
hash-missing h m i some_hash e c u row same = elim (Option-cases (lookup h m.hashes)) [
  | inl missing ↦
      i.complete c u row (λ k. some_hash (sym same ∙ k))
        (ap (λ k. lookup k m.hashes) same ∙ missing)
  | inr (d, indexed) ↦ let (v, found, hash) = i.by_hash h d indexed in absurd (ground arith)
]

pub memory-IsStore : IsStore whole memory_repository IsIndexed urls_of
unfolding save get_by_code get_by_hash
memory-IsStore = record {
  kept = whole-IsKept;
  row_code = λ m i c u h. i.by_code c u h;
  save_valid = save-IsIndexed;
  save_ok = λ u m i unused done c. lookup-insert u.code c u m.urls;
  save_failed = λ u m i unused e failed. absurd (cc);
  save_returns = λ u m i unused. cc;
  get_valid = λ c m i. i;
  get_answers = λ c m i. get-answer c m;
  get_keeps = λ c m i d. refl;
  hash_valid = λ h m i. rw (hash-state h m) i;
  hash_keeps = λ h m i d. rw (hash-state h m);
  hash_missing = hash-missing;
  hash_answers = hash-answer;
}

no_failure : (c : Text) (m : MemoryStore) (why : Text) → (get_by_code c m).0 ≢ err (failure why)
unfolding get_by_code entity
no_failure c m why = λ h. elim (Option-cases (lookup c m.urls)) [
  | inl missing ↦ ground arith
  | inr (u, found) ↦ ground arith
]

no_hash_failure :
    (h : Text) (m : MemoryStore) (e : Error) → (get_by_hash h m).0 ≡ err e → e ≢ not_found → ⊥
unfolding get_by_hash entity
no_hash_failure h m e failed other = elim (Option-cases (lookup h m.hashes)) [
  | inl missing ↦ ground arith
  | inr (c, indexed) ↦ elim (Option-cases (lookup c m.urls)) [
    | inl missing ↦ ground arith
    | inr (u, found) ↦ ground arith
  ]
]

-- While its two maps are in step `MemoryStore` meets the contract of a store and never fails: a
-- `Save` under an unused code reports no error and adds exactly its row, a lookup by code answers
-- with the row, or with `ErrNotFound` where there is none, a lookup by hash finds only a row of that
-- hash, and answers `ErrNotFound` only where no row has it, no other error comes from any of them,
-- and all of them keep the maps in step.
pub memory-IsHonest :
    IsHonest memory_repository IsIndexed whole urls_of (λ u m e. ⊥) (λ c m why. ⊥) (λ h m e. ⊥)
unfolding save
memory-IsHonest = record {
  contract = memory-IsStore;
  save_fails = λ u m i e h. absurd (cc);
  code_fails = λ c m i why h. no_failure c m why h;
  hash_fails = λ h m i e failed other. no_hash_failure h m e failed other;
}
