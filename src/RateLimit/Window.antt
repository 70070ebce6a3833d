-- ===== src/RateLimit/Window.antt =====
-- The whole history of requests behind the timestamps of internal/ratelimit/store/memory.go.
use mathlib.Core.Path.{subst}
use web_demo_go.Prelude.{
  ltb_ℤ, pos_part, neg_part, ◌+◌, ℕ, suc, List, [], ◌∷◌, ◌++◌, Text, Text_eq, text_eq, text_eq_iff,
  Map, lookup, insert, lookup-insert, ℤ, pos, negsuc, ◌+ℤ◌, ◌≤ℤ◌, ◌<ℤ◌, +ℤ_parts, ok, length,
  if◌then◌else◌, arith, ◌≡◌, refl, ap, sym, ◌∙◌, Bool-cases, inl, inr, true, false,
}
use web_demo_go.RateLimit.Memory.{Memory, new_memory, neg64, prune, timestamps_of, record_request}

pub prune-append : (c : ℤ) (xs ys : List ℤ) → prune c (xs ++ ys) ≡ prune c xs ++ prune c ys
unfolding prune
prune-append c [] ys = refl
prune-append c (x ∷ xs) ys = ground (arith, prune-append c xs ys)

-- Pruning at a later cutoff undoes an earlier one.
pub prune-prune : (a b : ℤ) (xs : List ℤ) → a ≤ℤ b → prune b (prune a xs) ≡ prune b xs
unfolding prune
prune-prune a b [] h = refl
prune-prune a b (x ∷ xs) h = ground (arith, prune-prune a b xs)

prune_one : (c t : ℤ) → c <ℤ t → prune c (t ∷ []) ≡ t ∷ []
unfolding prune
prune_one c t h = ground arith

pub neg64_before : (t w : ℤ) → pos 0 <ℤ w → t +ℤ neg64 w <ℤ t
unfolding neg64
neg64_before t (pos n) h = ground (arith, +ℤ_parts t (neg64 (pos n)))
neg64_before t (negsuc n) h = absurd (ground arith)

pub timestamps-insert :
    (key k : Text) (l : List ℤ) (m : Map Text (List ℤ)) (t : ℕ)
    → timestamps_of k (record { requests = insert key l m; ticks = t })
      ≡ (if text_eq key k then l else timestamps_of k (record { requests = m; ticks = t }))
unfolding timestamps_of
timestamps-insert key k l m t = ground (arith, lookup-insert key k l m)

-- The times of all requests so far, with one more.
abbrev pub with_request : Text → ℤ → (Text → List ℤ) → Text → List ℤ
with_request key t history k = if text_eq key k then history k ++ t ∷ [] else history k

with_request_self :
    (key : Text) (t : ℤ) (history : Text → List ℤ)
    → with_request key t history key ≡ history key ++ t ∷ []
with_request_self key t history = ground (arith, text_eq_iff key key)

timestamps-ticks :
    (k : Text) (m : Memory) (t : ℕ)
    → timestamps_of k (record { requests = m.requests; ticks = t }) ≡ timestamps_of k m
unfolding timestamps_of
timestamps-ticks k m t = refl

≤ℤ_trans : (a b c : ℤ) → a ≤ℤ b → b ≤ℤ c → a ≤ℤ c
≤ℤ_trans a b c h k = omega arith

-- How many of the times are less than `window` before `now`.
unfoldable pub within : ℤ → ℤ → List ℤ → ℕ
within now window [] = 0
within now window (t ∷ times) =
    let rest = within now window times in if ltb_ℤ now (t +ℤ window) then suc rest else rest

neg64_parts : (w : ℤ) → pos 0 <ℤ w → pos_part (neg64 w) + pos_part w ≡ neg_part (neg64 w)
unfolding neg64
neg64_parts (pos n) h = ground arith
neg64_parts (negsuc n) h = absurd (ground arith)

prune-within :
    (now window : ℤ) (times : List ℤ)
    → pos 0 <ℤ window
    → length (prune (now +ℤ neg64 window) times) ≡ within now window times
unfolding prune within
prune-within now window [] h = refl
prune-within now window (t ∷ times) h = ground (
  arith,
  prune-within now window times h,
  neg64_parts window h,
  +ℤ_parts now (neg64 window),
  +ℤ_parts t window,
)

module _ (clock : ℕ → ℤ) (window : Text → ℤ) where
  abbrev pub cutoff_at : ℕ → Text → ℤ
  cutoff_at n k = clock n +ℤ neg64 (window k)

  -- What is stored for a key is the part of its history after some cutoff in the past.
  pub record IsRecent (history : Text → List ℤ) (m : Memory) : Type 0 where
    pub cut : Text → ℤ
    pub stored : (k : Text) → timestamps_of k m ≡ prune (cut k) (history k)
    pub past : (k : Text) → cut k ≤ℤ cutoff_at m.ticks k

  module _ (steps : (n : ℕ) → clock n ≤ℤ clock (suc n))
      (positive : (k : Text) → pos 0 <ℤ window k) where
    cutoff_grows : (n : ℕ) (k : Text) → cutoff_at n k ≤ℤ cutoff_at (suc n) k
    cutoff_grows n k = omega (
      arith,
      steps n,
      +ℤ_parts (clock n) (neg64 (window k)),
      +ℤ_parts (clock (suc n)) (neg64 (window k)),
    )

    -- The timestamps that `Record` keeps.
    kept :
        (key : Text) (history : Text → List ℤ) (m : Memory)
        → IsRecent history m
        → prune (cutoff_at m.ticks key) (timestamps_of key m) ++ clock m.ticks ∷ []
          ≡ prune (cutoff_at m.ticks key) (history key ++ clock m.ticks ∷ [])
    kept key history m r =
        let c = cutoff_at m.ticks key in
        let t = clock m.ticks in
        ap (λ l. prune c l ++ t ∷ []) (r.stored key)
        ∙ ap (◌++◌ {A = ℤ} (prune c (prune (r.cut key) (history key))))
            (sym (prune_one c t (neg64_before t (window key) (positive key))))
        ∙ ap (λ l. l ++ prune c (t ∷ [])) (prune-prune (r.cut key) c (history key) (r.past key))
        ∙ sym (prune-append c (history key) (t ∷ []))

    new_cut : Text → Memory → (Text → ℤ) → Text → ℤ
    new_cut key m cut k = if text_eq key k then cutoff_at m.ticks k else cut k

    new_cut_past :
        (key k : Text) (m : Memory) (cut : Text → ℤ)
        → cut k ≤ℤ cutoff_at m.ticks k
        → new_cut key m cut k ≤ℤ cutoff_at (suc m.ticks) k
    unfolding new_cut
    new_cut_past key k m cut h = elim (Bool-cases (text_eq key k)) [
      | inl same ↦ rw same (cutoff_grows m.ticks k)
      | inr other ↦ rw other (≤ℤ_trans (cut k) _ _ h (cutoff_grows m.ticks k))
    ]

    new_list : Text → Memory → List ℤ
    new_list key m = prune (cutoff_at m.ticks key) (timestamps_of key m) ++ clock m.ticks ∷ []

    stored_other :
        (key k : Text) (history : Text → List ℤ) (m : Memory) (r : IsRecent history m)
        → text_eq key k ≡ false
        → timestamps_of k
            (record { requests = insert key (new_list key m) m.requests; ticks = suc m.ticks })
          ≡ prune (new_cut key m r.cut k) (with_request key (clock m.ticks) history k)
    unfolding new_cut
    stored_other key k history m r other =
        timestamps-insert key k (new_list key m) m.requests (suc m.ticks)
        ∙ rw other (timestamps-ticks k m (suc m.ticks) ∙ r.stored k)

    stored_self :
        (key k : Text) (history : Text → List ℤ) (m : Memory) (r : IsRecent history m)
        → text_eq key k ≡ true
        → timestamps_of k
            (record { requests = insert key (new_list key m) m.requests; ticks = suc m.ticks })
          ≡ prune (new_cut key m r.cut k) (with_request key (clock m.ticks) history k)
    unfolding new_cut new_list
    stored_self key k history m r same =
        let here = (text_eq_iff key k).0 same in
        timestamps-insert key k (new_list key m) m.requests (suc m.ticks)
        ∙ rw same (
            kept key history m r
            ∙ ap (λ j. prune (cutoff_at m.ticks j) (history j ++ clock m.ticks ∷ [])) here)

    -- On a store that holds the recent part of a history, with a clock that does not run back and a
    -- positive window for each key, `Record` returns the number of all requests of the key, this
    -- one included, that lie in the window, and the store then holds the recent part of the longer
    -- history.
    pub record-IsRecent :
        (key : Text) (history : Text → List ℤ) (m : Memory)
        → IsRecent history m
        → ((record_request clock key (window key) m).0
            ≡ ok (
                pos (
                  length (
                    prune (cutoff_at m.ticks key) (with_request key (clock m.ticks) history key)))))
          × IsRecent
              (with_request key (clock m.ticks) history)
              (record_request clock key (window key) m).1
    unfolding record_request new_list
    record-IsRecent key history m r =
        let c = cutoff_at m.ticks key in
        (
          ap (λ l. ok (pos (length l)))
              (kept key history m r
                ∙ ap (prune c) (sym (with_request_self key (clock m.ticks) history))),
          record {
            cut = new_cut key m r.cut;
            stored = λ k. elim (Bool-cases (text_eq key k)) [
              | inl same ↦ stored_self key k history m r same
              | inr other ↦ stored_other key k history m r other
            ];
            past = λ k. new_cut_past key k m r.cut (r.past k);
          },
        )

  pub new-IsRecent : IsRecent (λ k. []) new_memory
  unfolding new_memory timestamps_of lookup prune
  new-IsRecent = record { cut = λ k. cutoff_at 0 k; stored = λ k. refl; past = λ k. omega arith }

  -- The requests of a run: for each key all its times, oldest first.
  unfoldable pub history_of : List Text → ℕ → (Text → List ℤ) → Text → List ℤ
  history_of [] n history = history
  history_of (key ∷ keys) n history = history_of keys (suc n) (with_request key (clock n) history)

  unfoldable pub record_all : List Text → Memory → Memory
  record_all [] m = m
  record_all (key ∷ keys) m = record_all keys (record_request clock key (window key) m).1

  record_request-ticks :
      (key : Text) (m : Memory) → (record_request clock key (window key) m).1.ticks ≡ suc m.ticks
  unfolding record_request
  record_request-ticks key m = refl

  module _ (steps : (n : ℕ) → clock n ≤ℤ clock (suc n))
      (positive : (k : Text) → pos 0 <ℤ window k) where
    pub record_all-IsRecent :
        (keys : List Text) (history : Text → List ℤ) (m : Memory)
        → IsRecent history m
        → IsRecent (history_of keys m.ticks history) (record_all keys m)
    unfolding history_of record_all
    record_all-IsRecent [] history m r = r
    record_all-IsRecent (key ∷ keys) history m r =
        let next = (record-IsRecent steps positive key history m r).1 in
        subst
          (λ n.
            IsRecent (history_of keys n (with_request key (clock m.ticks) history))
              (record_all keys (record_request clock key (window key) m).1))
          (record_request-ticks key m) (record_all-IsRecent keys _ _ next)

    -- After any calls of `Record` on a new store, with a clock that does not run back and a positive
    -- window for each key, the count of a request of a key is the number of requests of the key,
    -- itself included, whose time plus the window is later than its own time.
    pub record-window :
        (keys : List Text) (key : Text)
        → let m = record_all keys new_memory in
          let history = history_of keys 0 (λ k. []) in
          (record_request clock key (window key) m).0
          ≡ ok (pos (within (clock m.ticks) (window key) (history key ++ clock m.ticks ∷ [])))
    unfolding new_memory
    record-window keys key =
        let m = record_all keys new_memory in
        let history = history_of keys 0 (λ k. []) in
        let r = record_all-IsRecent keys (λ k. []) new_memory new-IsRecent in
        (record-IsRecent steps positive key history m r).0
        ∙ ap (λ l. ok (pos (length (prune (cutoff_at m.ticks key) l))))
            (with_request_self key (clock m.ticks) history)
        ∙ ap (λ n. ok (pos n))
            (prune-within (clock m.ticks) (window key) (history key ++ clock m.ticks ∷ [])
              (positive key))
