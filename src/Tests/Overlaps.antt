-- ===== src/Tests/Overlaps.antt =====
-- A `Save` that overtakes a `GetByCode` of internal/store/cached.go, over the in-memory store.
use web_demo_go.Prelude.{◌≡◌, refl, [], ℕ, zero, suc, Text_eq, text, lookup, pos, arith}
use web_demo_go.Lru
use web_demo_go.Lru.Refines.{new-Represents}
use web_demo_go.Shortener.{ShortUrl}
use web_demo_go.Store.Memory.{MemoryStore, new_memory_store, memory_repository}
use web_demo_go.Store.Memory.Laws.{urls_of, new-IsIndexed, memory-IsStore}
use web_demo_go.Store.Cached.Overlap.{
  Call, saving, getting, asking, Overlapping, step_get, step_save, move, gets, saves, here, next,
}
use web_demo_go.Store.Cached.Overlap.Sound.{CallSound, Safe}
use web_demo_go.Store.Cached.Overlap.Safe.{Reach-Safe}

abbrev entity : ShortUrl
entity = record { code = text "c"; original_url = text "u"; url_hash = []; created_at = pos 1 }

abbrev calls : ℕ → Call
calls zero = saving entity
calls (suc n) = getting (text "c")

abbrev started : Overlapping MemoryStore
started = record {
  state = record { store = new_memory_store; cache = Lru.new [] entity (pos 2) };
  calls = calls;
}

one_saves : (m n : ℕ) (u v : ShortUrl) → calls m ≡ saving u → calls n ≡ saving v → m ≡ n
one_saves zero zero u v h k = refl
one_saves zero (suc n) u v h k = absurd (ground arith)
one_saves (suc m) n u v h k = absurd (ground arith)

sound : (n : ℕ) → CallSound memory-IsStore (urls_of new_memory_store) (calls n)
unfolding lookup new_memory_store
sound zero = refl
sound (suc n) = tt

started-Safe : Safe memory-IsStore started
unfolding lookup new_memory_store
started-Safe = record {
  valid = new-IsIndexed;
  coherent = record {
    list = [];
    shown = new-Represents [] entity (pos 2);
    agree = λ k u h. absurd (ground arith);
  };
  sound = sound;
  apart = λ m n u v h k same. one_saves m n u v h k;
}

abbrev missed : Overlapping MemoryStore
missed = move memory_repository 1 (step_get memory_repository (text "c") started.state) started

abbrev overtaken : Overlapping MemoryStore
overtaken = move memory_repository 0 (step_save memory_repository entity missed.state) missed

Reach-Safe_example : Safe memory-IsStore overtaken
Reach-Safe_example =
    Reach-Safe memory-IsStore started overtaken started-Safe
      (next (next here (gets 1 (text "c") refl)) (saves 0 entity refl))

-- The call that was overtaken goes on to ask the store.
goes_on : overtaken.calls 1 ≡ asking (text "c")
unfolding step_get Lru.get lookup Lru.new
goes_on = refl
