-- ===== src/Tests/Racing.antt =====
-- Two requests for one page at the same time, over the in-memory store.
use web_demo_go.Prelude.{
  ◌≡◌, ◌≢◌, refl, ap, some, [], ◌∷◌, ℕ, pos, pos_part, Text_eq, text, lookup, ok, err, not_found,
  print_int, print_int_injective,
}
use web_demo_go.Shortener.{ShortUrl, Sources}
use web_demo_go.Shortener.UrlHash.{UrlLib, normalize_url, normalize_parts, strip_slash, hash_url}
use web_demo_go.Shortener.Race.{
  waiting, finished, System, look_up, conclude, advance, Reach, here, next, looks,
}
use web_demo_go.Shortener.Race.Sound.{SystemSound}
use web_demo_go.Shortener.Race.Safe.{Reach-Sound}
use web_demo_go.Shortener.Race.Twice.{both_done, overtaking-twice}
use web_demo_go.Store.Memory.{MemoryStore, new_memory_store, memory_repository, save, get_by_hash}
use web_demo_go.Store.Memory.Laws.{urls_of, new-IsIndexed, memory-IsStore}

abbrev counting : Sources
counting = record { generate = λ n. print_int (pos n); now = λ n. pos n }

counting_injective : (m n : ℕ) → counting.generate m ≡ counting.generate n → m ≡ n
counting_injective m n e = ap pos_part (print_int_injective (pos m) (pos n) e)

-- The path is the whole text, and a hash is the text with a mark.
abbrev marks : UrlLib (Unit {0})
marks = record {
  parse = λ t. ok (record { scheme = []; host = []; path = t; fragment = []; other = tt });
  to_string = λ u. u.path;
  to_lower_wide = λ t. t;
  sha256_hex = λ t. b'#' ∷ t;
}

abbrev start : System MemoryStore
start = record {
  world = record { store = new_memory_store; generated = 0; ticks = 0 };
  requests = λ j. waiting (text "ab");
}

start_sound : SystemSound memory-IsStore marks counting counting_injective start
unfolding lookup new_memory_store
start_sound = record {
  world = record { valid = new-IsIndexed; fresh = λ n later. refl };
  requests = λ j. tt;
}

abbrev first_looked : System MemoryStore
first_looked =
    advance marks counting memory_repository 0
      (look_up marks counting memory_repository (text "ab") start.world) start

Reach-Sound_example : SystemSound memory-IsStore marks counting counting_injective first_looked
Reach-Sound_example =
    Reach-Sound memory-IsStore marks counting counting_injective start first_looked start_sound
      (next here (looks 0 (text "ab") refl))

normal : normalize_url marks (text "ab") ≡ ok (text "ab")
unfolding normalize_url normalize_parts strip_slash
normal = refl

missed :
    (memory_repository.get_by_hash (hash_url marks (text "ab")) start.world.store).0 ≡ err not_found
unfolding get_by_hash lookup new_memory_store
missed = refl

missed_again :
    (memory_repository.get_by_hash (hash_url marks (text "ab")) first_looked.world.store).0
    ≡ err not_found
unfolding get_by_hash lookup new_memory_store look_up normalize_url
missed_again = refl

abbrev made : ℕ → ShortUrl
made n = record {
  code = print_int (pos n);
  original_url = text "ab";
  url_hash = hash_url marks (text "ab");
  created_at = pos n;
}

abbrev done : System MemoryStore
done =
    both_done memory-IsStore marks counting counting_injective (text "ab") (text "ab") (text "ab")
      start

done_first : done.requests 0 ≡ finished (text "ab") (ok (made 0))
unfolding look_up conclude save normalize_url
done_first = refl

done_second : done.requests 1 ≡ finished (text "ab") (ok (made 1))
unfolding look_up conclude save normalize_url
done_second = refl

overtaking-twice_example :
    Reach marks counting memory_repository start done
    × ((made 0).code ≢ (made 1).code)
    × (urls_of done.world.store (made 0).code ≡ some (made 0))
    × (urls_of done.world.store (made 1).code ≡ some (made 1))
    × ((made 0).url_hash ≡ (made 1).url_hash)
overtaking-twice_example =
    overtaking-twice memory-IsStore marks counting counting_injective (text "ab") (text "ab")
      (text "ab") start normal normal missed missed_again refl refl (made 0) (made 1) start_sound
      done_first done_second
