-- ===== src/Store/Redis/Holds.antt =====
-- What the hashes in Redis hold for internal/store/redis_cache.go, against the rows of the store
-- behind it.

use mathlib.Core.Path.{subst}
use web_demo_go.Prelude.{
  Bool-cases, inl, inr, sym, ap, ◌∙◌, List, ℤ, ◌≡◌, ◌≢◌, some, [], ◌∷◌, ◌++◌, Text, Text_eq,
  text_eq, text_eq_iff, lookup, lookup-insert, arith,
}
use web_demo_go.Shortener.{ShortUrl}
use web_demo_go.Store.Contract.{Rows, Grows}
use web_demo_go.Store.Redis.{
  Command, hset, expire, url_prefix, hash_key, entity_fields, read_entity,
}
use web_demo_go.Store.Redis.Fields.{read-set_fields, hset_same, hset_other, run_expire}
use web_demo_go.Store.Redis.Server.{
  Hashes, run_command, Fades, Runs, runs_all, runs_fade, runs_lost, runs_done, set_fields,
}

prefix_injective : (c d : Text) → url_prefix ++ c ≡ url_prefix ++ d → c ≡ d
prefix_injective c d e = ground arith

not_hash_key : (c : Text) → url_prefix ++ c ≢ hash_key
not_hash_key c e = ground arith

module _ (keep : ShortUrl → ShortUrl) where
  -- What the cache holds, if anything, is a row: the fields under a code, and the code of a hash.
  pub record Holds (rows : Rows) (hashes : Hashes) : Type 0 where
    pub entities :
        (c : Text)
        → hashes (url_prefix ++ c) ≢ []
        → rows c ≡ some (keep (read_entity (hashes (url_prefix ++ c))))
    pub index :
        (h c : Text)
        → lookup h (hashes hash_key) ≡ some c
        → (v : ShortUrl) × (rows c ≡ some v) × (v.url_hash ≡ h)

  pub Holds-Grows :
      (rows rows' : Rows) (hashes : Hashes)
      → Grows rows rows'
      → Holds rows hashes
      → Holds rows' hashes
  Holds-Grows rows rows' hashes grow k = record {
    entities = λ c some_fields. grow c _ (k.entities c some_fields);
    index = λ h c e. let (v, row, tagged) = k.index h c e in (v, grow c v row, tagged);
  }

  module _ (rows : Rows) where
    entity_kept :
        (hashes hashes' : Hashes) (c : Text)
        → Holds rows hashes
        → hashes' (url_prefix ++ c) ≡ hashes (url_prefix ++ c)
        → hashes' (url_prefix ++ c) ≢ []
        → rows c ≡ some (keep (read_entity (hashes' (url_prefix ++ c))))
    entity_kept hashes hashes' c k same some_fields =
        k.entities c (λ e. some_fields (same ∙ e))
        ∙ ap (λ fields. some (keep (read_entity fields))) (sym same)

    index_kept :
        (hashes hashes' : Hashes) (h c : Text)
        → Holds rows hashes
        → hashes' hash_key ≡ hashes hash_key
        → lookup h (hashes' hash_key) ≡ some c
        → (v : ShortUrl) × (rows c ≡ some v) × (v.url_hash ≡ h)
    index_kept hashes hashes' h c k same e = k.index h c (ap (lookup h) (sym same) ∙ e)

    pub Holds-Fades :
        (hashes faded : Hashes) → Fades hashes faded → Holds rows hashes → Holds rows faded
    unfolding lookup
    Holds-Fades hashes faded fades k = record {
      entities = λ c some_fields. elim (fades (url_prefix ++ c)) [
        | inr gone ↦ absurd (some_fields gone)
        | inl same ↦ entity_kept hashes faded c k same some_fields
      ];
      index = λ h c e. elim (fades hash_key) [
        | inr gone ↦ absurd (ground arith)
        | inl same ↦ index_kept hashes faded h c k same e
      ];
    }

    -- A command that puts a row into the cache.
    pub data Sound : Command → Type 0 where
      sound_entity :
          (u : ShortUrl)
          → rows u.code ≡ some (keep (read_entity (entity_fields u)))
          → Sound (hset (url_prefix ++ u.code) (entity_fields u))
      sound_index :
          (h : Text) (v : ShortUrl) (c : Text)
          → rows c ≡ some v
          → v.url_hash ≡ h
          → Sound (hset hash_key ((h, c) ∷ []))
      sound_expire : (key : Text) (ttl : ℤ) → Sound (expire key ttl)

    abbrev pub AllSound : List Command → Type 0
    AllSound [] = Unit
    AllSound (command ∷ commands) = Sound command × AllSound commands

    entity_set :
        (u : ShortUrl) (hashes : Hashes) (c : Text)
        → rows u.code ≡ some (keep (read_entity (entity_fields u)))
        → u.code ≡ c
        → rows c
          ≡ some (
              keep (
                read_entity (
                  run_command
                    (hset (url_prefix ++ u.code) (entity_fields u))
                    hashes
                    (url_prefix ++ c))))
    entity_set u hashes c row same =
        subst
          (λ d.
            rows d
            ≡ some (
                keep (
                  read_entity (
                    run_command (hset (url_prefix ++ u.code) (entity_fields u)) hashes
                      (url_prefix ++ d)))))
          same
          (row
            ∙ ap (λ v. some (keep v))
                (sym (
                  ap read_entity (hset_same (url_prefix ++ u.code) (entity_fields u) hashes)
                  ∙ read-set_fields u (hashes (url_prefix ++ u.code)))))

    index_set :
        (h c : Text) (v : ShortUrl) (hashes : Hashes) (g d : Text)
        → rows c ≡ some v
        → v.url_hash ≡ h
        → Holds rows hashes
        → lookup g (run_command (hset hash_key ((h, c) ∷ [])) hashes hash_key) ≡ some d
        → (w : ShortUrl) × (rows d ≡ some w) × (w.url_hash ≡ g)
    unfolding set_fields
    index_set h c v hashes g d row tagged k e =
        let at =
          sym (
            ap (lookup g) (hset_same hash_key ((h, c) ∷ []) hashes)
            ∙ lookup-insert h g c (hashes hash_key))
          ∙ e in
        elim (Bool-cases (text_eq h g)) [
          | inr other ↦ k.index g d (ground arith)
          | inl same ↦ (v, ground arith, ground (arith, text_eq_iff h g))
        ]

    run-Holds :
        (command : Command) (hashes : Hashes)
        → Sound command
        → Holds rows hashes
        → Holds rows (run_command command hashes)
    run-Holds _ hashes (sound_expire key ttl) k =
        Holds-Fades hashes _ (λ k. inl (run_expire key ttl hashes k)) k
    run-Holds _ hashes (sound_entity u row) k = record {
      entities = λ c some_fields. elim (Bool-cases (text_eq u.code c)) [
        | inl same ↦ entity_set u hashes c row (ground (arith, text_eq_iff u.code c))
        | inr other ↦
            let apart : url_prefix ++ u.code ≢ url_prefix ++ c =
              λ e. ground (arith, text_eq_iff u.code c, prefix_injective u.code c e) in
            entity_kept hashes (run_command (hset (url_prefix ++ u.code) (entity_fields u)) hashes)
              c k
              (hset_other (url_prefix ++ u.code) (url_prefix ++ c) (entity_fields u) hashes apart)
              some_fields
      ];
      index = λ h c e.
          index_kept hashes (run_command (hset (url_prefix ++ u.code) (entity_fields u)) hashes) h c
            k
            (hset_other (url_prefix ++ u.code) hash_key (entity_fields u) hashes
              (not_hash_key u.code))
            e;
    }
    run-Holds _ hashes (sound_index h v c row tagged) k = record {
      entities = λ d some_fields.
          entity_kept hashes (run_command (hset hash_key ((h, c) ∷ [])) hashes) d k
            (hset_other hash_key (url_prefix ++ d) ((h, c) ∷ []) hashes
              (λ e. not_hash_key d (sym e)))
            some_fields;
      index = λ g d e. index_set h c v hashes g d row tagged k e;
    }

    pub Runs-Holds :
        (commands : List Command) (hashes hashes' : Hashes)
        → AllSound commands
        → Holds rows hashes
        → Runs commands hashes hashes'
        → Holds rows hashes'
    Runs-Holds _ _ _ sound k (runs_all hashes) = k
    Runs-Holds _ _ _ sound k (runs_fade commands hashes faded hashes' fades rest) =
        Runs-Holds commands faded hashes' sound (Holds-Fades hashes faded fades k) rest
    Runs-Holds _ _ _ sound k (runs_lost command commands hashes hashes' rest) =
        Runs-Holds commands hashes hashes' sound.1 k rest
    Runs-Holds _ _ _ sound k (runs_done command commands hashes hashes' rest) =
        Runs-Holds commands _ hashes' sound.1 (run-Holds command hashes sound.0 k) rest
