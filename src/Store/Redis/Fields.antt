-- ===== src/Store/Redis/Fields.antt =====
-- The fields that the commands of internal/store/redis.go and redis_cache.go leave in a hash.

use web_demo_go.Prelude.{
  ℤ, ◌≡◌, ◌≢◌, refl, Option, none, some, [], ◌∷◌, Text, text, Text_eq, text_eq, text_eq_iff, Map,
  lookup, insert, lookup-insert, IsDistinct, arith,
}
use web_demo_go.Shortener.{ShortUrl}
use web_demo_go.Store.Redis.{hset, expire, entity_fields, field, created_time, read_entity}
use web_demo_go.Store.Redis.Server.{Hashes, run_command, set_fields}

-- The value set last, or the old one.
abbrev or_else : Option Text → Option Text → Option Text
or_else none old = old
or_else (some value) old = some value

lookup-set_fields :
    (name : Text) (new fields : Map Text Text)
    → IsDistinct new
    → lookup name (set_fields new fields) ≡ or_else (lookup name new) (lookup name fields)
unfolding set_fields lookup
lookup-set_fields name [] fields d = refl
lookup-set_fields name ((key, value) ∷ new) fields (fresh, d) =
    let rest = lookup-set_fields name new (insert key value fields) d in
    ground (arith, rest, lookup-insert key name value fields, text_eq_iff key name)

entity_fields-IsDistinct : (u : ShortUrl) → IsDistinct (entity_fields u)
unfolding entity_fields lookup text_eq
entity_fields-IsDistinct u = (refl, (refl, (refl, (refl, tt))))

abbrev Same : Text → Map Text Text → Map Text Text → Type 0
Same name fields fields' = lookup name fields ≡ lookup name fields'

read_entity-Same :
    (fields fields' : Map Text Text)
    → Same (text "code") fields fields'
    → Same (text "original_url") fields fields'
    → Same (text "url_hash") fields fields'
    → Same (text "created_at") fields fields'
    → read_entity fields ≡ read_entity fields'
unfolding read_entity field created_time
read_entity-Same fields fields' code url hash time = ground (arith, code, url, hash, time)

-- The fields that an `HSET` of an entity leaves give what its own fields give.
pub read-set_fields :
    (u : ShortUrl) (fields : Map Text Text)
    → read_entity (set_fields (entity_fields u) fields) ≡ read_entity (entity_fields u)
unfolding entity_fields lookup text_eq
read-set_fields u fields =
    let at = λ (name : Text).
      lookup-set_fields name (entity_fields u) fields (entity_fields-IsDistinct u) in
    read_entity-Same (set_fields (entity_fields u) fields) (entity_fields u) (at (text "code"))
      (at (text "original_url")) (at (text "url_hash")) (at (text "created_at"))

pub hset_same :
    (key : Text) (fields : Map Text Text) (hashes : Hashes)
    → run_command (hset key fields) hashes key ≡ set_fields fields (hashes key)
unfolding run_command
hset_same key fields hashes = ground (arith, text_eq_iff key key)

pub hset_other :
    (key other : Text) (fields : Map Text Text) (hashes : Hashes)
    → key ≢ other
    → run_command (hset key fields) hashes other ≡ hashes other
unfolding run_command
hset_other key other fields hashes apart = ground (arith, text_eq_iff key other)

pub run_expire :
    (key : Text) (ttl : ℤ) (hashes : Hashes) (k : Text)
    → run_command (expire key ttl) hashes k ≡ hashes k
unfolding run_command
run_expire key ttl hashes k = refl
