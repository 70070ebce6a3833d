-- ===== src/Store/Redis.antt =====
-- internal/store/redis.go. The client and the Redis server behind it are a parameter. A time is
-- stored as its nanoseconds, which the driver prints in decimal.
pub mod Cache
pub mod Laws
pub mod Server
pub mod Fields
pub mod Holds
pub mod Reads
pub mod Ends
pub mod Refines
use web_demo_go.Prelude.{
  Option, none, some, List, [], ◌∷◌, ◌++◌, not, Text, text, text_eq, Text_eq, Map, lookup, ℤ, pos,
  negsuc, Error, not_found, Result, ok, err, if◌then◌else◌, print_int, parse_int, ltb_ℤ, nat_eq,
  length, ℕ,
}
use web_demo_go.Shortener.{ShortUrl, Repository}

-- The commands of a pipeline.
pub data Command : Type 0 where
  -- HSET of a key and its fields
  hset : Text → Map Text Text → Command
  -- EXPIRE of a key, after a time
  expire : Text → ℤ → Command

-- `redis.Client`, over the state `R` of the server.
pub record Client (R : Type 0) : Type 0 where
  -- `HGet` of a key and a field; `ok none` is `redis.Nil`
  pub hget : Text → Text → R → Result (Option Text) × R
  -- `HGetAll`
  pub hget_all : Text → R → Result (Map Text Text) × R
  -- `Exec` of a pipeline
  pub exec : List Command → R → Option Error × R

abbrev pub url_prefix : Text
url_prefix = text "url:"

abbrev pub hash_key : Text
hash_key = text "url_hashes"

-- The fields of an entity.
unfoldable pub entity_fields : ShortUrl → Map Text Text
unfolding print_int
entity_fields u =
    (text "code", u.code)
    ∷ (text "original_url", u.original_url)
    ∷ (text "url_hash", u.url_hash)
    ∷ (text "created_at", print_int u.created_at)
    ∷ []

-- `result[name]`, "" where the hash has no such field.
unfoldable pub field : Text → Map Text Text → Text
field name fields = elim (lookup name fields) [ none ↦ [] | some t ↦ t ]

-- `time.Time{}`, the first instant of the year 1, in nanoseconds.
abbrev pub zero_time : ℤ
zero_time = negsuc 62_135_596_799_999_999_999

-- The field `created_at`, or the zero time where it is missing or no 64-bit number.
unfoldable pub created_time : Map Text Text → ℤ
unfolding parse_int
created_time fields = elim (lookup (text "created_at") fields) [
  | none ↦ zero_time
  | some ts ↦ elim (parse_int ts) [ none ↦ zero_time | some nanos ↦ nanos ]
]

unfoldable pub read_entity : Map Text Text → ShortUrl
unfolding field created_time
read_entity fields = record {
  code = field (text "code") fields;
  original_url = field (text "original_url") fields;
  url_hash = field (text "url_hash") fields;
  created_at = created_time fields;
}

-- What follows `HGetAll`.
unfoldable pub finish_entity : Result (Map Text Text) → Result ShortUrl
unfolding read_entity
finish_entity (err e) = err e
finish_entity (ok []) = err not_found
finish_entity (ok (first ∷ fields)) = ok (read_entity (first ∷ fields))

-- The command that indexes the hash, if there is one.
unfoldable pub index_command : ShortUrl → List Command
index_command u =
    if not (text_eq u.url_hash []) then hset hash_key ((u.url_hash, u.code) ∷ []) ∷ [] else []

unfoldable pub save_commands : ShortUrl → List Command
unfolding entity_fields index_command
save_commands u = hset (url_prefix ++ u.code) (entity_fields u) ∷ index_command u

module _ {R : Type 0} (client : Client R) where
  unfoldable pub save_entity : ShortUrl → R → Option Error × R
  unfolding save_commands
  save_entity u r = client.exec (save_commands u) r

  unfoldable pub read_code : Text → R → Result ShortUrl × R
  unfolding finish_entity
  read_code code r =
      let (out, r') = client.hget_all (url_prefix ++ code) r in (finish_entity out, r')

  unfoldable pub read_hash : Text → R → Result ShortUrl × R
  unfolding read_code
  read_hash hash r =
      let (out, r') = client.hget hash_key hash r in
      elim out [
        | err e ↦ (err e, r')
        | ok none ↦ (err not_found, r')
        | ok (some code) ↦ read_code code r'
      ]

  abbrev pub redis_repository : Repository R
  redis_repository = record { save = save_entity; get_by_code = read_code; get_by_hash = read_hash }
