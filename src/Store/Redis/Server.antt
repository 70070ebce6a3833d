-- ===== src/Store/Redis/Server.antt =====
-- The Redis server behind internal/store/redis.go and redis_cache.go: what the commands do to its
-- hashes.
use web_demo_go.Prelude.{
  ◌≡◌, ◌⊎◌, Option, List, [], ◌∷◌, Text, Text_eq, text_eq, Map, lookup, insert, ok, if◌then◌else◌,
}
use web_demo_go.Store.Redis.{Command, hset, expire, Client}

-- The fields of each key; a key without fields does not exist.
abbrev pub Hashes : Type 0
Hashes = Text → Map Text Text

unfoldable pub set_fields : Map Text Text → Map Text Text → Map Text Text
set_fields [] fields = fields
set_fields ((name, value) ∷ rest) fields = set_fields rest (insert name value fields)

-- One command. The end of a key comes later, as the fading below.
unfoldable pub run_command : Command → Hashes → Hashes
unfolding set_fields
run_command (hset key fields) hashes k =
    if text_eq key k then set_fields fields (hashes k) else hashes k
run_command (expire key ttl) hashes k = hashes k

-- A key expires or is evicted with all its fields.
abbrev pub Fades : Hashes → Hashes → Type 0
Fades hashes hashes' = (k : Text) → (hashes' k ≡ hashes k) ⊎ (hashes' k ≡ [])

-- A pipeline is no transaction: commands run in order, and any of them may be lost. Keys may fade
-- at any time.
pub data Runs : List Command → Hashes → Hashes → Type 0 where
  runs_all : (hashes : Hashes) → Runs [] hashes hashes
  runs_fade :
      (commands : List Command) (hashes faded hashes' : Hashes)
      → Fades hashes faded
      → Runs commands faded hashes'
      → Runs commands hashes hashes'
  runs_lost :
      (command : Command) (commands : List Command) (hashes hashes' : Hashes)
      → Runs commands hashes hashes'
      → Runs (command ∷ commands) hashes hashes'
  runs_done :
      (command : Command) (commands : List Command) (hashes hashes' : Hashes)
      → Runs commands (run_command command hashes) hashes'
      → Runs (command ∷ commands) hashes hashes'

-- Any call may fail; a read that succeeds gives what the server then holds.
pub record IsServer {R : Type 0} (client : Client R) (hashes : R → Hashes) : Type 0 where
  pub exec_runs :
      (commands : List Command) (r : R)
      → Runs commands (hashes r) (hashes (client.exec commands r).1)
  pub all_fades : (k : Text) (r : R) → Fades (hashes r) (hashes (client.hget_all k r).1)
  pub all_reads :
      (k : Text) (r : R) (fields : Map Text Text)
      → (client.hget_all k r).0 ≡ ok fields
      → fields ≡ hashes (client.hget_all k r).1 k
  pub field_fades : (k name : Text) (r : R) → Fades (hashes r) (hashes (client.hget k name r).1)
  pub field_reads :
      (k name : Text) (r : R) (value : Option Text)
      → (client.hget k name r).0 ≡ ok value
      → value ≡ lookup name (hashes (client.hget k name r).1 k)
