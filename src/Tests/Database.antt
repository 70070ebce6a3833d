-- ===== src/Tests/Database.antt =====
-- A table as a list of rows, and a Redis server as its hashes: what internal/store asks of both.
use web_demo_go.Prelude.{
  Bool-cases, ap, ◌≡◌, ◌≢◌, refl, inl, inr, Bool, true, false, Option, none, some, List, [], ◌∷◌,
  Text, text_eq, text_eq_iff, Text_eq, lookup, ℤ, pos, not_found, ok, if◌then◌else◌, arith,
}
use web_demo_go.Store.Postgres.{Row, Queried, one_row, no_rows, query_failed, Pool}
use web_demo_go.Store.Postgres.Table.{
  IsTable, Selects, selects_row, selects_none, stored, with_stored,
}
use web_demo_go.Store.Redis.{Command, Client}
use web_demo_go.Store.Redis.Server.{Hashes, run_command, Runs, runs_all, runs_done, IsServer}

unfoldable pub find : List Row → Text → Option Row
find [] code = none
find (r ∷ rows) code = if text_eq r.code code then some r else find rows code

-- Nothing of a time is kept.
abbrev pub no_time : ℤ → ℤ
no_time t = pos 0

unfoldable has_hash : Text → Row → Bool
has_hash hash r = elim r.url_hash [ none ↦ false | some h ↦ text_eq h hash ]

unfoldable pub scan_hash : Text → List Row → Queried
unfolding has_hash
scan_hash hash [] = no_rows
scan_hash hash (r ∷ rows) = if has_hash hash r then one_row r else scan_hash hash rows

unfoldable pub queried : Option Row → Queried
queried none = no_rows
queried (some r) = one_row r

unfoldable pub insert_new : Option Row → Row → List Row → List Row
insert_new none r rows = stored no_time r ∷ rows
insert_new (some old) r rows = rows

abbrev pub table : Pool (List Row)
table = record {
  insert_row = λ r rows. (none, insert_new (find rows r.code) r rows);
  select_code = λ code rows. (queried (find rows code), rows);
  select_hash = λ hash rows. (scan_hash hash rows, rows);
}

-- No code stands twice.
abbrev pub IsKeyed : List Row → Type 0
IsKeyed [] = Unit
IsKeyed (r ∷ rows) = (find rows r.code ≡ none) × IsKeyed rows

find_code_eq : (rows : List Row) (c : Text) (r : Row) → find rows c ≡ some r → r.code ≡ c
unfolding find
find_code_eq [] c r h = absurd (ground arith)
find_code_eq (q ∷ rows) c r h = ground (arith, find_code_eq rows c r, text_eq_iff q.code c)

insert-IsKeyed :
    (old : Option Row) (r : Row) (rows : List Row)
    → find rows r.code ≡ old
    → IsKeyed rows
    → IsKeyed (insert_new old r rows)
unfolding insert_new
insert-IsKeyed none r rows h d = (h, d)
insert-IsKeyed (some old) r rows h d = d

selects : (row : Option Row) → Selects row (queried row)
unfolding queried
selects none = selects_none
selects (some r) = selects_row r

hash_same :
    (o : Option Text) (h : Text)
    → elim o [ none ↦ false | some k ↦ text_eq k h ] ≡ true
    → o ≡ some h
hash_same none h e = absurd (ground arith)
hash_same (some k) h e = ap some ((text_eq_iff k h).0 e)

hash_self :
    (o : Option Text) (h : Text)
    → o ≡ some h
    → elim o [ none ↦ false | some k ↦ text_eq k h ] ≡ true
hash_self none h e = absurd (ground arith)
hash_self (some k) h e = ground (arith, text_eq_iff k h)

has_hash_self : (q : Row) (h : Text) → q.url_hash ≡ some h → has_hash h q ≡ true
unfolding has_hash
has_hash_self q h e = hash_self q.url_hash h e

has_hash-some : (q : Row) (h : Text) → has_hash h q ≡ true → q.url_hash ≡ some h
unfolding has_hash
has_hash-some q h e = hash_same q.url_hash h e

found_hash :
    (h : Text) (rows : List Row) (r : Row)
    → IsKeyed rows
    → scan_hash h rows ≡ one_row r
    → (find rows r.code ≡ some r) × (r.url_hash ≡ some h)
unfolding find scan_hash has_hash
found_hash h [] r d e = absurd (ground arith)
found_hash h (q ∷ rows) r (fresh, d) e = ground (
  arith,
  found_hash h rows r d,
  text_eq_iff q.code r.code,
  text_eq_iff q.code q.code,
  has_hash-some q h,
)

missed_hash :
    (h : Text) (rows : List Row)
    → scan_hash h rows ≡ no_rows
    → (c : Text) (r : Row) → find rows c ≡ some r
    → r.url_hash ≢ some h
unfolding find scan_hash
missed_hash h [] e c r row = absurd (ground arith)
missed_hash h (q ∷ rows) e c r row = λ same. elim (Bool-cases (has_hash h q)) [
  | inl hit ↦ absurd (ground arith)
  | inr miss ↦ elim (Bool-cases (text_eq q.code c)) [
    | inl here ↦ ground (arith, has_hash_self r h same)
    | inr there ↦ missed_hash h rows (ground arith) c r (ground arith) same
  ]
]

hash_never_fails : (h : Text) (rows : List Row) → scan_hash h rows ≢ query_failed not_found
unfolding scan_hash has_hash
hash_never_fails h [] e = absurd (ground arith)
hash_never_fails h (q ∷ rows) e = ground (arith, hash_never_fails h rows)

inserted :
    (r : Row) (rows : List Row) (c : Text)
    → find rows r.code ≡ none
    → find (insert_new (find rows r.code) r rows) c ≡ with_stored no_time r (find rows) c
unfolding insert_new find
inserted r rows c new = ground arith

-- A list of rows with one for each code does what the store asks of its table.
pub rows_table : IsTable table no_time IsKeyed find
rows_table = record {
  primary_key = λ d keyed c r h. find_code_eq d c r h;
  insert_sound = λ r d keyed. insert-IsKeyed (find d r.code) r d refl keyed;
  insert_ok = λ r d keyed new done c. inserted r d c new;
  insert_failed = λ r d keyed new e failed. absurd (cc);
  insert_error = λ r d. cc;
  code_sound = λ c d keyed. keyed;
  code_keeps = λ c d keyed k. refl;
  code_selects = λ c d keyed. selects (find d c);
  hash_sound = λ h d keyed. keyed;
  hash_keeps = λ h d keyed k. refl;
  hash_row = λ h d keyed r e. found_hash h d r keyed e;
  hash_none = λ h d keyed e. missed_hash h d e;
  hash_error = hash_never_fails;
}

unfoldable pub run_all : List Command → Hashes → Hashes
run_all [] hashes = hashes
run_all (command ∷ commands) hashes = run_all commands (run_command command hashes)

abbrev pub server : Client Hashes
server = record {
  hget = λ key name hashes. (ok (lookup name (hashes key)), hashes);
  hget_all = λ key hashes. (ok (hashes key), hashes);
  exec = λ commands hashes. (none, run_all commands hashes);
}

pub runs :
    (commands : List Command) (hashes : Hashes) → Runs commands hashes (run_all commands hashes)
unfolding run_all
runs [] hashes = runs_all hashes
runs (command ∷ commands) hashes =
    runs_done command commands hashes _ (runs commands (run_command command hashes))

abbrev pub whole_server : IsServer server (λ hashes. hashes)
whole_server = record {
  exec_runs = runs;
  all_fades = λ k r j. inl refl;
  all_reads = λ k r fields e. ground arith;
  field_fades = λ k name r j. inl refl;
  field_reads = λ k name r value e. ground arith;
}
