-- ===== src/Store/Either.antt =====
-- A variable of the interface `shortener.Repository` that holds one of two implementations.
use web_demo_go.Prelude.{
  ◌≡◌, ◌≢◌, ◌⊎◌, inl, inr, Option, none, some, [], Text, Error, not_found, panic, Result, ok, err,
}
use web_demo_go.Shortener.{ShortUrl, Repository}
use web_demo_go.Store.Contract.{Rows, IsStore, Answers, with_row}

module _ {A B : Type 0} where
  abbrev pub first_of : {X : Type 0} → X × A → X × (A ⊎ B)
  first_of (x, a) = (x, inl a)

  abbrev pub second_of : {X : Type 0} → X × B → X × (A ⊎ B)
  second_of (x, b) = (x, inr b)

module _ {A B : Type 0} (repo_a : Repository A) (repo_b : Repository B) where
  -- A call goes to the implementation that the variable holds.
  unfoldable pub save_either : ShortUrl → A ⊎ B → Option Error × (A ⊎ B)
  save_either u (inl a) = first_of (repo_a.save u a)
  save_either u (inr b) = second_of (repo_b.save u b)

  unfoldable pub code_either : Text → A ⊎ B → Result ShortUrl × (A ⊎ B)
  code_either code (inl a) = first_of (repo_a.get_by_code code a)
  code_either code (inr b) = second_of (repo_b.get_by_code code b)

  unfoldable pub hash_either : Text → A ⊎ B → Result ShortUrl × (A ⊎ B)
  hash_either hash (inl a) = first_of (repo_a.get_by_hash hash a)
  hash_either hash (inr b) = second_of (repo_b.get_by_hash hash b)

  abbrev pub either_repository : Repository (A ⊎ B)
  either_repository = record {
    save = save_either;
    get_by_code = code_either;
    get_by_hash = hash_either;
  }

module _ {A B : Type 0} (ValidA : A → Type 0) (ValidB : B → Type 0) where
  abbrev pub EitherValid : A ⊎ B → Type 0
  EitherValid (inl a) = ValidA a
  EitherValid (inr b) = ValidB b

module _ {A B : Type 0} (rows_a : A → Rows) (rows_b : B → Rows) where
  abbrev pub either_rows : A ⊎ B → Rows
  either_rows (inl a) = rows_a a
  either_rows (inr b) = rows_b b

module _ {keep : ShortUrl → ShortUrl} {A B : Type 0} {repo_a : Repository A} {repo_b : Repository B}
    {ValidA : A → Type 0} {ValidB : B → Type 0} {rows_a : A → Rows} {rows_b : B → Rows}
    (i : IsStore keep repo_a ValidA rows_a) (j : IsStore keep repo_b ValidB rows_b) where
  either_row_code :
      (s : A ⊎ B)
      → EitherValid ValidA ValidB s
      → (c : Text) (u : ShortUrl) → either_rows rows_a rows_b s c ≡ some u
      → u.code ≡ c
  unfolding save_either code_either hash_either
  either_row_code (inl s) = i.row_code s
  either_row_code (inr s) = j.row_code s

  either_save_valid :
      (u : ShortUrl) (s : A ⊎ B)
      → EitherValid ValidA ValidB s
      → either_rows rows_a rows_b s u.code ≡ none
      → EitherValid ValidA ValidB ((either_repository repo_a repo_b).save u s).1
  unfolding save_either code_either hash_either
  either_save_valid u (inl s) = i.save_valid u s
  either_save_valid u (inr s) = j.save_valid u s

  either_save_ok :
      (u : ShortUrl) (s : A ⊎ B)
      → EitherValid ValidA ValidB s
      → either_rows rows_a rows_b s u.code ≡ none
      → ((either_repository repo_a repo_b).save u s).0 ≡ none
      → (c : Text)
      → either_rows rows_a rows_b ((either_repository repo_a repo_b).save u s).1 c
        ≡ with_row u.code (keep u) (either_rows rows_a rows_b s) c
  unfolding save_either code_either hash_either
  either_save_ok u (inl s) = i.save_ok u s
  either_save_ok u (inr s) = j.save_ok u s

  either_save_failed :
      (u : ShortUrl) (s : A ⊎ B)
      → EitherValid ValidA ValidB s
      → either_rows rows_a rows_b s u.code ≡ none
      → (e : Error) → ((either_repository repo_a repo_b).save u s).0 ≡ some e
      → ((c : Text)
          → either_rows rows_a rows_b ((either_repository repo_a repo_b).save u s).1 c
            ≡ either_rows rows_a rows_b s c)
        ⊎ ((c : Text)
            → either_rows rows_a rows_b ((either_repository repo_a repo_b).save u s).1 c
              ≡ with_row u.code (keep u) (either_rows rows_a rows_b s) c)
  unfolding save_either code_either hash_either
  either_save_failed u (inl s) = i.save_failed u s
  either_save_failed u (inr s) = j.save_failed u s

  either_save_returns :
      (u : ShortUrl) (s : A ⊎ B)
      → EitherValid ValidA ValidB s
      → either_rows rows_a rows_b s u.code ≡ none
      → ((either_repository repo_a repo_b).save u s).0 ≢ some panic
  unfolding save_either code_either hash_either
  either_save_returns u (inl s) = i.save_returns u s
  either_save_returns u (inr s) = j.save_returns u s

  either_get_valid :
      (c : Text) (s : A ⊎ B)
      → EitherValid ValidA ValidB s
      → EitherValid ValidA ValidB ((either_repository repo_a repo_b).get_by_code c s).1
  unfolding save_either code_either hash_either
  either_get_valid c (inl s) = i.get_valid c s
  either_get_valid c (inr s) = j.get_valid c s

  either_get-Answers :
      (c : Text) (s : A ⊎ B)
      → EitherValid ValidA ValidB s
      → Answers keep
          ((either_repository repo_a repo_b).get_by_code c s).0
          (either_rows rows_a rows_b s c)
  unfolding save_either code_either hash_either
  either_get-Answers c (inl s) = i.get_answers c s
  either_get-Answers c (inr s) = j.get_answers c s

  either_get_keeps :
      (c : Text) (s : A ⊎ B)
      → EitherValid ValidA ValidB s
      → (d : Text)
      → either_rows rows_a rows_b ((either_repository repo_a repo_b).get_by_code c s).1 d
        ≡ either_rows rows_a rows_b s d
  unfolding save_either code_either hash_either
  either_get_keeps c (inl s) = i.get_keeps c s
  either_get_keeps c (inr s) = j.get_keeps c s

  either_hash_valid :
      (h : Text) (s : A ⊎ B)
      → EitherValid ValidA ValidB s
      → EitherValid ValidA ValidB ((either_repository repo_a repo_b).get_by_hash h s).1
  unfolding save_either code_either hash_either
  either_hash_valid h (inl s) = i.hash_valid h s
  either_hash_valid h (inr s) = j.hash_valid h s

  either_hash_keeps :
      (h : Text) (s : A ⊎ B)
      → EitherValid ValidA ValidB s
      → (d : Text)
      → either_rows rows_a rows_b ((either_repository repo_a repo_b).get_by_hash h s).1 d
        ≡ either_rows rows_a rows_b s d
  unfolding save_either code_either hash_either
  either_hash_keeps h (inl s) = i.hash_keeps h s
  either_hash_keeps h (inr s) = j.hash_keeps h s

  either_hash_missing :
      (h : Text) (s : A ⊎ B)
      → EitherValid ValidA ValidB s
      → h ≢ []
      → ((either_repository repo_a repo_b).get_by_hash h s).0 ≡ err not_found
      → (c : Text) (u : ShortUrl) → either_rows rows_a rows_b s c ≡ some u
      → u.url_hash ≢ h
  unfolding save_either code_either hash_either
  either_hash_missing h (inl s) = i.hash_missing h s
  either_hash_missing h (inr s) = j.hash_missing h s

  either_hash_answers :
      (h : Text) (s : A ⊎ B)
      → EitherValid ValidA ValidB s
      → (u : ShortUrl) → ((either_repository repo_a repo_b).get_by_hash h s).0 ≡ ok u
      → (either_rows rows_a rows_b s u.code ≡ some (keep u)) × (u.url_hash ≡ h)
  unfolding save_either code_either hash_either
  either_hash_answers h (inl s) = i.hash_answers h s
  either_hash_answers h (inr s) = j.hash_answers h s

  -- Where both implementations meet the contract, so does the variable.
  pub either-IsStore :
      IsStore keep
        (either_repository repo_a repo_b)
        (EitherValid ValidA ValidB)
        (either_rows rows_a rows_b)
  either-IsStore = record {
    kept = i.kept;
    row_code = either_row_code;
    save_valid = either_save_valid;
    save_ok = either_save_ok;
    save_failed = either_save_failed;
    save_returns = either_save_returns;
    get_valid = either_get_valid;
    get_answers = either_get-Answers;
    get_keeps = either_get_keeps;
    hash_valid = either_hash_valid;
    hash_keeps = either_hash_keeps;
    hash_missing = either_hash_missing;
    hash_answers = either_hash_answers;
  }
