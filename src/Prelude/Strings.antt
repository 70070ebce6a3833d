-- ===== src/Prelude/Strings.antt =====
-- What the service uses of Go's package strings, on bytes.
use Prim.Native.Nat.{ℕ}
use mathlib.Core.Bool.{Bool, ◌||◌}
use mathlib.Core.List.{[], ◌∷◌, reverse}
use mathlib.Core.Option.{Option, none, some}
use web_demo_go.Prelude.Tests.{ltb, nat_eq, if◌then◌else◌}
use web_demo_go.Prelude.Texts.{Text}

-- `strings.TrimFunc` and `strings.TrimRightFunc` with `unicode.IsSpace`, which `TrimSpace` calls
-- where it meets a byte above 127.
pub record WideTrim : Type 0 where
  pub trim_func : Text → Text
  pub trim_right_func : Text → Text

-- The text before the first `b`, as `s[:strings.Index(s, b)]`; `none` where there is none.
unfoldable pub before_first : ℕ → Text → Option Text
before_first b [] = none
before_first b (c ∷ s) =
    if nat_eq c b then some [] else elim (before_first b s) [ none ↦ none | some t ↦ some (c ∷ t) ]

-- The text before the last `b`, as `s[:strings.LastIndex(s, b)]`; `none` where there is none.
unfoldable pub before_last : ℕ → Text → Option Text
before_last b [] = none
before_last b (c ∷ s) = elim (before_last b s) [
  | some t ↦ some (c ∷ t)
  | none ↦ if nat_eq c b then some [] else none
]

unfoldable pub is_ascii_space : ℕ → Bool
is_ascii_space b =
    nat_eq b 9 || (nat_eq b 10 || (nat_eq b 11 || (nat_eq b 12 || (nat_eq b 13 || nat_eq b 32))))

-- The second loop of `TrimSpace`, from the end: its argument is the text in reverse.
unfoldable pub trim_end : WideTrim → Text → Text
unfolding is_ascii_space
trim_end wide [] = []
trim_end wide (b ∷ s) =
    let rest = trim_end wide s in
    if ltb 127 b
    then wide.trim_right_func (reverse (b ∷ s))
    else (if is_ascii_space b then rest else reverse (b ∷ s))

-- `strings.TrimSpace`
unfoldable pub trim_space : WideTrim → Text → Text
unfolding is_ascii_space trim_end
trim_space wide [] = []
trim_space wide (b ∷ s) =
    let rest = trim_space wide s in
    if ltb 127 b
    then wide.trim_func (b ∷ s)
    else (if is_ascii_space b then rest else trim_end wide (reverse (b ∷ s)))
