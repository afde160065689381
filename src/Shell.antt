-- ===== src/Shell.antt =====
-- pkg/shell/quote.go: quoting of arguments for a POSIX shell, and names of its variables.
mod Words
mod Samples
use etcd_infra.Common.{
  ℕ, Bool, true, false, ◌&&◌, ◌||◌, List, [], ◌∷◌, ◌++◌, if◌then◌else◌, leb, ◌==◌, every, is_empty,
  map, join, Text, codes,
}

abbrev is_alpha : ℕ → Bool
is_alpha c = (leb b'a' c && leb c b'z') || (leb b'A' c && leb c b'Z')

abbrev is_digit : ℕ → Bool
is_digit c = leb b'0' c && leb c b'9'

-- The body of the loop of IsSimpleArg
unfoldable pub is_simple_char : ℕ → Bool
is_simple_char c =
    is_alpha c
    || is_digit c
    || (c == b'-')
    || (c == b'_')
    || (c == b'.')
    || (c == b'/')
    || (c == b'=')
    || (c == b':')

unfoldable pub is_simple_arg : Text → Bool
unfolding is_simple_char
is_simple_arg s = if is_empty s then false else every is_simple_char s

-- strings.ReplaceAll(s, "'", `'\''`)
unfoldable pub escape_quotes : Text → Text
escape_quotes [] = []
escape_quotes (c ∷ s) =
    let rest = escape_quotes s in if c == 39 then 39 ∷ 92 ∷ 39 ∷ 39 ∷ rest else c ∷ rest

unfoldable pub quote : Text → Text
unfolding is_simple_arg escape_quotes
quote s = if is_simple_arg s then s else 39 ∷ (escape_quotes s ++ 39 ∷ [])

unfoldable pub join_args : List Text → Text
unfolding quote join
join_args args = if is_empty args then [] else join (map quote args) (codes " ")

abbrev env_first : ℕ → Bool
env_first c = is_alpha c || (c == b'_')

unfoldable pub env_rest : ℕ → Bool
env_rest c = is_alpha c || is_digit c || (c == b'_')

unfoldable pub is_valid_posix_env_name : Text → Bool
unfolding env_rest
is_valid_posix_env_name [] = false
is_valid_posix_env_name (c ∷ s) = if env_first c then every env_rest s else false
