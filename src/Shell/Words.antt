-- ===== src/Shell/Words.antt =====
-- quote.go against the words that a POSIX shell reads (Shell Command Language, 2.2 and 2.3).
use etcd_infra.Common.{
  zero, suc, ◌<◌, not, ==_iff, ℕ, ◌≡◌, refl, ap, ◌∙◌, Bool, true, false, ◌&&◌, ◌||◌, List, [], ◌∷◌,
  ◌++◌, Option, none, some, arith, if◌then◌else◌, ◌==◌, every, map, append_assoc, append-nil, join,
  inl, inr, Bool-cases, Text, codes,
}
use etcd_infra.Shell.{
  is_simple_char, is_simple_arg, escape_quotes, quote, join_args, env_rest, is_valid_posix_env_name,
}

-- Where the shell stands: between words, in a word, after a backslash, or in single quotes.
pub data Mode : Type 0 where
  blank word escaped quoted : Mode

-- The characters that mean something to the shell where they stand unquoted, apart from the space,
-- the single quote and the backslash: operators, expansions, patterns, comments, newlines.
unfoldable pub is_special : ℕ → Bool
is_special c =
    (c == b'|')
    || (c == b'&')
    || (c == b';')
    || (c == b'<')
    || (c == b'>')
    || (c == b'(')
    || (c == b')')
    || (c == b'$')
    || (c == b'`')
    || (c == b'"')
    || (c == b'*')
    || (c == b'?')
    || (c == b'[')
    || (c == b'#')
    || (c == b'~')
    || (c == b'%')
    || (c == b'!')
    || (c == b'{')
    || (c == b'}')
    || (c == 9)
    || (c == 10)

abbrev cons_word : Text → Option (List Text) → Option (List Text)
cons_word w none = none
cons_word w (some ws) = some (w ∷ ws)

-- The words of a line that is one simple command without expansions: `none` if a special character
-- stands unquoted, or a quotation is left open. The word read so far is `w`.
unfoldable pub shell_words : Mode → Text → Text → Option (List Text)
unfolding is_special
shell_words Mode.blank w [] = some []
shell_words Mode.word w [] = some (w ∷ [])
shell_words Mode.escaped w [] = none
shell_words Mode.quoted w [] = none
shell_words Mode.blank w (c ∷ s) =
    let skip = shell_words Mode.blank [] s in
    let open_quote = shell_words Mode.quoted [] s in
    let escape = shell_words Mode.escaped [] s in
    let plain = shell_words Mode.word (c ∷ []) s in
    if c == 32
    then skip
    else if c == 39
    then open_quote
    else if c == 92
    then escape
    else if is_special c
    then none
    else plain
shell_words Mode.word w (c ∷ s) =
    let finish = shell_words Mode.blank [] s in
    let open_quote = shell_words Mode.quoted w s in
    let escape = shell_words Mode.escaped w s in
    let plain = shell_words Mode.word (w ++ c ∷ []) s in
    if c == 32
    then cons_word w finish
    else if c == 39
    then open_quote
    else if c == 92
    then escape
    else if is_special c
    then none
    else plain
shell_words Mode.escaped w (c ∷ s) = shell_words Mode.word (w ++ c ∷ []) s
shell_words Mode.quoted w (c ∷ s) =
    let close_quote = shell_words Mode.word w s in
    let plain = shell_words Mode.quoted (w ++ c ∷ []) s in if c == 39 then close_quote else plain

-- A test that holds of every number below a bound.
below : ℕ → (ℕ → Bool) → Bool
below zero p = true
below (suc n) p = p n && below n p

below_sound : (n : ℕ) (p : ℕ → Bool) (x : ℕ) → below n p ≡ true → x < n → p x ≡ true
unfolding below
below_sound zero p x h lt = absurd (omega arith)
below_sound (suc n) p x h lt = ground (arith, below_sound n p x)

simple-lt : (c : ℕ) → is_simple_char c ≡ true → c < 128
unfolding is_simple_char
simple-lt c h = ground arith

-- The characters that the lexer takes as they stand, in a word and at its start.
abbrev plain : ℕ → Bool
plain c =
    if c == 32
    then false
    else if c == 39
    then false
    else if c == 92
    then false
    else not (is_special c)

plain_table : below 128 (λ c. if is_simple_char c then plain c else true) ≡ true
unfolding below is_simple_char is_special
plain_table = refl

simple-plain : (c : ℕ) → is_simple_char c ≡ true → plain c ≡ true
simple-plain c h = let row = below_sound 128 _ c plain_table (simple-lt c h) in rw h at row

step-word :
    (c : ℕ) (w rest : Text)
    → plain c ≡ true
    → shell_words Mode.word w (c ∷ rest) ≡ shell_words Mode.word (w ++ c ∷ []) rest
unfolding shell_words
step-word c w rest h = ground arith

step-blank :
    (c : ℕ) (w rest : Text)
    → plain c ≡ true
    → shell_words Mode.blank w (c ∷ rest) ≡ shell_words Mode.word (c ∷ []) rest
unfolding shell_words
step-blank c w rest h = ground arith

shell_words-simple :
    (s w rest : Text)
    → every is_simple_char s ≡ true
    → shell_words Mode.word w (s ++ rest) ≡ shell_words Mode.word (w ++ s) rest
shell_words-simple [] w rest h = rw (append-nil w)
shell_words-simple (c ∷ s) w rest h = elim (Bool-cases (is_simple_char c)) [
  | inl e ↦
      step-word c w (s ++ rest) (simple-plain c e)
      ∙ shell_words-simple s (w ++ c ∷ []) rest (ground arith)
      ∙ simp append_assoc
  | inr e ↦ absurd (ground arith)
]

-- In quotes, what `escape_quotes` writes stands for the text itself.
shell_words-escape_quotes :
    (s w rest : Text)
    → shell_words Mode.quoted w (escape_quotes s ++ 39 ∷ rest) ≡ shell_words Mode.word (w ++ s) rest
unfolding shell_words escape_quotes
shell_words-escape_quotes [] w rest = rw (append-nil w)
shell_words-escape_quotes (c ∷ s) w rest = elim (Bool-cases (c == 39)) [
  | inl e ↦
      rw e
        (shell_words-escape_quotes s (w ++ 39 ∷ []) rest ∙ simp (append_assoc, (==_iff c 39).0 e))
  | inr e ↦ rw (e, e) (shell_words-escape_quotes s (w ++ c ∷ []) rest ∙ simp append_assoc)
]

-- A quoted word is read from its first character on, to the end of it.
shell_words-quote :
    (s rest : Text) → shell_words Mode.blank [] (quote s ++ rest) ≡ shell_words Mode.word s rest
unfolding quote is_simple_arg
shell_words-quote [] rest = unfold shell_words escape_quotes in refl
shell_words-quote (c ∷ s) rest = elim (Bool-cases (every is_simple_char (c ∷ s))) [
  | inl e ↦ rw e (
      step-blank c [] (s ++ rest) (simple-plain c (ground arith))
      ∙ shell_words-simple s (c ∷ []) rest (ground arith))
  | inr e ↦ rw e (
      ap (λ t. shell_words Mode.blank [] (39 ∷ t))
        (append_assoc (escape_quotes (c ∷ s)) (39 ∷ []) rest)
      ∙ unfold shell_words in shell_words-escape_quotes (c ∷ s) [] rest)
]

step-space :
    (w s : Text) → shell_words Mode.word w (32 ∷ s) ≡ cons_word w (shell_words Mode.blank [] s)
unfolding shell_words
step-space w s = refl

shell_words-join :
    (a : Text) (args : List Text)
    → shell_words Mode.blank [] (join (map quote (a ∷ args)) (codes " ")) ≡ some (a ∷ args)
unfolding join
shell_words-join a [] =
    rw (← append-nil (quote a)) (shell_words-quote a [] ∙ unfold shell_words in refl)
shell_words-join a (b ∷ args) =
    shell_words-quote a (32 ∷ join (map quote (b ∷ args)) (codes " "))
    ∙ step-space a (join (map quote (b ∷ args)) (codes " "))
    ∙ ap (cons_word a) (shell_words-join b args)

-- Whatever the arguments hold (spaces, quotes, newlines, nothing at all), a shell splits the line
-- that join_args makes of them into exactly these arguments again.
pub shell_words-join_args :
    (args : List Text) → shell_words Mode.blank [] (join_args args) ≡ some args
unfolding join_args
shell_words-join_args [] = unfold shell_words in refl
shell_words-join_args (a ∷ args) = shell_words-join a args

env_rest-simple : (s : Text) → every env_rest s ≡ true → every is_simple_char s ≡ true
unfolding env_rest is_simple_char
env_rest-simple [] h = refl
env_rest-simple (c ∷ s) h = ground (arith, env_rest-simple s (ground arith))

-- The same, in the middle of a word.
shell_words-word_quote :
    (s w rest : Text)
    → shell_words Mode.word w (quote s ++ rest) ≡ shell_words Mode.word (w ++ s) rest
unfolding quote is_simple_arg
shell_words-word_quote [] w rest = unfold shell_words escape_quotes in rw (append-nil w)
shell_words-word_quote (c ∷ s) w rest = elim (Bool-cases (every is_simple_char (c ∷ s))) [
  | inl e ↦ rw e (shell_words-simple (c ∷ s) w rest e)
  | inr e ↦ rw e (
      ap (λ t. shell_words Mode.word w (39 ∷ t))
        (append_assoc (escape_quotes (c ∷ s)) (39 ∷ []) rest)
      ∙ unfold shell_words in shell_words-escape_quotes (c ∷ s) w rest)
]

shell_words-last : (s w : Text) → shell_words Mode.word w (quote s) ≡ some ((w ++ s) ∷ [])
shell_words-last s w =
    rw (← append-nil (quote s)) (shell_words-word_quote s w [] ∙ unfold shell_words in refl)

valid_name-simple :
    (c : ℕ) (s : Text)
    → is_valid_posix_env_name (c ∷ s) ≡ true
    → every is_simple_char (c ∷ s) ≡ true
unfolding is_valid_posix_env_name is_simple_char
valid_name-simple c s h = ground (arith, env_rest-simple s (ground arith))

-- A valid name of a variable needs no quotes, and `name=` before a quoted value is one word to the
-- shell, with the value as it is.
pub shell_words-env_name :
    (name value : Text)
    → is_valid_posix_env_name name ≡ true
    → (quote name ≡ name)
      × (shell_words Mode.blank [] (name ++ (b'=' ∷ quote value))
          ≡ some ((name ++ (b'=' ∷ value)) ∷ []))
unfolding quote is_simple_arg
shell_words-env_name [] value h = absurd (unfold is_valid_posix_env_name in cc)
shell_words-env_name (c ∷ s) value h =
    let simple = valid_name-simple c s h in
    (
      rw simple,
      step-blank c [] (s ++ (b'=' ∷ quote value)) (simple-plain c (ground arith))
          ∙ shell_words-simple s (c ∷ []) (b'=' ∷ quote value) (ground arith)
          ∙ step-word b'=' (c ∷ s) (quote value) (unfold is_special in refl)
          ∙ shell_words-last value (c ∷ s ++ b'=' ∷ [])
          ∙ simp append_assoc,
    )
