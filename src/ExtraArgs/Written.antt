-- ===== src/ExtraArgs/Written.antt =====
-- cmd/etcd-infra/extraargs.go: reading back the arguments that a file and a flag are written with.
use etcd_infra.Common.{
  ℕ, suc, ◌≡◌, refl, ap, ◌∙◌, true, false, not, ◌||◌, List, [], ◌∷◌, ◌++◌, Option, some, inr, ◌==◌,
  arith, if_false, is_empty, keep, map, All, Text, codes, cons_part, has_prefix, split, join,
  is_space, trim_space,
}
use etcd_infra.ExtraArgs.{
  newline, field_parts, fields, with_arg, parse_lines, parse_extra_args_file, resolve_extra_args,
}

-- A line of a file: one that sets an argument, or one that is blank or a comment
pub data Line : Type 0 where
  setting remark : Text → Line

abbrev pub line_text : Line → Text
line_text (setting t) = t
line_text (remark t) = t

abbrev pub settings : List Line → List Text
settings [] = []
settings (setting t ∷ ls) = trim_space t ∷ settings ls
settings (remark t ∷ ls) = settings ls

abbrev pub OneLine : Text → Type 0
OneLine t = All (λ c. (c == newline) ≡ false) t

-- The trimmed text of a line that sets an argument starts with a dash, that of a comment with a
-- number sign.
abbrev pub IsWritten : Line → Type 0
IsWritten (setting t) = OneLine t × (has_prefix (trim_space t) (codes "-") ≡ true)
IsWritten (remark t) =
    OneLine t × ((is_empty (trim_space t) || has_prefix (trim_space t) (codes "#")) ≡ true)

-- A word that the shell passes on within the flag: not empty, and without a space
abbrev pub IsWord : Text → Type 0
IsWord w = (is_empty w ≡ false) × All (λ c. is_space c ≡ false) w

split-one : (t : Text) → OneLine t → split t newline ≡ t ∷ []
unfolding split
split-one [] h = refl
split-one (c ∷ t) (n, h) =
    if_false (c == newline) ([] ∷ split t newline) (cons_part c (split t newline)) n
    ∙ ap (cons_part c) (split-one t h)

split-line : (t s : Text) → OneLine t → split (t ++ newline ∷ s) newline ≡ t ∷ split s newline
unfolding split
split-line [] s h = refl
split-line (c ∷ t) s (n, h) =
    if_false (c == newline) ([] ∷ split (t ++ newline ∷ s) newline)
      (cons_part c (split (t ++ newline ∷ s) newline)) n
    ∙ ap (cons_part c) (split-line t s h)

IsWritten-OneLine : (l : Line) → IsWritten l → OneLine (line_text l)
IsWritten-OneLine (setting t) h = h.0
IsWritten-OneLine (remark t) h = h.0

file_lines :
    (l : Line) (ls : List Line)
    → All IsWritten (l ∷ ls)
    → split (join (map line_text (l ∷ ls)) (newline ∷ [])) newline ≡ map line_text (l ∷ ls)
unfolding join
file_lines l [] (h, g) = split-one (line_text l) (IsWritten-OneLine l h)
file_lines l (m ∷ ls) (h, g) =
    split-line (line_text l) (join (map line_text (m ∷ ls)) (newline ∷ [])) (IsWritten-OneLine l h)
    ∙ ap (◌∷◌ (line_text l)) (file_lines m ls g)

-- What a dash begins is neither blank nor a comment.
dash-skip :
    (t : Text) → has_prefix t (codes "-") ≡ true → (is_empty t || has_prefix t (codes "#")) ≡ false
unfolding has_prefix
dash-skip [] h = absurd (cc)
dash-skip (c ∷ t) h = ground arith

parse_lines-setting :
    (k : ℕ) (l : Text) (ls : List Text)
    → has_prefix (trim_space l) (codes "-") ≡ true
    → parse_lines k (l ∷ ls) ≡ with_arg (trim_space l) (parse_lines (suc k) ls)
parse_lines-setting k l ls d = unfold parse_lines in rw (dash-skip (trim_space l) d, d) refl

parse_lines-remark :
    (k : ℕ) (l : Text) (ls : List Text)
    → (is_empty (trim_space l) || has_prefix (trim_space l) (codes "#")) ≡ true
    → parse_lines k (l ∷ ls) ≡ parse_lines (suc k) ls
parse_lines-remark k l ls d = unfold parse_lines in rw d refl

parse_lines-settings :
    (k : ℕ) (ls : List Line)
    → All IsWritten ls
    → parse_lines k (map line_text ls) ≡ inr (settings ls)
unfolding parse_lines
parse_lines-settings k [] h = refl
parse_lines-settings k (setting t ∷ ls) ((o, d), g) =
    parse_lines-setting k t (map line_text ls) d
    ∙ ap (with_arg (trim_space t)) (parse_lines-settings (suc k) ls g)
parse_lines-settings k (remark t ∷ ls) ((o, d), g) =
    parse_lines-remark k t (map line_text ls) d ∙ parse_lines-settings (suc k) ls g

field_parts-one : (w : Text) → All (λ c. is_space c ≡ false) w → field_parts w ≡ w ∷ []
unfolding field_parts
field_parts-one [] h = refl
field_parts-one (c ∷ w) (n, h) =
    if_false (is_space c) ([] ∷ field_parts w) (cons_part c (field_parts w)) n
    ∙ ap (cons_part c) (field_parts-one w h)

field_parts-word :
    (w s : Text) → All (λ c. is_space c ≡ false) w → field_parts (w ++ b' ' ∷ s) ≡ w ∷ field_parts s
unfolding field_parts is_space
field_parts-word [] s h = refl
field_parts-word (c ∷ w) s (n, h) =
    if_false (is_space c) ([] ∷ field_parts (w ++ b' ' ∷ s))
      (cons_part c (field_parts (w ++ b' ' ∷ s))) n
    ∙ ap (cons_part c) (field_parts-word w s h)

kept_word :
    (w : Text) (ws : List Text)
    → is_empty w ≡ false
    → keep (λ v. not (is_empty v)) (w ∷ ws) ≡ w ∷ keep (λ v. not (is_empty v)) ws
kept_word w ws h = rw h refl

kept-join :
    (ws : List Text)
    → All IsWord ws
    → keep (λ v. not (is_empty v)) (field_parts (join ws (codes " "))) ≡ ws
unfolding join field_parts
kept-join [] h = refl
kept-join (w ∷ []) ((n, h), g) =
    ap (keep (λ v. not (is_empty v))) (field_parts-one w h) ∙ kept_word w [] n
kept-join (w ∷ v ∷ ws) ((n, h), g) =
    ap (keep (λ u. not (is_empty u))) (field_parts-word w (join (v ∷ ws) (codes " ")) h)
    ∙ kept_word w (field_parts (join (v ∷ ws) (codes " "))) n
    ∙ ap (◌∷◌ w) (kept-join (v ∷ ws) g)

fields-join : (ws : List Text) → All IsWord ws → fields (join ws (codes " ")) ≡ ws
unfolding fields
fields-join ws h = kept-join ws h

parse_extra_args_file-read :
    (read : Text → Option Text) (path text : Text)
    → read path ≡ some text
    → parse_extra_args_file read path ≡ parse_lines 0 (split text newline)
unfolding parse_extra_args_file parse_lines
parse_extra_args_file-read read path text e = rw (e, parse_extra_args_file) refl

parse_extra_args_file-settings :
    (read : Text → Option Text) (path : Text) (ls : List Line)
    → All IsWritten ls
    → read path ≡ some (join (map line_text ls) (newline ∷ []))
    → parse_extra_args_file read path ≡ inr (settings ls)
unfolding join split parse_lines trim_space
parse_extra_args_file-settings read path [] h e = parse_extra_args_file-read read path [] e
parse_extra_args_file-settings read path (l ∷ ls) h e =
    parse_extra_args_file-read read path (join (map line_text (l ∷ ls)) (newline ∷ [])) e
    ∙ ap (parse_lines 0) (file_lines l ls h)
    ∙ parse_lines-settings 0 (l ∷ ls) h

-- The arguments that are read from the lines of a file, each of which sets an argument or is blank
-- or a comment, and from inline words joined by spaces, are those of the file in order, trimmed,
-- and then the inline words.
pub resolve_extra_args-settings :
    (read : Text → Option Text) (file : Text) (ls : List Line) (ws : List Text)
    → is_empty (trim_space file) ≡ false
    → read file ≡ some (join (map line_text ls) (newline ∷ []))
    → All IsWritten ls
    → All IsWord ws
    → resolve_extra_args read (join ws (codes " ")) file ≡ inr (settings ls ++ ws)
unfolding resolve_extra_args
resolve_extra_args-settings read file ls ws n e h g =
    rw (n, parse_extra_args_file-settings read file ls h e, fields-join ws g) refl
