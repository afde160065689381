-- ===== src/Shell/Samples.antt =====
-- The shell quoting at concrete arguments.
use etcd_infra.Common.{false, ◌≡◌, refl, none, some, [], ◌∷◌, codes}
use etcd_infra.Shell.{quote, join_args, is_valid_posix_env_name}
use etcd_infra.Shell.Words.{Mode, shell_words, shell_words-join_args}

quote_test : quote (codes "it's") ≡ codes "'it'\\''s'"
unfolding quote
quote_test = refl

join_args_test :
    join_args (codes "etcd" ∷ codes "--name=a b" ∷ [] ∷ []) ≡ codes "etcd '--name=a b' ''"
unfolding join_args
join_args_test = refl

unquoted_test : shell_words Mode.blank [] (codes "a b; rm") ≡ none
unfolding shell_words
unquoted_test = refl

env_name_test : is_valid_posix_env_name (codes "9_LIVES") ≡ false
unfolding is_valid_posix_env_name
env_name_test = refl

shell_words-join_args_example :
    shell_words Mode.blank []
      (join_args (codes "sh" ∷ codes "-c" ∷ codes "echo 'a b'; exit" ∷ [] ∷ []))
    ≡ some (codes "sh" ∷ codes "-c" ∷ codes "echo 'a b'; exit" ∷ [] ∷ [])
shell_words-join_args_example =
    shell_words-join_args (codes "sh" ∷ codes "-c" ∷ codes "echo 'a b'; exit" ∷ [] ∷ [])
