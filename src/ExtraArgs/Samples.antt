-- ===== src/ExtraArgs/Samples.antt =====
-- The extra arguments at a concrete file.
use etcd_infra.Common.{
  ℕ, Bool, true, false, not, ◌&&◌, ◌==◌, All, every, ◌≡◌, refl, none, some, [], ◌∷◌, List, join,
  Text, inl, inr, codes, trim_space, has_prefix, is_space,
}
use etcd_infra.ExtraArgs.{bad_line, newline, resolve_extra_args}
use etcd_infra.ExtraArgs.Written.{Line, OneLine, setting, remark, resolve_extra_args-settings}

resolve_extra_args_bad_test :
    resolve_extra_args (λ p. some (codes "# one\n--x=1\n y\n")) (codes "--z") (codes "f")
    ≡ inl (bad_line 3 (codes "y"))
unfolding resolve_extra_args
resolve_extra_args_bad_test = refl

resolve_extra_args_blank_test :
    resolve_extra_args (λ p. none) (codes " --z  --w ") (codes " ")
    ≡ inr (codes "--z" ∷ codes "--w" ∷ [])
unfolding resolve_extra_args
resolve_extra_args_blank_test = refl

each_fails_step : (b c : Bool) (P : Type 0) → (c ≡ true → P) → (not b && c) ≡ true → (b ≡ false) × P
each_fails_step true c P rest g = absurd (cc)
each_fails_step false c P rest g = (refl, rest g)

each_fails : (p : ℕ → Bool) (t : Text) → every (λ c. not (p c)) t ≡ true → All (λ c. p c ≡ false) t
each_fails p [] h = tt
each_fails p (c ∷ t) h =
    each_fails_step (p c) (every (λ d. not (p d)) t) (All (λ d. p d ≡ false) t) (each_fails p t) h

one_line : (t : Text) → every (λ c. not (c == newline)) t ≡ true → OneLine t
one_line t h = each_fails (λ c. c == newline) t h

no_space : (t : Text) → every (λ c. not (is_space c)) t ≡ true → All (λ c. is_space c ≡ false) t
no_space t h = each_fails is_space t h

abbrev sample_lines : List Line
sample_lines =
    remark (codes "# debug")
    ∷ setting (codes " --log-level=debug")
    ∷ remark []
    ∷ setting (codes "--a b")
    ∷ []

abbrev sample_file : Text
sample_file = codes "# debug\n --log-level=debug\n\n--a b"

resolve_extra_args-settings_example :
    resolve_extra_args
      (λ p. some sample_file)
      (join (codes "--x" ∷ codes "--y=1" ∷ []) (codes " "))
      (codes "f")
    ≡ inr (codes "--log-level=debug" ∷ codes "--a b" ∷ codes "--x" ∷ codes "--y=1" ∷ [])
unfolding trim_space join has_prefix is_space
resolve_extra_args-settings_example =
    resolve_extra_args-settings (λ p. some sample_file) (codes "f") sample_lines
      (codes "--x" ∷ codes "--y=1" ∷ []) refl refl
      (
        (one_line (codes "# debug") refl, refl),
        (
          (one_line (codes " --log-level=debug") refl, refl),
          ((one_line [] refl, refl), ((one_line (codes "--a b") refl, refl), tt)),
        ),
      )
      ((refl, no_space (codes "--x") refl), ((refl, no_space (codes "--y=1") refl), tt))
