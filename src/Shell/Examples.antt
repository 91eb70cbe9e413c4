-- ===== src/Shell/Examples.antt =====
-- Lines of the shell (src/user/cmd/sh/parse.go).
use gooos.Common.{◌≡◌, refl, arith, true, false, [], ◌∷◌, none, some}
use gooos.Shell.{
  CommandLine, Pipeline, parse_pipeline, tokenize, tokenize_loop, kind, flush, strip_background,
  pipeline_loop, flush_stage, parse_stage, stage_loop, redirect, set_redirect, add_arg, with_words,
  join_args, join_rest,
}
use gooos.Shell.Stages.{IsStage}
use gooos.Shell.Pipelines.{last, next}
use gooos.Shell.RoundTrip.{print_pipeline, parse_pipeline-print}

-- "a<b" and "c d>>e"
abbrev reader : CommandLine
reader = record {
  argv = (97 ∷ []) ∷ [];
  stdin_file = 98 ∷ [];
  stdout_file = [];
  append_out = false;
}

abbrev writer : CommandLine
writer = record {
  argv = (99 ∷ []) ∷ (100 ∷ []) ∷ [];
  stdin_file = [];
  stdout_file = 101 ∷ [];
  append_out = true;
}

reader-IsStage : IsStage reader
reader-IsStage = record {
  command = (97 ∷ [], [], refl);
  words = refl;
  from = refl;
  to = refl;
  quiet = λ h. refl;
}

writer-IsStage : IsStage writer
writer-IsStage = record {
  command = (99 ∷ [], (100 ∷ []) ∷ [], refl);
  words = refl;
  from = refl;
  to = refl;
  quiet = λ h. absurd (ground (arith, h));
}

abbrev piped : Pipeline
piped = record { stages = reader ∷ writer ∷ []; background = true }

parse_pipeline-print_example : parse_pipeline (print_pipeline piped) ≡ some piped
parse_pipeline-print_example =
    parse_pipeline-print piped (next reader-IsStage (last writer-IsStage))

-- "a<b|c d>>e&" without blanks around the operators
parses_tight :
    parse_pipeline (97 ∷ 60 ∷ 98 ∷ 124 ∷ 99 ∷ 32 ∷ 100 ∷ 62 ∷ 62 ∷ 101 ∷ 38 ∷ []) ≡ some piped
unfolding parse_pipeline tokenize tokenize_loop kind flush strip_background pipeline_loop
    flush_stage parse_stage stage_loop redirect set_redirect add_arg with_words
parses_tight = refl

-- "a&&b" is refused
refuses_and : parse_pipeline (97 ∷ 38 ∷ 38 ∷ 98 ∷ []) ≡ none
unfolding parse_pipeline tokenize tokenize_loop kind flush strip_background pipeline_loop
    flush_stage parse_stage stage_loop redirect set_redirect add_arg with_words
refuses_and = refl

joins : join_args (writer.argv) ≡ 100 ∷ []
unfolding join_args join_rest
joins = refl
