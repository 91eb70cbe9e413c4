-- ===== src/Shell.antt =====
-- The command lines of the shell: src/user/cmd/sh/parse.go. A string is the list of its bytes. A result
-- with `ok` is an Option: what is returned beside `false` is not used.
pub mod Tokens
pub mod Stages
pub mod Pipelines
pub mod RoundTrip
pub mod Examples
use gooos.Common.{
  ℕ, Bool, true, false, ◌&&◌, ◌||◌, ◌==◌, if◌then◌else◌, is_bytes, List, [], ◌∷◌, ◌++◌, Option,
  none, some,
}

-- `cmdLine`, as CommandLine
pub record CommandLine : Type 0 where
  pub argv : List (List ℕ)
  pub stdin_file : List ℕ
  pub stdout_file : List ℕ
  pub append_out : Bool

pub record Pipeline : Type 0 where
  pub stages : List CommandLine
  pub background : Bool

-- the cases of the switch of `tokenize`; `double` is for ">>" and "&&"
pub data Kind : Type 0 where
  blank : Kind
  single : Kind
  double : Kind
  plain : Kind

-- a byte that `tokenize` does not take for a part of a word
abbrev pub is_special : ℕ → Bool
is_special c = c == 32 || c == 9 || c == 60 || c == 124 || c == 62 || c == 38

-- a byte with the one that follows it
unfoldable pub kind : ℕ → ℕ → Kind
kind c next =
    if c == 32 || c == 9
    then blank
    else if (c == 62 || c == 38) && next == c
    then double
    else if is_special c
    then single
    else plain

-- `flush`, on the tokens that follow
unfoldable pub flush : List ℕ → List (List ℕ) → List (List ℕ)
flush [] toks = toks
flush (c ∷ cur) toks = (c ∷ cur) ∷ toks

-- the loop of `tokenize`, with the word that was begun; behind the last byte stands 0
unfoldable pub tokenize_loop : List ℕ → List ℕ → List (List ℕ)
tokenize_loop cur [] = flush cur []
tokenize_loop cur (c ∷ []) = elim (kind c 0) [
  | blank ↦ flush cur []
  | single ↦ flush cur ((c ∷ []) ∷ [])
  | double ↦ flush cur ((c ∷ []) ∷ [])
  | plain ↦ flush (cur ++ (c ∷ [])) []
]
tokenize_loop cur (c ∷ d ∷ cs) = elim (kind c d) [
  | blank ↦ flush cur (tokenize_loop [] (d ∷ cs))
  | single ↦ flush cur ((c ∷ []) ∷ tokenize_loop [] (d ∷ cs))
  | double ↦ flush cur ((c ∷ d ∷ []) ∷ tokenize_loop [] cs)
  | plain ↦ tokenize_loop (cur ++ (c ∷ [])) (d ∷ cs)
]

unfoldable pub tokenize : List ℕ → List (List ℕ)
tokenize line = tokenize_loop [] line

-- the cases of the switch of `parseStage` that redirect
pub data Redirect : Type 0 where
  to_file : Redirect
  append_file : Redirect
  from_file : Redirect

unfoldable pub redirect : List ℕ → Option Redirect
redirect t =
    if is_bytes t (62 ∷ [])
    then some to_file
    else if is_bytes t (62 ∷ 62 ∷ [])
    then some append_file
    else if is_bytes t (60 ∷ [])
    then some from_file
    else none

unfoldable pub set_redirect : Redirect → List ℕ → CommandLine → CommandLine
set_redirect to_file name c = record c { stdout_file = name; append_out = false }
set_redirect append_file name c = record c { stdout_file = name; append_out = true }
set_redirect from_file name c = record c { stdin_file = name }

unfoldable pub add_arg : List ℕ → CommandLine → CommandLine
add_arg t c = record c { argv = c.argv ++ (t ∷ []) }

-- the loop of `parseStage`
unfoldable pub stage_loop : CommandLine → List (List ℕ) → Option CommandLine
stage_loop c [] = some c
stage_loop c (t ∷ []) = elim (redirect t) [ some r ↦ none | none ↦ some (add_arg t c) ]
stage_loop c (t ∷ u ∷ toks) = elim (redirect t) [
  | some r ↦ stage_loop (set_redirect r u c) toks
  | none ↦ stage_loop (add_arg t c) (u ∷ toks)
]

abbrev pub no_words : CommandLine
no_words = record { argv = []; stdin_file = []; stdout_file = []; append_out = false }

-- `if len(c.argv) == 0`
unfoldable pub with_words : CommandLine → Option CommandLine
with_words c = elim c.argv [ [] ↦ none | t ∷ toks ↦ some c ]

unfoldable pub parse_stage : List (List ℕ) → Option CommandLine
parse_stage toks = elim (stage_loop no_words toks) [ some c ↦ with_words c | none ↦ none ]

-- the tokens without a trailing "&", and whether there was one
unfoldable pub strip_background : List (List ℕ) → List (List ℕ) × Bool
strip_background [] = ([], false)
strip_background (t ∷ []) = if is_bytes t (38 ∷ []) then ([], true) else (t ∷ [], false)
strip_background (t ∷ u ∷ toks) =
    let (rest, background) = strip_background (u ∷ toks) in (t ∷ rest, background)

-- `flushStage`
unfoldable pub flush_stage : List (List ℕ) → List CommandLine → Option (List CommandLine)
flush_stage [] stages = none
flush_stage (t ∷ toks) stages = elim (parse_stage (t ∷ toks)) [
  | some c ↦ some (stages ++ (c ∷ []))
  | none ↦ none
]

-- the loop of `parsePipeline` with the `flushStage` behind it
unfoldable pub pipeline_loop :
    List (List ℕ) → List CommandLine → List (List ℕ) → Option (List CommandLine)
pipeline_loop stage_toks stages [] = flush_stage stage_toks stages
pipeline_loop stage_toks stages (t ∷ toks) =
    let more = pipeline_loop (stage_toks ++ (t ∷ [])) stages toks in
    if is_bytes t (124 ∷ [])
    then elim (flush_stage stage_toks stages) [
      | some stages' ↦ pipeline_loop [] stages' toks
      | none ↦ none
    ]
    else if is_bytes t (38 ∷ []) || is_bytes t (38 ∷ 38 ∷ [])
    then none
    else more

unfoldable pub parse_pipeline : List ℕ → Option Pipeline
parse_pipeline line =
    let (toks, background) = strip_background (tokenize line) in
    elim (pipeline_loop [] [] toks) [
      | some stages ↦ some (record { stages = stages; background = background })
      | none ↦ none
    ]

-- `joinArgs`
unfoldable pub join_rest : List ℕ → List (List ℕ) → List ℕ
join_rest out [] = out
join_rest out (a ∷ args) = join_rest (out ++ (32 ∷ a)) args

unfoldable pub join_args : List (List ℕ) → List ℕ
join_args [] = []
join_args (name ∷ []) = []
join_args (name ∷ a ∷ args) = join_rest a args
