-- ===== src/Shell/RoundTrip.antt =====
-- `parsePipeline` of src/user/cmd/sh/parse.go reads back a line that is written from a pipeline.
use gooos.Common.{
  ℕ, ◌≡◌, refl, ap, ◌∙◌, Bool, true, false, not, ◌&&◌, arith, List, [], ◌∷◌, ◌++◌, append-nil,
  is_bytes, Option, none, some,
}
use gooos.Shell.{CommandLine, Pipeline, strip_background, pipeline_loop, parse_pipeline, kind}
use gooos.Shell.Tokens.{
  all_plain, word, one, two, AreTokens, none_left, more, spaced, tokenize-spaced,
}
use gooos.Shell.Stages.{all_words, in_tokens, out_tokens, stage_tokens}
use gooos.Shell.Pipelines.{AreStages, last, next, pipe_tokens, all_inner, stage_inner, stages_loop}

-- the token of a pipeline in the background
abbrev pub mark : Bool → List (List ℕ)
mark true = (38 ∷ []) ∷ []
mark false = []

-- a pipeline as a line
unfoldable pub print_pipeline : Pipeline → List ℕ
print_pipeline p = spaced (pipe_tokens p.stages ++ mark p.background)

-- no token is a bare "&"
abbrev no_amp : List (List ℕ) → Bool
no_amp [] = true
no_amp (t ∷ ts) = not (is_bytes t (38 ∷ [])) && no_amp ts

no_amp-append :
    (xs ys : List (List ℕ)) → no_amp xs ≡ true → no_amp ys ≡ true → no_amp (xs ++ ys) ≡ true
no_amp-append [] ys h h2 = h2
no_amp-append (x ∷ xs) ys h h2 =
    let others : no_amp xs ≡ true = ground (arith, h) in
    ground (arith, h, no_amp-append xs ys others h2)

no_amp-inner : (ts : List (List ℕ)) → all_inner ts ≡ true → no_amp ts ≡ true
no_amp-inner [] h = refl
no_amp-inner (t ∷ ts) h =
    let others : all_inner ts ≡ true = ground (arith, h) in
    ground (arith, h, no_amp-inner ts others)

no_amp-pipe : (cs : List CommandLine) → AreStages cs → no_amp (pipe_tokens cs) ≡ true
unfolding pipe_tokens
no_amp-pipe cs (last {c} s) = no_amp-inner (stage_tokens c) (stage_inner c s)
no_amp-pipe cs (next {c} {d} {cs = rest} s ss) =
    no_amp-append (stage_tokens c) ((124 ∷ []) ∷ pipe_tokens (d ∷ rest))
      (no_amp-inner (stage_tokens c) (stage_inner c s)) (no_amp-pipe (d ∷ rest) ss)

strip-foreground : (ts : List (List ℕ)) → no_amp ts ≡ true → strip_background ts ≡ (ts, false)
unfolding strip_background
strip-foreground [] h = refl
strip-foreground (t ∷ []) h =
    let other : is_bytes t (38 ∷ []) ≡ false = ground (arith, h) in
    rw (other, strip_background) refl
strip-foreground (t ∷ u ∷ ts) h =
    ap (λ r. (t ∷ r.0, r.1)) (strip-foreground (u ∷ ts) (ground (arith, h)))

strip-background : (ts : List (List ℕ)) → strip_background (ts ++ ((38 ∷ []) ∷ [])) ≡ (ts, true)
unfolding strip_background
strip-background [] = refl
strip-background (t ∷ []) = refl
strip-background (t ∷ u ∷ ts) = ap (λ r. (t ∷ r.0, r.1)) (strip-background (u ∷ ts))

AreTokens-append : {xs ys : List (List ℕ)} → AreTokens xs → AreTokens ys → AreTokens (xs ++ ys)
AreTokens-append none_left b = b
AreTokens-append (more t a) b = more t (AreTokens-append a b)

words_tokens : (ws : List (List ℕ)) → all_words ws ≡ true → AreTokens ws
words_tokens [] h = none_left
words_tokens ([] ∷ ws) h = absurd (ground (arith, h))
words_tokens ((c ∷ cs) ∷ ws) h =
    more (word c cs (ground (arith, h))) (words_tokens ws (ground (arith, h)))

files_tokens :
    (f g : List ℕ) (a : Bool)
    → all_plain f ≡ true
    → all_plain g ≡ true
    → AreTokens (in_tokens f ++ out_tokens g a)
unfolding in_tokens out_tokens kind
files_tokens [] [] a h h2 = none_left
files_tokens [] (y ∷ g) false h h2 = more (one 62 refl) (more (word y g h2) none_left)
files_tokens [] (y ∷ g) true h h2 = more (two 62 refl) (more (word y g h2) none_left)
files_tokens (x ∷ f) [] a h h2 = more (one 60 refl) (more (word x f h) none_left)
files_tokens (x ∷ f) (y ∷ g) false h h2 =
    more (one 60 refl) (more (word x f h) (more (one 62 refl) (more (word y g h2) none_left)))
files_tokens (x ∷ f) (y ∷ g) true h h2 =
    more (one 60 refl) (more (word x f h) (more (two 62 refl) (more (word y g h2) none_left)))

pipe_AreTokens : (cs : List CommandLine) → AreStages cs → AreTokens (pipe_tokens cs)
unfolding pipe_tokens stage_tokens kind
pipe_AreTokens cs (last {c} s) =
    AreTokens-append (words_tokens c.argv s.words)
      (files_tokens c.stdin_file c.stdout_file c.append_out s.from s.to)
pipe_AreTokens cs (next {c} {d} {cs = rest} s ss) =
    AreTokens-append
      (AreTokens-append (words_tokens c.argv s.words)
        (files_tokens c.stdin_file c.stdout_file c.append_out s.from s.to))
      (more (one 124 refl) (pipe_AreTokens (d ∷ rest) ss))

marked :
    (background : Bool) (ts : List (List ℕ))
    → no_amp ts ≡ true
    → AreTokens ts
    → AreTokens (ts ++ mark background)
      × (strip_background (ts ++ mark background) ≡ (ts, background))
unfolding kind
marked true ts h a = (AreTokens-append a (more (one 38 refl) none_left), strip-background ts)
marked false ts h a =
    (AreTokens-append a none_left, ap strip_background (append-nil ts) ∙ strip-foreground ts h)

-- Parsing the line that is written from a pipeline gives that pipeline, in the background or not, when it
-- has a stage and each stage has a word, no word or file name holds a byte that splits tokens, and
-- ">>" is asked for only with a file.
pub parse_pipeline-print :
    (p : Pipeline) → AreStages p.stages → parse_pipeline (print_pipeline p) ≡ some p
unfolding parse_pipeline print_pipeline kind
parse_pipeline-print p ss =
    let toks = pipe_tokens p.stages in
    let (tokens, strip) =
      marked p.background toks (no_amp-pipe p.stages ss) (pipe_AreTokens p.stages ss) in
    let stripped =
      ap strip_background (tokenize-spaced (toks ++ mark p.background) tokens) ∙ strip in
    let finish : List (List ℕ) × Bool → Option Pipeline = λ r. elim (pipeline_loop [] [] r.0) [
      | some stages ↦ some (record { stages = stages; background = r.1 })
      | none ↦ none
    ] in
    let parsed : Option (List CommandLine) → Option Pipeline = λ o. elim o [
      | some stages ↦ some (record { stages = stages; background = p.background })
      | none ↦ none
    ] in
    ap finish stripped ∙ ap parsed (stages_loop p.stages [] ss)
