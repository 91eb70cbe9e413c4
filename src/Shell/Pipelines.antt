-- ===== src/Shell/Pipelines.antt =====
-- The loop of `parsePipeline` (src/user/cmd/sh/parse.go) on the tokens of stages.
use gooos.Common.{
  ℕ, ◌≡◌, refl, sym, ap, ◌∙◌, Bool, true, false, not, ◌&&◌, ◌||◌, arith, List, [], ◌∷◌, ◌++◌,
  append-nil, append_assoc, is_bytes, some,
}
use gooos.Shell.{CommandLine, parse_stage, flush_stage, pipeline_loop}
use gooos.Shell.Tokens.{all_plain}
use gooos.Shell.Stages.{
  is_word, all_words, IsStage, in_tokens, out_tokens, stage_tokens, parse_stage-tokens,
}

-- stages that can be written, one at least
pub data AreStages : List CommandLine → Type 0 where
  last : {c : CommandLine} → IsStage c → AreStages (c ∷ [])
  next :
      {c d : CommandLine} {cs : List CommandLine}
      → IsStage c
      → AreStages (d ∷ cs)
      → AreStages (c ∷ d ∷ cs)

-- stages as tokens, with "|" between them
unfoldable pub pipe_tokens : List CommandLine → List (List ℕ)
pipe_tokens [] = []
pipe_tokens (c ∷ []) = stage_tokens c
pipe_tokens (c ∷ d ∷ cs) = stage_tokens c ++ ((124 ∷ []) ∷ pipe_tokens (d ∷ cs))

-- a token that the loop of `parsePipeline` takes into a stage
abbrev pub is_inner : List ℕ → Bool
is_inner t = not (is_bytes t (124 ∷ [])) && not (is_bytes t (38 ∷ []) || is_bytes t (38 ∷ 38 ∷ []))

abbrev pub all_inner : List (List ℕ) → Bool
all_inner [] = true
all_inner (t ∷ ts) = is_inner t && all_inner ts

is_inner-word : (w : List ℕ) → is_word w ≡ true → is_inner w ≡ true
is_inner-word [] h = absurd (ground (arith, h))
is_inner-word (c ∷ []) h = ground (arith, h)
is_inner-word (c ∷ d ∷ []) h = ground (arith, h)
is_inner-word (c ∷ d ∷ e ∷ cs) h = ground (arith, h)

files_inner :
    (f g : List ℕ) (a : Bool)
    → all_plain f ≡ true
    → all_plain g ≡ true
    → all_inner (in_tokens f ++ out_tokens g a) ≡ true
unfolding in_tokens out_tokens
files_inner [] [] a h h2 = refl
files_inner [] (y ∷ g) false h h2 = ground (arith, is_inner-word (y ∷ g) h2)
files_inner [] (y ∷ g) true h h2 = ground (arith, is_inner-word (y ∷ g) h2)
files_inner (x ∷ f) [] a h h2 = ground (arith, is_inner-word (x ∷ f) h)
files_inner (x ∷ f) (y ∷ g) false h h2 =
    ground (arith, is_inner-word (x ∷ f) h, is_inner-word (y ∷ g) h2)
files_inner (x ∷ f) (y ∷ g) true h h2 =
    ground (arith, is_inner-word (x ∷ f) h, is_inner-word (y ∷ g) h2)

words_inner :
    (ws rest : List (List ℕ))
    → all_words ws ≡ true
    → all_inner rest ≡ true
    → all_inner (ws ++ rest) ≡ true
words_inner [] rest h h2 = h2
words_inner (w ∷ ws) rest h h2 =
    let own : is_word w ≡ true = ground (arith, h) in
    let others : all_words ws ≡ true = ground (arith, h) in
    ground (arith, is_inner-word w own, words_inner ws rest others h2)

pub stage_inner : (c : CommandLine) → IsStage c → all_inner (stage_tokens c) ≡ true
unfolding stage_tokens
stage_inner c s =
    words_inner c.argv (in_tokens c.stdin_file ++ out_tokens c.stdout_file c.append_out) s.words
      (files_inner c.stdin_file c.stdout_file c.append_out s.from s.to)

inner_loop :
    (acc ts rest : List (List ℕ)) (stages : List CommandLine)
    → all_inner ts ≡ true
    → pipeline_loop acc stages (ts ++ rest) ≡ pipeline_loop (acc ++ ts) stages rest
unfolding pipeline_loop
inner_loop acc [] rest stages h = ap (λ a. pipeline_loop a stages rest) (sym (append-nil acc))
inner_loop acc (t ∷ ts) rest stages h =
    let no_bar : is_bytes t (124 ∷ []) ≡ false = ground (arith, h) in
    let no_amp : (is_bytes t (38 ∷ []) || is_bytes t (38 ∷ 38 ∷ [])) ≡ false = ground (arith, h) in
    rw (no_bar, no_amp, pipeline_loop)
      (inner_loop (acc ++ (t ∷ [])) ts rest stages (ground (arith, h))
        ∙ ap (λ a. pipeline_loop a stages rest) (append_assoc acc (t ∷ []) ts))

flush_cons :
    (ts : List (List ℕ)) (c : CommandLine) (stages : List CommandLine) (w : List ℕ)
    (ws : List (List ℕ))
    → ts ≡ w ∷ ws
    → parse_stage ts ≡ some c
    → flush_stage ts stages ≡ some (stages ++ (c ∷ []))
unfolding flush_stage
flush_cons ts c stages w ws e h =
    let parsed : parse_stage (w ∷ ws) ≡ some c = ap parse_stage (sym e) ∙ h in
    ap (λ x. flush_stage x stages) e ∙ rw (parsed, flush_stage) refl

flush_stage-tokens :
    (c : CommandLine) (stages : List CommandLine)
    → IsStage c
    → flush_stage (stage_tokens c) stages ≡ some (stages ++ (c ∷ []))
unfolding flush_stage stage_tokens
flush_stage-tokens c stages s =
    let (w, ws, e) = s.command in
    let files = in_tokens c.stdin_file ++ out_tokens c.stdout_file c.append_out in
    flush_cons (stage_tokens c) c stages w (ws ++ files) (ap (λ a. a ++ files) e)
      (parse_stage-tokens c s)

pub stages_loop :
    (cs stages : List CommandLine)
    → AreStages cs
    → pipeline_loop [] stages (pipe_tokens cs) ≡ some (stages ++ cs)
unfolding pipe_tokens pipeline_loop
stages_loop cs stages (last {c} s) =
    ap (pipeline_loop [] stages) (sym (append-nil (stage_tokens c)))
    ∙ inner_loop [] (stage_tokens c) [] stages (stage_inner c s)
    ∙ flush_stage-tokens c stages s
stages_loop cs stages (next {c} {d} {cs = rest} s ss) =
    inner_loop [] (stage_tokens c) ((124 ∷ []) ∷ pipe_tokens (d ∷ rest)) stages (stage_inner c s)
    ∙ rw (flush_stage-tokens c stages s, pipeline_loop)
        (stages_loop (d ∷ rest) (stages ++ (c ∷ [])) ss)
    ∙ ap some (append_assoc stages (c ∷ []) (d ∷ rest))
