-- ===== src/Shell/Stages.antt =====
-- `parseStage` of src/user/cmd/sh/parse.go reads back the tokens of a stage.
use gooos.Common.{
  ℕ, ◌≡◌, refl, sym, ap, ◌∙◌, Bool, true, false, ◌&&◌, arith, List, [], ◌∷◌, ◌++◌, append-nil,
  append_assoc, Option, none, some,
}
use gooos.Shell.{
  CommandLine, no_words, redirect, set_redirect, add_arg, stage_loop, with_words, parse_stage,
}
use gooos.Shell.Tokens.{all_plain}

abbrev pub is_word : List ℕ → Bool
is_word [] = false
is_word (c ∷ cs) = all_plain (c ∷ cs)

abbrev pub all_words : List (List ℕ) → Bool
all_words [] = true
all_words (w ∷ ws) = is_word w && all_words ws

-- A stage that can be written: words without special bytes, one at least, and files without special
-- bytes; ">>" only with a file.
pub record IsStage (c : CommandLine) : Type 0 where
  pub command : (w : List ℕ) × (ws : List (List ℕ)) × (c.argv ≡ w ∷ ws)
  pub words : all_words c.argv ≡ true
  pub from : all_plain c.stdin_file ≡ true
  pub to : all_plain c.stdout_file ≡ true
  pub quiet : c.stdout_file ≡ [] → c.append_out ≡ false

unfoldable pub in_tokens : List ℕ → List (List ℕ)
in_tokens [] = []
in_tokens (x ∷ xs) = (60 ∷ []) ∷ (x ∷ xs) ∷ []

unfoldable pub out_tokens : List ℕ → Bool → List (List ℕ)
out_tokens [] append_out = []
out_tokens (x ∷ xs) false = (62 ∷ []) ∷ (x ∷ xs) ∷ []
out_tokens (x ∷ xs) true = (62 ∷ 62 ∷ []) ∷ (x ∷ xs) ∷ []

-- a stage as its tokens
unfoldable pub stage_tokens : CommandLine → List (List ℕ)
stage_tokens c = c.argv ++ (in_tokens c.stdin_file ++ out_tokens c.stdout_file c.append_out)

redirect-word : (w : List ℕ) → is_word w ≡ true → redirect w ≡ none
unfolding redirect
redirect-word [] h = absurd (ground (arith, h))
redirect-word (c ∷ []) h = ground (arith, h)
redirect-word (c ∷ d ∷ []) h = ground (arith, h)
redirect-word (c ∷ d ∷ e ∷ cs) h = ground (arith, h)

words_loop :
    (c : CommandLine) (ws rest : List (List ℕ))
    → all_words ws ≡ true
    → stage_loop c (ws ++ rest) ≡ stage_loop (record c { argv = c.argv ++ ws }) rest
unfolding stage_loop add_arg
words_loop c [] rest h = ap (λ a. stage_loop (record c { argv = a }) rest) (sym (append-nil c.argv))
words_loop c (w ∷ []) [] h = rw (redirect-word w (ground (arith, h)), stage_loop) refl
words_loop c (w ∷ []) (u ∷ rest) h = rw (redirect-word w (ground (arith, h)), stage_loop) refl
words_loop c (w ∷ v ∷ ws) rest h =
    rw (redirect-word w (ground (arith, h)), stage_loop)
      (words_loop (add_arg w c) (v ∷ ws) rest (ground (arith, h))
        ∙ ap (λ a. stage_loop (record c { argv = a }) rest) (append_assoc c.argv (w ∷ []) (v ∷ ws)))

files_loop :
    (argv : List (List ℕ)) (f g : List ℕ) (append_out : Bool)
    → (g ≡ [] → append_out ≡ false)
    → stage_loop (record no_words { argv = argv }) (in_tokens f ++ out_tokens g append_out)
      ≡ some (record { argv = argv; stdin_file = f; stdout_file = g; append_out = append_out })
unfolding stage_loop in_tokens out_tokens redirect set_redirect
files_loop argv [] [] a q =
    ap (λ b. some (record { argv = argv; stdin_file = []; stdout_file = []; append_out = b }))
      (sym (q refl))
files_loop argv [] (y ∷ g) false q = refl
files_loop argv [] (y ∷ g) true q = refl
files_loop argv (x ∷ f) [] a q =
    ap (λ b. some (record { argv = argv; stdin_file = x ∷ f; stdout_file = []; append_out = b }))
      (sym (q refl))
files_loop argv (x ∷ f) (y ∷ g) false q = refl
files_loop argv (x ∷ f) (y ∷ g) true q = refl

with_words_lem :
    (c : CommandLine) (w : List ℕ) (ws : List (List ℕ)) → c.argv ≡ w ∷ ws → with_words c ≡ some c
unfolding with_words
with_words_lem c w ws e =
    let choose : List (List ℕ) → Option CommandLine =
      λ a. elim a [ [] ↦ none | t ∷ toks ↦ some c ] in
    ap choose e

pub parse_stage-tokens : (c : CommandLine) → IsStage c → parse_stage (stage_tokens c) ≡ some c
unfolding parse_stage stage_tokens
parse_stage-tokens c s =
    let (w, ws, e) = s.command in
    let loop : stage_loop no_words
          (c.argv ++ (in_tokens c.stdin_file ++ out_tokens c.stdout_file c.append_out))
        ≡ some c =
      words_loop no_words c.argv (in_tokens c.stdin_file ++ out_tokens c.stdout_file c.append_out)
        s.words
      ∙ files_loop c.argv c.stdin_file c.stdout_file c.append_out s.quiet in
    rw (loop, parse_stage) (with_words_lem c w ws e)
