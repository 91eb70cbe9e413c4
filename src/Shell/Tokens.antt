-- ===== src/Shell/Tokens.antt =====
-- `tokenize` of src/user/cmd/sh/parse.go reads back tokens that are written with a blank behind each.
use gooos.Common.{
  ℕ, ◌≡◌, refl, sym, ap, ◌∙◌, Bool, true, false, not, ◌&&◌, arith, List, [], ◌∷◌, ◌++◌, append-nil,
  append_assoc,
}
use gooos.Shell.{single, double, plain, kind, is_special, flush, tokenize_loop, tokenize}

-- no byte of a word is special
abbrev pub all_plain : List ℕ → Bool
all_plain [] = true
all_plain (c ∷ cs) = not (is_special c) && all_plain cs

-- the tokens: words, and the operators of one byte and of two
pub data IsToken : List ℕ → Type 0 where
  word : (c : ℕ) (cs : List ℕ) → all_plain (c ∷ cs) ≡ true → IsToken (c ∷ cs)
  one : (c : ℕ) → kind c 32 ≡ single → IsToken (c ∷ [])
  two : (c : ℕ) → kind c c ≡ double → IsToken (c ∷ c ∷ [])

pub data AreTokens : List (List ℕ) → Type 0 where
  none_left : AreTokens []
  more : {t : List ℕ} {ts : List (List ℕ)} → IsToken t → AreTokens ts → AreTokens (t ∷ ts)

-- tokens with a blank behind each
unfoldable pub spaced : List (List ℕ) → List ℕ
spaced [] = []
spaced (t ∷ ts) = t ++ (32 ∷ spaced ts)

kind-plain : (c d : ℕ) → is_special c ≡ false → kind c d ≡ plain
unfolding kind
kind-plain c d h = ground (arith, h)

after_blank :
    (cur rest : List ℕ) → tokenize_loop cur (32 ∷ rest) ≡ flush cur (tokenize_loop [] rest)
unfolding tokenize_loop kind flush
after_blank cur [] = refl
after_blank cur (d ∷ rest) = refl

word_loop :
    (cur w rest : List ℕ)
    → all_plain w ≡ true
    → tokenize_loop cur (w ++ (32 ∷ rest)) ≡ flush (cur ++ w) (tokenize_loop [] rest)
unfolding tokenize_loop
word_loop cur [] rest h =
    after_blank cur rest ∙ ap (λ x. flush x (tokenize_loop [] rest)) (sym (append-nil cur))
word_loop cur (c ∷ []) rest h =
    let ordinary = kind-plain c 32 (ground (arith, h)) in
    rw (ordinary, tokenize_loop) (after_blank (cur ++ (c ∷ [])) rest)
word_loop cur (c ∷ d ∷ w) rest h =
    let ordinary = kind-plain c d (ground (arith, h)) in
    rw (ordinary, tokenize_loop)
      (word_loop (cur ++ (c ∷ [])) (d ∷ w) rest (ground (arith, h))
        ∙ ap (λ x. flush x (tokenize_loop [] rest)) (append_assoc cur (c ∷ []) (d ∷ w)))

token_loop :
    (t rest : List ℕ) → IsToken t → tokenize_loop [] (t ++ (32 ∷ rest)) ≡ t ∷ tokenize_loop [] rest
unfolding tokenize_loop flush
token_loop t rest (word c cs h) = word_loop [] (c ∷ cs) rest h
token_loop t rest (one c h) = rw (h, tokenize_loop) (ap (λ r. (c ∷ []) ∷ r) (after_blank [] rest))
token_loop t rest (two c h) =
    rw (h, tokenize_loop) (ap (λ r. (c ∷ c ∷ []) ∷ r) (after_blank [] rest))

pub tokenize-spaced : (ts : List (List ℕ)) → AreTokens ts → tokenize (spaced ts) ≡ ts
unfolding tokenize spaced tokenize_loop flush
tokenize-spaced ts none_left = refl
tokenize-spaced (t ∷ ts) (more one_token rest) =
    token_loop t (spaced ts) one_token ∙ ap (λ r. t ∷ r) (tokenize-spaced ts rest)
