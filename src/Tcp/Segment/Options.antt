-- ===== src/Tcp/Segment/Options.antt =====
-- The walk over TCP options.
use gooos.Common.{
  ℕ, zero, suc, ◌+◌, ◌-◌, ◌*◌, ◌≤◌, ◌<◌, ◌≡◌, refl, true, false, List, [], ◌∷◌, ◌++◌, ◌==◌, ◌&&◌,
  if◌then◌else◌, length, length-drop, get_or, drop, arith, replicate, ap, ◌-◌, ◌∙◌,
}
use native.Mathlib.Nat.{zero-add, suc-add}
use gooos.Tcp.Segment.{walk_options, parse_options, build_mss_option, tcp_default_mss}

-- The turns that a list of options can take are no more than its bytes.
walk_options_fuel :
    (f g mss : ℕ) (opts : List ℕ)
    → length opts ≤ f
    → length opts ≤ g
    → walk_options f mss opts ≡ walk_options g mss opts
unfolding walk_options
walk_options_fuel zero zero mss opts h k = refl
walk_options_fuel zero (suc g) mss [] h k = refl
walk_options_fuel zero (suc g) mss (x ∷ opts) h k = absurd (omega arith)
walk_options_fuel (suc f) zero mss [] h k = refl
walk_options_fuel (suc f) zero mss (x ∷ opts) h k = absurd (omega arith)
walk_options_fuel (suc f) (suc g) mss [] h k = refl
walk_options_fuel (suc f) (suc g) mss (x ∷ []) h k = ground (arith, walk_options_fuel f g mss [])
walk_options_fuel (suc f) (suc g) mss (kind ∷ len ∷ rest) h k = ground (
  arith,
  walk_options_fuel f g mss (len ∷ rest),
  walk_options_fuel f g
      (if kind == 2 && len == 4 then get_or rest 0 0 * 256 + get_or rest 1 0 else mss)
      (drop len (kind ∷ len ∷ rest)),
  length-drop len (kind ∷ len ∷ rest),
)

-- On the at most 40 bytes that a header can carry, the bound of 40 turns never cuts the walk short:
-- any greater bound gives the same answer.
pub parse_options_total :
    (extra : ℕ) (opts : List ℕ)
    → length opts ≤ 40
    → parse_options opts ≡ walk_options (40 + extra) tcp_default_mss opts
unfolding parse_options
parse_options_total extra opts h = walk_options_fuel 40 (40 + extra) 536 opts h (omega arith)

walk_options-nop :
    (fuel mss : ℕ) (opts : List ℕ)
    → walk_options (suc fuel) mss (1 ∷ opts) ≡ walk_options fuel mss opts
unfolding walk_options
walk_options-nop zero mss [] = refl
walk_options-nop (suc fuel) mss [] = refl
walk_options-nop fuel mss (x ∷ opts) = refl

walk_options-nops :
    (k fuel mss : ℕ) (opts : List ℕ)
    → walk_options (k + fuel) mss (replicate k 1 ++ opts) ≡ walk_options fuel mss opts
walk_options-nops zero fuel mss opts = rw zero-add
walk_options-nops (suc k) fuel mss opts =
    rw (suc-add, walk_options-nop) (walk_options-nops k fuel mss opts)

walk_options-mss :
    (fuel m old : ℕ) (rest : List ℕ)
    → m < 65536
    → walk_options (suc (suc fuel)) old (build_mss_option m ++ (0 ∷ rest)) ≡ (m, true)
unfolding walk_options build_mss_option
walk_options-mss fuel m old [] h = ground arith
walk_options-mss fuel m old (x ∷ rest) h = ground arith

-- The segment size that `tcpBuildMSSOption` writes is the one that `tcpParseOptions` finds, behind up
-- to 38 NOP bytes, whatever follows the end of the list of options.
pub parse_options-build :
    (k m : ℕ) (rest : List ℕ)
    → k ≤ 38
    → m < 65536
    → parse_options (replicate k 1 ++ (build_mss_option m ++ (0 ∷ rest))) ≡ (m, true)
unfolding parse_options
parse_options-build k m rest h r =
    ap (λ f. walk_options f 536 (replicate k 1 ++ (build_mss_option m ++ (0 ∷ rest))))
      {y = k + suc (suc (38 - k))} (omega arith)
    ∙ walk_options-nops k (suc (suc (38 - k))) 536 (build_mss_option m ++ (0 ∷ rest))
    ∙ walk_options-mss (38 - k) m 536 rest r

walk_refused :
    (fuel mss : ℕ) (opts : List ℕ)
    → (walk_options fuel mss opts).1 ≡ false
    → (walk_options fuel mss opts).0 ≡ tcp_default_mss
unfolding walk_options
walk_refused zero mss opts h = cc
walk_refused (suc fuel) mss [] h = cc
walk_refused (suc fuel) mss (x ∷ []) h = ground (arith, walk_refused fuel mss [])
walk_refused (suc fuel) mss (kind ∷ len ∷ rest) h = ground (
  arith,
  walk_refused fuel mss (len ∷ rest),
  walk_refused fuel (if kind == 2 && len == 4 then get_or rest 0 0 * 256 + get_or rest 1 0 else mss)
      (drop len (kind ∷ len ∷ rest)),
)

-- Options that are refused leave the default segment size.
pub parse_options_refused :
    (opts : List ℕ) → (parse_options opts).1 ≡ false → (parse_options opts).0 ≡ tcp_default_mss
unfolding parse_options
parse_options_refused opts h = walk_refused 40 536 opts h
