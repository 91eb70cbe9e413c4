-- ===== src/Tcp/Segment/Examples.antt =====
-- Segments and options at concrete bytes.
use gooos.Common.{
  ℕ, ◌+◌, ◌%◌, ◌<◌, ◌≡◌, refl, true, false, some, List, [], ◌∷◌, ◌++◌, replicate, arith,
}
use gooos.Net.Checksum.{word_sum, checksum, checksum_balances}
use gooos.Tcp.Segment.{
  parse, build, checksum_verify, compute_and_set_checksum, tcp_checksum, walk_options,
  parse_options, build_mss_option, tcp_default_mss,
}
use gooos.Tcp.Segment.RoundTrip.{InRange, header, send-receive}
use gooos.Tcp.Segment.Options.{parse_options_total, parse_options-build, parse_options_refused}

abbrev mss_536 : List ℕ
mss_536 = 2 ∷ 4 ∷ 2 ∷ 24 ∷ []

syn-InRange : InRange 49152 8080 4294967295 0 2 8192 mss_536
syn-InRange = omega arith

send-receive_example :
    (p : List ℕ) × (build 1540 49152 8080 4294967295 0 2 8192 mss_536 (104 ∷ []) ≡ some p)
    × (checksum_verify 167772687 167772674 (compute_and_set_checksum 167772687 167772674 p) ≡ true)
    × (parse (compute_and_set_checksum 167772687 167772674 p)
        ≡ some (
          header 49152 8080 4294967295 0 2 8192 (tcp_checksum 167772687 167772674 p) mss_536,
          104 ∷ [],
        ))
send-receive_example =
    send-receive 49152 8080 4294967295 0 2 8192 mss_536 (104 ∷ []) syn-InRange 167772687 167772674
      1540 (omega arith)

checksum_balances_example :
    let p : List ℕ = 1 ∷ 2 ∷ 3 ∷ [] in
    ((word_sum 6 167772687 167772674 p + checksum 6 167772687 167772674 p) % 65535 ≡ 0)
    × (checksum 6 167772687 167772674 p < 65536)
checksum_balances_example = checksum_balances 6 167772687 167772674 (1 ∷ 2 ∷ 3 ∷ [])

parse_options_total_example : parse_options mss_536 ≡ walk_options (40 + 7) tcp_default_mss mss_536
parse_options_total_example = parse_options_total 7 mss_536 (omega arith)

parse_options-build_example :
    parse_options (replicate 2 1 ++ (build_mss_option 1460 ++ (0 ∷ []))) ≡ (1460, true)
parse_options-build_example = parse_options-build 2 1460 [] (omega arith) (omega arith)

-- a length byte below 2
refused : (parse_options (8 ∷ 1 ∷ [])).1 ≡ false
unfolding parse_options walk_options
refused = refl

parse_options_refused_example : (parse_options (8 ∷ 1 ∷ [])).0 ≡ tcp_default_mss
parse_options_refused_example = parse_options_refused (8 ∷ 1 ∷ []) refused
