-- ===== src/Net/Ip/Sums.antt =====
-- The checksum of an IPv4 header: a header that holds it sums to 0.
use gooos.Common.{ℕ, ◌+◌, ◌-◌, ◌*◌, ◌/◌, ◌<◌, ◌≡◌, ap, ◌∙◌, u8, u16, arith}
use gooos.Net.Checksum.{add_words, fold, fold_fuel, fold_lem, fold_pos}
use gooos.Net.Ip.{ipv4_checksum, ipv4_bytes}

-- the sum of the ten words of a header, which is far from its bound
pub sum_of : ℕ → ℕ → ℕ → ℕ → ℕ → ℕ → ℕ
sum_of id proto src_ip dst_ip total c =
    17664
    + (u8 (total / 256) * 256 + u8 total)
    + (u8 (id / 256) * 256 + u8 id)
    + 16384
    + (64 * 256 + proto)
    + c
    + (u8 (src_ip / 16777216) * 256 + u8 (src_ip / 65536))
    + (u8 (src_ip / 256) * 256 + u8 src_ip)
    + (u8 (dst_ip / 16777216) * 256 + u8 (dst_ip / 65536))
    + (u8 (dst_ip / 256) * 256 + u8 dst_ip)

pub add_words-header :
    (id proto src_ip dst_ip total c d : ℕ)
    → proto < 256
    → c < 256
    → d < 256
    → add_words 0 (ipv4_bytes id proto src_ip dst_ip total c d)
      ≡ sum_of id proto src_ip dst_ip total (c * 256 + d)
unfolding sum_of add_words
add_words-header id proto src_ip dst_ip total c d proto_in c_in d_in = omega arith

pub sum_of-split :
    (id proto src_ip dst_ip total c : ℕ)
    → proto < 256
    → let s = sum_of id proto src_ip dst_ip total 0 in
      (0 < s) × (s < 1000000) × (sum_of id proto src_ip dst_ip total c ≡ s + c)
unfolding sum_of
sum_of-split id proto src_ip dst_ip total c proto_in = omega arith

-- a sum with its complement added folds to 65535
pub fold-balanced :
    (s c : ℕ)
    → 0 < s
    → s < 1000000
    → c ≡ 65535 - u16 (fold fold_fuel s)
    → (c < 65536) × (65535 - u16 (fold fold_fuel (s + c)) ≡ 0)
fold-balanced s c pos small e =
    let inner = fold_lem s (omega arith) in
    let outer = fold_lem (s + c) (omega arith) in
    let positive = fold_pos fold_fuel (s + c) (omega arith) (omega arith) in
    omega (arith, inner, outer, positive)

-- the checksum of a header that holds its checksum is 0
pub ipv4_checksum-sealed :
    (id proto src_ip dst_ip total : ℕ)
    → proto < 256
    → let c = ipv4_checksum (ipv4_bytes id proto src_ip dst_ip total 0 0) in
      (c < 65536)
      × (ipv4_checksum (ipv4_bytes id proto src_ip dst_ip total (u8 (c / 256)) (u8 c)) ≡ 0)
unfolding ipv4_checksum
ipv4_checksum-sealed id proto src_ip dst_ip total proto_in =
    let c = ipv4_checksum (ipv4_bytes id proto src_ip dst_ip total 0 0) in
    let s = sum_of id proto src_ip dst_ip total 0 in
    let complement = λ (n : ℕ). 65535 - u16 (fold fold_fuel n) in
    let (pos, small, split) =
      sum_of-split id proto src_ip dst_ip total (u8 (c / 256) * 256 + u8 c) proto_in in
    let plain =
      add_words-header id proto src_ip dst_ip total 0 0 proto_in (omega arith) (omega arith) in
    let whole =
      add_words-header id proto src_ip dst_ip total (u8 (c / 256)) (u8 c) proto_in (omega arith)
        (omega arith) in
    let (c_in, balanced) = fold-balanced s c pos small (ap complement plain) in
    let same : s + (u8 (c / 256) * 256 + u8 c) ≡ s + c = omega arith in
    (c_in, ap complement (whole ∙ split ∙ same) ∙ balanced)
