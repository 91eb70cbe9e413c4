-- ===== src/Net/ByteOrder/Laws.antt =====
-- Byte order conversions undo themselves, and the parser reads what the printer writes.
use gooos.Common.{
  ℕ, suc, ◌+◌, ◌*◌, ◌/◌, ◌%◌, ◌<◌, ◌≡◌, refl, sym, ap, ◌∙◌, Bool, true, false, List, [], ◌∷◌, ◌++◌,
  append-nil, ltb, ◌==◌, if◌then◌else◌, length, arith, Bool-cases, inl, inr,
}
use gooos.Net.ByteOrder.{htons, htonl, parse_loop, parse_ipv4, utoa_loop, utoa, ip_to_string}

-- `htons` and `htonl` are their own inverses on words of 16 and 32 bits, and stay within them.
pub byte_order_involution :
    (v : ℕ)
    → v < 4294967296
    → (htonl (htonl v) ≡ v)
      × (htonl v < 4294967296)
      × (htons (htons (v % 65536)) ≡ v % 65536)
      × (htons (v % 65536) < 65536)
unfolding htons htonl
byte_order_involution v h = (omega arith, omega arith, omega arith, omega arith)

digit_step :
    (d cur : ℕ) (s parts : List ℕ) (seen : Bool)
    → d < 10
    → cur * 10 + d < 256
    → parse_loop ((48 + d) ∷ s) parts cur seen ≡ parse_loop s parts (cur * 10 + d) true
unfolding parse_loop
digit_step d cur s [] seen h hc = ground arith
digit_step d cur s (p ∷ parts) seen h hc = ground arith

utoa_step :
    (fuel n : ℕ) (buf : List ℕ)
    → utoa_loop (suc fuel) n buf
      ≡ (if n == 0 then buf else utoa_loop fuel (n / 10) ((48 + n % 10) ∷ buf))
unfolding utoa_loop
utoa_step fuel n buf = refl

-- one, two or three digits for a byte
octet_digits :
    (n : ℕ)
    → n < 256
    → utoa n ≡ (
        if ltb n 10
        then (48 + n) ∷ []
        else if ltb n 100
        then (48 + n / 10) ∷ (48 + n % 10) ∷ []
        else (48 + n / 100) ∷ (48 + n / 10 % 10) ∷ (48 + n % 10) ∷ [])
unfolding utoa
octet_digits n h =
    let s1 = utoa_step 19 n [] in
    let s2 = utoa_step 18 (n / 10) ((48 + n % 10) ∷ []) in
    let s3 = utoa_step 17 (n / 10 / 10) ((48 + n / 10 % 10) ∷ (48 + n % 10) ∷ []) in
    let s4 =
      utoa_step 16 (n / 10 / 10 / 10)
        ((48 + n / 10 / 10 % 10) ∷ (48 + n / 10 % 10) ∷ (48 + n % 10) ∷ []) in
    ground (arith, s1, s2, s3, s4)

octet_read :
    (n : ℕ) (s parts : List ℕ)
    → n < 256
    → parse_loop (utoa n ++ s) parts 0 false ≡ parse_loop s parts n true
octet_read n s parts h =
    let digits = octet_digits n h in
    elim (Bool-cases (ltb n 10)) [
      | inl one ↦
          ap (λ t. parse_loop (t ++ s) parts 0 false) {y = (48 + n) ∷ []}
            (digits ∙ ground (arith, one))
          ∙ digit_step n 0 s parts false (ground (arith, one)) (omega arith)
          ∙ ap (λ k. parse_loop s parts k true) {y = n} (omega arith)
      | inr more ↦ elim (Bool-cases (ltb n 100)) [
        | inl two ↦
            ap (λ t. parse_loop (t ++ s) parts 0 false) {y = (48 + n / 10) ∷ (48 + n % 10) ∷ []}
              (digits ∙ ground (arith, more, two))
            ∙ digit_step (n / 10) 0 ((48 + n % 10) ∷ s) parts false (ground (arith, two))
                (omega arith)
            ∙ digit_step (n % 10) (0 * 10 + n / 10) s parts true (omega arith) (omega arith)
            ∙ ap (λ k. parse_loop s parts k true) {y = n} (omega arith)
        | inr three ↦
            ap (λ t. parse_loop (t ++ s) parts 0 false)
              {y = (48 + n / 100) ∷ (48 + n / 10 % 10) ∷ (48 + n % 10) ∷ []}
              (digits ∙ ground (arith, more, three))
            ∙ digit_step (n / 100) 0 ((48 + n / 10 % 10) ∷ (48 + n % 10) ∷ s) parts false
                (omega arith) (omega arith)
            ∙ digit_step (n / 10 % 10) (0 * 10 + n / 100) ((48 + n % 10) ∷ s) parts true
                (omega arith) (omega arith)
            ∙ digit_step (n % 10) ((0 * 10 + n / 100) * 10 + n / 10 % 10) s parts true (omega arith)
                (omega arith)
            ∙ ap (λ k. parse_loop s parts k true) {y = n} (omega arith)
      ]
    ]

dot_step :
    (cur : ℕ) (s parts : List ℕ)
    → length parts < 3
    → parse_loop (46 ∷ s) parts cur true ≡ parse_loop s (cur ∷ parts) 0 false
unfolding parse_loop
dot_step cur s [] h = ground arith
dot_step cur s (p ∷ parts) h = ground arith

last_step :
    (a b c d : ℕ) → parse_loop [] (c ∷ b ∷ a ∷ []) d true ≡ a * 16777216 + b * 65536 + c * 256 + d
unfolding parse_loop
last_step a b c d = refl

-- `parseIPv4` reads back every address of 32 bits that `ipToString` writes.
pub parse_ipv4-ip_to_string : (ip : ℕ) → ip < 4294967296 → parse_ipv4 (ip_to_string ip) ≡ ip
unfolding parse_ipv4 ip_to_string
parse_ipv4-ip_to_string ip h =
    let a = ip / 16777216 % 256 in
    let b = ip / 65536 % 256 in
    let c = ip / 256 % 256 in
    let d = ip % 256 in
    let no_octet : List ℕ = [] in
    let s3 = 46 ∷ utoa d in
    let s2 = 46 ∷ (utoa c ++ s3) in
    let s1 = 46 ∷ (utoa b ++ s2) in
    octet_read a s1 no_octet (omega arith)
    ∙ dot_step a (utoa b ++ s2) no_octet (omega arith)
    ∙ octet_read b s2 (a ∷ []) (omega arith)
    ∙ dot_step b (utoa c ++ s3) (a ∷ []) (omega arith)
    ∙ octet_read c s3 (b ∷ a ∷ []) (omega arith)
    ∙ dot_step c (utoa d) (b ∷ a ∷ []) (omega arith)
    ∙ ap (λ s. parse_loop s (c ∷ b ∷ a ∷ []) 0 false) (sym (append-nil (utoa d)))
    ∙ octet_read d [] (c ∷ b ∷ a ∷ []) (omega arith)
    ∙ last_step a b c d
    ∙ omega arith
