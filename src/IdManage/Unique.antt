-- ===== src/IdManage/Unique.antt =====
-- idmanage.cpp: when two ids are different.
use cnode.Prelude.{
  ℕ, zero, suc, ◌+◌, ◌-◌, ◌*◌, ◌/◌, ◌%◌, ◌^◌, ◌≤◌, ◌<◌, ◌≡◌, refl, sym, ap, ◌∙◌, true, false, [],
  ◌∷◌, ◌++◌, ltb, leb, if◌then◌else◌, arith, Bool-cases, inl, inr,
}
use cnode.Prelude.Bytes.{Bytes}
use cnode.IdManage.{format_id, print_hex, print_host, hex_char}
use mathlib.Core.List.{append_assoc}

-- The number that hexadecimal digits stand for, read on from `acc`.
abbrev digit_of : ℕ → ℕ
digit_of c = if leb b'a' c then c - b'a' + 10 else c - b'0'

abbrev read_hex : ℕ → Bytes → ℕ
read_hex acc [] = acc
read_hex acc (c ∷ s) = read_hex (acc * 16 + digit_of c) s

read_hex-append : (acc : ℕ) (s t : Bytes) → read_hex acc (s ++ t) ≡ read_hex (read_hex acc s) t
read_hex-append acc [] t = refl
read_hex-append acc (c ∷ s) t = read_hex-append (acc * 16 + digit_of c) s t

digit_of-hex_char : (n : ℕ) → n < 16 → digit_of (hex_char n) ≡ n
unfolding hex_char
digit_of-hex_char n h = ground arith

-- What so many digits can hold.
abbrev limit : ℕ → ℕ
limit zero = 1
limit (suc digits) = limit digits * 16

read_hex-print_hex : (fuel n : ℕ) → n < limit fuel → read_hex 0 (print_hex fuel n) ≡ n
unfolding print_hex
read_hex-print_hex zero n h = omega arith
read_hex-print_hex (suc fuel) n h = elim (Bool-cases (ltb n 16)) [
  | inl e ↦ rw (e, print_hex) (omega (arith, digit_of-hex_char n (ground (arith, e))))
  | inr e ↦
      rw (e, print_hex)
        (read_hex-append 0 (print_hex fuel (n / 16)) (hex_char (n % 16) ∷ [])
          ∙ omega (
            arith,
            read_hex-print_hex fuel (n / 16) (omega (arith, h)),
            digit_of-hex_char (n % 16) (omega arith),
          ))
]

print_host_two : (n : ℕ) → n < 256 → print_host n ≡ hex_char (n / 16) ∷ hex_char (n % 16) ∷ []
unfolding print_host print_hex
print_host_two n h = elim (Bool-cases (ltb n 16)) [
  | inl e ↦
      let z : n / 16 ≡ 0 = ground (arith, e) in
      let m : n % 16 ≡ n = ground (arith, e) in rw (e, z, m, print_host) (unfold hex_char in refl)
  | inr e ↦
      let f : ltb (n / 16) 16 ≡ true = ground (arith, h) in rw (e, f, print_host, print_hex) refl
]

read_hex-format_id :
    (num hostid : ℕ)
    → num < 2 ^ 63
    → hostid < 256
    → read_hex 0 (format_id num hostid) ≡ num * 256 + hostid
unfolding format_id
read_hex-format_id num hostid l h =
    read_hex-append 0 (print_hex 16 num) (print_host hostid)
    ∙ ap (read_hex (read_hex 0 (print_hex 16 num))) (print_host_two hostid h)
    ∙ omega (
      arith,
      read_hex-print_hex 16 num (omega (arith, l)),
      digit_of-hex_char (hostid / 16) (omega (arith, h)),
      digit_of-hex_char (hostid % 16) (omega arith),
    )

-- Ids of hosts below 256 are equal only for the same number of the same host, so that no id is
-- given twice while the numbers of each host, below 2^63, go up.
pub format_id-injective :
    (num hostid num2 hostid2 : ℕ)
    → num < 2 ^ 63
    → hostid < 256
    → num2 < 2 ^ 63
    → hostid2 < 256
    → format_id num hostid ≡ format_id num2 hostid2
    → (num ≡ num2) × (hostid ≡ hostid2)
format_id-injective num hostid num2 hostid2 l h l2 h2 e =
    let r = ap (read_hex 0) e in
    let a = read_hex-format_id num hostid l h in
    let b = read_hex-format_id num2 hostid2 l2 h2 in
    (omega (arith, r, a, b, h, h2), omega (arith, r, a, b, h, h2))

print_hex_more :
    (fuel n : ℕ) → n < limit (suc fuel) → print_hex (suc (suc fuel)) n ≡ print_hex (suc fuel) n
unfolding print_hex
print_hex_more zero n h = let e : ltb n 16 ≡ true = ground (arith, h) in rw (e, print_hex) refl
print_hex_more (suc fuel) n h = elim (Bool-cases (ltb n 16)) [
  | inl e ↦ rw (e, print_hex) refl
  | inr e ↦
      rw (e, print_hex)
        (ap (λ t. t ++ hex_char (n % 16) ∷ []) (print_hex_more fuel (n / 16) (omega (arith, h))))
]

print_hex_step :
    (fuel n : ℕ)
    → 16 ≤ n
    → print_hex (suc fuel) n ≡ print_hex fuel (n / 16) ++ hex_char (n % 16) ∷ []
unfolding print_hex
print_hex_step fuel n h = let e : ltb n 16 ≡ false = ground (arith, h) in rw (e, print_hex) refl

print_hex_digit :
    (num d : ℕ)
    → 0 < num
    → num < 2 ^ 59
    → d < 16
    → print_hex 16 (num * 16 + d) ≡ print_hex 16 num ++ hex_char d ∷ []
print_hex_digit num d p l h =
    print_hex_step 15 (num * 16 + d) (omega (arith, p))
    ∙ ap (λ k. print_hex 15 k ++ hex_char ((num * 16 + d) % 16) ∷ []) {y = num} (omega (arith, h))
    ∙ ap (λ k. print_hex 15 num ++ hex_char k ∷ []) {y = d} (omega (arith, h))
    ∙ ap (λ t. t ++ hex_char d ∷ []) (sym (print_hex_more 14 num (omega (arith, l))))

print_hex_small : (fuel n : ℕ) → n < 16 → print_hex (suc fuel) n ≡ hex_char n ∷ []
unfolding print_hex
print_hex_small fuel n h = let e : ltb n 16 ≡ true = ground (arith, h) in rw (e, print_hex) refl

print_host_large : (n : ℕ) → 16 ≤ n → print_host n ≡ print_hex 4 n
unfolding print_host
print_host_large n h = let e : ltb n 16 ≡ false = ground (arith, h) in rw (e, print_host) refl

print_host_three :
    (n : ℕ) → 256 ≤ n → n < 4096 → print_host n ≡ hex_char (n / 256) ∷ print_host (n % 256)
print_host_three n g h =
    print_host_large n (omega (arith, g))
    ∙ print_hex_step 3 n (omega (arith, g))
    ∙ ap (λ t. t ++ hex_char (n % 16) ∷ []) (print_hex_step 2 (n / 16) (omega (arith, g)))
    ∙ ap (λ t. (t ++ hex_char (n / 16 % 16) ∷ []) ++ hex_char (n % 16) ∷ [])
        (print_hex_small 1 (n / 16 / 16) (omega (arith, h)))
    ∙ ap (λ k. hex_char k ∷ hex_char (n / 16 % 16) ∷ hex_char (n % 16) ∷ []) {y = n / 256}
        (omega arith)
    ∙ ap (λ k. hex_char (n / 256) ∷ hex_char k ∷ hex_char (n % 16) ∷ []) {y = n % 256 / 16}
        (omega arith)
    ∙ ap (λ k. hex_char (n / 256) ∷ hex_char (n % 256 / 16) ∷ hex_char k ∷ []) {y = n % 256 % 16}
        (omega arith)
    ∙ ap (λ t. hex_char (n / 256) ∷ t) (sym (print_host_two (n % 256) (omega arith)))

-- The ids of a host from 256 on are also those of another host: the first digit of the host id
-- joins the number in front. The number is positive and below 2^59, the host id below 4096.
pub format_id_collides :
    (num hostid : ℕ)
    → 0 < num
    → num < 2 ^ 59
    → 256 ≤ hostid
    → hostid < 4096
    → format_id num hostid ≡ format_id (num * 16 + hostid / 256) (hostid % 256)
unfolding format_id
format_id_collides num hostid p l g h =
    ap (λ t. print_hex 16 num ++ t) (print_host_three hostid g h)
    ∙ sym
        (append_assoc (print_hex 16 num) (hex_char (hostid / 256) ∷ []) (print_host (hostid % 256)))
    ∙ ap (λ t. t ++ print_host (hostid % 256))
        (sym (print_hex_digit num (hostid / 256) p l (omega (arith, h))))
