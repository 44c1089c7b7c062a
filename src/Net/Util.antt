-- ===== src/Net/Util.antt =====
-- pkg/util/net.go: ParseCIDR, IPInRange, NextIP and GenerateMAC.
use native.Mathlib.Nat.{pow-suc, mod-eq_of_lt}
use zstack_ovn_kubernetes.Base.{
  ℕ, suc, ◌+◌, ◌-◌, ◌*◌, ◌/◌, ◌%◌, ◌^◌, ◌<◌, ◌≡◌, refl, sym, subst, ◌∙◌, ap, List, [], ◌∷◌, ◌++◌,
  arith, All, length, Bool, true, false, ◌&&◌, ◌==◌, ltb, if◌then◌else◌, Text, codes, Option, none,
  some, get_or, take, drop, length-drop, Bool-cases, inl, inr, text_eq, text_eq_iff, all_below,
  all_below_sound,
}
use zstack_ovn_kubernetes.Net.Ip.{Ip, IpNet, to4, mapped_prefix, contains, value, is_nil}
use zstack_ovn_kubernetes.Net.Parse.{parse_cidr}
use zstack_ovn_kubernetes.Net.Bytes.{IsByte, place_value, value-place, place_value-lt}

abbrev net_part : Ip × IpNet → IpNet
net_part (ip, n) = n

unfoldable pub parse_cidr_net : Text → Option IpNet
parse_cidr_net cidr = elim (parse_cidr cidr) [ none ↦ none | some r ↦ some (net_part r) ]

unfoldable pub ip_in_range : Ip → IpNet → Bool
ip_in_range ip n = contains n ip

-- The loop from the last byte to the first: each byte wraps at 256, and the loop stops at the first
-- that does not become zero. The flag says that it ran past this byte.
unfoldable pub increment : List ℕ → List ℕ × Bool
increment [] = ([], true)
increment (b ∷ bs) =
    let (rest, carry) = increment bs in
    if carry then ((b + 1) % 256 ∷ rest, (b + 1) % 256 == 0) else (b ∷ rest, false)

unfoldable pub next_ip : Ip → Ip
unfolding increment
next_ip ip = (increment ip).0

unfoldable pub hex_char : ℕ → ℕ
hex_char d = if ltb d 10 then b'0' + d else b'a' + (d - 10)

-- %02x of a byte.
unfoldable pub hex2 : ℕ → Text
hex2 b = hex_char (b / 16) ∷ hex_char (b % 16) ∷ []

unfoldable pub generate_mac : Ip → Text
unfolding hex2
generate_mac ip =
    let ip4 = to4 ip in
    if is_nil ip4
    then []
    else codes "0a:58:"
      ++ (hex2 (get_or ip4 0 0)
          ++ (b':'
              ∷ (hex2 (get_or ip4 1 0)
                  ++ (b':' ∷ (hex2 (get_or ip4 2 0) ++ (b':' ∷ hex2 (get_or ip4 3 0)))))))

generate_mac_test : generate_mac (10 ∷ 244 ∷ 1 ∷ 5 ∷ []) ≡ codes "0a:58:0a:f4:01:05"
unfolding generate_mac to4 hex_char
generate_mac_test = refl

-- The number goes up by one, and wraps to zero at the highest address.
abbrev carried : Bool → ℕ → ℕ
carried c n = if c then n else 0

abbrev ite_same : ℕ → ℕ → Bool
ite_same a b = if text_eq (hex2 a) (hex2 b) then a == b else true

carry_place :
    (b p v w : ℕ)
    → b < 256
    → w + p ≡ v + 1
    → (b + 1) % 256 * p + w + carried ((b + 1) % 256 == 0) (p * 256) ≡ b * p + v + 1
carry_place b p v w h e = elim (Bool-cases (b == 255)) [
  | inl top ↦ let full : b ≡ 255 = ground arith in rw full (omega arith)
  | inr low ↦
      let stay : (b + 1) % 256 ≡ b + 1 = ground arith in rw stay (ground (arith, mul_step b p))
]
  where
    mul_step : (n q : ℕ) → (n + 1) * q ≡ n * q + q
    mul_step n q = omega arith

increment-place :
    (bs : List ℕ)
    → All IsByte bs
    → (length (increment bs).0 ≡ length bs)
      × (place_value (increment bs).0 + carried (increment bs).1 (256 ^ length bs)
          ≡ place_value bs + 1)
unfolding increment place_value
increment-place [] h = (refl, omega arith)
increment-place (b ∷ bs) h = elim (Bool-cases (increment bs).1) [
  | inl carry ↦
      let (len, place) = increment-place bs h.1 in
      let full : place_value (increment bs).0 + 256 ^ length bs ≡ place_value bs + 1 =
        rw carry at place in
      rw (carry, len, pow-suc 256 (length bs))
        (
          refl,
          carry_place b (256 ^ length bs) (place_value bs) (place_value (increment bs).0) h.0 full,
        )
  | inr stop ↦
      let (len, place) = increment-place bs h.1 in
      let full : place_value (increment bs).0 + 0 ≡ place_value bs + 1 = rw stop at place in
      rw (stop, len) (refl, omega (arith, full))
]

pub increment-bytes : (bs : List ℕ) → All IsByte bs → All IsByte (increment bs).0
unfolding increment
increment-bytes [] h = tt
increment-bytes (b ∷ bs) h = elim (Bool-cases (increment bs).1) [
  | inl carry ↦ rw carry (omega arith, increment-bytes bs h.1)
  | inr stop ↦ rw stop (h.0, increment-bytes bs h.1)
]

wrap_around : (c : Bool) (m v w : ℕ) → v < m → w < m → w + carried c m ≡ v + 1 → w ≡ (v + 1) % m
wrap_around false m v w hv hw e =
    let small : v + 1 < m = omega arith in rw (mod-eq_of_lt small) (omega arith)
wrap_around true m v w hv hw e =
    let top : v + 1 ≡ m = omega arith in
    let bottom : w ≡ 0 = omega arith in rw (top, bottom) (grind arith)

-- For an address of bytes, NextIP adds one to it as a number of its own length, and wraps the highest
-- address to zero; the length stays.
pub next_ip-value :
    (ip : Ip)
    → All IsByte ip
    → (length (next_ip ip) ≡ length ip) × (value (next_ip ip) ≡ (value ip + 1) % 256 ^ length ip)
unfolding next_ip
next_ip-value ip h =
    let (len, place) = increment-place ip h in
    let same : place_value (increment ip).0 < 256 ^ length ip =
      rw len at (place_value-lt (increment ip).0 (increment-bytes ip h)) in
    (
      len,
      rw (value-place ip, value-place (increment ip).0)
          (wrap_around (increment ip).1 (256 ^ length ip) (place_value ip)
            (place_value (increment ip).0) (place_value-lt ip h) same place),
    )

-- Two hex digits give the byte back.
hex_table : all_below 256 (λ a. all_below 256 (λ b. ite_same a b)) ≡ true
unfolding all_below hex2 hex_char text_eq
hex_table = refl

hex2-inj : (a b : ℕ) → a < 256 → b < 256 → hex2 a ≡ hex2 b → a ≡ b
hex2-inj a b ha hb e = ground (
  arith,
  text_eq_iff (hex2 a) (hex2 b),
  all_below_sound 256 (ite_same a) b
      (all_below_sound 256 (λ x. all_below 256 (ite_same x)) a hex_table ha) hb,
)

-- A non-nil result of To4 has four bytes.
abbrev pub IsFour : Ip → Type 0
IsFour ip = length ip ≡ 4

pub to4-IsFour : (ip : Ip) → is_nil (to4 ip) ≡ false → IsFour (to4 ip)
unfolding to4
to4-IsFour ip h = elim (Bool-cases (length ip == 4)) [
  | inl e ↦ rw e (ground arith)
  | inr e ↦ elim (Bool-cases ((length ip == 16) && text_eq (take 12 ip) mapped_prefix)) [
    | inl f ↦ rw (e, f) (drop_four ip (ground arith))
    | inr f ↦ absurd (absurd_nil e f)
  ]
]
  where
    absurd_nil :
        (length ip == 4) ≡ false
        → ((length ip == 16) && text_eq (take 12 ip) mapped_prefix) ≡ false
        → ⊥
    absurd_nil e f = ground arith

    drop_four : (bs : Ip) → length bs ≡ 16 → length (drop 12 bs) ≡ 4
    drop_four bs e = omega (arith, length-drop 12 bs)

-- The text of four bytes.
mac_four :
    (p : Ip) (a b c d : ℕ)
    → to4 p ≡ a ∷ b ∷ c ∷ d ∷ []
    → generate_mac p
      ≡ codes "0a:58:" ++ (hex2 a ++ (b':' ∷ (hex2 b ++ (b':' ∷ (hex2 c ++ (b':' ∷ hex2 d))))))
unfolding generate_mac
mac_four p a b c d e = rw e

pub split_four :
    (q : Ip) → IsFour q → (a : ℕ) × (b : ℕ) × (c : ℕ) × (d : ℕ) × (q ≡ a ∷ b ∷ c ∷ d ∷ [])
split_four [] h = absurd (omega arith)
split_four (a ∷ []) h = absurd (omega arith)
split_four (a ∷ b ∷ []) h = absurd (omega arith)
split_four (a ∷ b ∷ c ∷ []) h = absurd (omega arith)
split_four (a ∷ b ∷ c ∷ d ∷ []) h = (a, b, c, d, refl)
split_four (a ∷ b ∷ c ∷ d ∷ e ∷ q) h = absurd (omega arith)

mac_parts :
    (a b c d a' b' c' d' : ℕ)
    → codes "0a:58:" ++ (hex2 a ++ (b':' ∷ (hex2 b ++ (b':' ∷ (hex2 c ++ (b':' ∷ hex2 d))))))
      ≡ codes "0a:58:" ++ (hex2 a' ++ (b':' ∷ (hex2 b' ++ (b':' ∷ (hex2 c' ++ (b':' ∷ hex2 d'))))))
    → (hex2 a ≡ hex2 a') × (hex2 b ≡ hex2 b') × (hex2 c ≡ hex2 c') × (hex2 d ≡ hex2 d')
unfolding hex2
mac_parts a b c d a' b' c' d' e = (cc, cc, cc, cc)

-- Two IPv4 addresses of bytes with the same generated MAC address are the same address.
pub generate_mac-inj :
    (p q : Ip)
    → All IsByte (to4 p)
    → All IsByte (to4 q)
    → is_nil (to4 p) ≡ false
    → is_nil (to4 q) ≡ false
    → generate_mac p ≡ generate_mac q
    → to4 p ≡ to4 q
generate_mac-inj p q hp hq np nq e =
    let (a, b, c, d, ep) = split_four (to4 p) (to4-IsFour p np) in
    let (a', b', c', d', eq) = split_four (to4 q) (to4-IsFour q nq) in
    let (ea, eb, ec, ed) =
      mac_parts a b c d a' b' c' d' (sym (mac_four p a b c d ep) ∙ e ∙ mac_four q a' b' c' d' eq) in
    let bp : All IsByte (a ∷ b ∷ c ∷ d ∷ []) = subst (All IsByte) ep hp in
    let bq : All IsByte (a' ∷ b' ∷ c' ∷ d' ∷ []) = subst (All IsByte) eq hq in
    cc (
      ep,
      eq,
      hex2-inj a a' bp.0 bq.0 ea,
      hex2-inj b b' bp.1.0 bq.1.0 eb,
      hex2-inj c c' bp.1.1.0 bq.1.1.0 ec,
      hex2-inj d d' bp.1.1.1.0 bq.1.1.1.0 ed,
    )

pub length-increment : (bs : List ℕ) → length (increment bs).0 ≡ length bs
unfolding increment
length-increment [] = refl
length-increment (b ∷ bs) = elim (Bool-cases (increment bs).1) [
  | inl carry ↦ rw carry (ap suc (length-increment bs))
  | inr stop ↦ rw stop (ap suc (length-increment bs))
]
